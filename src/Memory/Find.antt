-- ===== src/Memory/Find.antt =====
-- What `region_at` finds.
use memory_tools.Prelude.{
  ℕ, ◌≤◌, ◌<◌, ◌≡◌, ◌++◌, List, [], ◌∷◌, none, some, arith, All, ap, Bool-cases, inl, inr, leb, ltb,
  ◌&&◌,
}
use memory_tools.Memory.{Region, region_at}

abbrev pub Holds : Region → ℕ → Type 0
Holds r addr = (r.start ≤ addr) × (addr < r.end)

-- The region that `region_at` returns holds the address and is the first of the list that does.
pub region_at-some :
    (rs : List Region) (addr : ℕ) (r : Region)
    → region_at rs addr ≡ some r
    → Holds r addr
      × ((before : List Region) × (after : List Region) × (rs ≡ before ++ (r ∷ after))
          × All (λ q. ¬ Holds q addr) before)
unfolding region_at
region_at-some [] addr r h = ground arith
region_at-some (q ∷ rs) addr r h = elim (Bool-cases (leb q.start addr && ltb addr q.end)) [
  | inl here ↦
      let same : q ≡ r = ground arith in (ground arith, ([], rs, ap (λ x. x ∷ rs) same, tt))
  | inr there ↦
      let (held, (before, after, split, none_before)) = region_at-some rs addr r (ground arith) in
      (held, (q ∷ before, after, ap (λ l. q ∷ l) split, (λ k. ground arith, none_before)))
]

-- It returns none exactly when no region holds the address.
pub region_at-none :
    (rs : List Region) (addr : ℕ) → region_at rs addr ≡ none → All (λ q. ¬ Holds q addr) rs
unfolding region_at
region_at-none [] addr h = tt
region_at-none (q ∷ rs) addr h = (λ k. ground arith, region_at-none rs addr (ground arith))
