-- ===== src/Chunk/Naive.antt =====
-- The reference for the walk: one loop over the windows of a region, with no blocks.
use native.Mathlib.Nat.{add-mod_right}
use memory_tools.Chunk.{align_up}
use memory_tools.Memory.{Region, Reader, readable}
use memory_tools.Prelude.{
  word, ℕ, zero, suc, ◌+◌, ◌-◌, ◌%◌, ◌≤◌, ◌<◌, ◌≡◌, refl, ap, ◌∙◌, Bool, true, false, List, [], ◌∷◌,
  Bytes, leb, length, take, drop, arith, Bool-cases, inl, inr, leb→le, leb→lt,
}

-- The bytes of a memory, from an address on.
unfoldable pub view : (ℕ → ℕ) → ℕ → ℕ → Bytes
view content a zero = []
view content a (suc n) = content a ∷ view content (a + 1) n

pub length-view : (content : ℕ → ℕ) (a n : ℕ) → length (view content a n) ≡ n
unfolding view
length-view content a zero = refl
length-view content a (suc n) = ap suc (length-view content (a + 1) n)

pub take-view : (content : ℕ → ℕ) (a n w : ℕ) → w ≤ n → take w (view content a n) ≡ view content a w
unfolding view
take-view content a n zero h = refl
take-view content a zero (suc w) h = absurd (omega arith)
take-view content a (suc n) (suc w) h =
    ap (λ t. content a ∷ t) (take-view content (a + 1) n w (omega arith))

pub drop-view :
    (content : ℕ → ℕ) (a n i : ℕ) → drop i (view content a n) ≡ view content (a + i) (n - i)
unfolding view
drop-view content a n zero = ground arith
drop-view content a zero (suc i) = ground arith
drop-view content a (suc n) (suc i) =
    drop-view content (a + 1) n i
    ∙ ap (λ t. view content t (n - i)) (omega arith)
    ∙ ap (λ t. view content (a + suc i) t) (omega arith)

-- Every part of the region reads as `content`, and its end leaves room for two strides.
abbrev pub IsWhole : (ℕ → ℕ) → ℕ → Reader → Region → Type 0
IsWhole content s read r =
    (r.end + s + s ≤ word) × ((a n : ℕ) → r.start ≤ a → a + n ≤ r.end → read a n ≡ view content a n)

-- The state, the address behind the last window, and whether every window was visited.
pub record Trace {ℓ} (S : Type ℓ) : Type ℓ where
  pub acc : S
  pub pos : ℕ
  pub whole : Bool

module _ {ℓ} {S : Type ℓ} (callback : S → Bytes → ℕ → S × Bool) (content : ℕ → ℕ) (w s : ℕ) where
  unfoldable pub naive : ℕ → ℕ → ℕ → S → Trace S
  naive zero a end acc = record { acc = acc; pos = a; whole = true }
  naive (suc fuel) a end acc = elim (leb (a + w) end) [
    | false ↦ record { acc = acc; pos = a; whole = true }
    | true ↦
        let result = callback acc (view content a w) a in
        elim result.1 [
          | false ↦ record { acc = result.0; pos = a; whole = false }
          | true ↦ naive fuel (a + s) end result.0
        ]
  ]

  module _ (fuel a end : ℕ) (acc : S) where
    pub naive_short :
        end < a + w → naive fuel a end acc ≡ record { acc = acc; pos = a; whole = true }
    unfolding naive
    naive_short h = go fuel
      where
        go : (f : ℕ) → naive f a end acc ≡ record { acc = acc; pos = a; whole = true }
        go zero = refl
        go (suc f) = ground arith

    pub naive_halt :
        a + w ≤ end
        → (callback acc (view content a w) a).1 ≡ false
        → naive (suc fuel) a end acc
          ≡ record { acc = (callback acc (view content a w) a).0; pos = a; whole = false }
    unfolding naive
    naive_halt h e = ground arith

    pub naive_next :
        a + w ≤ end
        → (callback acc (view content a w) a).1 ≡ true
        → naive (suc fuel) a end acc ≡ naive fuel (a + s) end (callback acc (view content a w) a).0
    unfolding naive
    naive_next h e = ground arith

  -- On from where a walk stopped, unless the callback stopped it.
  abbrev pub resume : ℕ → ℕ → Bool → Trace S → Trace S
  resume fuel end true t = naive fuel t.pos end t.acc
  resume fuel end false t = t

  module _ (positive : 0 < s) where
    -- More fuel than there are bytes changes nothing.
    pub naive_fuel :
        (f g a end : ℕ) (acc : S)
        → end < a + w + f
        → end < a + w + g
        → naive f a end acc ≡ naive g a end acc
    unfolding naive
    naive_fuel zero zero a end acc hf hg = refl
    naive_fuel zero (suc g) a end acc hf hg = ground arith
    naive_fuel (suc f) zero a end acc hf hg = ground arith
    naive_fuel (suc f) (suc g) a end acc hf hg =
        let result = callback acc (view content a w) a in
        ground (arith, naive_fuel f g (a + s) end result.0)

    -- A walk up to an earlier end, then on from where it stopped, is the walk to the end.
    pub naive_split :
        (f g h a mid end : ℕ) (acc : S)
        → mid ≤ end
        → mid < a + w + f
        → end < a + w + g
        → end < a + w + h
        → naive g a end acc ≡ resume h end (naive f a mid acc).whole (naive f a mid acc)
    naive_split zero g h a mid end acc le hf hg hh =
        rw (naive_short zero a mid acc (omega arith)) (naive_fuel g h a end acc hg hh)
    naive_split (suc f) g h a mid end acc le hf hg hh = elim (Bool-cases (leb (a + w) mid)) [
      | inr short ↦
          rw (naive_short (suc f) a mid acc (leb→lt (a + w) mid short))
            (naive_fuel g h a end acc hg hh)
      | inl long ↦
          let below = leb→le (a + w) mid long in
          let whole : a + w ≤ end = omega arith in
          let more = naive_fuel g (suc g) a end acc hg (omega arith) in
          elim (Bool-cases (callback acc (view content a w) a).1) [
            | inr stop ↦
                rw (naive_halt f a mid acc below stop) (more ∙ naive_halt g a end acc whole stop)
            | inl go ↦ rw (naive_next f a mid acc below go) (
                more
                ∙ naive_next g a end acc whole go
                ∙ naive_split f g h (a + s) mid end _ le (omega arith) (omega arith) (omega arith))
          ]
    ]

  -- The walk stops behind its start, on the same residue, and before the end and one stride.
  pub naive_pos :
      (f a end : ℕ) (acc : S)
      → 0 < s
      → 0 < w
      → a < end + s
      → (a ≤ (naive f a end acc).pos)
        × ((naive f a end acc).pos < end + s)
        × ((naive f a end acc).pos % s ≡ a % s)
  unfolding naive
  naive_pos zero a end acc s_pos w_pos h = (omega arith, omega arith, refl)
  naive_pos (suc f) a end acc s_pos w_pos h =
      let result = callback acc (view content a w) a in
      elim (Bool-cases (leb (a + w) end)) [
        | inr short ↦
            rw (naive_short (suc f) a end acc (leb→lt (a + w) end short))
              (omega arith, omega arith, refl)
        | inl long ↦
            let below = leb→le (a + w) end long in
            elim (Bool-cases (callback acc (view content a w) a).1) [
              | inr stop ↦ rw (naive_halt f a end acc below stop) (omega arith, omega arith, refl)
              | inl go ↦
                  let (up, down, turn) =
                    naive_pos f (a + s) end (callback acc (view content a w) a).0 s_pos w_pos
                      (omega arith) in
                  rw (naive_next f a end acc below go) (omega arith, down, turn ∙ add-mod_right a s)
            ]
      ]

  -- It moves if a window fits.
  pub naive_moves :
      (f a end : ℕ) (acc : S)
      → 0 < s
      → 0 < w
      → a + w ≤ end
      → (naive (suc f) a end acc).whole ≡ true
      → a + s ≤ (naive (suc f) a end acc).pos
  unfolding naive
  naive_moves f a end acc s_pos w_pos h whole =
      elim (Bool-cases (callback acc (view content a w) a).1) [
        | inr stop ↦ let e = naive_halt f a end acc h stop in ground arith
        | inl go ↦ rw (naive_next f a end acc h go) (
            (naive_pos f (a + s) end (callback acc (view content a w) a).0 s_pos w_pos
              (omega arith)).0)
      ]

  -- The naive walk over all the regions, with whether the callback let it go through.
  unfoldable pub naive_regions : List Region → S → S × Bool
  naive_regions [] acc = (acc, true)
  naive_regions (r ∷ rs) acc = elim (readable r) [
    | false ↦ naive_regions rs acc
    | true ↦
        let t = naive (suc (r.end - r.start)) (align_up r.start s) r.end acc in
        elim t.whole [ true ↦ naive_regions rs t.acc | false ↦ (t.acc, false) ]
  ]
