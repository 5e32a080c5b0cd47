-- ===== src/Scanner/Rescan/Places.antt =====
-- The old list of candidates under the loop of the refining scans (src/scanner.cpp).
use memory_tools.Chunk.{Status, finished, stopped, exhausted, chunk_bytes}
use memory_tools.Memory.{Reader}
use memory_tools.Prelude.{
  ℕ, zero, suc, ◌+◌, ◌-◌, ◌≡◌, refl, ap, ◌∙◌, Bool, true, false, List, [], ◌∷◌, ◌++◌, Option, some,
  Bytes, ltb, min, length, take, drop, u64, sub64, Bool-cases, inl, inr, Option-cases, map,
}
use memory_tools.Scanner.Rescan.{
  Pass, skip, settle, scan_block, with_block, scan_blocks, rescan, begin, last_load,
}

module _ {ℓ} {C : Type ℓ} (addr : C → ℕ) (refresh : Bytes → C → Option C) (behind : C → C) (w : ℕ)
    (keeps : (win : Bytes) (c k : C) → refresh win c ≡ some k → addr (behind k) ≡ addr c) where
  -- The addresses of the old list, changed up to `t.past`, with `cs` behind.
  abbrev places : Pass C → List C → List ℕ
  places t cs = map addr t.past ++ map addr cs

  map-one :
      (xs : List C) (x : C) (ys : List ℕ)
      → map addr (xs ++ (x ∷ [])) ++ ys ≡ map addr xs ++ (addr x ∷ ys)
  map-one [] x ys = refl
  map-one (y ∷ xs) x ys = ap (λ l. addr y ∷ l) (map-one xs x ys)

  settle-places :
      (win : Bytes) (c : C) (cs : List C) (t : Pass C)
      → places (settle behind c (refresh win c) t) cs ≡ places t (c ∷ cs)
  settle-places win c cs t = elim (Option-cases (refresh win c)) [
    | inl e ↦ rw e (map-one t.past c (map addr cs))
    | inr (k, e) ↦ rw e (
        map-one t.past (behind k) (map addr cs)
        ∙ ap (λ a. map addr t.past ++ (a ∷ map addr cs)) (keeps win c k e))
  ]

  block-places :
      (buf : Bytes) (start limit : ℕ) (cs : List C) (t : Pass C)
      → places
          (scan_block addr refresh behind w buf start limit cs t)
          (scan_block addr refresh behind w buf start limit cs t).left
        ≡ places t cs
  unfolding scan_block
  block-places buf start limit [] t = refl
  block-places buf start limit (c ∷ cs) t = elim (Bool-cases (ltb (addr c) limit)) [
    | inr e ↦ rw (e, scan_block) refl
    | inl e ↦
        let off = sub64 (addr c) start in
        let win = take w (drop off buf) in
        elim (Bool-cases (ltb (length buf) (off + w))) [
          | inl k ↦
              rw (e, k, scan_block)
                (block-places buf start limit cs (skip c t) ∙ map-one t.past c (map addr cs))
          | inr k ↦
              rw (e, k, scan_block)
                (block-places buf start limit cs (settle behind c (refresh win c) t)
                  ∙ settle-places win c cs t)
        ]
  ]

  module _ (read : Reader) (cancel : ℕ → Bool) (progress : Bool) (n : ℕ) where
    with_block-places :
        (buf : Bytes) (c : C) (cs : List C) (t : Pass C)
        → places
            (with_block addr refresh behind w read cancel progress n buf c cs t)
            (with_block addr refresh behind w read cancel progress n buf c cs t).left
          ≡ places t (c ∷ cs)
    unfolding with_block
    with_block-places [] c cs t = map-one t.past c (map addr cs)
    with_block-places (b ∷ bs) c cs t =
        let same =
          block-places (b ∷ bs) (addr c) (u64 (addr c + min chunk_bytes (length (b ∷ bs)))) (c ∷ cs)
            t in
        elim (Bool-cases progress) [ inl e ↦ rw e same | inr e ↦ rw e same ]

    blocks-places :
        (fuel : ℕ) (cs : List C) (t : Pass C)
        → places
            (scan_blocks addr refresh behind w read cancel progress n fuel cs t)
            (scan_blocks addr refresh behind w read cancel progress n fuel cs t).left
          ≡ places t cs
    unfolding scan_blocks
    blocks-places fuel [] t = refl
    blocks-places zero (c ∷ cs) t = refl
    blocks-places (suc fuel) (c ∷ cs) t =
        let v = record t { loads = t.loads + 1 } in
        let buf = read (addr c) (chunk_bytes + w - 1) in
        let u = with_block addr refresh behind w read cancel progress n buf c cs v in
        elim (Bool-cases (cancel t.loads)) [
          | inl e ↦ rw (e, scan_blocks) refl
          | inr e ↦ rw (e, scan_blocks) (blocks-places fuel u.left u ∙ with_block-places buf c cs v)
        ]

  map-append : (xs ys : List C) → map addr (xs ++ ys) ≡ map addr xs ++ map addr ys
  map-append [] ys = refl
  map-append (x ∷ xs) ys = ap (λ l. addr x ∷ l) (map-append xs ys)

  last_load-places :
      (s : Status) (b : Bool) (t : Pass C)
      → map addr ((last_load s b t).past ++ (last_load s b t).left) ≡ map addr (t.past ++ t.left)
  last_load-places finished true t = refl
  last_load-places finished false t = refl
  last_load-places stopped b t = refl
  last_load-places exhausted b t = refl

  -- The old list has the same addresses behind the loop as before it, whatever the memory gives and
  -- wherever the loop is cancelled.
  pub rescan-places :
      (read : Reader) (cancel : ℕ → Bool) (progress : Bool) (cs : List C)
      → map addr (
          (rescan addr refresh behind w read cancel progress cs).past
          ++ (rescan addr refresh behind w read cancel progress cs).left)
        ≡ map addr cs
  unfolding rescan
  rescan-places read cancel progress cs =
      let t =
        scan_blocks addr refresh behind w read cancel progress (length cs) (length cs) cs begin in
      let same =
        map-append t.past t.left
        ∙ blocks-places read cancel progress (length cs) (length cs) cs begin in
      last_load-places t.status (cancel t.loads) t ∙ same
