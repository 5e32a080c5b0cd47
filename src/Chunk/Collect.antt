-- ===== src/Chunk/Collect.antt =====
-- Callbacks that collect what they find: the collected list, against a plain comprehension over the
-- windows of the regions.
use memory_tools.Chunk.Equal.{for_each_window-naive}
use memory_tools.Chunk.Naive.{IsWhole, view, naive, naive_short, naive_next, naive_regions}
use memory_tools.Chunk.OneBlock.{status_of}
use memory_tools.Chunk.{align_up, finished, stride_of, for_each_window, chunk_bytes}
use memory_tools.Memory.{Region, Reader, readable}
use memory_tools.Prelude.{
  ℕ, zero, suc, ◌+◌, ◌-◌, ◌≤◌, ◌<◌, ◌≡◌, inl, inr, refl, ap, ◌∙◌, Bool, true, false, List, [], ◌∷◌,
  ◌++◌, Option, none, some, Bytes, leb, length, length-append, arith, Bool-cases, Option-cases,
  le→leb, leb→le, leb→lt, All,
}
use mathlib.Core.List.{append-nil, append_assoc}

module _ {ℓ} {C : Type ℓ} where
  abbrev cons_some : Option C → List C → List C
  cons_some none cs = cs
  cons_some (some c) cs = c ∷ cs

  module _ (select : Bytes → ℕ → Option C) (content : ℕ → ℕ) (w s : ℕ) where
    -- What is selected among the windows at `a`, `a + s`, ... that end at `end` at the latest.
    unfoldable pub chosen : ℕ → ℕ → ℕ → List C
    chosen zero a end = []
    chosen (suc fuel) a end = elim (leb (a + w) end) [
      | false ↦ []
      | true ↦ cons_some (select (view content a w) a) (chosen fuel (a + s) end)
    ]

    chosen_short : (f a end : ℕ) → end < a + w → chosen f a end ≡ []
    unfolding chosen
    chosen_short zero a end h = refl
    chosen_short (suc f) a end h = ground arith

    chosen_next :
        (f a end : ℕ)
        → a + w ≤ end
        → chosen (suc f) a end ≡ cons_some (select (view content a w) a) (chosen f (a + s) end)
    unfolding chosen
    chosen_next f a end h = rw (le→leb (a + w) end h, chosen)

    -- The same for all the readable regions, in order.
    unfoldable pub chosen_regions : List Region → List C
    chosen_regions [] = []
    chosen_regions (r ∷ rs) = elim (readable r) [
      | false ↦ chosen_regions rs
      | true ↦ chosen (suc (r.end - r.start)) (align_up r.start s) r.end ++ chosen_regions rs
    ]

module _ {ℓ} {C : Type ℓ} (select : Bytes → ℕ → Option C) (content : ℕ → ℕ) (w s : ℕ) (r : Region)
    (rs : List Region) where
  abbrev chosen_here : List C
  chosen_here = chosen select content w s (suc (r.end - r.start)) (align_up r.start s) r.end

  chosen_regions_open :
      readable r ≡ true
      → chosen_regions select content w s (r ∷ rs)
        ≡ chosen_here ++ chosen_regions select content w s rs
  unfolding chosen_regions
  chosen_regions_open h = rw (h, chosen_regions)

  chosen_regions_closed :
      readable r ≡ false
      → chosen_regions select content w s (r ∷ rs) ≡ chosen_regions select content w s rs
  unfolding chosen_regions
  chosen_regions_closed h = rw (h, chosen_regions)

-- A callback that adds what is selected to the items of its state, as long as they are fewer than
-- a maximum, and does nothing else.
pub record Collects {ℓ κ} {C : Type ℓ} {S : Type κ} (callback : S → Bytes → ℕ → S × Bool)
    (select : Bytes → ℕ → Option C) (most : ℕ) (items : S → List C) (flag : S → Bool)
    : Type (ℓ ⊔ κ) where
  pub skips :
      (acc : S) (window : Bytes) (a : ℕ)
      → select window a ≡ none
      → callback acc window a ≡ (acc, true)
  pub adds :
      (acc : S) (window : Bytes) (a : ℕ) (c : C)
      → select window a ≡ some c
      → flag acc ≡ false
      → suc (length (items acc)) < most
      → ((callback acc window a).1 ≡ true)
        × (items (callback acc window a).0 ≡ items acc ++ (c ∷ []))
        × (flag (callback acc window a).0 ≡ false)

module _ {ℓ κ} {C : Type ℓ} {S : Type κ} (callback : S → Bytes → ℕ → S × Bool)
    (select : Bytes → ℕ → Option C) (most : ℕ) (items : S → List C) (flag : S → Bool)
    (collects : Collects callback select most items flag) (content : ℕ → ℕ) (w s : ℕ) where
  abbrev chosen_in : ℕ → ℕ → ℕ → List C
  chosen_in = chosen select content w s

  naive-chosen :
      (f a end : ℕ) (acc : S)
      → flag acc ≡ false
      → length (items acc) + length (chosen_in f a end) < most
      → ((naive callback content w s f a end acc).whole ≡ true)
        × (items (naive callback content w s f a end acc).acc ≡ items acc ++ chosen_in f a end)
        × (flag (naive callback content w s f a end acc).acc ≡ false)
  naive-chosen zero a end acc quiet few =
      (unfold naive in refl, unfold naive chosen in rw append-nil refl, unfold naive in quiet)
  naive-chosen (suc f) a end acc quiet few = elim (Bool-cases (leb (a + w) end)) [
    | inr short ↦
        let below = leb→lt (a + w) end short in
        rw
          (
            naive_short callback content w s (suc f) a end acc below,
            chosen_short select content w s (suc f) a end below,
          )
          (refl, rw append-nil refl, quiet)
    | inl long ↦
        let fits = leb→le (a + w) end long in
        let window = view content a w in
        let step = chosen_next select content w s f a end fits in
        elim (Option-cases (select window a)) [
          | inl e ↦
              let skip = collects.skips acc window a e in
              let rest : chosen_in (suc f) a end ≡ chosen_in f (a + s) end =
                step ∙ ap (λ o. cons_some o (chosen_in f (a + s) end)) e in
              let went : naive callback content w s (suc f) a end acc
                  ≡ naive callback content w s f (a + s) end acc =
                naive_next callback content w s f a end acc fits (ap (λ q. q.1) skip)
                ∙ ap (λ q. naive callback content w s f (a + s) end q.0) skip in
              rw (went, rest) (naive-chosen f (a + s) end acc quiet (rw rest at few))
          | inr (c, e) ↦
              let rest : chosen_in (suc f) a end ≡ c ∷ chosen_in f (a + s) end =
                step ∙ ap (λ o. cons_some o (chosen_in f (a + s) end)) e in
              let few' = rw rest at few in
              let (go, added, quiet') = collects.adds acc window a c e quiet (omega arith) in
              let longer = ap length added ∙ length-append (items acc) (c ∷ []) in
              let (whole, same, still) =
                naive-chosen f (a + s) end (callback acc window a).0 quiet' (omega arith) in
              rw (naive_next callback content w s f a end acc fits go, rest)
                (
                  whole,
                  same
                      ∙ ap (λ l. l ++ chosen_in f (a + s) end) added
                      ∙ append_assoc (items acc) (c ∷ []) (chosen_in f (a + s) end),
                  still,
                )
        ]
  ]

  regions-chosen :
      (rs : List Region) (acc : S)
      → flag acc ≡ false
      → length (items acc) + length (chosen_regions select content w s rs) < most
      → ((naive_regions callback content w s rs acc).1 ≡ true)
        × (items (naive_regions callback content w s rs acc).0
            ≡ items acc ++ chosen_regions select content w s rs)
        × (flag (naive_regions callback content w s rs acc).0 ≡ false)
  unfolding naive_regions
  regions-chosen [] acc quiet few = unfold chosen_regions in (refl, rw append-nil refl, quiet)
  regions-chosen (r ∷ rs) acc quiet few = elim (Bool-cases (readable r)) [
    | inr closed ↦
        let same = chosen_regions_closed select content w s r rs closed in
        let ih = regions-chosen rs acc quiet (rw same at few) in
        rw same (rw (closed, naive_regions) ih)
    | inl opened ↦
        let here = chosen_in (suc (r.end - r.start)) (align_up r.start s) r.end in
        let rest = chosen_regions select content w s rs in
        let same = chosen_regions_open select content w s r rs opened in
        let total = ap length same ∙ length-append here rest in
        let (whole, added, quiet') =
          naive-chosen (suc (r.end - r.start)) (align_up r.start s) r.end acc quiet (omega arith) in
        let longer = ap length added ∙ length-append (items acc) here in
        let (through, all, still) = regions-chosen rs _ quiet' (omega arith) in
        rw same (
          rw (opened, whole, naive_regions)
            (through, all ∙ ap (λ l. l ++ rest) added ∙ append_assoc (items acc) here rest, still))
  ]

-- A collecting callback finds exactly what is selected among the windows, in order, on a memory
-- that can be read whole, if that is less than its maximum and no cancellation is asked for.
pub for_each_window-chosen {ℓ κ} :
    {C : Type ℓ} {S : Type κ} (read : Reader) (regions : List Region) (w stride : ℕ)
    (callback : S → Bytes → ℕ → S × Bool) (cancel : ℕ → Bool) (progress : Bool) (acc : S)
    (select : Bytes → ℕ → Option C) (most : ℕ) (items : S → List C) (flag : S → Bool)
    (content : ℕ → ℕ)
    → Collects callback select most items flag
    → 0 < w
    → w ≤ chunk_bytes
    → ((k : ℕ) → cancel k ≡ false)
    → All
        (λ r. readable r ≡ true → (r.start ≤ r.end) × IsWhole content (stride_of stride) read r)
        regions
    → flag acc ≡ false
    → length (items acc) + length (chosen_regions select content w (stride_of stride) regions)
      < most
    → ((for_each_window read regions w stride callback cancel progress acc).status ≡ finished)
      × (items (for_each_window read regions w stride callback cancel progress acc).acc
          ≡ items acc ++ chosen_regions select content w (stride_of stride) regions)
      × (flag (for_each_window read regions w stride callback cancel progress acc).acc ≡ false)
for_each_window-chosen read regions w stride callback cancel progress acc select most items flag
      content collects w_pos w_small calm whole quiet few =
    let (same, ended) =
      for_each_window-naive read regions w stride callback cancel progress acc content w_pos w_small
        calm whole in
    let (through, all, still) =
      regions-chosen callback select most items flag collects content w (stride_of stride) regions
        acc quiet few in
    (ended ∙ ap status_of through, ap items same ∙ all, ap flag same ∙ still)
