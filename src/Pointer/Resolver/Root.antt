-- ===== src/Pointer/Resolver/Root.antt =====
-- The root of a persistent chain (src/pointer_resolver.cpp) when the modules have moved.
use memory_tools.Memory
use memory_tools.Memory.Find.{region_at-some}
use memory_tools.Memory.{Region, region_at, size}
use memory_tools.Pointer.Resolver.{
  found, is_file, make_base_from_address, resolve_module, resolve_root,
}
use memory_tools.Prelude.{
  ℕ, ◌+◌, ◌-◌, ◌≤◌, ◌<◌, ◌≡◌, refl, ap, Bool, true, false, ◌&&◌, List, [], ◌∷◌, some, Bytes,
  bytes_eq, bytes_eq_refl, bytes_eq→eq, ltb, leb, arith, All, Bool-cases, inl, inr, u64, u64_of_lt,
  sub64_of_le, word, map,
}

-- A mapping that has moved by the distance of its file.
abbrev pub move : (Bytes → ℕ) → Region → Region
move slide r = record r { start = r.start + slide r.path; end = r.end + slide r.path }

-- The region and its file range end before the last address, also when it has moved.
abbrev pub Fits : (Bytes → ℕ) → Region → Type 0
Fits slide q =
    (q.start ≤ q.end) × (q.end + slide q.path < word) × (q.offset + (q.end - q.start) < word)

-- If a mapping of the same file has the offset `f` too, it has it at the same address.
abbrev pub Alone : Region → ℕ → Region → Type 0
Alone r f q =
    q.path ≡ r.path
    → q.offset ≤ f
    → f < q.offset + (q.end - q.start)
    → q.start + (f - q.offset) ≡ r.start + (f - r.offset)

module _ (slide : Bytes → ℕ) (address : ℕ) (r : Region) where
  abbrev file_offset : ℕ
  file_offset = r.offset + (address - r.start)

  size_moved :
      (q : Region)
      → Fits slide q
      → u64 (q.offset + size (move slide q)) ≡ q.offset + (q.end - q.start)
  unfolding Memory.size
  size_moved q (order, top, file_top) =
      let exact =
        sub64_of_le (q.end + slide q.path) (q.start + slide q.path) (omega arith) (omega arith) in
      rw
        (
          exact,
          u64_of_lt (q.offset + (q.end + slide q.path - (q.start + slide q.path))) (omega arith),
        )
        (omega arith)

  module_moved :
      (regions : List Region) (seen : Bool)
      → region_at regions address ≡ some r
      → (r.start ≤ address) × (address < r.end)
      → All (Fits slide) regions
      → All (Alone r file_offset) regions
      → resolve_module r.path file_offset seen (map (move slide) regions)
        ≡ found (address + slide r.path)
  unfolding region_at resolve_module
  module_moved [] seen h held fits alone = ground arith
  module_moved (q ∷ rs) seen h held fits alone =
      let here = leb q.start address && ltb address q.end in
      elim (Bool-cases (bytes_eq q.path r.path)) [
        | inr other ↦ elim (Bool-cases here) [
          | inl k ↦
              let same : q ≡ r = ground arith in
              let e = bytes_eq_refl r.path in absurd (ground arith)
          | inr k ↦ rw other (module_moved rs seen (ground arith) held fits.1 alone.1)
        ]
        | inl file ↦
            let path = bytes_eq→eq q.path r.path file in
            let span = size_moved q fits.0 in
            elim (Bool-cases
              (leb q.offset file_offset && ltb file_offset (q.offset + (q.end - q.start)))) [
                | inl covers ↦
                    let lo : q.offset ≤ file_offset = ground arith in
                    let hi : file_offset < q.offset + (q.end - q.start) = ground arith in
                    let at = alone.0 path lo hi in
                    let slid : slide q.path ≡ slide r.path = ap slide path in
                    let total : q.start + slide q.path + (file_offset - q.offset)
                        ≡ address + slide r.path =
                      omega arith in
                    let exact =
                      u64_of_lt (q.start + slide q.path + (file_offset - q.offset))
                        (omega (arith, fits.0)) in
                    rw (file, span, covers, exact, total) refl
                | inr misses ↦ elim (Bool-cases here) [
                  | inl k ↦
                      let same : q ≡ r = ground arith in
                      let first : q.offset ≡ r.offset = ap (λ x. x.offset) same in
                      let from : q.start ≡ r.start = ap (λ x. x.start) same in
                      let to : q.end ≡ r.end = ap (λ x. x.end) same in absurd (ground arith)
                  | inr k ↦
                      rw (file, span, misses)
                        (module_moved rs true (ground arith) held fits.1 alone.1)
                ]
              ]
      ]

-- The address of a mapped file, turned into a base and resolved when every file has moved by a
-- distance of its own, is the address moved by that distance (with no distance: the address), if
-- regions and file ranges end before the last address, and if mappings of one file that share a file
-- offset have it at the same address.
pub resolve_root-make_base :
    (slide : Bytes → ℕ) (address : ℕ) (r : Region) (regions : List Region)
    → region_at regions address ≡ some r
    → is_file r.path ≡ true
    → All (Fits slide) regions
    → All (Alone r (r.offset + (address - r.start))) regions
    → r.offset + (address - r.start) < word
    → address < word
    → resolve_root (make_base_from_address regions address) (map (move slide) regions)
      ≡ found (address + slide r.path)
unfolding resolve_root make_base_from_address
resolve_root-make_base slide address r regions h file fits alone small top =
    let (held, _) = region_at-some regions address r h in
    let exact = sub64_of_le address r.start held.0 top in
    rw (h, file, exact, u64_of_lt (r.offset + (address - r.start)) small)
      (module_moved slide address r regions false h held fits alone)
