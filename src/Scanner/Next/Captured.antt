-- ===== src/Scanner/Next/Captured.antt =====
-- The bytes that are kept of a dynamic candidate, and its window (src/scanner.h).
use memory_tools.Pattern.{BytePattern, window_matches}
use memory_tools.Prelude.{
  ℕ, suc, ◌≡◌, refl, ap, Bool, true, false, not, List, [], ◌∷◌, Bytes, length, get_or, bytes_eq,
  arith,
}
use memory_tools.Scanner.Next.{window_changed, dynamic_window_changed}
use memory_tools.Scanner.{make_dynamic_spec, wild_from, captured}
use memory_tools.Types.{DataType}

captured_shift :
    (ms : List Bool) (i : ℕ) (c : ℕ) (cs : Bytes)
    → captured (wild_from (suc i) ms) (c ∷ cs) ≡ captured (wild_from i ms) cs
unfolding captured wild_from
captured_shift [] i c cs = refl
captured_shift (true ∷ ms) i c cs = captured_shift ms (suc i) c cs
captured_shift (false ∷ ms) i c cs = ap (λ l. get_or cs i 0 ∷ l) (captured_shift ms (suc i) c cs)

changed-captured :
    (now before bytes : Bytes) (mask : List Bool)
    → length now ≡ length bytes
    → length before ≡ length bytes
    → length mask ≡ length bytes
    → window_matches before bytes mask ≡ true
    → window_changed now bytes mask (captured (wild_from 0 mask) before) ≡ not (bytes_eq now before)
unfolding window_changed window_matches captured wild_from bytes_eq
changed-captured [] [] [] mask n b m h = refl
changed-captured (x ∷ xs) before [] mask n b m h = absurd (omega arith)
changed-captured [] (y ∷ ys) [] mask n b m h = absurd (omega arith)
changed-captured [] before (p ∷ ps) mask n b m h = absurd (omega arith)
changed-captured (x ∷ xs) [] (p ∷ ps) mask n b m h = absurd (omega arith)
changed-captured (x ∷ xs) (y ∷ ys) (p ∷ ps) [] n b m h = absurd (omega arith)
changed-captured (x ∷ xs) (y ∷ ys) (p ∷ ps) (true ∷ ms) n b m h =
    let shift = captured_shift ms 0 y ys in
    ground (arith, shift, changed-captured xs ys ps ms (omega arith) (omega arith) (omega arith))
changed-captured (x ∷ xs) (y ∷ ys) (p ∷ ps) (false ∷ ms) n b m h =
    let shift = captured_shift ms 0 y ys in
    ground (arith, shift, changed-captured xs ys ps ms (omega arith) (omega arith) (omega arith))

-- Of a window that matched the pattern, the pattern and the bytes captured at its wildcards tell it
-- from any other window of that length: `dynamic_window_changed` is true exactly if the window is
-- now another one.
pub dynamic_window_changed-captured :
    (type : DataType) (pat : BytePattern) (now before : Bytes)
    → length now ≡ length pat.bytes
    → length before ≡ length pat.bytes
    → length pat.mask ≡ length pat.bytes
    → window_matches before pat.bytes pat.mask ≡ true
    → dynamic_window_changed now
        (make_dynamic_spec type pat)
        (captured (make_dynamic_spec type pat).wild_pos before)
      ≡ not (bytes_eq now before)
unfolding dynamic_window_changed make_dynamic_spec
dynamic_window_changed-captured type pat now before n b m h =
    changed-captured now before pat.bytes pat.mask n b m h
