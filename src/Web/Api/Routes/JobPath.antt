-- ===== src/Web/Api/Routes/JobPath.antt =====
-- The paths of a job (src/web/api.cpp) and the ids in them.
use memory_tools.Numerals.{print_nat}
use memory_tools.Prelude.{
  ℕ, zero, suc, ◌-◌, ◌^◌, ◌<◌, ◌≡◌, refl, ap, Bool, true, false, [], ◌∷◌, ◌++◌, some, Bytes, codes,
  bytes_eq, ltb, length, length-append, drop, take, is_nil, is_prefix, All, arith, lt→ltb,
  Bool-cases, inl, inr,
}
use memory_tools.Types.RoundTrip.{IsDigit, print_nat-IsDigit, some_print_nat, strtoull_in-print_nat}
use memory_tools.Web.Api.Routes.{
  h_job_get, h_job_cancel, on_method, on_job, job_id_route, job_route, dispatch, handle,
}
use memory_tools.Web.Http.{HttpRequest, only_digits}
use memory_tools.Web.Json.Number.{is_digit}

only_digits-IsDigit : (s : Bytes) → All IsDigit s → only_digits s ≡ true
unfolding only_digits is_digit
only_digits-IsDigit [] h = refl
only_digits-IsDigit (c ∷ cs) h = ground (arith, only_digits-IsDigit cs h.1, h.0.0, h.0.1)

drop-append : (s t : Bytes) (k : ℕ) → k ≡ length s → drop k (s ++ t) ≡ t
drop-append [] t zero e = refl
drop-append [] t (suc k) e = absurd (omega arith)
drop-append (x ∷ s) t zero e = absurd (omega arith)
drop-append (x ∷ s) t (suc k) e = drop-append s t k (omega arith)

take-append : (s t : Bytes) (k : ℕ) → k ≡ length s → take k (s ++ t) ≡ s
take-append [] t zero e = refl
take-append [] t (suc k) e = absurd (omega arith)
take-append (x ∷ s) t zero e = absurd (omega arith)
take-append (x ∷ s) t (suc k) e = ap (λ u. x ∷ u) (take-append s t k (omega arith))

-- No end of a text of digits is `/cancel`.
no_cancel : (s : Bytes) (k : ℕ) → All IsDigit s → bytes_eq (drop k s) (codes "/cancel") ≡ false
unfolding bytes_eq
no_cancel [] zero h = refl
no_cancel [] (suc k) h = refl
no_cancel (c ∷ cs) zero h = ground (arith, h.0.0)
no_cancel (c ∷ cs) (suc k) h = no_cancel cs k h.1

some_length : (s : Bytes) → is_nil s ≡ false → 0 < length s
some_length [] h = absurd (cc)
some_length (c ∷ cs) h = omega arith

module _ (method : Bytes) (id : ℕ) (small : id < 2 ^ 64) where
  job_id_back : (b : Bool) → job_id_route method b (print_nat id) ≡ on_job method b (some id)
  unfolding job_id_route
  job_id_back b =
      rw
        (
          some_print_nat id,
          only_digits-IsDigit (print_nat id) (print_nat-IsDigit id),
          strtoull_in-print_nat id small,
        )
        refl

  job_route-get : job_route method (print_nat id) ≡ on_job method false (some id)
  unfolding job_route
  job_route-get =
      rw (no_cancel (print_nat id) (length (print_nat id) - 7) (print_nat-IsDigit id))
        (elim (Bool-cases (ltb 7 (length (print_nat id)))) [
          | inl e ↦ rw e (job_id_back false)
          | inr e ↦ rw e (job_id_back false)
        ])

  job_route-cancel :
      job_route method (print_nat id ++ codes "/cancel") ≡ on_job method true (some id)
  unfolding job_route bytes_eq
  job_route-cancel =
      let digits = print_nat id in
      let size = length-append digits (codes "/cancel") in
      let long =
        lt→ltb 7 (length (digits ++ codes "/cancel"))
          (omega (arith, size, some_length digits (some_print_nat id))) in
      let kept : length (digits ++ codes "/cancel") - 7 ≡ length digits = omega (arith, size) in
      rw
        (
          long,
          drop-append digits (codes "/cancel") _ kept,
          take-append digits (codes "/cancel") _ kept,
        )
        (job_id_back true)

-- The path of a job with the id in decimal leads to the handler with that id, and with `/cancel`
-- behind it to the one that cancels; any method but GET, or POST, is answered with 405. The id is
-- below 2 ^ 64.
pub handle_job_path :
    (req : HttpRequest) (id : ℕ)
    → id < 2 ^ 64
    → (handle (record req { path = codes "/api/jobs/" ++ print_nat id })
        ≡ on_method req.method (codes "GET") (h_job_get id))
      × (handle (record req { path = codes "/api/jobs/" ++ (print_nat id ++ codes "/cancel") })
          ≡ on_method req.method (codes "POST") (h_job_cancel id))
unfolding handle dispatch is_prefix
handle_job_path req id small =
    (job_route-get req.method id small, job_route-cancel req.method id small)
