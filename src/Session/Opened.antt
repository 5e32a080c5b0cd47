-- ===== src/Session/Opened.antt =====
-- What `with_memory` does: nothing with an error, or the work on the open process.
use memory_tools.Prelude.{
  ℕ, ◌≡◌, refl, ◌⊎◌, inl, inr, Option, none, some, Bytes, codes, Option-cases,
}
use memory_tools.Session.{Session, with_memory}

-- Either there is an error and nothing is done, or the target process is opened and the work done on
-- it once.
pub with_memory-cases {ℓ} :
    {S : Type ℓ} (open_memory : ℕ → Option Bytes) (work : ℕ → S → S) (s : Session) (state : S)
    → ((e : Bytes) × (with_memory open_memory work s state ≡ (state, some e)))
      ⊎ ((pid : ℕ) × (s.pid ≡ some pid)
          × (open_memory pid ≡ none)
          × (with_memory open_memory work s state ≡ (work pid state, none)))
unfolding with_memory
with_memory-cases open_memory work s state = elim (Option-cases s.pid) [
  | inl lost ↦ inl (codes "no hay proceso objetivo", rw (lost, with_memory) refl)
  | inr (pid, at) ↦ elim (Option-cases (open_memory pid)) [
    | inl able ↦ inr (pid, at, able, rw (at, able, with_memory) refl)
    | inr (e, unable) ↦ inl (e, rw (at, unable, with_memory) refl)
  ]
]

-- With a target process that can be opened, the work is done.
pub with_memory-opened {ℓ} :
    {S : Type ℓ} (open_memory : ℕ → Option Bytes) (work : ℕ → S → S) (s : Session) (state : S)
    (pid : ℕ)
    → s.pid ≡ some pid
    → open_memory pid ≡ none
    → with_memory open_memory work s state ≡ (work pid state, none)
unfolding with_memory
with_memory-opened open_memory work s state pid at able = rw (at, able, with_memory) refl
