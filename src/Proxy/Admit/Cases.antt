-- ===== src/Proxy/Admit/Cases.antt =====
-- The ways in which an admission ends: refused before anything is written, or committed.
use weregopher.Base.{ℕ, ◌≡◌, refl, inl, inr, Result, ok, err, Bool-cases, Result-cases, List, ◌⊎◌}
use weregopher.Proxy.Message.{Observation}
use weregopher.Proxy.Limits.{limits_eq}
use weregopher.Proxy.Queue.{ProxyError, closed_proxy, candidate_limits_mismatch}
use weregopher.Proxy.State.{Proxy, ProxyCounters}
use weregopher.Proxy.Correlation.{ResponseAction}
use weregopher.Proxy.Admit.{Candidate, is_closed, preflight, commit, admit_candidate, admit}

module _ {ℓ} (sha256 : List ℕ → List ℕ) (p : Proxy) (c : Candidate)
    (P : Proxy × Result ProxyError Observation → Type ℓ)
    (refused : (e : ProxyError)
      → (preflight sha256 p c ≡ err e) ⊎ (e ≡ closed_proxy) ⊎ (e ≡ candidate_limits_mismatch)
      → P (p, err e))
    (admitted : (a : ResponseAction) (n : ProxyCounters)
      → preflight sha256 p c ≡ ok (a, n)
      → P (commit sha256 p c a n)) where
  pub admit_candidate_cases : P (admit_candidate sha256 p c)
  unfolding admit_candidate
  admit_candidate_cases = elim (Bool-cases (is_closed p.state)) [
    | inl shut ↦ rw shut (refused closed_proxy (inr (inl refl)))
    | inr live ↦ rw live (elim (Result-cases (preflight sha256 p c)) [
      | inl ((a, n), e) ↦ rw e (admitted a n e)
      | inr (x, e) ↦ rw e (refused x (inl e))
    ])
  ]

  pub admit_cases : P (admit sha256 p c)
  unfolding admit
  admit_cases = elim (Bool-cases (is_closed p.state)) [
    | inl shut ↦ rw shut (refused closed_proxy (inr (inl refl)))
    | inr live ↦ rw live (elim (Bool-cases (limits_eq c.prepared_limits p.limits)) [
      | inl same ↦ rw same (unfold admit_candidate in rw live at admit_candidate_cases)
      | inr other ↦ rw other (refused candidate_limits_mismatch (inr (inr refl)))
    ])
  ]
