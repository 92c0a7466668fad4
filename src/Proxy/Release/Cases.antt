-- ===== src/Proxy/Release/Cases.antt =====
-- The ways in which a release ends.
use weregopher.Base.{
  ℕ, ◌≡◌, ◌≢◌, ◌⊎◌, inl, inr, Option, none, some, Result, ok, err, arith, Option-cases,
  Result-cases,
}
use weregopher.Proxy.Message.{Direction, RequestId, Frame}
use weregopher.Proxy.Queue.{ProxyError, inconsistent_correlation_state, front}
use weregopher.Proxy.State.{Proxy, ProxyCounters, queue, ensure_monotonic_time, increment}
use weregopher.Proxy.Release.{
  released_id, deadline_for, forwarded_next, mark_pending, take_front, plan_release, release_front,
  release,
}

pub ensure_monotonic_time-err :
    (p : Proxy) (now : ℕ) (x : ProxyError)
    → ensure_monotonic_time p now ≡ err x
    → x ≢ inconsistent_correlation_state
unfolding ensure_monotonic_time
ensure_monotonic_time-err p now x e = λ same. ground arith

abbrev pub id_of : Frame → Option RequestId
id_of f = released_id f.observation.kind f.observation.request_id

module _ (instant_max : ℕ) (p : Proxy) (d : Direction) (now : ℕ) (f : Frame) where
  -- A plan that succeeds marked the request.
  plan_release-ok :
      (n : ProxyCounters) (m : Proxy)
      → plan_release instant_max p d now f ≡ ok (n, m)
      → (deadline : ℕ) × (mark_pending p d (id_of f) deadline ≡ ok m)
  unfolding plan_release
  plan_release-ok n m e = elim (Result-cases (deadline_for instant_max p now (id_of f))) [
    | inr (x, a) ↦ absurd (ground (arith, a))
    | inl (deadline, a) ↦ (deadline, ground (arith, a))
  ]

  -- One that fails met a limit, or could not mark it.
  plan_release-err :
      (x : ProxyError)
      → plan_release instant_max p d now f ≡ err x
      → (x ≢ inconsistent_correlation_state)
        ⊎ ((deadline : ℕ) × (mark_pending p d (id_of f) deadline ≡ err x))
  unfolding plan_release deadline_for forwarded_next increment
  plan_release-err x e = elim (Result-cases (deadline_for instant_max p now (id_of f))) [
    | inr (y, a) ↦ inl (λ same. ground (arith, a))
    | inl (deadline, a) ↦ elim (Result-cases (mark_pending p d (id_of f) deadline)) [
      | inl (m, b) ↦ inl (λ same. ground (arith, a, b))
      | inr (y, b) ↦ elim (Result-cases (forwarded_next d p.counters)) [
        | inl (n, c) ↦ inr (deadline, ground (arith, a, b, c))
        | inr (z, c) ↦ inl (λ same. ground (arith, a, b, c))
      ]
    ]
  ]

module _ {ℓ} (instant_max : ℕ) (p : Proxy) (d : Direction) (now : ℕ)
    (P : Proxy × Result ProxyError (Option Frame) → Type ℓ)
    (refused : (x : ProxyError)
      → (x ≢ inconsistent_correlation_state)
        ⊎ ((f : Frame) × (deadline : ℕ) × (front (queue d p) ≡ some f)
            × (mark_pending p d (id_of f) deadline ≡ err x))
      → P (p, err x))
    (empty : front (queue d p) ≡ none → P (record p { last_observed_time = some now }, ok none))
    (taken : (f : Frame) (deadline : ℕ) (n : ProxyCounters) (m : Proxy)
      → front (queue d p) ≡ some f
      → mark_pending p d (id_of f) deadline ≡ ok m
      → P (take_front m d n now)) where
  release_front_cases :
      (f : Frame) → front (queue d p) ≡ some f → P (release_front instant_max p d now f)
  unfolding release_front
  release_front_cases f at_front = elim (Result-cases (plan_release instant_max p d now f)) [
    | inl ((n, m), e) ↦
        let (deadline, marked) = plan_release-ok instant_max p d now f n m e in
        rw (e, release_front) (taken f deadline n m at_front marked)
    | inr (x, e) ↦
        rw (e, release_front)
          (elim (plan_release-err instant_max p d now f x e) [
            | inl limit ↦ refused x (inl limit)
            | inr (deadline, failed) ↦ refused x (inr (f, deadline, at_front, failed))
          ])
  ]

  pub release_cases : P (release instant_max p d now)
  unfolding release
  release_cases = elim (Result-cases (ensure_monotonic_time p now)) [
    | inr (x, e) ↦ rw (e, release) (refused x (inl (ensure_monotonic_time-err p now x e)))
    | inl (u, e) ↦
        rw (e, release)
          (elim (Option-cases (front (queue d p))) [
            | inl none_left ↦ rw (none_left, release) (empty none_left)
            | inr (f, at_front) ↦ rw (at_front, release) (release_front_cases f at_front)
          ])
  ]
