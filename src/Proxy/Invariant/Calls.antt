-- ===== src/Proxy/Invariant/Calls.antt =====
-- Every call keeps the invariant, and an error leaves the session as it was.
use mathlib.Core.Path.{subst}
use weregopher.Base.{
  bytes_key, ℕ, ◌≡◌, refl, sym, ◌∙◌, ◌≢◌, ◌⊎◌, inl, inr, true, Option, none, some, List, [], ◌∷◌,
  arith, Option-cases, is_some, length, ok, err, Result-cases, Result,
}
use weregopher.Proxy.Message.{id_key, Direction, opposite, request, RequestId, Observation, Frame}
use weregopher.Proxy.Message.Digest.{IsWireId}
use weregopher.Proxy.State.{ProxyCounters, Proxy, queue, increment, add}
use weregopher.Proxy.Queue.{
  ProxyError, closed_proxy, candidate_limits_mismatch, inconsistent_correlation_state, ProxyQueue,
  ensure_capacity, front,
}
use weregopher.Proxy.Correlation.{
  ResponseAction, active_count, tracked_count, is_retired, preflight_request, preflight_response,
  preflight_correlation,
}
use weregopher.Proxy.Admit.{Candidate, next_counters, preflight, commit, admit_candidate, admit}
use weregopher.Proxy.Admit.Cases.{admit_candidate_cases, admit_cases}
use weregopher.Proxy.Release.{mark_pending, take_front, release}
use weregopher.Proxy.Release.Cases.{id_of, release_cases}
use weregopher.Proxy.Run.{Call, ingests, admits}
use weregopher.Proxy.Invariant.{Inv, Sound, side, set_counters-Inv}
use weregopher.Proxy.Invariant.Admission.{commit-Inv}
use weregopher.Proxy.Invariant.Departure.{frames_of-front, mark_pending-Good}
use weregopher.Proxy.Side.{IsCollisionFree}

-- What `prepare` promises of a candidate: a request has an identity, and every identity is a
-- `u64`, an `i64` or a text.
pub record IsPrepared (c : Candidate) : Type 0 where
  pub identified : c.observation.kind ≡ request → is_some c.observation.request_id ≡ true
  pub wire : (id : RequestId) → c.observation.request_id ≡ some id → IsWireId id

abbrev pub AllPrepared : List Call → Type 0
AllPrepared [] = Unit
AllPrepared (ingests c ∷ cs) = IsPrepared c × AllPrepared cs
AllPrepared (admits c ∷ cs) = IsPrepared c × AllPrepared cs
AllPrepared (_ ∷ cs) = AllPrepared cs

next_counters-err :
    (d : Direction) (c : ProxyCounters) (size : ℕ) (a : ResponseAction) (x : ProxyError)
    → next_counters d c size a ≡ err x
    → x ≢ inconsistent_correlation_state
unfolding next_counters increment add
next_counters-err d c size a x e = λ same. ground arith

ensure_capacity-err :
    (q : ProxyQueue) (size : ℕ) (x : ProxyError)
    → ensure_capacity q size ≡ err x
    → x ≢ inconsistent_correlation_state
unfolding ensure_capacity
ensure_capacity-err q size x e = λ same. ground arith

ok≢err : {A : Type 0} (y : A) (x : ProxyError) → ◌≢◌ {A = Result ProxyError A} (ok y) (err x)
ok≢err y x e = ground arith

ok-injective : {A : Type 0} (x y : A) → ◌≡◌ {A = Result ProxyError A} (ok x) (ok y) → x ≡ y
ok-injective x y e = ground arith

module _ (sha256 : List ℕ → List ℕ) where
  preflight_correlation-err :
      (p : Proxy) (c : Candidate) (x : ProxyError)
      → Inv sha256 p
      → IsPrepared c
      → preflight_correlation sha256 p c.observation ≡ err x
      → x ≢ inconsistent_correlation_state
  unfolding preflight_correlation preflight_request preflight_response active_count tracked_count
      is_retired
  preflight_correlation-err p c x v w e = λ same. elim (Option-cases c.observation.request_id) [
    | inl none_given ↦ ground (arith, none_given, w.identified)
    | inr (id, i) ↦
        ground (arith, i, (side sha256 p v (opposite c.observation.direction)).unretired id)
  ]

  preflight-err :
      (p : Proxy) (c : Candidate) (x : ProxyError)
      → Inv sha256 p
      → IsPrepared c
      → preflight sha256 p c ≡ err x
      → x ≢ inconsistent_correlation_state
  unfolding preflight
  preflight-err p c x v w e =
      let d = c.observation.direction in
      let size = length c.json_bytes in
      elim (Result-cases (ensure_capacity (queue d p) size)) [
        | inr (y, full) ↦ λ same. ensure_capacity-err (queue d p) size y full (ground (arith, full))
        | inl (u, room) ↦ elim (Result-cases (preflight_correlation sha256 p c.observation)) [
          | inr (y, bad) ↦
              λ same. preflight_correlation-err p c y v w bad (ground (arith, room, bad))
          | inl (a, good) ↦
              λ same. next_counters-err d p.counters size a x (ground (arith, room, good)) same
        ]
      ]

  pub refused_as_it_was :
      {A : Type 0} (p : Proxy) (x : ProxyError)
      → Inv sha256 p
      → x ≢ inconsistent_correlation_state
      → Sound sha256 p {A = A} (p, err x)
  refused_as_it_was p x v sane = record { keeps = v; outcome = inl (x, refl, sane) }

  committed-Sound :
      (p : Proxy) (c : Candidate) (a : ResponseAction) (n : ProxyCounters)
      → IsCollisionFree sha256
      → Inv sha256 p
      → IsPrepared c
      → preflight sha256 p c ≡ ok (a, n)
      → Sound sha256 p (commit sha256 p c a n)
  committed-Sound p c a n apart v w e =
      let (kept, written) = commit-Inv sha256 p c a n apart v w.wire e in
      record { keeps = kept; outcome = inr (c.observation, written) }

  not_admitted-Sound :
      (p : Proxy) (c : Candidate) (x : ProxyError)
      → Inv sha256 p
      → IsPrepared c
      → (preflight sha256 p c ≡ err x) ⊎ (x ≡ closed_proxy) ⊎ (x ≡ candidate_limits_mismatch)
      → Sound sha256 p {A = Observation} (p, err x)
  not_admitted-Sound p c x v w (inl e) = refused_as_it_was p x v (preflight-err p c x v w e)
  not_admitted-Sound p c x v w (inr (inl e)) = refused_as_it_was p x v (λ same. ground arith)
  not_admitted-Sound p c x v w (inr (inr e)) = refused_as_it_was p x v (λ same. ground arith)

  -- Admission is atomic: on a session that satisfies its invariant, admitting a prepared
  -- candidate either succeeds or leaves the session as it was, keeps the invariant, and never
  -- reports an inconsistent correlation state. SHA-256 is taken to be free of collisions on
  -- request identities.
  pub admit-Sound :
      (p : Proxy) (c : Candidate)
      → IsCollisionFree sha256
      → Inv sha256 p
      → IsPrepared c
      → Sound sha256 p (admit sha256 p c)
  admit-Sound p c apart v w =
      admit_cases sha256 p c (Sound sha256 p) (λ x why. not_admitted-Sound p c x v w why)
        λ a n e. committed-Sound p c a n apart v w e

  pub admit_candidate-Sound :
      (p : Proxy) (c : Candidate)
      → IsCollisionFree sha256
      → Inv sha256 p
      → IsPrepared c
      → Sound sha256 p (admit_candidate sha256 p c)
  admit_candidate-Sound p c apart v w =
      admit_candidate_cases sha256 p c (Sound sha256 p) (λ x why. not_admitted-Sound p c x v w why)
        λ a n e. committed-Sound p c a n apart v w e

  pub good-Sound :
      {A : Type 0} (p r : Proxy) (y : A) → Inv sha256 r → Sound sha256 p {A = A} (r, ok y)
  good-Sound p r y v = record { keeps = v; outcome = inr (y, refl) }

  unmarked-Sound :
      (p : Proxy) (d : Direction) (f : Frame) (deadline now : ℕ) (x : ProxyError)
      → Inv sha256 p
      → front (queue d p) ≡ some f
      → mark_pending p d (id_of f) deadline ≡ err x
      → Sound sha256 p {A = Option Frame} (p, err x)
  unmarked-Sound p d f deadline now x v at_front failed =
      let (rest, more) = frames_of-front (queue d p) f at_front in
      let (m, good, _) = mark_pending-Good sha256 p d p.counters now f rest v more deadline in
      absurd (ok≢err m x (sym good ∙ failed))

  taken-Sound :
      (p : Proxy) (d : Direction) (f : Frame) (deadline now : ℕ) (n : ProxyCounters) (m : Proxy)
      → Inv sha256 p
      → front (queue d p) ≡ some f
      → mark_pending p d (id_of f) deadline ≡ ok m
      → Sound sha256 p (take_front m d n now)
  taken-Sound p d f deadline now n m v at_front marked =
      let (rest, more) = frames_of-front (queue d p) f at_front in
      let (m', good, both) = mark_pending-Good sha256 p d n now f rest v more deadline in
      let same : m' ≡ m = ok-injective m' m (sym good ∙ marked) in
      subst (λ (r : Proxy). Sound sha256 p (take_front r d n now)) same
        (record { keeps = both.0; outcome = inr (some f, both.1) })

  refusal-Sound :
      (p : Proxy) (d : Direction) (now : ℕ) (x : ProxyError)
      → Inv sha256 p
      → (x ≢ inconsistent_correlation_state)
        ⊎ ((f : Frame) × (deadline : ℕ) × (front (queue d p) ≡ some f)
            × (mark_pending p d (id_of f) deadline ≡ err x))
      → Sound sha256 p {A = Option Frame} (p, err x)
  refusal-Sound p d now x v (inl sane) = refused_as_it_was p x v sane
  refusal-Sound p d now x v (inr (f, deadline, at_front, failed)) =
      unmarked-Sound p d f deadline now x v at_front failed

  -- Release is atomic: on a session that satisfies its invariant, releasing the next frame of a
  -- direction either succeeds or leaves the session as it was, keeps the invariant, and never
  -- reports an inconsistent correlation state.
  pub release-Sound :
      (instant_max : ℕ) (p : Proxy) (d : Direction) (now : ℕ)
      → Inv sha256 p
      → Sound sha256 p (release instant_max p d now)
  release-Sound instant_max p d now v =
      release_cases instant_max p d now (Sound sha256 p) (λ x why. refusal-Sound p d now x v why)
        (λ none_left.
          good-Sound p (record p { last_observed_time = some now }) none
            (set_counters-Inv sha256 p v p.counters (some now)))
        λ f deadline n m at_front marked. taken-Sound p d f deadline now n m v at_front marked
