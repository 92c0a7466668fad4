-- ===== src/Proxy/Retirement.antt =====
-- A retired identity stays retired until the session is closed.
use weregopher.Base.{
  bytes_key, ℕ, ◌≡◌, refl, inl, inr, true, false, Option, none, some, List, [], ◌∷◌, arith,
  Option-cases, Result, ok, err,
}
use weregopher.Base.Maps.{get}
use weregopher.Proxy.Queue.{ProxyError, reused_request_id}
use weregopher.Proxy.Message.{
  id_key, Direction, client_to_server, server_to_client, opposite, RequestId, Observation,
  request_id_digest,
}
use weregopher.Proxy.State.{
  ProxyCounters, Proxy, requests, request_history, set_queue, set_requests, set_request_history,
}
use weregopher.Proxy.Correlation.{
  ResponseAction, late, is_retired, preflight_request, preflight_response, open_request,
  complete_request, apply_correlation,
}
use weregopher.Proxy.Admit.{Candidate, commit, admit_candidate, admit}
use weregopher.Proxy.Admit.Cases.{admit_candidate_cases, admit_cases}
use weregopher.Proxy.Release.{mark_pending, take_front, release}
use weregopher.Proxy.Release.Cases.{id_of, release_cases}
use weregopher.Proxy.Expire.{ExpiredRequest, all_expired, retire_all, expire_requests}
use weregopher.Proxy.Run.{Call, ingests, admits, releases, expires, closes, step, run}
use weregopher.Proxy.Invariant.{Inv, side}
use weregopher.Proxy.Invariant.Calls.{AllPrepared}
use weregopher.Proxy.Invariant.History.{run_from-Inv}
use weregopher.Proxy.Side.{contains-add_digest, IsCollisionFree}

-- An identity that a direction retired.
abbrev Retired : (List ℕ → List ℕ) → Direction → RequestId → Proxy → Type 0
Retired sha256 d id p = is_retired sha256 p d id ≡ true

-- No call closes the session.
abbrev pub NeverCloses : List Call → Type 0
NeverCloses [] = Unit
NeverCloses (closes ∷ cs) = true ≡ false
NeverCloses (_ ∷ cs) = NeverCloses cs

pub opposite_twice : (d : Direction) → opposite (opposite d) ≡ d
opposite_twice client_to_server = refl
opposite_twice server_to_client = refl

module _ (sha256 : List ℕ → List ℕ) (d : Direction) (id : RequestId) where
  complete_request-Retired :
      (p : Proxy) (origin : Direction) (j : RequestId)
      → Retired sha256 d id p
      → Retired sha256 d id (complete_request sha256 p origin j).0
  unfolding complete_request is_retired request_history set_requests set_request_history
  complete_request-Retired p origin j h = ground (
    arith,
    contains-add_digest (request_id_digest sha256 j) (request_id_digest sha256 id)
        p.client_request_history,
    contains-add_digest (request_id_digest sha256 j) (request_id_digest sha256 id)
        p.server_request_history,
  )

  apply_correlation-Retired :
      (p : Proxy) (o : Observation) (a : ResponseAction)
      → Retired sha256 d id p
      → Retired sha256 d id (apply_correlation sha256 p o a).0
  unfolding apply_correlation open_request complete_request is_retired request_history set_requests
  apply_correlation-Retired p o a h = elim (Option-cases o.request_id) [
    | inl none_given ↦ ground (arith, none_given)
    | inr (j, given) ↦ ground (arith, given, complete_request-Retired p (opposite o.direction) j h)
  ]

  commit-Retired :
      (p : Proxy) (c : Candidate) (a : ResponseAction) (n : ProxyCounters)
      → Retired sha256 d id p
      → Retired sha256 d id (commit sha256 p c a n).0
  unfolding commit is_retired request_history set_queue
  commit-Retired p c a n h = ground (arith, apply_correlation-Retired p c.observation a h)

  pub retire_all-Retired :
      (p : Proxy) (es : List ExpiredRequest)
      → Retired sha256 d id p
      → Retired sha256 d id (retire_all sha256 p es).0
  unfolding retire_all
  retire_all-Retired p [] h = h
  retire_all-Retired p (e ∷ es) h =
      let next = (complete_request sha256 p e.origin e.request_id).0 in
      let kept = complete_request-Retired p e.origin e.request_id h in
      ground (arith, kept, retire_all-Retired next es kept)

  pub expire_requests-Retired :
      (p : Proxy) (now : ℕ)
      → Retired sha256 d id p
      → Retired sha256 d id (expire_requests sha256 p now).0
  unfolding expire_requests is_retired request_history
  expire_requests-Retired p now h = ground (arith, retire_all-Retired p (all_expired p now) h)

  -- What a call leaves.
  abbrev Stays : {A : Type 0} → Proxy × Result ProxyError A → Type 0
  Stays r = Retired sha256 d id r.0

  mark_pending-Retired :
      (p : Proxy) (from : Direction) (asked : Option RequestId) (deadline : ℕ) (m : Proxy)
      → mark_pending p from asked deadline ≡ ok m
      → Retired sha256 d id p
      → Retired sha256 d id m
  unfolding mark_pending is_retired request_history set_requests
  mark_pending-Retired p from none deadline m e h = ground arith
  mark_pending-Retired p from (some j) deadline m e h = ground arith

  take_front-Retired :
      (p : Proxy) (from : Direction) (n : ProxyCounters) (now : ℕ)
      → Retired sha256 d id p
      → Retired sha256 d id (take_front p from n now).0
  unfolding take_front is_retired request_history set_queue
  take_front-Retired p from n now h = ground arith

  admit-Retired :
      (p : Proxy) (c : Candidate) → Retired sha256 d id p → Retired sha256 d id (admit sha256 p c).0
  admit-Retired p c h =
      admit_cases sha256 p c Stays (λ x why. h) (λ a n e. commit-Retired p c a n h)

  admit_candidate-Retired :
      (p : Proxy) (c : Candidate)
      → Retired sha256 d id p
      → Retired sha256 d id (admit_candidate sha256 p c).0
  admit_candidate-Retired p c h =
      admit_candidate_cases sha256 p c Stays (λ x why. h) (λ a n e. commit-Retired p c a n h)

  release-Retired :
      (instant_max : ℕ) (p : Proxy) (from : Direction) (now : ℕ)
      → Retired sha256 d id p
      → Retired sha256 d id (release instant_max p from now).0
  unfolding is_retired request_history
  release-Retired instant_max p from now h =
      release_cases instant_max p from now Stays (λ x why. h) (λ none_left. ground arith)
        λ f deadline n m at_front marked.
          take_front-Retired m from n now
            (mark_pending-Retired p from (id_of f) deadline m marked h)

  run-Retired :
      (instant_max : ℕ) (p : Proxy) (cs : List Call)
      → NeverCloses cs
      → Retired sha256 d id p
      → Retired sha256 d id (run sha256 instant_max p cs)
  unfolding run step
  run-Retired instant_max p [] open_still h = h
  run-Retired instant_max p (ingests c ∷ cs) open_still h =
      run-Retired instant_max (admit_candidate sha256 p c).0 cs open_still
        (admit_candidate-Retired p c h)
  run-Retired instant_max p (admits c ∷ cs) open_still h =
      run-Retired instant_max (admit sha256 p c).0 cs open_still (admit-Retired p c h)
  run-Retired instant_max p (releases from now ∷ cs) open_still h =
      run-Retired instant_max (release instant_max p from now).0 cs open_still
        (release-Retired instant_max p from now h)
  run-Retired instant_max p (expires now ∷ cs) open_still h =
      run-Retired instant_max (expire_requests sha256 p now).0 cs open_still
        (expire_requests-Retired p now h)
  run-Retired instant_max p (closes ∷ cs) open_still h = absurd (ground arith)

  Retired-gone : (p : Proxy) → Inv sha256 p → Retired sha256 d id p → get id (requests d p) ≡ none
  unfolding is_retired
  Retired-gone p v h = elim (Option-cases (get id (requests d p))) [
    | inl gone ↦ gone
    | inr (a, found) ↦ absurd (ground (arith, found, (side sha256 p v d).unretired id))
  ]

  -- Once an identity is retired in a direction, then after every history of calls with prepared
  -- candidates that does not close the session, a new request with it is refused as reused, and
  -- a response to it is late and completes nothing. The session is taken to satisfy its
  -- invariant, and SHA-256 to be free of collisions on request identities.
  pub retired_for_good :
      (instant_max : ℕ) (p : Proxy) (cs : List Call)
      → IsCollisionFree sha256
      → AllPrepared cs
      → NeverCloses cs
      → Inv sha256 p
      → is_retired sha256 p d id ≡ true
      → (preflight_request sha256 (run sha256 instant_max p cs) d id ≡ err (reused_request_id d))
        × (preflight_response sha256 (run sha256 instant_max p cs) (opposite d) id ≡ ok late)
  unfolding preflight_request preflight_response
  retired_for_good instant_max p cs apart w open_still v h =
      let q = run sha256 instant_max p cs in
      let still = run-Retired instant_max p cs open_still h in
      let gone = Retired-gone q (run_from-Inv sha256 instant_max p cs apart w v) still in
      (ground (arith, gone, still), ground (arith, gone, still, opposite_twice d))
