-- ===== src/Proxy/Invariant/Plan.antt =====
-- What a passed preflight says of the state and of the writes that follow it.
use weregopher.Base.{
  bytes_key, ℕ, ◌<◌, ◌≡◌, refl, ◌⊎◌, inl, inr, false, none, some, List, arith, Option-cases, length,
  ok, Result-cases,
}
use weregopher.Base.Maps.{get}
use weregopher.Proxy.Message.{
  id_key, opposite, Kind, request, notification, success_response, error_response, RequestId,
  Observation,
}
use weregopher.Proxy.State.{queued, pending, ProxyCounters, Proxy, queue, requests}
use weregopher.Proxy.Queue.{ensure_capacity}
use weregopher.Proxy.Correlation.{
  ResponseAction, active_count, tracked_count, is_retired, preflight_request, preflight_response,
  preflight_correlation, complete_request, apply_correlation,
}
use weregopher.Proxy.Admit.{Candidate, preflight}
use weregopher.Proxy.Release.{released_id}
use weregopher.Proxy.Invariant.{active, tracked}

-- A request that is new in its direction.
pub record Opens (sha256 : List ℕ → List ℕ) (p : Proxy) (o : Observation) (id : RequestId)
    : Type 0 where
  pub is_request : o.kind ≡ request
  pub names : o.request_id ≡ some id
  pub new : get id (requests o.direction p) ≡ none
  pub fresh : is_retired sha256 p o.direction id ≡ false
  pub room : active p < p.limits.active_requests
  pub history_room : tracked p < p.limits.request_history

-- A response to a forwarded request of the opposite direction.
pub record Answers (sha256 : List ℕ → List ℕ) (p : Proxy) (o : Observation) (a : ResponseAction)
    (id : RequestId) (deadline : ℕ) : Type 0 where
  pub no_request : released_id o.kind o.request_id ≡ none
  pub names : o.request_id ≡ some id
  pub waits : get id (requests (opposite o.direction) p) ≡ some (pending deadline)
  pub unretired : is_retired sha256 p (opposite o.direction) id ≡ false
  pub applies : apply_correlation sha256 p o a ≡ complete_request sha256 p (opposite o.direction) id

-- Anything else: the correlation state stays as it is.
pub record Passes (sha256 : List ℕ → List ℕ) (p : Proxy) (o : Observation) (a : ResponseAction)
    : Type 0 where
  pub no_request : released_id o.kind o.request_id ≡ none
  pub applies : apply_correlation sha256 p o a ≡ (p, ok tt)

kind_cases :
    (k : Kind)
    → (k ≡ request) ⊎ (k ≡ notification) ⊎ ((k ≡ success_response) ⊎ (k ≡ error_response))
kind_cases request = inl refl
kind_cases notification = inr (inl refl)
kind_cases success_response = inr (inr (inl refl))
kind_cases error_response = inr (inr (inr refl))

module _ (sha256 : List ℕ → List ℕ) (p : Proxy) where
  abbrev pub Plan : Observation → ResponseAction → Type 0
  Plan o a =
      ((id : RequestId) × Opens sha256 p o id)
      ⊎ ((id : RequestId) × (deadline : ℕ) × Answers sha256 p o a id deadline)
      ⊎ Passes sha256 p o a

  preflight_request-Opens :
      (o : Observation) (id : RequestId) (a : ResponseAction)
      → o.kind ≡ request
      → o.request_id ≡ some id
      → preflight_request sha256 p o.direction id ≡ ok a
      → Opens sha256 p o id
  unfolding preflight_request active_count tracked_count
  preflight_request-Opens o id a k i e = ground arith

  response-Plan :
      (o : Observation) (a : ResponseAction)
      → (o.kind ≡ success_response) ⊎ (o.kind ≡ error_response)
      → preflight_correlation sha256 p o ≡ ok a
      → Plan o a
  unfolding preflight_correlation preflight_response apply_correlation
  response-Plan o a k e = elim (Option-cases o.request_id) [
    | inl none_given ↦ inr (inr (ground (arith, k, none_given)))
    | inr (id, i) ↦ elim (Option-cases (get id (requests (opposite o.direction) p))) [
      | inl gone ↦ inr (inr (ground (arith, k, i, gone)))
      | inr (queued, found) ↦ absurd (ground (arith, k, i, found))
      | inr (pending deadline, found) ↦ inr (inl (id, deadline, ground (arith, k, i, found)))
    ]
  ]

  pub preflight_correlation-Plan :
      (o : Observation) (a : ResponseAction) → preflight_correlation sha256 p o ≡ ok a → Plan o a
  unfolding preflight_correlation apply_correlation
  preflight_correlation-Plan o a e = elim (kind_cases o.kind) [
    | inl k ↦ elim (Option-cases o.request_id) [
      | inl none_given ↦ absurd (ground (arith, k, none_given))
      | inr (id, i) ↦ inl (id, preflight_request-Opens o id a k i (ground (arith, k, i)))
    ]
    | inr (inl k) ↦ inr (inr (ground (arith, k)))
    | inr (inr k) ↦ response-Plan o a k e
  ]

  pub preflight-correlates :
      (c : Candidate) (a : ResponseAction) (n : ProxyCounters)
      → preflight sha256 p c ≡ ok (a, n)
      → preflight_correlation sha256 p c.observation ≡ ok a
  unfolding preflight
  preflight-correlates c a n e =
      elim (Result-cases (preflight_correlation sha256 p c.observation)) [
        | inr (x, bad) ↦
            elim (Result-cases
              (ensure_capacity (queue c.observation.direction p) (length c.json_bytes))) [
                | inr (y, full) ↦ absurd (ground (arith, bad, full))
                | inl (u, room) ↦ absurd (ground (arith, bad, room))
              ]
        | inl (b, good) ↦
            elim (Result-cases
              (ensure_capacity (queue c.observation.direction p) (length c.json_bytes))) [
                | inr (y, full) ↦ absurd (ground (arith, good, full))
                | inl (u, room) ↦ ground (arith, good, room)
              ]
      ]

  pub preflight-Plan :
      (c : Candidate) (a : ResponseAction) (n : ProxyCounters)
      → preflight sha256 p c ≡ ok (a, n)
      → (ensure_capacity (queue c.observation.direction p) (length c.json_bytes) ≡ ok tt)
        × Plan c.observation a
  unfolding preflight
  preflight-Plan c a n e =
      elim (Result-cases
        (ensure_capacity (queue c.observation.direction p) (length c.json_bytes))) [
          | inr (x, full) ↦ absurd (ground (arith, full))
          | inl (u, room) ↦ elim (Result-cases (preflight_correlation sha256 p c.observation)) [
            | inr (x, bad) ↦ absurd (ground (arith, room, bad))
            | inl (b, good) ↦
                (room, preflight_correlation-Plan c.observation a (ground (arith, room, good)))
          ]
        ]
