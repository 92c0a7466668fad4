-- ===== src/Proxy/Correlation.antt =====
-- Requests and the responses that answer them.
use weregopher.Base.{
  ℕ, Bool, true, false, Option, none, some, List, Result, ok, err, ◌>>=◌, ◌>>◌, reject_if, ok_or,
  leb, if◌then◌else◌, length, usize_max, checked_add, bytes_key, is_some,
}
use weregopher.Base.Maps.{get, insert, remove, contains}
use weregopher.Proxy.Message.{
  Direction, opposite, Kind, request, notification, success_response, error_response, RequestId,
  id_key, Observation, request_id_digest,
}
use weregopher.Proxy.Queue.{
  ProxyError, inconsistent_correlation_state, duplicate_request_id, reused_request_id,
  active_request_limit_exceeded, request_history_limit_exceeded, response_before_request_forwarded,
}
use weregopher.Proxy.State.{
  Proxy, ActiveRequestState, queued, pending, requests, request_history, set_requests,
  set_request_history, add_digest,
}

pub data ResponseAction : Type 0 where
  no_action completes_request late unmatched : ResponseAction

-- The unresolved requests of both directions, counted with `checked_add`.
unfoldable pub active_count : Proxy → Result ProxyError ℕ
active_count p =
    ok_or (checked_add usize_max (length p.client_requests) (length p.server_requests))
      active_request_limit_exceeded

-- All identities that the session still tracks.
unfoldable pub tracked_count : Proxy → ℕ → Result ProxyError ℕ
tracked_count p active = do
  with_client ←
      ok_or (checked_add usize_max active (length p.client_request_history))
        request_history_limit_exceeded
  ok_or (checked_add usize_max with_client (length p.server_request_history))
      request_history_limit_exceeded

module _ (sha256 : List ℕ → List ℕ) where
  unfoldable pub is_retired : Proxy → Direction → RequestId → Bool
  is_retired p direction id = contains (request_id_digest sha256 id) (request_history direction p)

  unfoldable pub preflight_request :
      Proxy → Direction → RequestId → Result ProxyError ResponseAction
  unfolding is_retired active_count tracked_count
  preflight_request p direction id = do
    reject_if (is_some (get id (requests direction p))) (duplicate_request_id direction)
    reject_if (is_retired p direction id) (reused_request_id direction)
    active ← active_count p
    reject_if (leb p.limits.active_requests active) active_request_limit_exceeded
    tracked ← tracked_count p active
    reject_if (leb p.limits.request_history tracked) request_history_limit_exceeded
    ok no_action

  abbrev answer : Option ActiveRequestState → Bool → Result ProxyError ResponseAction
  answer (some (pending deadline)) false = ok completes_request
  answer (some (pending deadline)) true = err inconsistent_correlation_state
  answer (some queued) retired = err response_before_request_forwarded
  answer none true = ok late
  answer none false = ok unmatched

  unfoldable pub preflight_response :
      Proxy → Direction → RequestId → Result ProxyError ResponseAction
  unfolding is_retired
  preflight_response p direction id =
      let origin = opposite direction in
      answer (get id (requests origin p)) (is_retired p origin id)

  abbrev preflight_kind :
      Proxy → Kind → Direction → Option RequestId → Result ProxyError ResponseAction
  preflight_kind p request direction none = err inconsistent_correlation_state
  preflight_kind p request direction (some id) = preflight_request p direction id
  preflight_kind p notification direction id = ok no_action
  preflight_kind p success_response direction none = ok unmatched
  preflight_kind p success_response direction (some id) = preflight_response p direction id
  preflight_kind p error_response direction none = ok unmatched
  preflight_kind p error_response direction (some id) = preflight_response p direction id

  unfoldable pub preflight_correlation : Proxy → Observation → Result ProxyError ResponseAction
  unfolding preflight_request preflight_response
  preflight_correlation p o = preflight_kind p o.kind o.direction o.request_id

  -- A write that fails half-way leaves what it wrote: the state stands beside the result.
  unfoldable pub open_request : Proxy → Direction → RequestId → Proxy × Result ProxyError (Unit {0})
  open_request p direction id =
      let before = requests direction p in
      (
        set_requests direction (insert id queued before) p,
        if is_some (get id before) then err inconsistent_correlation_state else ok tt,
      )

  unfoldable pub complete_request :
      Proxy → Direction → RequestId → Proxy × Result ProxyError (Unit {0})
  unfolding is_retired
  complete_request p origin id =
      let before = requests origin p in
      let removed = set_requests origin (remove id before) p in
      let retired =
        set_request_history origin
          (add_digest (request_id_digest sha256 id) (request_history origin removed)) removed in
      if is_some (get id before)
      then (
        retired,
        if is_retired removed origin id then err inconsistent_correlation_state else ok tt,
      )
      else (removed, err inconsistent_correlation_state)

  abbrev apply_kind :
      Proxy
      → Kind
      → ResponseAction
      → Direction
      → Option RequestId
      → Proxy × Result ProxyError (Unit {0})
  apply_kind p request _ direction none = (p, err inconsistent_correlation_state)
  apply_kind p request _ direction (some id) = open_request p direction id
  apply_kind p success_response completes_request direction none =
      (p, err inconsistent_correlation_state)
  apply_kind p success_response completes_request direction (some id) =
      complete_request p (opposite direction) id
  apply_kind p error_response completes_request direction none =
      (p, err inconsistent_correlation_state)
  apply_kind p error_response completes_request direction (some id) =
      complete_request p (opposite direction) id
  apply_kind p _ _ direction id = (p, ok tt)

  unfoldable pub apply_correlation :
      Proxy → Observation → ResponseAction → Proxy × Result ProxyError (Unit {0})
  unfolding open_request complete_request
  apply_correlation p o action = apply_kind p o.kind action o.direction o.request_id
