-- ===== src/Proxy/Release.antt =====
-- Release of the next frame of a direction.
pub mod Cases
use weregopher.Base.{ℕ, Option, none, some, Result, ok, err, ◌>>=◌, ok_or, checked_add}
use weregopher.Base.Maps.{get, modify}
use weregopher.Proxy.Message.{
  Direction, client_to_server, server_to_client, Kind, request, RequestId, id_key, Frame,
}
use weregopher.Proxy.Queue.{
  ProxyError, inconsistent_correlation_state, deadline_overflow, front, pop,
}
use weregopher.Proxy.State.{
  Proxy, ProxyCounters, ActiveRequestState, queued, pending, queue, set_queue, requests,
  set_requests, increment, ensure_monotonic_time,
}

-- The identity that a released request starts the deadline of.
abbrev pub released_id : Kind → Option RequestId → Option RequestId
released_id request id = id
released_id _ id = none

unfoldable pub forwarded_next : Direction → ProxyCounters → Result ProxyError ProxyCounters
forwarded_next client_to_server c = do
  n ← increment c.forwarded_to_server_messages
  ok (record c { forwarded_to_server_messages = n })
forwarded_next server_to_client c = do
  n ← increment c.forwarded_to_client_messages
  ok (record c { forwarded_to_client_messages = n })

module _ (instant_max : ℕ) where
  unfoldable pub deadline_for : Proxy → ℕ → Option RequestId → Result ProxyError ℕ
  deadline_for self now none = ok 0
  deadline_for self now (some id) =
      ok_or (checked_add instant_max now self.limits.request_timeout) deadline_overflow

-- `get_mut` on the request's entry, which must be queued, and the write of its deadline.
abbrev pub start_deadline :
    Option ActiveRequestState → Proxy → Direction → RequestId → ℕ → Result ProxyError Proxy
start_deadline (some queued) p direction id deadline =
    ok (set_requests direction (modify id (λ _. pending deadline) (requests direction p)) p)
start_deadline _ p direction id deadline = err inconsistent_correlation_state

unfoldable pub mark_pending : Proxy → Direction → Option RequestId → ℕ → Result ProxyError Proxy
mark_pending p direction none deadline = ok p
mark_pending p direction (some id) deadline =
    start_deadline (get id (requests direction p)) p direction id deadline

-- The last steps of `release`, on a state whose request is already pending.
unfoldable pub take_front :
    Proxy → Direction → ProxyCounters → ℕ → Proxy × Result ProxyError (Option Frame)
take_front p direction counters now = elim (pop (queue direction p)) [
  | err e ↦ (p, err e)
  | ok (q, none) ↦ (set_queue direction q p, err inconsistent_correlation_state)
  | ok (q, some frame) ↦ (
    record (set_queue direction q p) { counters = counters; last_observed_time = some now },
    ok (some frame),
  )
]

module _ (instant_max : ℕ) where
  -- What `release` computes before it takes the frame: the counters, and the state in which the
  -- released request is pending.
  unfoldable pub plan_release :
      Proxy → Direction → ℕ → Frame → Result ProxyError (ProxyCounters × Proxy)
  plan_release self direction now frame = do
    let id = released_id frame.observation.kind frame.observation.request_id
    deadline ← deadline_for instant_max self now id
    counters ← forwarded_next direction self.counters
    marked ← mark_pending self direction id deadline
    ok (counters, marked)

  unfoldable pub release_front :
      Proxy → Direction → ℕ → Frame → Proxy × Result ProxyError (Option Frame)
  release_front self direction now frame = elim (plan_release self direction now frame) [
    | err e ↦ (self, err e)
    | ok (counters, marked) ↦ take_front marked direction counters now
  ]

  unfoldable pub release : Proxy → Direction → ℕ → Proxy × Result ProxyError (Option Frame)
  unfolding release_front
  release self direction now = elim (ensure_monotonic_time self now) [
    | err e ↦ (self, err e)
    | ok _ ↦ elim (front (queue direction self)) [
      | none ↦ (record self { last_observed_time = some now }, ok none)
      | some frame ↦ release_front self direction now frame
    ]
  ]
