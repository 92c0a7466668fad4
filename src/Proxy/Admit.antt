-- ===== src/Proxy/Admit.antt =====
-- Admission of one prepared frame.
pub mod Cases
use weregopher.Base.{
  ℕ, Bool, true, false, List, Result, ok, err, ◌>>=◌, ◌>>◌, not, if◌then◌else◌, length,
}
use weregopher.Proxy.Limits.{ProxyLimits, limits_eq}
use weregopher.Proxy.Message.{Direction, client_to_server, server_to_client, Observation, Frame}
use weregopher.Proxy.Queue.{
  ProxyError, closed_proxy, candidate_limits_mismatch, ensure_capacity, push_after_capacity_check,
}
use weregopher.Proxy.State.{
  Proxy, ProxyState, open_state, closed_state, ProxyCounters, queue, set_queue, increment, add,
}
use weregopher.Proxy.Correlation.{
  ResponseAction, late, unmatched, preflight_correlation, apply_correlation,
}

pub record Candidate : Type 0 where
  pub prepared_limits : ProxyLimits
  pub observation : Observation
  pub json_bytes : List ℕ

abbrev pub is_closed : ProxyState → Bool
is_closed open_state = false
is_closed closed_state = true

-- The counters that an accepted message moves, each checked before anything is written.
abbrev accepted_next : Direction → ProxyCounters → ℕ → Result ProxyError ProxyCounters
accepted_next client_to_server c byte_length = do
  messages ← increment c.accepted_client_messages
  bytes ← add c.accepted_client_bytes byte_length
  ok (record c { accepted_client_messages = messages; accepted_client_bytes = bytes })
accepted_next server_to_client c byte_length = do
  messages ← increment c.accepted_server_messages
  bytes ← add c.accepted_server_bytes byte_length
  ok (record c { accepted_server_messages = messages; accepted_server_bytes = bytes })

abbrev response_next : ResponseAction → ProxyCounters → Result ProxyError ProxyCounters
response_next unmatched c = do
  n ← increment c.unmatched_responses
  ok (record c { unmatched_responses = n })
response_next late c = do n ← increment c.late_responses; ok (record c { late_responses = n })
response_next _ c = ok c

unfoldable pub next_counters :
    Direction → ProxyCounters → ℕ → ResponseAction → Result ProxyError ProxyCounters
next_counters direction c byte_length action = do
  accepted ← accepted_next direction c byte_length
  response_next action accepted

module _ (sha256 : List ℕ → List ℕ) where
  -- What `admit_candidate` checks before it writes.
  unfoldable pub preflight : Proxy → Candidate → Result ProxyError (ResponseAction × ProxyCounters)
  preflight self candidate = do
    let direction = candidate.observation.direction
    ensure_capacity (queue direction self) (length candidate.json_bytes)
    action ← preflight_correlation sha256 self candidate.observation
    counters ← next_counters direction self.counters (length candidate.json_bytes) action
    ok (action, counters)

  unfoldable pub commit :
      Proxy → Candidate → ResponseAction → ProxyCounters → Proxy × Result ProxyError Observation
  commit self candidate action counters =
      let observation = candidate.observation in
      let direction = observation.direction in
      let frame : Frame = record { observation = observation; json_bytes = candidate.json_bytes } in
      let (correlated, applied) = apply_correlation sha256 self observation action in
      let pushed =
        set_queue direction (push_after_capacity_check (queue direction correlated) frame)
          correlated in
      elim applied [
        | err e ↦ (correlated, err e)
        | ok _ ↦ (record pushed { counters = counters }, ok observation)
      ]

  unfoldable pub admit_candidate : Proxy → Candidate → Proxy × Result ProxyError Observation
  admit_candidate self candidate =
      if is_closed self.state then (self, err closed_proxy) else elim (preflight self candidate) [
        | err e ↦ (self, err e)
        | ok (action, counters) ↦ commit self candidate action counters
      ]

  unfoldable pub admit : Proxy → Candidate → Proxy × Result ProxyError Observation
  unfolding admit_candidate
  admit self candidate =
      if is_closed self.state
      then (self, err closed_proxy)
      else if not (limits_eq candidate.prepared_limits self.limits)
      then (self, err candidate_limits_mismatch)
      else admit_candidate self candidate
