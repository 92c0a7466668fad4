-- ===== src/Proxy/State.antt =====
-- The state of a proxy session, and its parts by direction.
use weregopher.Base.{
  ℕ, Bool, false, Option, none, some, List, [], ◌∷◌, Result, ok, err, ltb, if◌then◌else◌, length,
  u64_max, usize_max, checked_add, saturating_add, ok_or, bytes_key,
}
use weregopher.Base.Maps.{Map, contains}
use weregopher.Proxy.Limits.{ProxyLimits}
use weregopher.Proxy.Message.{Direction, client_to_server, server_to_client, RequestId}
use weregopher.Proxy.Queue.{
  ProxyQueue, ProxyError, diagnostic_counter_overflow, non_monotonic_clock,
}
use weregopher.Proxy.Queue

pub data ProxyState : Type 0 where
  open_state closed_state : ProxyState

pub data ActiveRequestState : Type 0 where
  queued : ActiveRequestState
  pending : ℕ → ActiveRequestState

pub record ProxyCounters : Type 0 where
  pub accepted_client_messages : ℕ
  pub accepted_server_messages : ℕ
  pub accepted_client_bytes : ℕ
  pub accepted_server_bytes : ℕ
  pub forwarded_to_server_messages : ℕ
  pub forwarded_to_client_messages : ℕ
  pub late_responses : ℕ
  pub unmatched_responses : ℕ
  pub expired_requests : ℕ

-- A set of digests is never iterated over, so it is a list without its order of iteration.
abbrev pub Digests : Type 0
Digests = List (List ℕ)

pub record Proxy : Type 0 where
  pub limits : ProxyLimits
  pub state : ProxyState
  pub to_server : ProxyQueue
  pub to_client : ProxyQueue
  pub client_requests : Map RequestId ActiveRequestState
  pub server_requests : Map RequestId ActiveRequestState
  pub client_request_history : Digests
  pub server_request_history : Digests
  pub last_observed_time : Option ℕ
  pub counters : ProxyCounters

abbrev zero_counters : ProxyCounters
zero_counters = record {
  accepted_client_messages = 0;
  accepted_server_messages = 0;
  accepted_client_bytes = 0;
  accepted_server_bytes = 0;
  forwarded_to_server_messages = 0;
  forwarded_to_client_messages = 0;
  late_responses = 0;
  unmatched_responses = 0;
  expired_requests = 0;
}

unfoldable pub new : ProxyLimits → Proxy
unfolding Queue.new
new limits = record {
  limits = limits;
  state = open_state;
  to_server = Queue.new client_to_server limits.to_server;
  to_client = Queue.new server_to_client limits.to_client;
  client_requests = [];
  server_requests = [];
  client_request_history = [];
  server_request_history = [];
  last_observed_time = none;
  counters = zero_counters;
}

unfoldable pub queue : Direction → Proxy → ProxyQueue
queue client_to_server p = p.to_server
queue server_to_client p = p.to_client

unfoldable pub requests : Direction → Proxy → Map RequestId ActiveRequestState
requests client_to_server p = p.client_requests
requests server_to_client p = p.server_requests

unfoldable pub request_history : Direction → Proxy → Digests
request_history client_to_server p = p.client_request_history
request_history server_to_client p = p.server_request_history

-- Writes through `queue_mut`, `requests_mut` and `request_history_mut`.
unfoldable pub set_queue : Direction → ProxyQueue → Proxy → Proxy
set_queue client_to_server q p = record p { to_server = q }
set_queue server_to_client q p = record p { to_client = q }

unfoldable pub set_requests : Direction → Map RequestId ActiveRequestState → Proxy → Proxy
set_requests client_to_server m p = record p { client_requests = m }
set_requests server_to_client m p = record p { server_requests = m }

unfoldable pub set_request_history : Direction → Digests → Proxy → Proxy
set_request_history client_to_server h p = record p { client_request_history = h }
set_request_history server_to_client h p = record p { server_request_history = h }

-- `BTreeSet::insert`: the set after it. It returns whether the digest is new.
unfoldable pub add_digest : List ℕ → Digests → Digests
add_digest d h = if contains d h then h else d ∷ h

unfoldable pub increment : ℕ → Result ProxyError ℕ
increment value = ok_or (checked_add u64_max value 1) diagnostic_counter_overflow

unfoldable pub add : ℕ → ℕ → Result ProxyError ℕ
add value amount = ok_or (checked_add u64_max value amount) diagnostic_counter_overflow

abbrev is_earlier : ℕ → Option ℕ → Bool
is_earlier now none = false
is_earlier now (some previous) = ltb now previous

unfoldable pub ensure_monotonic_time : Proxy → ℕ → Result ProxyError (Unit {0})
ensure_monotonic_time self now =
    if is_earlier now self.last_observed_time then err non_monotonic_clock else ok tt

pub record CloseReport : Type 0 where
  pub messages : ℕ
  pub bytes : ℕ
  pub requests : ℕ
  pub request_history : ℕ

unfoldable pub close : Proxy → Proxy × CloseReport
unfolding Queue.clear
close self =
    let (to_server, to_server_messages, to_server_bytes) = Queue.clear self.to_server in
    let (to_client, to_client_messages, to_client_bytes) = Queue.clear self.to_client in
    (
      record self {
        state = closed_state;
        to_server = to_server;
        to_client = to_client;
        client_requests = [];
        server_requests = [];
        client_request_history = [];
        server_request_history = [];
      },
      record {
        messages = saturating_add usize_max to_server_messages to_client_messages;
        bytes = saturating_add usize_max to_server_bytes to_client_bytes;
        requests =
            saturating_add usize_max (length self.client_requests) (length self.server_requests);
        request_history =
            saturating_add usize_max (length self.client_request_history)
              (length self.server_request_history);
      },
    )
