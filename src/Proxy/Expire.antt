-- ===== src/Proxy/Expire.antt =====
-- Expiry of forwarded requests.
pub mod Exact
use mathlib.Core.List.{map}
use weregopher.Base.{
  ℕ, Bool, false, some, List, [], ◌∷◌, ◌++◌, Result, ok, err, ◌>>=◌, ◌>>◌, reject_if, leb, length,
  any,
}
use weregopher.Base.Maps.{Map, keys_where}
use weregopher.Proxy.Message.{Direction, client_to_server, server_to_client, RequestId, id_key}
use weregopher.Proxy.Queue.{ProxyError, inconsistent_correlation_state}
use weregopher.Proxy.State.{Proxy, ActiveRequestState, queued, pending, add, ensure_monotonic_time}
use weregopher.Proxy.Correlation.{is_retired, complete_request}

pub record ExpiredRequest : Type 0 where
  pub origin : Direction
  pub request_id : RequestId

abbrev pub is_due : ℕ → RequestId → ActiveRequestState → Bool
is_due now id queued = false
is_due now id (pending deadline) = leb deadline now

unfoldable pub expired_direction :
    Map RequestId ActiveRequestState → Direction → ℕ → List ExpiredRequest
expired_direction m origin now =
    map (λ id. record { origin = origin; request_id = id }) (keys_where (is_due now) m)

unfoldable pub all_expired : Proxy → ℕ → List ExpiredRequest
unfolding expired_direction
all_expired self now =
    expired_direction self.client_requests client_to_server now
    ++ expired_direction self.server_requests server_to_client now

module _ (sha256 : List ℕ → List ℕ) where
  -- The loop that retires each expired request; an error in it leaves what was retired before.
  unfoldable pub retire_all : Proxy → List ExpiredRequest → Proxy × Result ProxyError (Unit {0})
  unfolding complete_request
  retire_all p [] = (p, ok tt)
  retire_all p (e ∷ es) =
      let (retired, result) = complete_request sha256 p e.origin e.request_id in
      let rest = retire_all retired es in elim result [ err x ↦ (retired, err x) | ok _ ↦ rest ]

  unfoldable pub expire_requests : Proxy → ℕ → Proxy × Result ProxyError (List ExpiredRequest)
  expire_requests self now =
      let expired = all_expired self now in
      let plan : Result ProxyError ℕ = do
        ensure_monotonic_time self now
        next_expired ← add self.counters.expired_requests (length expired)
        reject_if (any (λ e. is_retired sha256 self e.origin e.request_id) expired)
            inconsistent_correlation_state
        ok next_expired
      in elim plan [
        | err x ↦ (self, err x)
        | ok next_expired ↦
            let (retired, result) = retire_all self expired in
            elim result [
              | err x ↦ (retired, err x)
              | ok _ ↦ (
                record retired {
                  counters = record retired.counters { expired_requests = next_expired };
                  last_observed_time = some now;
                },
                ok expired,
              )
            ]
      ]
