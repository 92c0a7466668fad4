-- ===== src/Proxy/Invariant.antt =====
-- What holds of a session between two calls.
use weregopher.Base.{◌⊎◌, ℕ, ◌+◌, ◌≤◌, ◌≡◌, ◌∙◌, ◌≢◌, Option, List, arith, length, Result, err, ok}
use weregopher.Proxy.Message.{Direction, client_to_server, server_to_client}
use weregopher.Proxy.Queue.{ProxyError, inconsistent_correlation_state, ProxyQueue}
use weregopher.Proxy.State.{
  ProxyCounters, Digests, Proxy, queue, requests, request_history, set_queue, set_requests,
  set_request_history,
}
use weregopher.Proxy.Side.{Requests, SideInv}
pub mod Plan
pub mod Completion
pub mod Admission
pub mod Departure
pub mod Expiry
pub mod Calls
pub mod History

-- The unresolved requests of both directions.
abbrev pub active : Proxy → ℕ
active p = length p.client_requests + length p.server_requests

-- These and the retired identities.
abbrev pub tracked : Proxy → ℕ
tracked p = active p + length p.client_request_history + length p.server_request_history

pub record Inv (sha256 : List ℕ → List ℕ) (p : Proxy) : Type 0 where
  pub client : SideInv sha256 p.to_server p.client_requests p.client_request_history
  pub server : SideInv sha256 p.to_client p.server_requests p.server_request_history
  pub active_within : active p ≤ p.limits.active_requests
  pub tracked_within : tracked p ≤ p.limits.request_history
  pub to_server_limits : p.to_server.limits ≡ p.limits.to_server
  pub to_client_limits : p.to_client.limits ≡ p.limits.to_client

-- The end of a call: the invariant holds, and the call succeeded, or it left the session as it was
-- and does not report an inconsistent one.
pub record Sound (sha256 : List ℕ → List ℕ) (p : Proxy) {A : Type 0}
    (r : Proxy × Result ProxyError A) : Type 0 where
  pub keeps : Inv sha256 r.0
  pub outcome :
      ((x : ProxyError) × (r ≡ (p, err x)) × (x ≢ inconsistent_correlation_state))
      ⊎ ((y : A) × (r.1 ≡ ok y))

-- A session with one direction's queue, requests and retired identities replaced.
unfoldable pub set_side : Direction → ProxyQueue → Requests → Digests → Proxy → Proxy
unfolding set_queue set_requests set_request_history
set_side d q m h p = set_queue d q (set_requests d m (set_request_history d h p))

pub active-set_side :
    (d : Direction) (q : ProxyQueue) (m : Requests) (h : Digests) (p : Proxy)
    → active (set_side d q m h p) + length (requests d p) ≡ active p + length m
unfolding set_side requests
active-set_side d q m h p = ground arith

pub tracked-set_side :
    (d : Direction) (q : ProxyQueue) (m : Requests) (h : Digests) (p : Proxy)
    → tracked (set_side d q m h p) + (length (requests d p) + length (request_history d p))
      ≡ tracked p + (length m + length h)
unfolding set_side requests request_history
tracked-set_side d q m h p = ground arith

pub set_side_queue :
    (d : Direction) (q : ProxyQueue) (p : Proxy)
    → set_side d q (requests d p) (request_history d p) p ≡ set_queue d q p
unfolding set_side set_queue requests request_history
set_side_queue d q p = ground arith

module _ (sha256 : List ℕ → List ℕ) (p : Proxy) (v : Inv sha256 p) where
  pub side : (d : Direction) → SideInv sha256 (queue d p) (requests d p) (request_history d p)
  unfolding queue requests request_history
  side client_to_server = v.client
  side server_to_client = v.server

  pub set_side-Inv :
      (d : Direction) (q : ProxyQueue) (m : Requests) (h : Digests)
      → SideInv sha256 q m h
      → q.limits ≡ (queue d p).limits
      → active (set_side d q m h p) ≤ p.limits.active_requests
      → tracked (set_side d q m h p) ≤ p.limits.request_history
      → Inv sha256 (set_side d q m h p)
  unfolding set_side queue
  set_side-Inv client_to_server q m h w same few short = record {
    client = w;
    server = v.server;
    active_within = few;
    tracked_within = short;
    to_server_limits = same ∙ v.to_server_limits;
    to_client_limits = v.to_client_limits;
  }
  set_side-Inv server_to_client q m h w same few short = record {
    client = v.client;
    server = w;
    active_within = few;
    tracked_within = short;
    to_server_limits = v.to_server_limits;
    to_client_limits = same ∙ v.to_client_limits;
  }

  pub set_counters-Inv :
      (n : ProxyCounters) (t : Option ℕ)
      → Inv sha256 (record p { counters = n; last_observed_time = t })
  set_counters-Inv n t = record {
    client = v.client;
    server = v.server;
    active_within = v.active_within;
    tracked_within = v.tracked_within;
    to_server_limits = v.to_server_limits;
    to_client_limits = v.to_client_limits;
  }
