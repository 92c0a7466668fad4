-- ===== src/Session/Handshake.antt =====
-- The authenticated handshake: crates/weregopher-runtime-protocol/src/session.rs.
-- SHA-256 is the `sha2` crate's, and a parameter.
pub mod Preimage
pub mod Authentication
pub mod Agreement
use Prim.Native.String.{String}
use Prim.Native.Char.{code}
use weregopher.Base.{
  ℕ, zero, suc, Bool, true, false, ◌&&◌, ◌||◌, not, List, [], ◌∷◌, ◌++◌, Option, none, some, Result,
  ok, err, ◌>>=◌, ◌>>◌, reject_if, ok_or, map_err, ltb, leb, ◌==◌, if◌then◌else◌, length, replicate,
  bytes_eq, u64_max, to_le_bytes,
}
use weregopher.Protocol.Limits.{ProtocolLimits, ProtocolLimitError, validate, negotiate}
use weregopher.Protocol.Version.{
  ContractError, ProtocolVersion, ProtocolVersionRange, ProtocolFeatures, HeartbeatPolicy,
  negotiate_range, negotiate_features,
}
use weregopher.Protocol.Hello.{RuntimeBackendIdentity, RuntimeHello, RuntimeWelcome, new_welcome}

abbrev codes : String → List ℕ
codes String.[] = []
codes (String.◌∷◌ c s) = code c ∷ codes s

-- The literal ends in a zero byte.
unfoldable pub nonce_proof_domain : List ℕ
nonce_proof_domain = codes "weregopher.runtime-protocol.nonce-proof.v1" ++ 0 ∷ []

pub data NonceChallengeError : Type 0 where
  all_zero : NonceChallengeError

unfoldable pub from_bytes : List ℕ → Result NonceChallengeError (List ℕ)
from_bytes bytes = if bytes_eq bytes (replicate 32 0) then err all_zero else ok bytes

-- `u64::try_from(value.len()).unwrap_or(u64::MAX)`, and the value.
unfoldable pub length_prefixed : List ℕ → List ℕ
length_prefixed value =
    let size = if leb (length value) u64_max then length value else u64_max in
    to_le_bytes 8 size ++ value

-- The bytes that the proof hashes.
unfoldable pub proof_preimage : List ℕ → List ℕ → List ℕ → RuntimeBackendIdentity → ℕ → List ℕ
proof_preimage nonce runtime app backend peer_pid =
    nonce_proof_domain
    ++ (nonce
        ++ (runtime
            ++ (app
                ++ (length_prefixed backend.id
                    ++ (length_prefixed backend.version ++ to_le_bytes 4 peer_pid)))))

unfoldable pub backend_eq : RuntimeBackendIdentity → RuntimeBackendIdentity → Bool
backend_eq a b = bytes_eq a.id b.id && bytes_eq a.version b.version

pub record HostHandshake : Type 0 where
  pub nonce : List ℕ
  pub expected_peer_pid : ℕ  -- u32
  pub runtime : List ℕ
  pub app : List ℕ
  pub backend : RuntimeBackendIdentity
  pub versions : ProtocolVersionRange
  pub features : ProtocolFeatures
  pub hard_limits : ProtocolLimits
  pub session : List ℕ
  pub compatibility : List ℕ
  pub heartbeat : HeartbeatPolicy

pub data HandshakeError : Type 0 where
  zero_peer_pid runtime_identity_mismatch no_compatible_version : HandshakeError
  nonce_proof_mismatch : HandshakeError
  observed_peer_pid_mismatch : ℕ → ℕ → HandshakeError
  invalid_limits : ProtocolLimitError → HandshakeError
  invalid_welcome : ContractError → HandshakeError

unfoldable pub new : HostHandshake → Result HandshakeError HostHandshake
new h = do
  reject_if (h.expected_peer_pid == 0) zero_peer_pid
  map_err invalid_limits (validate h.hard_limits)
  ok h

unfoldable pub negotiate_offer : HostHandshake → RuntimeHello → Result HandshakeError RuntimeWelcome
negotiate_offer self hello = do
  version ← ok_or (negotiate_range self.versions hello.protocol_range) no_compatible_version
  limits ← map_err invalid_limits (negotiate hello.requested_limits self.hard_limits)
  let features = negotiate_features hello.capabilities self.features
  map_err invalid_welcome (
      new_welcome (record {
        session = self.session;
        version = version;
        limits = limits;
        compatibility = self.compatibility;
        heartbeat = self.heartbeat;
        features = features;
      }))

module _ (sha256 : List ℕ → List ℕ) where
  unfoldable pub nonce_possession_proof :
      List ℕ → List ℕ → List ℕ → RuntimeBackendIdentity → ℕ → List ℕ
  nonce_possession_proof nonce runtime app backend peer_pid =
      sha256 (proof_preimage nonce runtime app backend peer_pid)

  -- What `negotiate` checks of the peer before it looks at the offer.
  unfoldable pub authenticate : HostHandshake → RuntimeHello → ℕ → Result HandshakeError (Unit {0})
  authenticate self hello observed_peer_pid = do
    reject_if (not (observed_peer_pid == self.expected_peer_pid))
        (observed_peer_pid_mismatch self.expected_peer_pid observed_peer_pid)
    reject_if
        (not (bytes_eq hello.runtime self.runtime)
          || not (bytes_eq hello.app self.app)
          || not (backend_eq hello.backend self.backend))
        runtime_identity_mismatch
    reject_if
        (not (
          bytes_eq hello.nonce_proof (
            nonce_possession_proof self.nonce self.runtime self.app self.backend
              observed_peer_pid)))
        nonce_proof_mismatch

  unfoldable pub negotiate_hello :
      HostHandshake → RuntimeHello → ℕ → Result HandshakeError RuntimeWelcome
  unfolding authenticate negotiate_offer
  negotiate_hello self hello observed_peer_pid = do
    authenticate self hello observed_peer_pid
    negotiate_offer self hello

pub record WorkerHandshake : Type 0 where
  pub versions : ProtocolVersionRange
  pub offered_features : ProtocolFeatures
  pub requested_limits : ProtocolLimits

pub data WorkerHandshakeError : Type 0 where
  unsupported_version features_expanded limits_expanded : WorkerHandshakeError
  worker_invalid_limits : ProtocolLimitError → WorkerHandshakeError

unfoldable pub from_hello : RuntimeHello → WorkerHandshake
from_hello hello = record {
  versions = hello.protocol_range;
  offered_features = hello.capabilities;
  requested_limits = hello.requested_limits;
}

unfoldable pub features_are_subset : ProtocolFeatures → ProtocolFeatures → Bool
features_are_subset selected offered =
    (not selected.calls || offered.calls)
    && (not selected.cancellation || offered.cancellation)
    && (not selected.events || offered.events)
    && (not selected.credit_streams || offered.credit_streams)
    && (not selected.sync_lane || offered.sync_lane)
    && (not selected.shared_buffers || offered.shared_buffers)

-- The derived equality of `ProtocolLimits`.
unfoldable pub limits_eq : ProtocolLimits → ProtocolLimits → Bool
limits_eq a b =
    a.max_frame_bytes == b.max_frame_bytes
    && a.max_graph_nodes == b.max_graph_nodes
    && a.max_object_depth == b.max_object_depth
    && a.max_string_bytes == b.max_string_bytes
    && a.max_inline_buffer_bytes == b.max_inline_buffer_bytes
    && a.max_pending_requests == b.max_pending_requests
    && a.max_remote_handles == b.max_remote_handles
    && a.max_open_streams == b.max_open_streams
    && a.max_listener_count == b.max_listener_count

unfoldable pub accept : WorkerHandshake → RuntimeWelcome → Result WorkerHandshakeError (Unit {0})
accept self welcome = do
  let selected = welcome.version
  reject_if
      (not (selected.major == self.versions.minimum.major)
        || ltb selected.minor self.versions.minimum.minor
        || ltb self.versions.maximum.minor selected.minor)
      unsupported_version
  reject_if (not (features_are_subset welcome.features self.offered_features)) features_expanded
  bounded ← map_err worker_invalid_limits (negotiate welcome.limits self.requested_limits)
  reject_if (not (limits_eq bounded welcome.limits)) limits_expanded
  ok tt
