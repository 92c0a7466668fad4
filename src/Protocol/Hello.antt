-- ===== src/Protocol/Hello.antt =====
-- The two handshake messages: crates/weregopher-domain/src/runtime_protocol.rs.
-- Identities are the bytes by which the code compares and hashes them.
use weregopher.Base.{ℕ, List, Result, ok, ◌>>◌, reject_if, map_err, bytes_eq, replicate}
use weregopher.Protocol.Limits.{ProtocolLimits, validate}
use weregopher.Protocol.Version.{
  ContractError, zero_nonce_proof, limits, ProtocolVersion, ProtocolVersionRange, ProtocolFeatures,
  HeartbeatPolicy,
}

pub record RuntimeBackendIdentity : Type 0 where
  pub id : List ℕ
  pub version : List ℕ

pub record RuntimeHello : Type 0 where
  pub runtime : List ℕ
  pub app : List ℕ
  pub backend : RuntimeBackendIdentity
  pub protocol_range : ProtocolVersionRange
  pub nonce_proof : List ℕ
  pub capabilities : ProtocolFeatures
  pub requested_limits : ProtocolLimits

unfoldable pub new_hello : RuntimeHello → Result ContractError RuntimeHello
new_hello h = do
  reject_if (bytes_eq h.nonce_proof (replicate 32 0)) zero_nonce_proof
  map_err limits (validate h.requested_limits)
  ok h

pub record RuntimeWelcome : Type 0 where
  pub session : List ℕ
  pub version : ProtocolVersion
  pub limits : ProtocolLimits
  pub compatibility : List ℕ
  pub heartbeat : HeartbeatPolicy
  pub features : ProtocolFeatures

unfoldable pub new_welcome : RuntimeWelcome → Result ContractError RuntimeWelcome
new_welcome w = do map_err limits (validate w.limits); ok w
