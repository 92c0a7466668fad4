-- ===== src/Protocol/Version.antt =====
-- Versions, features and heartbeats: crates/weregopher-domain/src/runtime_protocol.rs.
pub mod Common
use weregopher.Base.{
  ℕ, Bool, ◌&&◌, ◌||◌, not, Option, none, some, Result, ok, err, ◌>>=◌, ◌>>◌, reject_if, ltb, leb,
  ◌==◌, if◌then◌else◌, List,
}
use weregopher.Protocol.Limits.{ProtocolLimitError}

pub data ContractError : Type 0 where
  zero_protocol_major version_range_major_mismatch inverted_version_range : ContractError
  empty_text : (field : List ℕ) → ContractError
  text_exceeded : (field : List ℕ) (maximum actual : ℕ) → ContractError
  zero_nonce_proof : ContractError
  limits : ProtocolLimitError → ContractError
  zero_heartbeat_duration inverted_heartbeat_policy heartbeat_timeout_exceeded : ContractError
  zero_request_id zero_call_deadline call_deadline_exceeded : ContractError
  frame_without_renderer frame_renderer_mismatch : ContractError
  world_without_frame world_frame_mismatch : ContractError
  graph_nodes_exceeded : (maximum actual : ℕ) → ContractError
  graph_node_count_overflow : ContractError
  graph_depth_exceeded : (maximum actual : ℕ) → ContractError
  graph_depth_overflow budget_allocation_failed : ContractError
  inline_bytes_exceeded : (maximum actual : ℕ) → ContractError
  duplicate_object_key : (key : List ℕ) → ContractError
  non_canonical_float non_canonical_big_int invalid_regular_expression_flags : ContractError
  cross_application_handle remote_handle_count_overflow : ContractError
  remote_handles_exceeded : (maximum actual : ℕ) → ContractError
  typed_array_range_overflow typed_array_range_exceeded : ContractError
  zero_stream_credit zero_stream_sequence empty_stream_data : ContractError

pub record ProtocolVersion : Type 0 where
  pub major : ℕ  -- u16
  pub minor : ℕ  -- u16

unfoldable pub new_version : ℕ → ℕ → Result ContractError ProtocolVersion
new_version major minor =
    if major == 0 then err zero_protocol_major else ok (record { major = major; minor = minor })

pub record ProtocolVersionRange : Type 0 where
  pub minimum : ProtocolVersion
  pub maximum : ProtocolVersion

unfoldable pub new_range :
    ProtocolVersion → ProtocolVersion → Result ContractError ProtocolVersionRange
new_range minimum maximum = do
  reject_if (not (minimum.major == maximum.major)) version_range_major_mismatch
  reject_if (ltb maximum.minor minimum.minor) inverted_version_range
  ok (record { minimum = minimum; maximum = maximum })

unfoldable pub negotiate_range :
    ProtocolVersionRange → ProtocolVersionRange → Option ProtocolVersion
negotiate_range self other =
    let minimum_minor =
      if ltb other.minimum.minor self.minimum.minor
      then self.minimum.minor
      else other.minimum.minor in
    let maximum_minor =
      if ltb self.maximum.minor other.maximum.minor
      then self.maximum.minor
      else other.maximum.minor in
    if not (self.minimum.major == other.minimum.major)
    then none
    else if ltb maximum_minor minimum_minor
    then none
    else some (record { major = self.minimum.major; minor = maximum_minor })

pub record ProtocolFeatures : Type 0 where
  pub calls : Bool
  pub cancellation : Bool
  pub events : Bool
  pub credit_streams : Bool
  pub sync_lane : Bool
  pub shared_buffers : Bool

unfoldable pub negotiate_features : ProtocolFeatures → ProtocolFeatures → ProtocolFeatures
negotiate_features self supported = record {
  calls = self.calls && supported.calls;
  cancellation = self.cancellation && supported.cancellation;
  events = self.events && supported.events;
  credit_streams = self.credit_streams && supported.credit_streams;
  sync_lane = self.sync_lane && supported.sync_lane;
  shared_buffers = self.shared_buffers && supported.shared_buffers;
}

pub record HeartbeatPolicy : Type 0 where
  pub interval_millis : ℕ  -- u32
  pub timeout_millis : ℕ  -- u32

abbrev pub max_protocol_heartbeat_millis : ℕ
max_protocol_heartbeat_millis = 60000

unfoldable pub new_heartbeat : ℕ → ℕ → Result ContractError HeartbeatPolicy
new_heartbeat interval_millis timeout_millis = do
  reject_if (interval_millis == 0 || timeout_millis == 0) zero_heartbeat_duration
  reject_if (ltb timeout_millis interval_millis) inverted_heartbeat_policy
  reject_if (ltb max_protocol_heartbeat_millis timeout_millis) heartbeat_timeout_exceeded
  ok (record { interval_millis = interval_millis; timeout_millis = timeout_millis })
