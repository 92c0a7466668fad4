-- ===== src/Protocol/Limits.antt =====
-- Connection limits: crates/weregopher-domain/src/protocol.rs.
pub mod Meet
use Prim.Native.String.{String}
use weregopher.Base.{ℕ, ◌≡◌, ◌≤◌, ◌<◌, Result, ok, err, ◌>>=◌, ◌>>◌, min, ◌==◌, if◌then◌else◌, ◌*◌}

pub record ProtocolLimits : Type 0 where
  pub max_frame_bytes : ℕ  -- u32
  pub max_graph_nodes : ℕ  -- u32
  pub max_object_depth : ℕ  -- u16
  pub max_string_bytes : ℕ  -- u32
  pub max_inline_buffer_bytes : ℕ  -- u32
  pub max_pending_requests : ℕ  -- u32
  pub max_remote_handles : ℕ  -- u32
  pub max_open_streams : ℕ  -- u16
  pub max_listener_count : ℕ  -- u32

pub data ProtocolLimitError : Type 0 where
  zero_limit : String → ProtocolLimitError

abbrev pub secure_default : ProtocolLimits
secure_default = record {
  max_frame_bytes = 4 * 1024 * 1024;
  max_graph_nodes = 50000;
  max_object_depth = 64;
  max_string_bytes = 2 * 1024 * 1024;
  max_inline_buffer_bytes = 256 * 1024;
  max_pending_requests = 1024;
  max_remote_handles = 10000;
  max_open_streams = 256;
  max_listener_count = 2048;
}

unfoldable pub validate_nonzero : String → ℕ → Result ProtocolLimitError (Unit {0})
validate_nonzero field value = if value == 0 then err (zero_limit field) else ok tt

unfoldable pub validate : ProtocolLimits → Result ProtocolLimitError (Unit {0})
unfolding validate_nonzero
validate l = do
  validate_nonzero "max_frame_bytes" l.max_frame_bytes
  validate_nonzero "max_graph_nodes" l.max_graph_nodes
  validate_nonzero "max_object_depth" l.max_object_depth
  validate_nonzero "max_string_bytes" l.max_string_bytes
  validate_nonzero "max_inline_buffer_bytes" l.max_inline_buffer_bytes
  validate_nonzero "max_pending_requests" l.max_pending_requests
  validate_nonzero "max_remote_handles" l.max_remote_handles
  validate_nonzero "max_open_streams" l.max_open_streams
  validate_nonzero "max_listener_count" l.max_listener_count

-- The record that `negotiate` builds from two valid sets of limits.
unfoldable pub lower : ProtocolLimits → ProtocolLimits → ProtocolLimits
lower a b = record {
  max_frame_bytes = min a.max_frame_bytes b.max_frame_bytes;
  max_graph_nodes = min a.max_graph_nodes b.max_graph_nodes;
  max_object_depth = min a.max_object_depth b.max_object_depth;
  max_string_bytes = min a.max_string_bytes b.max_string_bytes;
  max_inline_buffer_bytes = min a.max_inline_buffer_bytes b.max_inline_buffer_bytes;
  max_pending_requests = min a.max_pending_requests b.max_pending_requests;
  max_remote_handles = min a.max_remote_handles b.max_remote_handles;
  max_open_streams = min a.max_open_streams b.max_open_streams;
  max_listener_count = min a.max_listener_count b.max_listener_count;
}

unfoldable pub negotiate :
    ProtocolLimits → ProtocolLimits → Result ProtocolLimitError ProtocolLimits
negotiate requested hard_cap = do
  validate requested
  validate hard_cap
  ok (lower requested hard_cap)
