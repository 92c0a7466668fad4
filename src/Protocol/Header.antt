-- ===== src/Protocol/Header.antt =====
-- The frame header and its wire codec: crates/weregopher-domain/src/protocol.rs.
pub mod RoundTrip
use weregopher.Base.{
  ℕ, zero, suc, List, [], ◌∷◌, ◌++◌, Result, ok, err, ◌>>=◌, ◌>>◌, reject_if, not, ◌||◌, ◌==◌,
  if◌then◌else◌, length, take, drop, to_le_bytes, from_le_bytes,
}
use weregopher.Protocol.Kind.{
  MessageKind, FrameHeaderError, invalid_length, reserved_bits_set, unknown_flags, tag, try_from,
}

abbrev pub frame_header_len : ℕ
frame_header_len = 28

pub record FrameHeader : Type 0 where
  pub frame_length : ℕ  -- u32
  pub protocol_major : ℕ  -- u16
  pub protocol_minor : ℕ  -- u16
  pub message_kind : MessageKind
  pub flags : ℕ  -- u8
  pub request_id : ℕ  -- u64
  pub sequence : ℕ  -- u64

unfoldable pub new : ℕ → ℕ → ℕ → MessageKind → ℕ → ℕ → FrameHeader
new frame_length protocol_major protocol_minor message_kind request_id sequence = record {
  frame_length = frame_length;
  protocol_major = protocol_major;
  protocol_minor = protocol_minor;
  message_kind = message_kind;
  flags = 0;
  request_id = request_id;
  sequence = sequence;
}

unfoldable pub encode : FrameHeader → List ℕ
encode h =
    to_le_bytes 4 h.frame_length
    ++ (to_le_bytes 2 h.protocol_major
        ++ (to_le_bytes 2 h.protocol_minor
            ++ (tag h.message_kind
                ∷ h.flags
                ∷ (to_le_bytes 2 0 ++ (to_le_bytes 8 h.request_id ++ to_le_bytes 8 h.sequence)))))

-- `bytes[i]`, where the length was checked before.
abbrev pub byte_at : ℕ → List ℕ → ℕ
byte_at i [] = 0
byte_at zero (b ∷ bs) = b
byte_at (suc i) (b ∷ bs) = byte_at i bs

-- The integer of `width` bytes at offset `i`.
abbrev pub le_at : ℕ → ℕ → List ℕ → ℕ
le_at i width bytes = from_le_bytes (take width (drop i bytes))

-- The checks that `decode` makes before it reads a field.
unfoldable pub check_layout : List ℕ → Result FrameHeaderError (Unit {0})
check_layout bytes = do
  reject_if (not (length bytes == frame_header_len)) (invalid_length (length bytes))
  reject_if (not (byte_at 10 bytes == 0) || not (byte_at 11 bytes == 0)) reserved_bits_set
  reject_if (not (byte_at 9 bytes == 0)) (unknown_flags (byte_at 9 bytes))

-- The record that `decode` returns.
unfoldable pub read_fields : List ℕ → MessageKind → FrameHeader
read_fields bytes message_kind = record {
  frame_length = le_at 0 4 bytes;
  protocol_major = le_at 4 2 bytes;
  protocol_minor = le_at 6 2 bytes;
  message_kind = message_kind;
  flags = byte_at 9 bytes;
  request_id = le_at 12 8 bytes;
  sequence = le_at 20 8 bytes;
}

unfoldable pub decode : List ℕ → Result FrameHeaderError FrameHeader
unfolding check_layout read_fields
decode bytes = do
  check_layout bytes
  message_kind ← try_from (byte_at 8 bytes)
  ok (read_fields bytes message_kind)
