-- ===== src/Examples/Wire.antt =====
-- Frame headers, limits and versions.
use weregopher.Base.{ℕ, ◌≡◌, refl, List, [], ◌∷◌, arith, ok, from_le_bytes}
use weregopher.Protocol.Kind.{heartbeat, try_from}
use weregopher.Protocol.Header.{FrameHeader, encode, decode}
use weregopher.Protocol.Header.RoundTrip.{InRange, decode-encode, encode-decode}
use weregopher.Protocol.Limits.{
  ProtocolLimits, secure_default, validate_nonzero, validate, lower, negotiate,
}
use weregopher.Protocol.Limits.Meet.{IsPositive, Within, negotiate-greatest}
use weregopher.Protocol.Version.{ProtocolVersionRange}

abbrev header : FrameHeader
header = record {
  frame_length = 64;
  protocol_major = 1;
  protocol_minor = 0;
  message_kind = heartbeat;
  flags = 0;
  request_id = 9;
  sequence = 300;
}

header-InRange : InRange header
header-InRange = omega arith

decode-encode_example : decode (encode header) ≡ ok header
decode-encode_example = decode-encode header header-InRange

abbrev wire : List ℕ
wire =
    64 ∷ 0 ∷ 0 ∷ 0 ∷ 1 ∷ 0 ∷ 0 ∷ 0 ∷ 28 ∷ 0 ∷ 0 ∷ 0 ∷ 9 ∷ 0 ∷ 0 ∷ 0 ∷ 0 ∷ 0 ∷ 0 ∷ 0 ∷ 44 ∷ 1 ∷ 0 ∷ 0
    ∷ 0 ∷ 0 ∷ 0 ∷ 0 ∷ []

wire-decode : decode wire ≡ ok header
unfolding decode from_le_bytes try_from
wire-decode = refl

encode-decode_example : encode header ≡ wire
encode-decode_example = encode-decode wire (omega arith) header wire-decode

abbrev small : ProtocolLimits
small = record secure_default { max_frame_bytes = 16 }

abbrev few : ProtocolLimits
few = record secure_default { max_pending_requests = 4 }

abbrev both : ProtocolLimits
both = record small { max_pending_requests = 4 }

negotiate-greatest_example :
    IsPositive both × Within both small × Within both few × Within both both
negotiate-greatest_example =
    negotiate-greatest small few both (unfold negotiate validate validate_nonzero lower in refl)
      (omega arith) (omega arith)

abbrev versions : ℕ → ℕ → ProtocolVersionRange
versions low high = record {
  minimum = record { major = 1; minor = low };
  maximum = record { major = 1; minor = high };
}
