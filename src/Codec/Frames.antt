-- ===== src/Codec/Frames.antt =====
-- The framed writer and the framed reader.

pub mod Plan
pub mod RoundTrip
use weregopher.Protocol.Header as Header
use weregopher.Protocol.Header.{FrameHeader, frame_header_len, encode, decode}
use weregopher.Base.{
  ◌>>◌, ◌>>=◌, ℕ, Bool, ◌||◌, not, Option, none, some, List, [], ◌∷◌, ◌++◌, ltb, leb, ◌==◌,
  if◌then◌else◌, length, take, drop, Result, ok, err, reject_if, ok_or, map_err, u32_max, u64_max,
  usize_max, checked_add,
}
use weregopher.Protocol.Kind.{MessageKind, FrameHeaderError, tag}
use weregopher.Protocol.Version.{ProtocolVersion}
use weregopher.Protocol.Limits.{ProtocolLimits, ProtocolLimitError, validate}
use weregopher.Codec.Cursor.{MessagePackError}
use weregopher.Codec.Inspect.{inspect_messagepack}

-- A payload's type. `write_named` gives the pieces that rmp_serde writes, and its error where it
-- ends in one; its errors, and those of the contract, are numbers.
pub record ProtocolMessage (M : Type 0) : Type 0 where
  pub kind : MessageKind
  pub validate_message : M → ProtocolLimits → Result ℕ (Unit {0})
  pub write_named : M → List (List ℕ) × Option ℕ
  pub from_slice : List ℕ → Result ℕ M

pub data FrameWriteError : Type 0 where
  limits_refused : ProtocolLimitError → FrameWriteError
  invalid_message encode_failed frame_too_large : ℕ → FrameWriteError
  sequence_exhausted : FrameWriteError
  write_failed : ℕ → FrameWriteError

pub record FramedWriter : Type 0 where
  pub output : List ℕ
  pub version : ProtocolVersion
  pub limits : ProtocolLimits
  pub next_sequence : ℕ

unfoldable pub new_writer :
    List ℕ → ProtocolVersion → ProtocolLimits → Result FrameWriteError FramedWriter
unfolding validate
new_writer output version limits = do
  map_err limits_refused (validate limits)
  ok (record { output = output; version = version; limits = limits; next_sequence = 1 })

-- `BoundedPayload`, piece by piece. Memory is taken to suffice.
unfoldable pub write_pieces : ℕ → List ℕ → List (List ℕ) → Option (List ℕ)
write_pieces maximum bytes [] = some bytes
write_pieces maximum bytes (piece ∷ pieces) =
    let rest = write_pieces maximum (bytes ++ piece) pieces in
    elim (checked_add usize_max (length bytes) (length piece)) [
      | none ↦ none
      | some new_length ↦ if ltb maximum new_length then none else rest
    ]

-- What the transport does with a `write_all`: it takes the bytes, or some of them and fails.
pub data Writing : Type 0 where
  written : Writing
  interrupted : ℕ → ℕ → Writing

unfoldable pub write_all :
    Writing → FramedWriter → List ℕ → FramedWriter × Result FrameWriteError (Unit {0})
write_all written self bytes = (record self { output = self.output ++ bytes }, ok tt)
write_all (interrupted n kind) self bytes =
    (record self { output = self.output ++ take n bytes }, err (write_failed kind))

module _ {M : Type 0} (protocol : ProtocolMessage M) where
  abbrev pub encoded : ℕ → Option (List ℕ) → Option ℕ → Result FrameWriteError (List ℕ)
  encoded maximum none failure = err (frame_too_large maximum)
  encoded maximum (some bytes) none = ok bytes
  encoded maximum (some bytes) (some failure) = err (encode_failed failure)

  -- What `send` works out before it writes: the header, the payload, and the next sequence.
  unfoldable pub plan_frame :
      FramedWriter → ℕ → M → Result FrameWriteError (FrameHeader × List ℕ × ℕ)
  unfolding write_pieces Header.new
  plan_frame self request_id value = do
    map_err invalid_message (protocol.validate_message value self.limits)
    let maximum = self.limits.max_frame_bytes
    let written_pieces = protocol.write_named value
    payload ← encoded maximum (write_pieces maximum [] written_pieces.0) written_pieces.1
    reject_if (ltb u32_max (length payload)) (frame_too_large maximum)
    next_sequence ← ok_or (checked_add u64_max self.next_sequence 1) sequence_exhausted
    ok (
      Header.new (length payload) self.version.major self.version.minor protocol.kind request_id
          self.next_sequence,
      payload,
      next_sequence,
    )

  unfoldable pub send :
      Writing → Writing → FramedWriter → ℕ → M → FramedWriter × Result FrameWriteError FrameHeader
  unfolding plan_frame write_all encode
  send first second self request_id value = elim (plan_frame self request_id value) [
    | err x ↦ (self, err x)
    | ok (header, payload, next_sequence) ↦
        let (begun, head_result) = write_all first self (encode header) in
        let (whole, body_result) = write_all second begun payload in
        elim head_result [
          | err x ↦ (begun, err x)
          | ok _ ↦ elim body_result [
            | err x ↦ (whole, err x)
            | ok _ ↦ (record whole { next_sequence = next_sequence }, ok header)
          ]
        ]
  ]

pub data FrameReadError : Type 0 where
  reader_limits_refused : ProtocolLimitError → FrameReadError
  invalid_header : FrameHeaderError → FrameReadError
  declared_too_large : ℕ → ℕ → FrameReadError
  unexpected_version : ProtocolVersion → ℕ → ℕ → FrameReadError
  unexpected_sequence : ℕ → ℕ → FrameReadError
  unexpected_message_kind : MessageKind → MessageKind → FrameReadError
  payload_allocation_failed : FrameReadError
  invalid_messagepack : MessagePackError → FrameReadError
  decode_failed message_refused : ℕ → FrameReadError
  read_sequence_exhausted unexpected_eof : FrameReadError

pub record FramedReader : Type 0 where
  pub input : List ℕ
  pub version : ProtocolVersion
  pub limits : ProtocolLimits
  pub next_sequence : ℕ

unfoldable pub new_reader :
    List ℕ → ProtocolVersion → ProtocolLimits → Result FrameReadError FramedReader
unfolding validate
new_reader input version limits = do
  map_err reader_limits_refused (validate limits)
  ok (record { input = input; version = version; limits = limits; next_sequence = 1 })

-- `read_exact` of a transport that holds the bytes: what is missing is an unexpected end.
abbrev pub read_exact : ℕ → List ℕ → Result FrameReadError (List ℕ)
read_exact n input = if leb n (length input) then ok (take n input) else err unexpected_eof

unfoldable pub check_header :
    FramedReader → MessageKind → FrameHeader → Result FrameReadError (Unit {0})
check_header self kind header = do
  reject_if (ltb self.limits.max_frame_bytes header.frame_length)
      (declared_too_large self.limits.max_frame_bytes header.frame_length)
  reject_if
      (not (header.protocol_major == self.version.major)
        || not (header.protocol_minor == self.version.minor))
      (unexpected_version self.version header.protocol_major header.protocol_minor)
  reject_if (not (header.sequence == self.next_sequence))
      (unexpected_sequence self.next_sequence header.sequence)
  reject_if (not (tag header.message_kind == tag kind))
      (unexpected_message_kind kind header.message_kind)

abbrev pub header_of : List ℕ → Result FrameReadError FrameHeader
header_of bytes = map_err invalid_header (decode bytes)

module _ {M : Type 0} (protocol : ProtocolMessage M) (try_reserve : Bool) where
  unfoldable pub accept_payload : ProtocolLimits → List ℕ → Result FrameReadError M
  unfolding inspect_messagepack
  accept_payload limits payload = do
    budget ← map_err invalid_messagepack (inspect_messagepack limits try_reserve payload)
    value ← map_err decode_failed (protocol.from_slice payload)
    map_err message_refused (protocol.validate_message value limits)
    ok value

  -- The header and the payload of the next frame, of an input that goes on behind them.
  unfoldable pub receive_frame : FramedReader → Result FrameReadError (FrameHeader × M × ℕ)
  unfolding decode check_header accept_payload
  receive_frame self = do
    header_bytes ← read_exact frame_header_len self.input
    header ← header_of header_bytes
    check_header self protocol.kind header
    reject_if (not try_reserve) payload_allocation_failed
    payload ← read_exact header.frame_length (drop frame_header_len self.input)
    value ← accept_payload self.limits payload
    next_sequence ← ok_or (checked_add u64_max self.next_sequence 1) read_sequence_exhausted
    ok (header, value, next_sequence)

  -- A failed receive leaves its input somewhere behind; the code's reader then still expects the
  -- same sequence. What a failure leaves of the input is not modelled.
  unfoldable pub receive : FramedReader → Result FrameReadError (FramedReader × FrameHeader × M)
  unfolding receive_frame
  receive self = do
    (header, value, next_sequence) ← receive_frame self
    ok (
      record self {
        input = drop header.frame_length (drop frame_header_len self.input);
        next_sequence = next_sequence;
      },
      header,
      value,
    )
