-- ===== src/Protocol/Header/RoundTrip.antt =====
-- The header codec is exact in both directions.
use weregopher.Base.{
  ℕ, ◌≡◌, refl, ◌≤◌, List, [], ◌∷◌, ok, ◌>>=◌, >>=-eq-ok, arith, length, All, IsByte, u16_max,
  u32_max, u64_max, to_le_bytes, from_le_bytes, to_le_bytes-from_le_bytes,
}
use weregopher.Protocol.Kind.{MessageKind, tag, try_from, try_from-tag, tag-try_from}
use weregopher.Protocol.Header.{
  FrameHeader, encode, decode, byte_at, le_at, check_layout, read_fields,
}

-- The ranges of the fields' types, and the flags that version 1 of the protocol registers.
pub record InRange (h : FrameHeader) : Type 0 where
  pub frame_length : h.frame_length ≤ u32_max
  pub protocol_major : h.protocol_major ≤ u16_max
  pub protocol_minor : h.protocol_minor ≤ u16_max
  pub flags : h.flags ≡ 0
  pub request_id : h.request_id ≤ u64_max
  pub sequence : h.sequence ≤ u64_max

pub length-encode : (h : FrameHeader) → length (encode h) ≡ 28
unfolding encode to_le_bytes
length-encode h = refl

-- Every header in range is decoded from its own encoding.
pub decode-encode : (h : FrameHeader) → InRange h → decode (encode h) ≡ ok h
unfolding decode encode to_le_bytes from_le_bytes
decode-encode h r = ground (arith, try_from-tag h.message_kind)

-- A decoded header is in range.
pub decode-InRange :
    (bytes : List ℕ) → All IsByte bytes → (h : FrameHeader) → decode bytes ≡ ok h → InRange h
unfolding decode from_le_bytes
decode-InRange
      (b0 ∷ b1 ∷ b2 ∷ b3 ∷ b4 ∷ b5 ∷ b6 ∷ b7 ∷ b8 ∷ b9 ∷ b10 ∷ b11 ∷ b12 ∷ b13 ∷ b14 ∷ b15 ∷ b16
        ∷ b17 ∷ b18 ∷ b19 ∷ b20 ∷ b21 ∷ b22 ∷ b23 ∷ b24 ∷ b25 ∷ b26 ∷ b27 ∷ [])
      b h e =
    ground arith
decode-InRange _ b h e = ground arith

-- The fields of a decoded header, by the bytes that they come from.
record Reads (bytes : List ℕ) (h : FrameHeader) : Type 0 where
  frame_length : h.frame_length ≡ le_at 0 4 bytes
  protocol_major : h.protocol_major ≡ le_at 4 2 bytes
  protocol_minor : h.protocol_minor ≡ le_at 6 2 bytes
  message_kind : tag h.message_kind ≡ byte_at 8 bytes
  flags : (h.flags ≡ 0) × (byte_at 9 bytes ≡ 0)
  reserved : (byte_at 10 bytes ≡ 0) × (byte_at 11 bytes ≡ 0)
  request_id : h.request_id ≡ le_at 12 8 bytes
  sequence : h.sequence ≡ le_at 20 8 bytes

check_layout-zero :
    (bytes : List ℕ)
    → check_layout bytes ≡ ok tt
    → (length bytes ≡ 28) × (byte_at 9 bytes ≡ 0) × (byte_at 10 bytes ≡ 0) × (byte_at 11 bytes ≡ 0)
unfolding check_layout
check_layout-zero bytes e = ground arith

-- A successful decode passed the checks, knew the kind, and read the fields.
decode-steps :
    (bytes : List ℕ) (h : FrameHeader)
    → decode bytes ≡ ok h
    → (check_layout bytes ≡ ok tt)
      × ((k : MessageKind) × (try_from (byte_at 8 bytes) ≡ ok k) × (h ≡ read_fields bytes k))
decode-steps bytes h e =
    let (u, checked, rest) =
      >>=-eq-ok (check_layout bytes)
        (λ _. try_from (byte_at 8 bytes) >>= λ k. ok (read_fields bytes k)) {b = h}
        (unfold decode in e) in
    let (k, known, same) =
      >>=-eq-ok (try_from (byte_at 8 bytes)) (λ k. ok (read_fields bytes k)) rest in
    (checked, (k, known, cc (same)))

decode-Reads : (bytes : List ℕ) (h : FrameHeader) → decode bytes ≡ ok h → Reads bytes h
unfolding read_fields
decode-Reads bytes h e =
    let (checked, (k, known, same)) = decode-steps bytes h e in
    let (size, zero9, zero10, zero11) = check_layout-zero bytes checked in
    rw same (record {
      frame_length = refl;
      protocol_major = refl;
      protocol_minor = refl;
      message_kind = tag-try_from (byte_at 8 bytes) k known;
      flags = (zero9, zero9);
      reserved = (zero10, zero11);
      request_id = refl;
      sequence = refl;
    })

zero_word : to_le_bytes 2 0 ≡ 0 ∷ 0 ∷ []
unfolding to_le_bytes
zero_word = refl

encode-Reads :
    (bytes : List ℕ) (h : FrameHeader)
    → length bytes ≡ 28
    → All IsByte bytes
    → Reads bytes h
    → encode h ≡ bytes
unfolding encode
encode-Reads
      (b0 ∷ b1 ∷ b2 ∷ b3 ∷ b4 ∷ b5 ∷ b6 ∷ b7 ∷ b8 ∷ b9 ∷ b10 ∷ b11 ∷ b12 ∷ b13 ∷ b14 ∷ b15 ∷ b16
        ∷ b17 ∷ b18 ∷ b19 ∷ b20 ∷ b21 ∷ b22 ∷ b23 ∷ b24 ∷ b25 ∷ b26 ∷ b27 ∷ [])
      h size b r =
    simp
      (
        r.frame_length,
        r.protocol_major,
        r.protocol_minor,
        r.message_kind,
        r.flags.0,
        r.request_id,
        r.sequence,
        zero_word,
        to_le_bytes-from_le_bytes (b0 ∷ b1 ∷ b2 ∷ b3 ∷ []) (omega arith),
        to_le_bytes-from_le_bytes (b4 ∷ b5 ∷ []) (omega arith),
        to_le_bytes-from_le_bytes (b6 ∷ b7 ∷ []) (omega arith),
        to_le_bytes-from_le_bytes (b12 ∷ b13 ∷ b14 ∷ b15 ∷ b16 ∷ b17 ∷ b18 ∷ b19 ∷ [])
            (omega arith),
        to_le_bytes-from_le_bytes (b20 ∷ b21 ∷ b22 ∷ b23 ∷ b24 ∷ b25 ∷ b26 ∷ b27 ∷ [])
            (omega arith),
      )
      (rw (r.flags.1, r.reserved.0, r.reserved.1))
encode-Reads _ h size b r = absurd (omega arith)

-- A list of bytes that decodes is the encoding of its header, byte for byte.
pub encode-decode :
    (bytes : List ℕ) → All IsByte bytes → (h : FrameHeader) → decode bytes ≡ ok h → encode h ≡ bytes
encode-decode bytes b h e =
    encode-Reads bytes h (check_layout-zero bytes (decode-steps bytes h e).0).0 b
      (decode-Reads bytes h e)
