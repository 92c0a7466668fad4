-- ===== src/Codec/Frames/Plan.antt =====
-- What a send plans before it writes, and reads of bytes that are there.
use weregopher.Protocol.Header as Header
use weregopher.Protocol.Header.{FrameHeader, frame_header_len, encode, decode}
use weregopher.Base.{
  ℕ, ◌+◌, ◌≤◌, ◌≡◌, refl, ap, ◌∙◌, inl, inr, true, some, List, [], ◌∷◌, ◌++◌, arith, ltb, leb,
  Bool-cases, Option-cases, length, take, drop, length-append, take-append_length,
  drop-append_length, ok, Result-cases, u32_max, u64_max, usize_max, checked_add,
}
use weregopher.Protocol.Limits.{ProtocolLimits}
use weregopher.Codec.Frames.{
  ProtocolMessage, FramedWriter, write_pieces, plan_frame, FramedReader, read_exact,
}

pub read_exact-append : (n : ℕ) (xs ys : List ℕ) → n ≡ length xs → read_exact n (xs ++ ys) ≡ ok xs
read_exact-append n xs ys e =
    let enough : leb n (length (xs ++ ys)) ≡ true = ground (arith, e, length-append xs ys) in
    let taken : take n (xs ++ ys) ≡ xs = ap (λ m. take m (xs ++ ys)) e ∙ take-append_length xs ys in
    rw (enough, taken) refl

pub append-append : (xs ys zs : List ℕ) → (xs ++ ys) ++ zs ≡ xs ++ (ys ++ zs)
append-append [] ys zs = refl
append-append (x ∷ xs) ys zs = ap (λ rest. x ∷ rest) (append-append xs ys zs)

pub drop-append : (n : ℕ) (xs ys : List ℕ) → n ≡ length xs → drop n (xs ++ ys) ≡ ys
drop-append n xs ys e = ap (λ m. drop m (xs ++ ys)) e ∙ drop-append_length xs ys

pub write_pieces-le :
    (maximum : ℕ) (bytes : List ℕ) (pieces : List (List ℕ)) (out : List ℕ)
    → length bytes ≤ maximum
    → write_pieces maximum bytes pieces ≡ some out
    → length out ≤ maximum
unfolding write_pieces
write_pieces-le maximum bytes [] out short e = ground (arith, short, e)
write_pieces-le maximum bytes (piece ∷ pieces) out short e =
    elim (Bool-cases (leb (length bytes + length piece) usize_max)) [
      | inr bad ↦ absurd (ground (arith, bad, e))
      | inl a ↦ elim (Bool-cases (ltb maximum (length bytes + length piece))) [
        | inl bad ↦ absurd (ground (arith, a, bad, e))
        | inr b ↦
            write_pieces-le maximum (bytes ++ piece) pieces out
              (ground (arith, b, length-append bytes piece)) (rw (a, b, write_pieces) at e)
      ]
    ]

-- Where a reader stands that has received what a writer has sent.
abbrev pub reader_at : FramedWriter → List ℕ → FramedReader
reader_at w input = record {
  input = input;
  version = w.version;
  limits = w.limits;
  next_sequence = w.next_sequence;
}

module _ {M : Type 0} (protocol : ProtocolMessage M) where
  -- What is relied on of rmp_serde: what it wrote of the message, it decodes to the message.
  pub record IsCarried (limits : ProtocolLimits) (value : M) : Type 0 where
    pub decodes :
        (payload : List ℕ)
        → write_pieces limits.max_frame_bytes [] (protocol.write_named value).0 ≡ some payload
        → protocol.from_slice payload ≡ ok value

  -- What a plan that was made consists of.
  pub record Plan (w : FramedWriter) (request_id : ℕ) (value : M) (header : FrameHeader)
      (payload : List ℕ) (next : ℕ) : Type 0 where
    pub valid : protocol.validate_message value w.limits ≡ ok tt
    pub pieces :
        write_pieces w.limits.max_frame_bytes [] (protocol.write_named value).0 ≡ some payload
    pub head :
        header
        ≡ Header.new
            (length payload)
            w.version.major
            w.version.minor
            protocol.kind
            request_id
            w.next_sequence
    pub short : length payload ≤ u32_max
    pub next_of : checked_add u64_max w.next_sequence 1 ≡ some next

  pub plan_frame-Plan :
      (w : FramedWriter) (request_id : ℕ) (value : M) (header : FrameHeader) (payload : List ℕ)
      (next : ℕ)
      → plan_frame protocol w request_id value ≡ ok (header, payload, next)
      → Plan w request_id value header payload next
  unfolding plan_frame Header.new
  plan_frame-Plan w request_id value header payload next e =
      elim (Result-cases (protocol.validate_message value w.limits)) [
        | inr (x, bad) ↦ absurd (ground (arith, bad, e))
        | inl (tt, valid) ↦
            elim (Option-cases
              (write_pieces w.limits.max_frame_bytes [] (protocol.write_named value).0)) [
                | inl bad ↦ absurd (ground (arith, valid, bad, e))
                | inr (bytes, pieces) ↦ elim (Option-cases (protocol.write_named value).1) [
                  | inr (x, bad) ↦ absurd (ground (arith, valid, pieces, bad, e))
                  | inl clean ↦ elim (Bool-cases (ltb u32_max (length bytes))) [
                    | inl bad ↦ absurd (ground (arith, valid, pieces, clean, bad, e))
                    | inr short ↦ elim (Option-cases (checked_add u64_max w.next_sequence 1)) [
                      | inl bad ↦ absurd (ground (arith, valid, pieces, clean, short, bad, e))
                      | inr (n, next_of) ↦
                          let made : ok (
                            Header.new (length bytes) w.version.major w.version.minor protocol.kind
                                request_id w.next_sequence,
                            bytes,
                            n,
                          )
                              ≡ ok (header, payload, next) =
                            rw (valid, pieces, clean, short, next_of, plan_frame) at e in
                          let same : bytes ≡ payload = ground (arith, made) in
                          record {
                            valid = valid;
                            pieces = pieces ∙ ap (λ (bs : List ℕ). some bs) same;
                            head = ground (arith, made);
                            short = ground (arith, short, same);
                            next_of = ground (arith, next_of, made);
                          }
                    ]
                  ]
                ]
              ]
      ]
