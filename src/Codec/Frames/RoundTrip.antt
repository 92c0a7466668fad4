-- ===== src/Codec/Frames/RoundTrip.antt =====
-- What a writer sends, a reader of the same connection receives.
use mathlib.Core.Path.{subst}
use weregopher.Protocol.Header as Header
use weregopher.Protocol.Header.{FrameHeader, frame_header_len, encode, decode}
use weregopher.Protocol.Header.RoundTrip.{InRange, length-encode, decode-encode}
use weregopher.Base.{
  ℕ, ◌≤◌, ◌≡◌, refl, sym, ap, ◌∙◌, inl, inr, true, List, [], ◌++◌, arith, length, ok, Result-cases,
  u16_max, u64_max, err, Result,
}
use weregopher.Codec.Inspect.{Budget}
use weregopher.Codec.Frames.{
  ProtocolMessage, FramedWriter, written, write_all, plan_frame, send, check_header, accept_payload,
  receive_frame, receive, inspect_messagepack, FramedReader, MessagePackError, invalid_messagepack,
  FrameReadError,
}
use weregopher.Codec.Frames.Plan.{
  read_exact-append, append-append, drop-append, write_pieces-le, reader_at, IsCarried, Plan,
  plan_frame-Plan,
}

-- The fields of a connection's version, an identity and a sequence are within their types.
pub record IsInRange (w : FramedWriter) (request_id : ℕ) : Type 0 where
  pub major : w.version.major ≤ u16_max
  pub minor : w.version.minor ≤ u16_max
  pub identity : request_id ≤ u64_max
  pub sequence : w.next_sequence ≤ u64_max

module _ {M : Type 0} (protocol : ProtocolMessage M) where
  Plan-InRange :
      (w : FramedWriter) (request_id : ℕ) (value : M) (header : FrameHeader) (payload : List ℕ)
      (next : ℕ)
      → Plan protocol w request_id value header payload next
      → IsInRange w request_id
      → InRange header
  unfolding Header.new
  Plan-InRange w request_id value header payload next p r = record {
    frame_length = ground (arith, p.head, p.short);
    protocol_major = ground (arith, p.head, r.major);
    protocol_minor = ground (arith, p.head, r.minor);
    flags = ground (arith, p.head);
    request_id = ground (arith, p.head, r.identity);
    sequence = ground (arith, p.head, r.sequence);
  }

  check_header-Plan :
      (w : FramedWriter) (request_id : ℕ) (value : M) (header : FrameHeader) (payload : List ℕ)
      (next : ℕ) (input : List ℕ)
      → Plan protocol w request_id value header payload next
      → check_header (reader_at w input) protocol.kind header ≡ ok tt
  unfolding Header.new check_header
  check_header-Plan w request_id value header payload next input p =
      let fit =
        write_pieces-le w.limits.max_frame_bytes [] (protocol.write_named value).0 payload
          (omega arith) p.pieces in
      let made : check_header (reader_at w input) protocol.kind (
            Header.new (length payload) w.version.major w.version.minor protocol.kind request_id
              w.next_sequence)
          ≡ ok tt =
        ground (arith, fit) in
      subst (λ (h : FrameHeader). check_header (reader_at w input) protocol.kind h ≡ ok tt)
        (sym p.head) made

  -- What a reader answers of a frame, by the preflight of its payload.
  abbrev pub Delivery :
      FramedReader
      → FrameHeader
      → M
      → Result MessagePackError Budget
      → Result FrameReadError (FramedReader × FrameHeader × M)
      → Type 0
  Delivery behind header value (ok b) r = r ≡ ok (behind, header, value)
  Delivery behind header value (err x) r = r ≡ err (invalid_messagepack x)

  -- Whatever the reader makes of the payload, it makes of the frame.
  receive-Plan :
      (w : FramedWriter) (request_id : ℕ) (value : M) (header : FrameHeader) (payload : List ℕ)
      (next : ℕ) (tail : List ℕ)
      → Plan protocol w request_id value header payload next
      → IsCarried protocol w.limits value
      → IsInRange w request_id
      → Delivery
          (record (reader_at w tail) { next_sequence = next })
          header
          value
          (inspect_messagepack w.limits true payload)
          (receive protocol true (reader_at w (encode header ++ (payload ++ tail))))
  unfolding receive receive_frame accept_payload Header.new
  receive-Plan w request_id value header payload next tail p c r =
      let rest = payload ++ tail in
      let size : frame_header_len ≡ length (encode header) = sym (length-encode header) in
      let declared : header.frame_length ≡ length payload = ground (arith, p.head) in
      let bytes = read_exact-append frame_header_len (encode header) rest size in
      let behind = drop-append frame_header_len (encode header) rest size in
      let body = read_exact-append header.frame_length payload tail declared in
      let gone = drop-append header.frame_length payload tail declared in
      let head = decode-encode header (Plan-InRange w request_id value header payload next p r) in
      let good =
        check_header-Plan w request_id value header payload next (encode header ++ rest) p in
      elim (Result-cases (inspect_messagepack w.limits true payload)) [
        | inl (b, passes) ↦
            let accepted : accept_payload protocol true w.limits payload ≡ ok value =
              rw (passes, c.decodes payload p.pieces, p.valid, accept_payload) refl in
            rw passes (
              rw
                (bytes, behind, head, good, body, accepted, p.next_of, gone, receive, receive_frame)
                refl)
        | inr (x, bad) ↦
            let refused : accept_payload protocol true w.limits payload
                ≡ err (invalid_messagepack x) =
              rw (bad, accept_payload) refl in
            rw bad (rw (bytes, behind, head, good, body, refused, receive, receive_frame) refl)
      ]

  -- What a writer sends, a reader of the same version and limits receives. After a send over a
  -- transport that takes every byte, the writer's output has grown by the header's bytes and a
  -- payload. Of these, whatever follows them, a reader that expects the writer's sequence receives
  -- the same header and the same message, and then stands behind them, at the writer's new
  -- sequence, if the payload passes the reader's preflight; and else it answers the preflight's
  -- error and no other. It is assumed that what rmp_serde wrote of the message it decodes to the
  -- message, and that the version, the identity and the sequence are within their types.
  pub receive-send :
      (w v : FramedWriter) (request_id : ℕ) (value : M) (header : FrameHeader)
      → send protocol written written w request_id value ≡ (v, ok header)
      → IsCarried protocol w.limits value
      → IsInRange w request_id
      → (payload : List ℕ) × (v.output ≡ w.output ++ (encode header ++ payload))
        × ((tail : List ℕ)
            → Delivery
                (reader_at v tail)
                header
                value
                (inspect_messagepack w.limits true payload)
                (receive protocol true (reader_at w (encode header ++ (payload ++ tail)))))
  unfolding send write_all
  receive-send w v request_id value header e c r =
      elim (Result-cases (plan_frame protocol w request_id value)) [
        | inr (x, bad) ↦ absurd (ground (arith, bad, e))
        | inl ((h, payload, next), good) ↦
            let left = record w {
              output = (w.output ++ encode h) ++ payload;
              next_sequence = next;
            } in
            let made : (left, ok h) ≡ (v, ok header) = rw (good, send) at e in
            let p = plan_frame-Plan protocol w request_id value h payload next good in
            let same : h ≡ header = ground (arith, made) in
            let grown : left ≡ v = ap (λ s. s.0) made in
            (
              payload,
              ap (λ (u : FramedWriter). u.output) (sym grown)
                  ∙ append-append w.output (encode h) payload
                  ∙ ap (λ (k : FrameHeader). w.output ++ (encode k ++ payload)) same,
              λ tail.
                  subst
                    (λ (k : FrameHeader).
                      Delivery (reader_at v tail) k value
                        (inspect_messagepack w.limits true payload)
                        (receive protocol true (reader_at w (encode k ++ (payload ++ tail)))))
                    same
                    (subst
                      (λ (u : FramedWriter).
                        Delivery (reader_at u tail) h value
                          (inspect_messagepack w.limits true payload)
                          (receive protocol true (reader_at w (encode h ++ (payload ++ tail)))))
                      grown (receive-Plan w request_id value h payload next tail p c r)),
            )
      ]
