-- ===== src/Examples/Payloads.antt =====
-- A MessagePack payload: a map of one string and a number.
use mathlib.Core.Path.{subst}
use weregopher.Protocol.Header.{FrameHeader, encode}
use weregopher.Base.{
  ℕ, suc, ◌+◌, ◌≡◌, refl, true, none, some, List, [], ◌∷◌, ◌++◌, arith, Result, ok, err,
}
use weregopher.Protocol.Kind.{cancel}
use weregopher.Protocol.Limits.{secure_default}
use weregopher.Codec.Inspect.{opening, inspect_loop, inspect_messagepack}
use weregopher.Codec.Inspect.Bounds.{inspect_loop-fuel}
use weregopher.Codec.Inspect.Within.{IsWithin, inspect_messagepack-IsWithin}
use weregopher.Codec.Frames.{ProtocolMessage, FramedWriter, write_pieces, written, send, receive}
use weregopher.Codec.Frames.Plan.{reader_at, IsCarried}
use weregopher.Codec.Frames.RoundTrip.{Delivery, receive-send}

abbrev payload : List ℕ
payload = 129 ∷ 161 ∷ 97 ∷ 7 ∷ []

inspects :
    inspect_messagepack secure_default true payload ≡ ok (record { nodes = 3; maximum_depth = 2 })
unfolding inspect_messagepack
inspects = refl

inspect_messagepack-IsWithin_example :
    IsWithin secure_default payload (record { nodes = 3; maximum_depth = 2 })
inspect_messagepack-IsWithin_example =
    inspect_messagepack-IsWithin secure_default true payload
      (record { nodes = 3; maximum_depth = 2 }) inspects

inspect_loop-fuel_example :
    inspect_loop secure_default (suc secure_default.max_graph_nodes + 5) (opening payload)
    ≡ inspect_loop secure_default (suc secure_default.max_graph_nodes) (opening payload)
inspect_loop-fuel_example = inspect_loop-fuel secure_default payload 5

-- A protocol of one message type: a small number, in one byte.
abbrev small_number : List ℕ → Result ℕ ℕ
small_number (n ∷ []) = ok n
small_number _ = err 1

abbrev numbers : ProtocolMessage ℕ
numbers = record {
  kind = cancel;
  validate_message = λ n limits. ok tt;
  write_named = λ n. ((n ∷ []) ∷ [], none);
  from_slice = small_number;
}

abbrev writer : FramedWriter
writer = record {
  output = 5 ∷ [];
  version = record { major = 1; minor = 0 };
  limits = secure_default;
  next_sequence = 1;
}

abbrev sent_header : FrameHeader
sent_header = record {
  frame_length = 1;
  protocol_major = 1;
  protocol_minor = 0;
  message_kind = cancel;
  flags = 0;
  request_id = 3;
  sequence = 1;
}

abbrev behind : FramedWriter
behind = record writer { output = (5 ∷ encode sent_header) ++ (7 ∷ []); next_sequence = 2 }

sends : send numbers written written writer 3 7 ≡ (behind, ok sent_header)
unfolding send
sends = refl

one_piece :
    (bytes : List ℕ)
    → write_pieces secure_default.max_frame_bytes [] ((7 ∷ []) ∷ []) ≡ some bytes
    → (7 ∷ []) ≡ bytes
unfolding write_pieces
one_piece bytes e = ground (arith, e)

carried : IsCarried numbers secure_default 7
carried = record {
  decodes = λ bytes e. subst (λ (p : List ℕ). small_number p ≡ ok 7) (one_piece bytes e) refl;
}

receive-send_example :
    (payload : List ℕ) × (behind.output ≡ writer.output ++ (encode sent_header ++ payload))
    × ((tail : List ℕ)
        → Delivery numbers
            (reader_at behind tail)
            sent_header
            7
            (inspect_messagepack secure_default true payload)
            (receive numbers true (reader_at writer (encode sent_header ++ (payload ++ tail)))))
receive-send_example = receive-send numbers writer behind 3 7 sent_header sends carried (record {
  major = omega arith;
  minor = omega arith;
  identity = omega arith;
  sequence = omega arith;
})
