-- ===== src/Proxy/Prepare/Checked.antt =====
-- What a prepared candidate is, and what the reader let through.
use weregopher.Base.{
  ◌≡◌, inl, inr, Bool, true, ◌&&◌, some, arith, ltb, leb, Option-cases, is_some, ok, Result-cases,
  u64_max,
}
use weregopher.Proxy.Json.{
  Raw, raw_unsigned, raw_negative, raw_array, raw_object, RawItems, raw_item, RawMembers,
  raw_member, Json, null, boolean, unsigned_number, negative_number, float_number, string, array,
  object, Members, no_members, member,
}
use weregopher.Proxy.Text.{Text, text, is_bounded_text}
use weregopher.Proxy.Message.{request, RequestId}
use weregopher.Proxy.Message.Digest.{IsWireId}
use weregopher.Proxy.Json.Measure.{present, present_members}
use weregopher.Proxy.Prepare.{
  get_member, ClassifiedMessage, parse_request_id, classify_call, classify_response,
  classify_object,
}

-- The numbers that `serde_json` passes to the visitor: a `u64`, or a negative `i64`.
unfoldable mutual
  pub in_range : Raw → Bool
  in_range (raw_unsigned n) = leb n u64_max
  in_range (raw_negative n) = ltb n 9223372036854775808
  in_range (raw_array items) = in_range_items items
  in_range (raw_object members) = in_range_members members
  in_range _ = true

  pub in_range_items : RawItems → Bool
  in_range_items (raw_item raw rest) = in_range raw && in_range_items rest
  in_range_items _ = true

  pub in_range_members : RawMembers → Bool
  in_range_members (raw_member key raw rest) = in_range raw && in_range_members rest
  in_range_members _ = true

pub get_member-in_range :
    (k : Text) (members : Members) (v : Json)
    → in_range_members (present_members members) ≡ true
    → get_member k members ≡ some v
    → in_range (present v) ≡ true
unfolding get_member in_range in_range_members present_members
get_member-in_range k no_members v fits found = ground arith
get_member-in_range k (member j w rest) v fits found = ground (arith, get_member-in_range k rest v)

pub parse_request_id-IsWireId :
    (v : Json) (id : RequestId)
    → in_range (present v) ≡ true
    → parse_request_id v ≡ ok id
    → IsWireId id
unfolding parse_request_id in_range present is_bounded_text
parse_request_id-IsWireId null id fits e = ground arith
parse_request_id-IsWireId (boolean b) id fits e = ground arith
parse_request_id-IsWireId (unsigned_number n) id fits e = ground arith
parse_request_id-IsWireId (negative_number n) id fits e = ground arith
parse_request_id-IsWireId float_number id fits e = ground arith
parse_request_id-IsWireId (string s) id fits e = ground arith
parse_request_id-IsWireId (array items) id fits e = ground arith
parse_request_id-IsWireId (object entries) id fits e = ground arith

-- A classified message has an identity if it is a request, and the identity was an `id` member.
pub record Classifies (entries : Members) (m : ClassifiedMessage) : Type 0 where
  pub identified : m.kind ≡ request → is_some m.request_id ≡ true
  pub parsed :
      (id : RequestId)
      → m.request_id ≡ some id
      → (v : Json) × (get_member (text "id") entries ≡ some v) × (parse_request_id v ≡ ok id)

classify_call-Classifies :
    (entries : Members) (value : Json) (m : ClassifiedMessage)
    → classify_call entries value ≡ ok m
    → Classifies entries m
unfolding classify_call
classify_call-Classifies entries value m e = elim (Option-cases (get_member (text "id") entries)) [
  | inl none_given ↦ record {
    identified = λ k. ground (arith, none_given);
    parsed = λ id i. absurd (ground (arith, none_given));
  }
  | inr (v, given) ↦ elim (Result-cases (parse_request_id v)) [
    | inr (x, bad) ↦ absurd (ground (arith, given, bad))
    | inl (j, good) ↦ record {
      identified = λ k. ground (arith, given, good);
      parsed = λ id i. (v, given, ground (arith, given, good));
    }
  ]
]

classify_response-Classifies :
    (entries : Members) (m : ClassifiedMessage)
    → classify_response entries ≡ ok m
    → Classifies entries m
unfolding classify_response
classify_response-Classifies entries m e = elim (Option-cases (get_member (text "id") entries)) [
  | inl none_given ↦ absurd (ground (arith, none_given))
  | inr (null, given) ↦ record {
    identified = λ k. ground (arith, given);
    parsed = λ id i. absurd (ground (arith, given));
  }
  | inr (v, given) ↦ elim (Result-cases (parse_request_id v)) [
    | inr (x, bad) ↦ absurd (ground (arith, given, bad))
    | inl (j, good) ↦ record {
      identified = λ k. ground (arith, given, good);
      parsed = λ id i. (v, given, ground (arith, given, good));
    }
  ]
]

pub classify_object-Classifies :
    (entries : Members) (m : ClassifiedMessage)
    → classify_object entries ≡ ok m
    → Classifies entries m
unfolding classify_object
classify_object-Classifies entries m e = elim (Option-cases (get_member (text "method") entries)) [
  | inl none_given ↦ classify_response-Classifies entries m (ground (arith, none_given))
  | inr (value, given) ↦ classify_call-Classifies entries value m (ground (arith, given))
]
