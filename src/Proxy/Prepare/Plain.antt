-- ===== src/Proxy/Prepare/Plain.antt =====
-- The texts that a prepared message bears: its method, and an identity that is a text.
use mathlib.Core.Path.{subst}
use weregopher.Base.{
  ℕ, ◌≤◌, ◌<◌, ◌≡◌, refl, ◌≢◌, ◌⊎◌, inl, inr, true, false, Option, none, some, [], ◌∷◌, arith,
  Bool-cases, Option-cases, length, ok,
}
use weregopher.Proxy.Text.{Text, text, has_control, is_bounded_text}
use weregopher.Proxy.Json.{
  null, float_number, array, Json, Members, string, boolean, unsigned_number, negative_number,
  object,
}
use weregopher.Proxy.Message.{RequestId, unsigned, signed, named}
use weregopher.Proxy.Prepare.{
  get_member, ClassifiedMessage, parse_request_id, classify_call, classify_response,
  classify_object,
}

-- No control character: U+0000 to U+001F, U+007F, and U+0080 to U+009F, which are the bytes 0xc2
-- and 0x80 to 0x9f.
pub HasNoControl : Text → Type 0
HasNoControl [] = Unit
HasNoControl (b ∷ []) = (32 ≤ b) × (b ≢ 127)
HasNoControl (b ∷ c ∷ s) =
    (32 ≤ b) × (b ≢ 127) × (b ≡ 194 → (c < 128) ⊎ (160 ≤ c)) × HasNoControl (c ∷ s)

pub record IsPlain (maximum : ℕ) (s : Text) : Type 0 where
  pub some_bytes : 1 ≤ length s
  pub few_bytes : length s ≤ maximum
  pub no_control : HasNoControl s

has_control-HasNoControl : (s : Text) → has_control s ≡ false → HasNoControl s
unfolding has_control HasNoControl
has_control-HasNoControl [] e = tt
has_control-HasNoControl (b ∷ []) e = (ground (arith, e), λ same. ground (arith, e, same))
has_control-HasNoControl (b ∷ c ∷ s) e = (
  ground (arith, e),
  (λ same. ground (arith, e, same)),
  (λ lead. ground (arith, e, lead)),
  has_control-HasNoControl (c ∷ s) (ground (arith, e)),
)

pub is_bounded_text-IsPlain :
    (maximum : ℕ) (s : Text) → is_bounded_text maximum s ≡ true → IsPlain maximum s
unfolding is_bounded_text
is_bounded_text-IsPlain maximum s e = record {
  some_bytes = ground (arith, e);
  few_bytes = ground (arith, e);
  no_control = has_control-HasNoControl s (ground (arith, e));
}

abbrev pub IsPlainMethod : Option Text → Type 0
IsPlainMethod none = Unit
IsPlainMethod (some s) = IsPlain 1024 s

abbrev pub IsPlainId : Option RequestId → Type 0
IsPlainId (some (named s)) = IsPlain 256 s
IsPlainId _ = Unit

pub parse_request_id-IsPlainId :
    (v : Json) (id : RequestId) → parse_request_id v ≡ ok id → IsPlainId (some id)
unfolding parse_request_id
parse_request_id-IsPlainId (string s) (named t) e = elim (Bool-cases (is_bounded_text 256 s)) [
  | inl good ↦
      let same : s ≡ t = ground (arith, good, e) in
      subst (λ (u : Text). IsPlain 256 u) same (is_bounded_text-IsPlain 256 s good)
  | inr bad ↦ absurd (ground (arith, bad, e))
]
parse_request_id-IsPlainId null (named t) e = absurd (ground (arith, e))
parse_request_id-IsPlainId (boolean b) (named t) e = absurd (ground (arith, e))
parse_request_id-IsPlainId (unsigned_number n) (named t) e = absurd (ground (arith, e))
parse_request_id-IsPlainId (negative_number n) (named t) e = absurd (ground (arith, e))
parse_request_id-IsPlainId float_number (named t) e = absurd (ground (arith, e))
parse_request_id-IsPlainId (array items) (named t) e = absurd (ground (arith, e))
parse_request_id-IsPlainId (object entries) (named t) e = absurd (ground (arith, e))
parse_request_id-IsPlainId v (unsigned n) e = tt
parse_request_id-IsPlainId v (signed n) e = tt

pub option-IsPlainId :
    (o : Option RequestId) → ((id : RequestId) → o ≡ some id → IsPlainId (some id)) → IsPlainId o
option-IsPlainId none plain = tt
option-IsPlainId (some id) plain = plain id refl

classify_call-IsPlainMethod :
    (entries : Members) (value : Json) (m : ClassifiedMessage)
    → classify_call entries value ≡ ok m
    → IsPlainMethod m.method
unfolding classify_call
classify_call-IsPlainMethod entries (string s) m e = elim (Bool-cases (is_bounded_text 1024 s)) [
  | inr bad ↦ absurd (ground (arith, bad, e))
  | inl good ↦
      let same : m.method ≡ some s = ground (arith, good, e) in
      rw same (is_bounded_text-IsPlain 1024 s good)
]
classify_call-IsPlainMethod entries null m e = absurd (ground (arith, e))
classify_call-IsPlainMethod entries (boolean b) m e = absurd (ground (arith, e))
classify_call-IsPlainMethod entries (unsigned_number n) m e = absurd (ground (arith, e))
classify_call-IsPlainMethod entries (negative_number n) m e = absurd (ground (arith, e))
classify_call-IsPlainMethod entries float_number m e = absurd (ground (arith, e))
classify_call-IsPlainMethod entries (array items) m e = absurd (ground (arith, e))
classify_call-IsPlainMethod entries (object held) m e = absurd (ground (arith, e))

pub classify_object-IsPlainMethod :
    (entries : Members) (m : ClassifiedMessage)
    → classify_object entries ≡ ok m
    → IsPlainMethod m.method
unfolding classify_object classify_response
classify_object-IsPlainMethod entries m e =
    elim (Option-cases (get_member (text "method") entries)) [
      | inr (value, given) ↦ classify_call-IsPlainMethod entries value m (ground (arith, given, e))
      | inl none_given ↦ let same : m.method ≡ none = ground (arith, none_given, e) in rw same tt
    ]
