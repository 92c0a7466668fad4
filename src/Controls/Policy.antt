-- ===== src/Controls/Policy.antt =====
-- Exact block rules, and the policy that evaluates them.
use weregopher.Base.{
  refl, ◌≡◌, arith, ◌>>◌, ◌>>=◌, ℕ, ◌+◌, Bool, true, false, ◌&&◌, ◌||◌, not, Option, none, some,
  List, [], ◌∷◌, ltb, ◌==◌, if◌then◌else◌, length, Result, ok, err, reject_if, ok_or, usize_max,
  checked_add, bytes_eq, ◌≡◌, arith,
}
use weregopher.Controls.Method.{
  ControlError, invalid_rule_id, invalid_rule_message_kind, too_many_rules,
  rule_method_bytes_exceeded, duplicate_rule_id, duplicate_rule_selector, validate_method,
}
use weregopher.Controls.Journal.Key.{direction_code}
use weregopher.Proxy.Message.{
  Direction, Kind, request, notification, success_response, error_response, Observation,
}
use weregopher.Proxy.Text.{Text}
pub mod Valid
pub mod Selection

-- A rule's identity is a nonzero `u32`.
unfoldable pub new_rule_id : ℕ → Result ControlError ℕ
new_rule_id value = if value == 0 then err invalid_rule_id else ok value

pub record BlockRule : Type 0 where
  pub id : ℕ
  pub direction : Direction
  pub kind : Kind
  pub method : Text

abbrev pub bears_method : Kind → Bool
bears_method request = true
bears_method notification = true
bears_method success_response = false
bears_method error_response = false

unfoldable pub new_rule : ℕ → Direction → Kind → Text → Result ControlError BlockRule
unfolding validate_method
new_rule id direction kind method = do
  reject_if (not (bears_method kind)) invalid_rule_message_kind
  validate_method method
  ok (record { id = id; direction = direction; kind = kind; method = method })

pub data InterceptionDecision : Type 0 where
  forward : InterceptionDecision
  block : ℕ → InterceptionDecision

pub record InterceptionPolicy : Type 0 where
  pub rules : List BlockRule
  pub method_bytes : ℕ

abbrev pub absolute_max_rules : ℕ
absolute_max_rules = 256

abbrev pub absolute_max_rule_method_bytes : ℕ
absolute_max_rule_method_bytes = 65536

unfoldable pub message_kind_code : Kind → ℕ
message_kind_code request = 0
message_kind_code notification = 1
message_kind_code success_response = 2
message_kind_code error_response = 3

pub message_kind_code-injective : (a b : Kind) → message_kind_code a ≡ message_kind_code b → a ≡ b
unfolding message_kind_code
message_kind_code-injective request request e = refl
message_kind_code-injective notification notification e = refl
message_kind_code-injective success_response success_response e = refl
message_kind_code-injective error_response error_response e = refl
message_kind_code-injective _ _ e = absurd (ground arith)

-- What `selectors` holds of a rule: its direction, the code of its kind, and its method.
pub record Selector : Type 0 where
  pub direction : Direction
  pub code : ℕ
  pub method : Text

unfoldable pub selector_eq : Selector → Selector → Bool
unfolding direction_code
selector_eq a b =
    direction_code a.direction == direction_code b.direction
    && a.code == b.code
    && bytes_eq a.method b.method

unfoldable pub selector_of : BlockRule → Selector
unfolding message_kind_code
selector_of rule = record {
  direction = rule.direction;
  code = message_kind_code rule.kind;
  method = rule.method;
}

-- `contains` of a set that is never iterated over.
unfoldable pub has_id : ℕ → List ℕ → Bool
has_id id [] = false
has_id id (i ∷ is) = i == id || has_id id is

unfoldable pub has_selector : Selector → List Selector → Bool
unfolding selector_eq
has_selector s [] = false
has_selector s (t ∷ ts) = selector_eq t s || has_selector s ts

-- The loop over the rules, behind the identities, the selectors and the bytes of those before.
unfoldable pub check_rules : List BlockRule → List ℕ → List Selector → ℕ → Result ControlError ℕ
unfolding has_id has_selector selector_of
check_rules [] ids selectors method_bytes = ok method_bytes
check_rules (rule ∷ rules) ids selectors method_bytes =
    let rest =
      check_rules rules (rule.id ∷ ids) (selector_of rule ∷ selectors)
        (method_bytes + length rule.method) in
    do
      reject_if (has_id rule.id ids) duplicate_rule_id
      total ←
          ok_or (checked_add usize_max method_bytes (length rule.method)) rule_method_bytes_exceeded
      reject_if (ltb absolute_max_rule_method_bytes total) rule_method_bytes_exceeded
      reject_if (has_selector (selector_of rule) selectors) duplicate_rule_selector
      rest

unfoldable pub new_policy : List BlockRule → Result ControlError InterceptionPolicy
unfolding check_rules
new_policy rules = do
  reject_if (ltb absolute_max_rules (length rules)) too_many_rules
  method_bytes ← check_rules rules [] [] 0
  ok (record { rules = rules; method_bytes = method_bytes })

unfoldable pub empty_policy : InterceptionPolicy
empty_policy = record { rules = []; method_bytes = 0 }

unfoldable pub kind_eq : Kind → Kind → Bool
unfolding message_kind_code
kind_eq a b = message_kind_code a == message_kind_code b

unfoldable pub rule_matches : BlockRule → Observation → Text → Bool
unfolding kind_eq direction_code
rule_matches rule o method =
    direction_code rule.direction == direction_code o.direction
    && kind_eq rule.kind o.kind
    && bytes_eq rule.method method

-- `find`, and the decision that the found rule makes.
unfoldable pub first_match : List BlockRule → Observation → Text → InterceptionDecision
unfolding rule_matches
first_match [] o method = forward
first_match (rule ∷ rules) o method =
    let rest = first_match rules o method in
    if rule_matches rule o method then block rule.id else rest

abbrev decide : Option Text → InterceptionPolicy → Observation → InterceptionDecision
decide none self o = forward
decide (some method) self o = first_match self.rules o method

unfoldable pub evaluate : InterceptionPolicy → Observation → InterceptionDecision
unfolding first_match
evaluate self o = decide o.method self o
