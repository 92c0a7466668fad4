-- ===== src/Controls/Method.antt =====
-- Bounded method names, their fingerprints, and the errors of both controls.
use weregopher.Base.{
  ◌>>◌, ◌>>=◌, ℕ, Option, none, some, List, [], ◌∷◌, ◌++◌, if◌then◌else◌, length, Result, ok, err,
}
use weregopher.Proxy.Text.{Text, text, is_bounded_text}

pub data ControlError : Type 0 where
  invalid_event_limits invalid_method invalid_rule_id invalid_rule_message_kind : ControlError
  too_many_rules rule_method_bytes_exceeded duplicate_rule_id : ControlError
  duplicate_rule_selector event_sequence_overflow correlation_sequence_overflow : ControlError
  event_eviction_overflow inconsistent_correlation_state inconsistent_event_state : ControlError

abbrev pub max_method_bytes : ℕ
max_method_bytes = 1024

unfoldable pub validate_method : Text → Result ControlError (Unit {0})
validate_method method =
    if is_bounded_text max_method_bytes method then ok tt else err invalid_method

abbrev pub method_fingerprint_domain : List ℕ
method_fingerprint_domain = text "weregopher.app-server-observed-method.v1" ++ 0 ∷ []

-- A method name's content identity, without the name.
pub record MethodFingerprint : Type 0 where
  pub digest : List ℕ
  pub byte_length : ℕ

module _ (sha256 : List ℕ → List ℕ) where
  unfoldable pub for_method : Text → Result ControlError MethodFingerprint
  unfolding validate_method
  for_method method = do
    validate_method method
    ok (record {
      digest = sha256 (method_fingerprint_domain ++ method);
      byte_length = length method;
    })

  unfoldable pub fingerprint_observed_method :
      Option Text → Result ControlError (Option MethodFingerprint)
  unfolding for_method
  fingerprint_observed_method none = ok none
  fingerprint_observed_method (some method) = do
    fingerprint ← for_method method
    ok (some fingerprint)
