-- ===== src/Proxy/Prepare.antt =====
-- From a line of bytes to a candidate: `parse_bounded_json`, `classify_object` and `prepare`.
use weregopher.Base.{
  ◌>>=◌, ◌>>◌, ℕ, Bool, ◌&&◌, ◌||◌, not, Option, none, some, List, ltb, ◌==◌, if◌then◌else◌,
  is_some, length, any, all, Result, ok, err, reject_if, bytes_eq,
}
use weregopher.Proxy.Json.{
  Raw, Json, null, unsigned_number, negative_number, string, object, Members, no_members, member,
  Violation, duplicate_key, depth_exceeded, nodes_exceeded, syntax, read,
}
use weregopher.Proxy.Queue.{
  ProxyError, duplicate_object_key, json_depth_limit_exceeded, json_node_limit_exceeded,
  invalid_json, invalid_request_id, invalid_method, ambiguous_message_shape, top_level_not_object,
  empty_line, embedded_line_break, line_too_large, closed_proxy,
}
use weregopher.Proxy.Text.{Text, text, is_bounded_text}
use weregopher.Proxy.Limits.{JsonLimits, ProxyLimits}
use weregopher.Proxy.Message.{
  Direction, Kind, request, notification, success_response, error_response, RequestId, unsigned,
  signed, named, Observation,
}
use weregopher.Proxy.State.{Proxy}
use weregopher.Proxy.Admit.{Candidate, is_closed, admit_candidate}
pub mod Checked
pub mod Plain
pub mod Promise

abbrev max_method_bytes : ℕ
max_method_bytes = 1024

abbrev pub max_request_id_bytes : ℕ
max_request_id_bytes = 256

abbrev violation_error : Violation → ProxyError
violation_error duplicate_key = duplicate_object_key
violation_error depth_exceeded = json_depth_limit_exceeded
violation_error nodes_exceeded = json_node_limit_exceeded
violation_error syntax = invalid_json

-- `serde_json::Map::get`.
unfoldable pub get_member : Text → Members → Option Json
get_member k no_members = none
get_member k (member j v rest) = if bytes_eq j k then some v else get_member k rest

pub record ClassifiedMessage : Type 0 where
  pub kind : Kind
  pub method : Option Text
  pub request_id : Option RequestId

-- `as_u64` and `as_i64`: a number that is negative or not an integer has no `u64`.
unfoldable pub parse_request_id : Json → Result ProxyError RequestId
parse_request_id (unsigned_number n) = ok (unsigned n)
parse_request_id (negative_number n) = ok (signed n)
parse_request_id (string s) =
    if is_bounded_text max_request_id_bytes s then ok (named s) else err invalid_request_id
parse_request_id _ = err invalid_request_id

abbrev parse_method : Json → Result ProxyError Text
parse_method (string s) = if is_bounded_text max_method_bytes s then ok s else err invalid_method
parse_method _ = err invalid_method

-- The identity of a message that has a method: a request's, or none.
abbrev call_id : Option Json → Result ProxyError (Option RequestId)
call_id none = ok none
call_id (some v) = do id ← parse_request_id v; ok (some id)

-- The identity of a response, which may be null.
abbrev response_id : Option Json → Result ProxyError (Option RequestId)
response_id none = err invalid_request_id
response_id (some null) = ok none
response_id (some v) = do id ← parse_request_id v; ok (some id)

unfoldable pub classify_call : Members → Json → Result ProxyError ClassifiedMessage
unfolding parse_request_id
classify_call entries value = do
  reject_if
      (is_some (get_member (text "result") entries) || is_some (get_member (text "error") entries))
      ambiguous_message_shape
  method ← parse_method value
  request_id ← call_id (get_member (text "id") entries)
  ok (record {
    kind = if is_some request_id then request else notification;
    method = some method;
    request_id = request_id;
  })

unfoldable pub classify_response : Members → Result ProxyError ClassifiedMessage
unfolding parse_request_id
classify_response entries = do
  let has_result = is_some (get_member (text "result") entries)
  let has_error = is_some (get_member (text "error") entries)
  reject_if
      (not (is_some (get_member (text "id") entries))
        || has_result && has_error
        || not has_result && not has_error)
      ambiguous_message_shape
  request_id ← response_id (get_member (text "id") entries)
  ok (record {
    kind = if has_result then success_response else error_response;
    method = none;
    request_id = request_id;
  })

unfoldable pub classify_object : Members → Result ProxyError ClassifiedMessage
unfolding classify_call classify_response
classify_object entries = elim (get_member (text "method") entries) [
  | some value ↦ classify_call entries value
  | none ↦ classify_response entries
]

abbrev is_ascii_whitespace : ℕ → Bool
is_ascii_whitespace b = b == 32 || b == 9 || b == 10 || b == 12 || b == 13

abbrev as_object : Json → Result ProxyError Members
as_object (object members) = ok members
as_object _ = err top_level_not_object

-- What `serde_json` presents of some bytes, and whether nothing but whitespace follows.
module _ (deserialize : List ℕ → Raw × Bool) where
  unfoldable pub parse_bounded_json : List ℕ → JsonLimits → Result ProxyError Json
  parse_bounded_json bytes limits = elim (read limits (deserialize bytes).0) [
    | err violation ↦ err (violation_error violation)
    | ok (value, used) ↦ if (deserialize bytes).1 then ok value else err invalid_json
  ]

  unfoldable pub parse_and_classify : List ℕ → ProxyLimits → Result ProxyError ClassifiedMessage
  unfolding parse_bounded_json classify_object
  parse_and_classify json_line limits = do
    reject_if (all is_ascii_whitespace json_line) empty_line
    reject_if (any (λ b. b == 13 || b == 10) json_line) embedded_line_break
    reject_if (ltb limits.line_bytes (length json_line)) line_too_large
    value ← parse_bounded_json json_line limits.json
    members ← as_object value
    classify_object members

  unfoldable pub prepare : Proxy → Direction → List ℕ → Result ProxyError Candidate
  unfolding parse_and_classify
  prepare self direction json_line = do
    reject_if (is_closed self.state) closed_proxy
    classified ← parse_and_classify json_line self.limits
    ok (record {
      prepared_limits = self.limits;
      observation = record {
        direction = direction;
        kind = classified.kind;
        method = classified.method;
        request_id = classified.request_id;
        byte_length = length json_line;
      };
      json_bytes = json_line;
    })

  module _ (sha256 : List ℕ → List ℕ) where
    -- `ingest_client` and `ingest_server`.
    unfoldable pub ingest : Proxy → Direction → List ℕ → Proxy × Result ProxyError Observation
    unfolding prepare admit_candidate
    ingest self direction json_line = elim (prepare self direction json_line) [
      | err e ↦ (self, err e)
      | ok candidate ↦ admit_candidate sha256 self candidate
    ]
