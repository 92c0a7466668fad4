-- ===== src/Examples/Lines.antt =====
-- A line that the proxy takes in. The deserializer presents the same request for every line.
use weregopher.Base.{
  bytes_key, ℕ, ◌≡◌, refl, Bool, true, some, List, [], ◌∷◌, arith, ok, err, bytes_eq,
}
use weregopher.Base.Maps.{contains}
use weregopher.Proxy.Text.{text, has_control, is_bounded_text}
use weregopher.Proxy.Json.{
  Raw, raw_object, raw_member, raw_text, raw_unsigned, raw_members_end, Json, object, member,
  string, unsigned_number, no_members, read, visit, visit_map, claim,
}
use weregopher.Proxy.Queue.{json_depth_limit_exceeded}
use weregopher.Proxy.Queue
use weregopher.Proxy.Limits.{initial}
use weregopher.Proxy.Message.{client_to_server, request, unsigned}
use weregopher.Proxy.State.{new}
use weregopher.Proxy.Admit.{Candidate}
use weregopher.Proxy.Prepare.{
  get_member, parse_request_id, classify_call, classify_object, parse_bounded_json,
  parse_and_classify, prepare, ingest,
}
use weregopher.Proxy.Prepare.Checked.{in_range}
use weregopher.Proxy.Prepare.Promise.{
  Accepts, parse_bounded_json-Accepts, Prepares, prepare-Prepares, ingest-Sound,
}
use weregopher.Proxy.Json.Measure.{count, height, has_key, distinct_keys, present}
use weregopher.Proxy.Json.Complete.{read-present}
use weregopher.Proxy.Invariant.{Sound}
use weregopher.Proxy.Invariant.History.{new-Inv}
use weregopher.Examples.Proxies.{hash, hash-IsCollisionFree}

abbrev tree : Raw
tree = raw_object (
    raw_member (text "method") (raw_text (109 ∷ []))
      (raw_member (text "id") (raw_unsigned 7) raw_members_end))

abbrev presents : List ℕ → Raw × Bool
presents line = (tree, true)

abbrev line : List ℕ
line = 123 ∷ 125 ∷ []

abbrev value : Json
value =
    object (
      member (text "method") (string (109 ∷ []))
        (member (text "id") (unsigned_number 7) no_members))

parsed : parse_bounded_json presents line (record { depth = 2; nodes = 3 }) ≡ ok value
unfolding parse_bounded_json read visit visit_map claim contains bytes_eq
parsed = refl

parse_bounded_json-Accepts_example : Accepts presents line (record { depth = 2; nodes = 3 }) value
parse_bounded_json-Accepts_example =
    parse_bounded_json-Accepts presents line (record { depth = 2; nodes = 3 }) value parsed

too_deep :
    parse_bounded_json presents line (record { depth = 1; nodes = 3 })
    ≡ err json_depth_limit_exceeded
unfolding parse_bounded_json read visit visit_map claim contains bytes_eq
too_deep = refl

abbrev asked : Candidate
asked = record {
  prepared_limits = initial;
  observation = record {
    direction = client_to_server;
    kind = request;
    method = some (109 ∷ []);
    request_id = some (unsigned 7);
    byte_length = 2;
  };
  json_bytes = line;
}

prepared : prepare presents (new initial) client_to_server line ≡ ok asked
unfolding prepare new Queue.new initial parse_and_classify parse_bounded_json read visit visit_map
    claim contains bytes_eq classify_object classify_call get_member parse_request_id
    is_bounded_text has_control
prepared = refl

tree-in_range : in_range tree ≡ true
unfolding in_range
tree-in_range = refl

prepare-Prepares_example : Prepares presents (new initial) client_to_server line asked
prepare-Prepares_example =
    prepare-Prepares presents (new initial) client_to_server line asked tree-in_range prepared

ingest-Sound_example :
    Sound hash (new initial) (ingest presents hash (new initial) client_to_server line)
ingest-Sound_example =
    ingest-Sound presents hash (new initial) client_to_server line hash-IsCollisionFree
      tree-in_range (new-Inv hash initial)

read-present_example :
    read (record { depth = 2; nodes = 3 }) (present value) ≡ ok (value, count value)
unfolding height count distinct_keys has_key bytes_eq
read-present_example =
    read-present (record { depth = 2; nodes = 3 }) value (omega arith) (omega arith) refl
