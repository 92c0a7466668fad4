-- ===== src/Proxy/Json.antt =====
-- The bounded JSON reader: `parse_bounded_json` and its visitor.
pub mod Measure
pub mod Steps
pub mod Within
pub mod Bounded
pub mod Complete
use weregopher.Base.{
  ◌>>=◌, ◌>>◌, bytes_key, ℕ, suc, Bool, true, false, List, [], ◌∷◌, ltb, leb, Result, ok, err,
  reject_if,
}
use weregopher.Base.Maps.{contains}
use weregopher.Proxy.Text.{Text}
use weregopher.Proxy.Limits.{JsonLimits}

-- `serde_json` turns bytes into calls of the visitor. What it presents is a parameter, as a tree in
-- which each place may also hold a syntax error.
mutual
  pub data Raw : Type 0 where
    raw_null malformed : Raw
    raw_bool : Bool → Raw
    -- `visit_u64`, and `visit_i64` for the negative number -(n + 1).
    raw_unsigned raw_negative : ℕ → Raw
    -- `visit_f64`, and whether the number is finite.
    raw_float : Bool → Raw
    raw_text : Text → Raw
    raw_array : RawItems → Raw
    raw_object : RawMembers → Raw

  pub data RawItems : Type 0 where
    raw_items_end raw_items_broken : RawItems
    raw_item : Raw → RawItems → RawItems

  pub data RawMembers : Type 0 where
    raw_members_end raw_members_broken : RawMembers
    raw_member : Text → Raw → RawMembers → RawMembers

-- `serde_json::Value`. The members of an object have distinct keys, in the order of the text.
mutual
  pub data Json : Type 0 where
    null : Json
    boolean : Bool → Json
    unsigned_number negative_number : ℕ → Json
    float_number : Json
    string : Text → Json
    array : Items → Json
    object : Members → Json

  pub data Items : Type 0 where
    no_items : Items
    item : Json → Items → Items

  pub data Members : Type 0 where
    no_members : Members
    member : Text → Json → Members → Members

-- `JsonViolation`, or an error of `serde_json` itself.
pub data Violation : Type 0 where
  duplicate_key depth_exceeded nodes_exceeded syntax : Violation

-- `JsonBudget::claim`: the nodes that are used after it.
unfoldable pub claim : JsonLimits → ℕ → ℕ → Result Violation ℕ
claim limits depth nodes = do
  reject_if (ltb limits.depth depth) depth_exceeded
  reject_if (leb limits.nodes nodes) nodes_exceeded
  ok (suc nodes)

-- `BoundedValueVisitor`. A value's place is claimed before the visitor sees it.
unfoldable mutual
  unfolding claim

  pub visit : JsonLimits → ℕ → ℕ → Raw → Result Violation (Json × ℕ)
  visit limits depth nodes raw_null = ok (null, nodes)
  visit limits depth nodes malformed = err syntax
  visit limits depth nodes (raw_bool b) = ok (boolean b, nodes)
  visit limits depth nodes (raw_unsigned n) = ok (unsigned_number n, nodes)
  visit limits depth nodes (raw_negative n) = ok (negative_number n, nodes)
  visit limits depth nodes (raw_float true) = ok (float_number, nodes)
  visit limits depth nodes (raw_float false) = err syntax
  visit limits depth nodes (raw_text s) = ok (string s, nodes)
  visit limits depth nodes (raw_array items) = do
    (values, used) ← visit_seq limits depth nodes items
    ok (array values, used)
  visit limits depth nodes (raw_object members) = do
    (values, used) ← visit_map limits depth nodes [] members
    ok (object values, used)

  pub visit_seq : JsonLimits → ℕ → ℕ → RawItems → Result Violation (Items × ℕ)
  visit_seq limits depth nodes raw_items_end = ok (no_items, nodes)
  visit_seq limits depth nodes raw_items_broken = err syntax
  visit_seq limits depth nodes (raw_item raw rest) = do
    claimed ← claim limits (suc depth) nodes
    (value, used) ← visit limits (suc depth) claimed raw
    (values, total) ← visit_seq limits depth used rest
    ok (item value values, total)

  pub visit_map : JsonLimits → ℕ → ℕ → List Text → RawMembers → Result Violation (Members × ℕ)
  visit_map limits depth nodes keys raw_members_end = ok (no_members, nodes)
  visit_map limits depth nodes keys raw_members_broken = err syntax
  visit_map limits depth nodes keys (raw_member key raw rest) = do
    reject_if (contains key keys) duplicate_key
    claimed ← claim limits (suc depth) nodes
    (value, used) ← visit limits (suc depth) claimed raw
    (values, total) ← visit_map limits depth used (key ∷ keys) rest
    ok (member key value values, total)

-- `BoundedValueSeed::deserialize` of the top-level value.
unfoldable pub read : JsonLimits → Raw → Result Violation (Json × ℕ)
unfolding claim visit
read limits raw = do claimed ← claim limits 1 0; visit limits 1 claimed raw
