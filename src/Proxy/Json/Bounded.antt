-- ===== src/Proxy/Json/Bounded.antt =====
-- What the bounded reader accepts is within the limits, has distinct keys, and is what was read.
use weregopher.Base.{bytes_key, ℕ, suc, ◌≤◌, ◌≡◌, refl, true, List, [], ◌∷◌, arith, ok}
use weregopher.Proxy.Text.{Text}
use weregopher.Proxy.Limits.{JsonLimits}
use weregopher.Proxy.Json.{
  Raw, raw_null, malformed, raw_bool, raw_unsigned, raw_negative, raw_float, raw_text, raw_array,
  raw_object, RawItems, raw_items_end, raw_items_broken, raw_item, RawMembers, raw_members_end,
  raw_members_broken, raw_member, Json, Items, Members, claim, visit, visit_seq, visit_map, read,
}
use weregopher.Proxy.Json.Measure.{count, height, distinct_keys, present}
use weregopher.Proxy.Json.Steps.{
  visit_seq-ReadsItem, visit_map-ReadsMember, visit-array, visit-object,
}
use weregopher.Proxy.Json.Within.{
  Within, ItemsWithin, MembersWithin, item-ItemsWithin, member-MembersWithin, array-Within,
  object-Within, leaf-Within, items_end-Within, items_broken, members_end-Within, members_broken,
}

module _ (limits : JsonLimits) where
  mutual
    visit-Within :
        (depth nodes : ℕ) (raw : Raw) (v : Json) (used : ℕ)
        → visit limits depth nodes raw ≡ ok (v, used)
        → depth ≤ limits.depth
        → nodes ≤ limits.nodes
        → Within limits depth nodes raw v used
    visit-Within depth nodes raw_null v used e p q =
        leaf-Within limits depth nodes raw_null v used refl e p q
    visit-Within depth nodes malformed v used e p q =
        leaf-Within limits depth nodes malformed v used refl e p q
    visit-Within depth nodes (raw_bool b) v used e p q =
        leaf-Within limits depth nodes (raw_bool b) v used refl e p q
    visit-Within depth nodes (raw_unsigned n) v used e p q =
        leaf-Within limits depth nodes (raw_unsigned n) v used refl e p q
    visit-Within depth nodes (raw_negative n) v used e p q =
        leaf-Within limits depth nodes (raw_negative n) v used refl e p q
    visit-Within depth nodes (raw_float b) v used e p q =
        leaf-Within limits depth nodes (raw_float b) v used refl e p q
    visit-Within depth nodes (raw_text s) v used e p q =
        leaf-Within limits depth nodes (raw_text s) v used refl e p q
    visit-Within depth nodes (raw_array items) v used e p q =
        let (vs, same, read_items) = visit-array limits depth nodes items v used e in
        rw same (
          array-Within limits depth nodes items vs used
            (visit_seq-Within depth nodes items vs used read_items p q))
    visit-Within depth nodes (raw_object members) v used e p q =
        let (vs, same, read_members) = visit-object limits depth nodes members v used e in
        rw same (
          object-Within limits depth nodes members vs used
            (visit_map-Within depth nodes [] members vs used read_members p q))

    visit_seq-Within :
        (depth nodes : ℕ) (raw : RawItems) (vs : Items) (used : ℕ)
        → visit_seq limits depth nodes raw ≡ ok (vs, used)
        → depth ≤ limits.depth
        → nodes ≤ limits.nodes
        → ItemsWithin limits depth nodes raw vs used
    visit_seq-Within depth nodes raw_items_end vs used e p q =
        items_end-Within limits depth nodes vs used e p q
    visit_seq-Within depth nodes raw_items_broken vs used e p q =
        absurd (items_broken limits depth nodes vs used e)
    visit_seq-Within depth nodes (raw_item raw rest) vs used e p q =
        let r = visit_seq-ReadsItem limits depth nodes raw rest vs used e in
        let w = visit-Within (suc depth) (suc nodes) raw r.value r.middle r.first r.deeper r.room in
        item-ItemsWithin limits depth nodes raw rest vs used r w
          (visit_seq-Within depth r.middle rest r.values used r.later p w.nodes_within)

    visit_map-Within :
        (depth nodes : ℕ) (keys : List Text) (raw : RawMembers) (vs : Members) (used : ℕ)
        → visit_map limits depth nodes keys raw ≡ ok (vs, used)
        → depth ≤ limits.depth
        → nodes ≤ limits.nodes
        → MembersWithin limits depth nodes keys raw vs used
    visit_map-Within depth nodes keys raw_members_end vs used e p q =
        members_end-Within limits depth nodes keys vs used e p q
    visit_map-Within depth nodes keys raw_members_broken vs used e p q =
        absurd (members_broken limits depth nodes keys vs used e)
    visit_map-Within depth nodes keys (raw_member key raw rest) vs used e p q =
        let r = visit_map-ReadsMember limits depth nodes keys key raw rest vs used e in
        let w = visit-Within (suc depth) (suc nodes) raw r.value r.middle r.first r.deeper r.room in
        member-MembersWithin limits depth nodes keys key raw rest vs used r w
          (visit_map-Within depth r.middle (key ∷ keys) rest r.values used r.later p w.nodes_within)

  -- A value that was read is within the limits, has distinct keys, and is what was presented.
  pub read-Within :
      (raw : Raw) (v : Json) (used : ℕ)
      → read limits raw ≡ ok (v, used)
      → (count v ≤ limits.nodes)
        × (height v ≤ limits.depth)
        × (distinct_keys v ≡ true)
        × (raw ≡ present v)
  unfolding read claim
  read-Within raw v used e =
      let w : Within limits 1 1 raw v used =
        visit-Within 1 1 raw v used (ground arith) (ground arith) (ground arith) in
      (
        omega (arith, w.counted, w.nodes_within),
        omega (arith, w.depth_within),
        w.distinct,
        w.presented,
      )
