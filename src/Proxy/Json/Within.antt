-- ===== src/Proxy/Json/Within.antt =====
-- Values that were read within the limits, put together from their parts.
use weregopher.Base.{
  bytes_key, ℕ, suc, ◌+◌, ◌≤◌, ◌≡◌, refl, sym, ◌≢◌, Bool, true, false, List, [], ◌∷◌, arith, ok,
  bytes_eq_iff,
}
use weregopher.Base.Maps.{contains}
use weregopher.Proxy.Text.{Text}
use weregopher.Proxy.Limits.{JsonLimits}
use weregopher.Proxy.Json.{
  Raw, raw_null, malformed, raw_bool, raw_unsigned, raw_negative, raw_float, raw_text, raw_array,
  raw_object, RawItems, raw_items_end, raw_items_broken, raw_item, RawMembers, raw_members_end,
  raw_members_broken, raw_member, Json, array, object, Items, Members, no_members, visit, visit_seq,
  visit_map,
}
use weregopher.Proxy.Json.Measure.{
  count, count_items, count_members, height, height_items, height_members, has_key, distinct_keys,
  distinct_keys_items, distinct_keys_members, present, present_items, present_members,
}
use weregopher.Proxy.Json.Steps.{ReadsItem, ReadsMember}

seen_first : (k : Text) (keys : List Text) → contains k (k ∷ keys) ≡ true
unfolding contains
seen_first k keys = ground (arith, (bytes_eq_iff k k).1 refl)

seen_later : (k j : Text) (keys : List Text) → contains k keys ≡ true → contains k (j ∷ keys) ≡ true
unfolding contains
seen_later k j keys seen = ground (arith, bytes_eq_iff j k)

module _ (limits : JsonLimits) where
  -- A value that was read from a place that was claimed.
  pub record Within (depth nodes : ℕ) (raw : Raw) (v : Json) (used : ℕ) : Type 0 where
    pub counted : used + 1 ≡ nodes + count v
    pub nodes_within : used ≤ limits.nodes
    pub depth_within : height v + depth ≤ suc limits.depth
    pub presented : raw ≡ present v
    pub distinct : distinct_keys v ≡ true

  pub record ItemsWithin (depth nodes : ℕ) (raw : RawItems) (vs : Items) (used : ℕ) : Type 0 where
    pub counted : used ≡ nodes + count_items vs
    pub nodes_within : used ≤ limits.nodes
    pub depth_within : height_items vs + depth ≤ limits.depth
    pub presented : raw ≡ present_items vs
    pub distinct : distinct_keys_items vs ≡ true

  pub record MembersWithin (depth nodes : ℕ) (keys : List Text) (raw : RawMembers) (vs : Members)
      (used : ℕ) : Type 0 where
    pub counted : used ≡ nodes + count_members vs
    pub nodes_within : used ≤ limits.nodes
    pub depth_within : height_members vs + depth ≤ limits.depth
    pub presented : raw ≡ present_members vs
    pub distinct : distinct_keys_members vs ≡ true
    pub unseen : (k : Text) → contains k keys ≡ true → has_key k vs ≡ false

  pub item-ItemsWithin :
      (depth nodes : ℕ) (raw : Raw) (rest : RawItems) (vs : Items) (used : ℕ)
      (r : ReadsItem limits depth nodes raw rest vs used)
      → Within (suc depth) (suc nodes) raw r.value r.middle
      → ItemsWithin depth r.middle rest r.values used
      → ItemsWithin depth nodes (raw_item raw rest) vs used
  unfolding count height present distinct_keys has_key
  item-ItemsWithin depth nodes raw rest vs used r w ws = rw (r.same) (record {
    counted = omega (arith, w.counted, ws.counted);
    nodes_within = ws.nodes_within;
    depth_within = omega (arith, w.depth_within, ws.depth_within);
    presented = cc (w.presented, ws.presented);
    distinct = ground (arith, w.distinct, ws.distinct);
  })

  pub member-MembersWithin :
      (depth nodes : ℕ) (keys : List Text) (key : Text) (raw : Raw) (rest : RawMembers)
      (vs : Members) (used : ℕ) (r : ReadsMember limits depth nodes keys key raw rest vs used)
      → Within (suc depth) (suc nodes) raw r.value r.middle
      → MembersWithin depth r.middle (key ∷ keys) rest r.values used
      → MembersWithin depth nodes keys (raw_member key raw rest) vs used
  unfolding count height present distinct_keys has_key
  member-MembersWithin depth nodes keys key raw rest vs used r w ws = rw (r.same) (record {
    counted = omega (arith, w.counted, ws.counted);
    nodes_within = ws.nodes_within;
    depth_within = omega (arith, w.depth_within, ws.depth_within);
    presented = cc (w.presented, ws.presented);
    distinct = ground (arith, w.distinct, ws.distinct, ws.unseen key (seen_first key keys));
    unseen = λ k seen.
        ground (arith, ws.unseen k (seen_later k key keys seen), r.fresh, bytes_eq_iff key k);
  })

  pub array-Within :
      (depth nodes : ℕ) (items : RawItems) (vs : Items) (used : ℕ)
      → ItemsWithin depth nodes items vs used
      → Within depth nodes (raw_array items) (array vs) used
  unfolding count height present distinct_keys has_key
  array-Within depth nodes items vs used w = record {
    counted = omega (arith, w.counted);
    nodes_within = w.nodes_within;
    depth_within = omega (arith, w.depth_within);
    presented = cc (w.presented);
    distinct = w.distinct;
  }

  pub object-Within :
      (depth nodes : ℕ) (members : RawMembers) (vs : Members) (used : ℕ)
      → MembersWithin depth nodes [] members vs used
      → Within depth nodes (raw_object members) (object vs) used
  unfolding count height present distinct_keys has_key
  object-Within depth nodes members vs used w = record {
    counted = omega (arith, w.counted);
    nodes_within = w.nodes_within;
    depth_within = omega (arith, w.depth_within);
    presented = cc (w.presented);
    distinct = w.distinct;
  }

  abbrev pub is_leaf : Raw → Bool
  is_leaf (raw_array items) = false
  is_leaf (raw_object members) = false
  is_leaf _ = true

  pub leaf-Within :
      (depth nodes : ℕ) (raw : Raw) (v : Json) (used : ℕ)
      → is_leaf raw ≡ true
      → visit limits depth nodes raw ≡ ok (v, used)
      → depth ≤ limits.depth
      → nodes ≤ limits.nodes
      → Within depth nodes raw v used
  unfolding visit count height present distinct_keys
  leaf-Within depth nodes raw_null v used l e p q = ground arith
  leaf-Within depth nodes malformed v used l e p q = ground arith
  leaf-Within depth nodes (raw_bool b) v used l e p q = ground arith
  leaf-Within depth nodes (raw_unsigned n) v used l e p q = ground arith
  leaf-Within depth nodes (raw_negative n) v used l e p q = ground arith
  leaf-Within depth nodes (raw_float true) v used l e p q = ground arith
  leaf-Within depth nodes (raw_float false) v used l e p q = ground arith
  leaf-Within depth nodes (raw_text s) v used l e p q = ground arith
  leaf-Within depth nodes (raw_array items) v used l e p q = ground arith
  leaf-Within depth nodes (raw_object members) v used l e p q = ground arith

  pub items_end-Within :
      (depth nodes : ℕ) (vs : Items) (used : ℕ)
      → visit_seq limits depth nodes raw_items_end ≡ ok (vs, used)
      → depth ≤ limits.depth
      → nodes ≤ limits.nodes
      → ItemsWithin depth nodes raw_items_end vs used
  unfolding visit_seq count_items height_items present_items distinct_keys_items
  items_end-Within depth nodes vs used e p q = ground arith

  pub items_broken :
      (depth nodes : ℕ) (vs : Items) (used : ℕ)
      → visit_seq limits depth nodes raw_items_broken ≢ ok (vs, used)
  unfolding visit_seq
  items_broken depth nodes vs used e = ground arith

  pub members_end-Within :
      (depth nodes : ℕ) (keys : List Text) (vs : Members) (used : ℕ)
      → visit_map limits depth nodes keys raw_members_end ≡ ok (vs, used)
      → depth ≤ limits.depth
      → nodes ≤ limits.nodes
      → MembersWithin depth nodes keys raw_members_end vs used
  unfolding visit_map count_members height_members present_members distinct_keys_members has_key
  members_end-Within depth nodes keys vs used e p q =
      let same : (no_members ≡ vs) × (nodes ≡ used) = ground arith in
      rw (sym same.0, sym same.1)
        (record {
          counted = omega arith;
          nodes_within = q;
          depth_within = omega arith;
          presented = refl;
          distinct = refl;
          unseen = λ k seen. refl;
        })

  pub members_broken :
      (depth nodes : ℕ) (keys : List Text) (vs : Members) (used : ℕ)
      → visit_map limits depth nodes keys raw_members_broken ≢ ok (vs, used)
  unfolding visit_map
  members_broken depth nodes keys vs used e = ground arith
