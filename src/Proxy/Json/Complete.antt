-- ===== src/Proxy/Json/Complete.antt =====
-- The bounded reader accepts every value that is within the limits and has distinct keys.
use weregopher.Base.{
  bytes_key, ℕ, suc, ◌+◌, ◌≤◌, ◌<◌, ◌≡◌, refl, Bool, true, false, ◌&&◌, not, List, [], ◌∷◌, arith,
  ok, bytes_eq_iff,
}
use weregopher.Base.Maps.{contains}
use weregopher.Proxy.Text.{Text}
use weregopher.Proxy.Limits.{JsonLimits}
use weregopher.Proxy.Json.{
  Raw, raw_array, raw_object, RawItems, raw_items_end, raw_item, RawMembers, raw_members_end,
  raw_member, Json, null, boolean, unsigned_number, negative_number, float_number, string, array,
  object, Items, no_items, item, Members, no_members, member, claim, visit, visit_seq, visit_map,
  read,
}
use weregopher.Proxy.Json.Measure.{
  count, count_items, count_members, height, height_items, height_members, has_key, distinct_keys,
  distinct_keys_items, distinct_keys_members, present, present_items, present_members,
}

-- No key of an object was seen before it.
abbrev Unseen : List Text → Members → Type 0
Unseen keys no_members = Unit
Unseen keys (member k v vs) = (contains k keys ≡ false) × Unseen keys vs

Unseen-cons :
    (keys : List Text) (j : Text) (vs : Members)
    → has_key j vs ≡ false
    → Unseen keys vs
    → Unseen (j ∷ keys) vs
unfolding has_key contains
Unseen-cons keys j no_members fresh u = tt
Unseen-cons keys j (member k v vs) fresh u =
    (ground (arith, bytes_eq_iff j k, bytes_eq_iff k j), Unseen-cons keys j vs (ground arith) u.1)

Unseen-empty : (vs : Members) → Unseen [] vs
unfolding contains
Unseen-empty no_members = tt
Unseen-empty (member k v vs) = (refl, Unseen-empty vs)

distinct-item :
    (v : Json) (vs : Items)
    → distinct_keys_items (item v vs) ≡ true
    → (distinct_keys v ≡ true) × (distinct_keys_items vs ≡ true)
unfolding distinct_keys_items
distinct-item v vs u = ground arith

all_three : (a b c : Bool) → (not a && b && c) ≡ true → (a ≡ false) × (b ≡ true) × (c ≡ true)
all_three a b c e = ground arith

distinct-member :
    (k : Text) (v : Json) (vs : Members)
    → distinct_keys_members (member k v vs) ≡ true
    → (has_key k vs ≡ false) × (distinct_keys v ≡ true) × (distinct_keys_members vs ≡ true)
unfolding distinct_keys_members
distinct-member k v vs u = all_three (has_key k vs) (distinct_keys v) (distinct_keys_members vs) u

zero_add : (n : ℕ) → 0 + n ≡ n
zero_add n = omega arith

module _ (limits : JsonLimits) where
  claim-ok :
      (depth nodes : ℕ)
      → depth ≤ limits.depth
      → nodes < limits.nodes
      → claim limits depth nodes ≡ ok (suc nodes)
  unfolding claim
  claim-ok depth nodes p q = ground arith

  count-positive : (v : Json) → 0 < count v
  unfolding count
  count-positive null = omega arith
  count-positive (boolean b) = omega arith
  count-positive (unsigned_number n) = omega arith
  count-positive (negative_number n) = omega arith
  count-positive float_number = omega arith
  count-positive (string s) = omega arith
  count-positive (array items) = omega arith
  count-positive (object entries) = omega arith

  height-positive : (v : Json) → 0 < height v
  unfolding height
  height-positive null = omega arith
  height-positive (boolean b) = omega arith
  height-positive (unsigned_number n) = omega arith
  height-positive (negative_number n) = omega arith
  height-positive float_number = omega arith
  height-positive (string s) = omega arith
  height-positive (array items) = omega arith
  height-positive (object entries) = omega arith

  item-step :
      (depth nodes : ℕ) (raw : Raw) (rest : RawItems) (v : Json) (vs : Items) (middle used : ℕ)
      → suc depth ≤ limits.depth
      → nodes < limits.nodes
      → visit limits (suc depth) (suc nodes) raw ≡ ok (v, middle)
      → visit_seq limits depth middle rest ≡ ok (vs, used)
      → visit_seq limits depth nodes (raw_item raw rest) ≡ ok (item v vs, used)
  unfolding visit_seq
  item-step depth nodes raw rest v vs middle used p q first later =
      ground (arith, claim-ok (suc depth) nodes p q, first, later)

  member-step :
      (depth nodes : ℕ) (keys : List Text) (k : Text) (raw : Raw) (rest : RawMembers) (v : Json)
      (vs : Members) (middle used : ℕ)
      → contains k keys ≡ false
      → suc depth ≤ limits.depth
      → nodes < limits.nodes
      → visit limits (suc depth) (suc nodes) raw ≡ ok (v, middle)
      → visit_map limits depth middle (k ∷ keys) rest ≡ ok (vs, used)
      → visit_map limits depth nodes keys (raw_member k raw rest) ≡ ok (member k v vs, used)
  unfolding visit_map
  member-step depth nodes keys k raw rest v vs middle used fresh p q first later =
      ground (arith, fresh, claim-ok (suc depth) nodes p q, first, later)

  abbrev is_scalar : Json → Bool
  is_scalar (array items) = false
  is_scalar (object entries) = false
  is_scalar _ = true

  leaf-step :
      (depth base : ℕ) (v : Json)
      → is_scalar v ≡ true
      → visit limits depth (suc base) (present v) ≡ ok (v, base + count v)
  unfolding visit count present
  leaf-step depth base null e = ground arith
  leaf-step depth base (boolean b) e = ground arith
  leaf-step depth base (unsigned_number n) e = ground arith
  leaf-step depth base (negative_number n) e = ground arith
  leaf-step depth base float_number e = ground arith
  leaf-step depth base (string s) e = ground arith
  leaf-step depth base (array items) e = ground arith
  leaf-step depth base (object entries) e = ground arith

  array-step :
      (depth base : ℕ) (items : Items) (n : ℕ)
      → visit_seq limits depth (suc base) (present_items items) ≡ ok (items, suc base + n)
      → visit limits depth (suc base) (raw_array (present_items items))
        ≡ ok (array items, base + suc n)
  unfolding visit
  array-step depth base items n e = ground (arith, e)

  object-step :
      (depth base : ℕ) (entries : Members) (n : ℕ)
      → visit_map limits depth (suc base) [] (present_members entries) ≡ ok (entries, suc base + n)
      → visit limits depth (suc base) (raw_object (present_members entries))
        ≡ ok (object entries, base + suc n)
  unfolding visit
  object-step depth base entries n e = ground (arith, e)

  items_end-step :
      (depth nodes : ℕ) → visit_seq limits depth nodes raw_items_end ≡ ok (no_items, nodes + 0)
  unfolding visit_seq
  items_end-step depth nodes = ground arith

  members_end-step :
      (depth nodes : ℕ) (keys : List Text)
      → visit_map limits depth nodes keys raw_members_end ≡ ok (no_members, nodes + 0)
  unfolding visit_map
  members_end-step depth nodes keys = ground arith

  mutual
    unfolding count height distinct_keys present

    -- `base` is what was used before the value's own place was claimed.
    visit-present :
        (depth base : ℕ) (v : Json)
        → height v + depth ≤ suc limits.depth
        → base + count v ≤ limits.nodes
        → distinct_keys v ≡ true
        → visit limits depth (suc base) (present v) ≡ ok (v, base + count v)
    visit-present depth base null p q u = leaf-step depth base null refl
    visit-present depth base (boolean b) p q u = leaf-step depth base (boolean b) refl
    visit-present depth base (unsigned_number n) p q u =
        leaf-step depth base (unsigned_number n) refl
    visit-present depth base (negative_number n) p q u =
        leaf-step depth base (negative_number n) refl
    visit-present depth base float_number p q u = leaf-step depth base float_number refl
    visit-present depth base (string s) p q u = leaf-step depth base (string s) refl
    visit-present depth base (array items) p q u =
        array-step depth base items (count_items items)
          (visit_seq-present depth (suc base) items (omega arith) (omega arith) u)
    visit-present depth base (object entries) p q u =
        object-step depth base entries (count_members entries) (
          visit_map-present depth (suc base) [] entries (omega arith) (omega arith) u
            (Unseen-empty entries))

    visit_seq-present :
        (depth nodes : ℕ) (vs : Items)
        → height_items vs + depth ≤ limits.depth
        → nodes + count_items vs ≤ limits.nodes
        → distinct_keys_items vs ≡ true
        → visit_seq limits depth nodes (present_items vs) ≡ ok (vs, nodes + count_items vs)
    visit_seq-present depth nodes no_items p q u = items_end-step depth nodes
    visit_seq-present depth nodes (item v vs) p q u =
        let (apart, rest_apart) = distinct-item v vs u in
        let first = visit-present (suc depth) nodes v (omega arith) (omega arith) apart in
        let later =
          visit_seq-present depth (nodes + count v) vs (omega arith) (omega arith) rest_apart in
        let total : nodes + count v + count_items vs ≡ nodes + (count v + count_items vs) =
          omega arith in
        rw total at (
          item-step depth nodes (present v) (present_items vs) v vs (nodes + count v)
            (nodes + count v + count_items vs) (omega (arith, height-positive v))
            (omega (arith, count-positive v)) first later)

    visit_map-present :
        (depth nodes : ℕ) (keys : List Text) (vs : Members)
        → height_members vs + depth ≤ limits.depth
        → nodes + count_members vs ≤ limits.nodes
        → distinct_keys_members vs ≡ true
        → Unseen keys vs
        → visit_map limits depth nodes keys (present_members vs) ≡ ok (vs, nodes + count_members vs)
    visit_map-present depth nodes keys no_members p q u n = members_end-step depth nodes keys
    visit_map-present depth nodes keys (member k v vs) p q u n =
        let (fresh, apart, rest_apart) = distinct-member k v vs u in
        let first = visit-present (suc depth) nodes v (omega arith) (omega arith) apart in
        let later =
          visit_map-present depth (nodes + count v) (k ∷ keys) vs (omega arith) (omega arith)
            rest_apart (Unseen-cons keys k vs fresh n.1) in
        let total : nodes + count v + count_members vs ≡ nodes + (count v + count_members vs) =
          omega arith in
        rw total at (
          member-step depth nodes keys k (present v) (present_members vs) v vs (nodes + count v)
            (nodes + count v + count_members vs) n.0 (omega (arith, height-positive v))
            (omega (arith, count-positive v)) first later)

  -- A value within the limits on nodes and depth, in which no object has a key twice, is read as it
  -- is presented, and uses as many nodes as it has.
  pub read-present :
      (v : Json)
      → height v ≤ limits.depth
      → count v ≤ limits.nodes
      → distinct_keys v ≡ true
      → read limits (present v) ≡ ok (v, count v)
  unfolding read
  read-present v p q u =
      let fits : 0 + count v ≤ limits.nodes = omega arith in
      let e : visit limits 1 1 (present v) ≡ ok (v, count v) =
        rw (zero_add (count v)) at (visit-present 1 0 v (omega arith) fits u) in
      ground (
        arith,
        e,
        claim-ok 1 0 (omega (arith, height-positive v)) (omega (arith, count-positive v)),
      )
