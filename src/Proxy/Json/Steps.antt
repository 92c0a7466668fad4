-- ===== src/Proxy/Json/Steps.antt =====
-- What one step of the reader did when it succeeded.
use weregopher.Base.{
  bytes_key, ℕ, suc, ◌≤◌, ◌≡◌, inl, inr, false, List, [], ◌∷◌, arith, ok, Result-cases,
}
use weregopher.Base.Maps.{contains}
use weregopher.Proxy.Text.{Text}
use weregopher.Proxy.Limits.{JsonLimits}
use weregopher.Proxy.Json.{
  Raw, raw_array, raw_object, RawItems, raw_item, RawMembers, raw_member, Json, array, object,
  Items, item, Members, member, claim, visit, visit_seq, visit_map,
}

module _ (limits : JsonLimits) where
  -- The steps of one item, and of one member, that were read.
  pub record ReadsItem (depth nodes : ℕ) (raw : Raw) (rest : RawItems) (vs : Items) (used : ℕ)
      : Type 0 where
    pub value : Json
    pub values : Items
    pub middle : ℕ
    pub same : vs ≡ item value values
    pub deeper : suc depth ≤ limits.depth
    pub room : suc nodes ≤ limits.nodes
    pub first : visit limits (suc depth) (suc nodes) raw ≡ ok (value, middle)
    pub later : visit_seq limits depth middle rest ≡ ok (values, used)

  pub visit_seq-ReadsItem :
      (depth nodes : ℕ) (raw : Raw) (rest : RawItems) (vs : Items) (used : ℕ)
      → visit_seq limits depth nodes (raw_item raw rest) ≡ ok (vs, used)
      → ReadsItem depth nodes raw rest vs used
  unfolding visit_seq claim
  visit_seq-ReadsItem depth nodes raw rest vs used e =
      elim (Result-cases (visit limits (suc depth) (suc nodes) raw)) [
        | inr (x, bad) ↦ absurd (ground (arith, bad))
        | inl ((v, n), good) ↦ elim (Result-cases (visit_seq limits depth n rest)) [
          | inr (x, bad) ↦ absurd (ground (arith, good, bad))
          | inl ((vs', m), more) ↦ record {
            value = v;
            values = vs';
            middle = n;
            same = ground (arith, good, more);
            deeper = ground (arith, good, more);
            room = ground (arith, good, more);
            first = good;
            later = ground (arith, good, more);
          }
        ]
      ]

  pub record ReadsMember (depth nodes : ℕ) (keys : List Text) (key : Text) (raw : Raw)
      (rest : RawMembers) (vs : Members) (used : ℕ) : Type 0 where
    pub value : Json
    pub values : Members
    pub middle : ℕ
    pub same : vs ≡ member key value values
    pub fresh : contains key keys ≡ false
    pub deeper : suc depth ≤ limits.depth
    pub room : suc nodes ≤ limits.nodes
    pub first : visit limits (suc depth) (suc nodes) raw ≡ ok (value, middle)
    pub later : visit_map limits depth middle (key ∷ keys) rest ≡ ok (values, used)

  pub visit_map-ReadsMember :
      (depth nodes : ℕ) (keys : List Text) (key : Text) (raw : Raw) (rest : RawMembers)
      (vs : Members) (used : ℕ)
      → visit_map limits depth nodes keys (raw_member key raw rest) ≡ ok (vs, used)
      → ReadsMember depth nodes keys key raw rest vs used
  unfolding visit_map claim
  visit_map-ReadsMember depth nodes keys key raw rest vs used e =
      elim (Result-cases (visit limits (suc depth) (suc nodes) raw)) [
        | inr (x, bad) ↦ absurd (ground (arith, bad))
        | inl ((v, n), good) ↦ elim (Result-cases (visit_map limits depth n (key ∷ keys) rest)) [
          | inr (x, bad) ↦ absurd (ground (arith, good, bad))
          | inl ((vs', m), more) ↦ record {
            value = v;
            values = vs';
            middle = n;
            same = ground (arith, good, more);
            fresh = ground (arith, good, more);
            deeper = ground (arith, good, more);
            room = ground (arith, good, more);
            first = good;
            later = ground (arith, good, more);
          }
        ]
      ]

  -- An array that was read is the array of its items, and so an object.
  pub visit-array :
      (depth nodes : ℕ) (items : RawItems) (v : Json) (used : ℕ)
      → visit limits depth nodes (raw_array items) ≡ ok (v, used)
      → (vs : Items) × (v ≡ array vs) × (visit_seq limits depth nodes items ≡ ok (vs, used))
  unfolding visit
  visit-array depth nodes items v used e =
      elim (Result-cases (visit_seq limits depth nodes items)) [
        | inr (x, bad) ↦ absurd (ground (arith, bad))
        | inl ((vs, m), good) ↦ (vs, ground (arith, good), ground (arith, good))
      ]

  pub visit-object :
      (depth nodes : ℕ) (members : RawMembers) (v : Json) (used : ℕ)
      → visit limits depth nodes (raw_object members) ≡ ok (v, used)
      → (vs : Members) × (v ≡ object vs) × (visit_map limits depth nodes [] members ≡ ok (vs, used))
  unfolding visit
  visit-object depth nodes members v used e =
      elim (Result-cases (visit_map limits depth nodes [] members)) [
        | inr (x, bad) ↦ absurd (ground (arith, bad))
        | inl ((vs, m), good) ↦ (vs, ground (arith, good), ground (arith, good))
      ]
