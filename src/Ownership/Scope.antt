-- ===== src/Ownership/Scope.antt =====
-- What the release of a scope takes away.
use weregopher.Base.{
  ℕ_key, OrdKey, ℕ, ◌≡◌, refl, ◌∙◌, inl, inr, Bool, true, false, some, List, [], ◌∷◌, map, arith,
  ◌==◌, ==_iff, Option-cases, is_some, ok, OrdKey,
}
use mathlib.Core.List.{map}
use weregopher.Base.Maps.{Map, contains, get, remove, keys_where, remove_all, get-remove}
use weregopher.Ownership.{
  token_key, Token, ExecutionIdentity, Resource, Release, Registry, is_within, take_all,
  release_scope,
}

abbrev pub in_scope : ExecutionIdentity → ℕ → Resource → Bool
in_scope scope id resource = is_within resource.identity scope

abbrev pub token_in_scope : ExecutionIdentity → Token → ExecutionIdentity → Bool
token_in_scope scope token identity = is_within identity scope

abbrev pub scope_tokens : Registry → ExecutionIdentity → List Token
scope_tokens p scope = keys_where (token_in_scope scope) p.correlations

abbrev pub scope_ids : Registry → ExecutionIdentity → List ℕ
scope_ids p scope = keys_where (in_scope scope) p.resources

take_all-rest : (ids : List ℕ) (m : Map ℕ Resource) → (take_all ids m).1 ≡ remove_all ids m
unfolding take_all remove_all
take_all-rest [] m = refl
take_all-rest (id ∷ ids) m = elim (Option-cases (get id m)) [
  | inl gone ↦ rw (gone, take_all) (take_all-rest ids (remove id m))
  | inr (r, found) ↦ rw (found, take_all) (take_all-rest ids (remove id m))
]

pub release_scope-result :
    (p : Registry) (scope : ExecutionIdentity) (q : Registry) (out : Release)
    → release_scope p scope ≡ ok (q, out)
    → (q ≡ record p {
      correlations = remove_all (scope_tokens p scope) p.correlations;
      resources = remove_all (scope_ids p scope) p.resources;
    })
      × (out.resources ≡ (take_all (scope_ids p scope) p.resources).0)
unfolding release_scope
release_scope-result p scope q out e = ground (arith, take_all-rest (scope_ids p scope) p.resources)

module _ {K : Type 0} ⦃key : OrdKey K⦄ {V : Type 0} where
  pub get-remove_all-some :
      (ks : List K) (k : K) (m : Map K V) (v : V)
      → get k (remove_all ks m) ≡ some v
      → get k m ≡ some v
  unfolding remove_all
  get-remove_all-some [] k m v e = e
  get-remove_all-some (j ∷ ks) k m v e =
      let there = get-remove_all-some ks k (remove j m) v e in
      ground (arith, there, get-remove j k m)

  pub live-remove_all :
      (ks : List K) (k : K) (m : Map K V)
      → is_some (get k (remove_all ks m)) ≡ true
      → is_some (get k m) ≡ true
  live-remove_all ks k m live = elim (Option-cases (get k (remove_all ks m))) [
    | inl gone ↦ absurd (ground (arith, gone))
    | inr (v, found) ↦ ground (arith, get-remove_all-some ks k m v found)
  ]

-- Distinct keys, under each of which its own resource stands.
abbrev pub Found : Map ℕ Resource → List ℕ → Type 0
Found m [] = Unit
Found m (id ∷ ids) =
    ((r : Resource) × (get id m ≡ some r) × (r.id ≡ id)) × (contains id ids ≡ false) × Found m ids

pub Found-change :
    (m m' : Map ℕ Resource) (k : ℕ) (ids : List ℕ)
    → ((j : ℕ) → (k == j) ≡ false → get j m' ≡ get j m)
    → contains k ids ≡ false
    → Found m ids
    → Found m' ids
unfolding contains
Found-change m m' k [] same free f = tt
Found-change m m' k (id ∷ ids) same free f = (
  (f.0.0, same id (ground (arith, ==_iff k id, ==_iff id k)) ∙ f.0.1, f.0.2),
  f.1,
  Found-change m m' k ids same (ground arith) f.2,
)

pub take_all-ids :
    (ids : List ℕ) (m : Map ℕ Resource)
    → Found m ids
    → map (λ (r : Resource). r.id) (take_all ids m).0 ≡ ids
unfolding take_all
take_all-ids [] m f = refl
take_all-ids (id ∷ ids) m f =
    let (r, found, own) = f.0 in
    let later = take_all-ids ids (remove id m) (
      Found-change m (remove id m) id ids (λ j other. ground (arith, other, get-remove id j m)) f.1
        f.2) in
    rw (found, take_all) (cc (own, later))
