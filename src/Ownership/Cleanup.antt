-- ===== src/Ownership/Cleanup.antt =====
-- The release of a scope is exact.
use weregopher.Base.{
  ℕ_key, bytes_key, ℕ, ◌≡◌, refl, ◌↔◌, inl, inr, Bool, true, Option, none, some, [], ◌∷◌, map,
  arith, if◌then◌else◌, ==_iff, Bool-cases, ok, bytes_eq_iff, sym, ◌⊎◌, false, ◌∙◌, Option-cases,
}
use mathlib.Core.List.{map}
use weregopher.Base.Maps.{
  Map, contains, get, keys_where, IsDistinct, holds_at, keys_where-missing, contains-keys_where,
  get-remove_where,
}
use weregopher.Proxy.Text.{Text}
use weregopher.Ownership.{
  token_key, Token, ExecutionIdentity, Resource, Release, Registry, option_eq, covers, is_within,
  release_scope,
}
use weregopher.Ownership.Scope.{
  in_scope, token_in_scope, scope_ids, release_scope-result, Found, Found-change, take_all-ids,
}
use weregopher.Ownership.Invariant.{RegistryInv}

keys_where-Found :
    (p : ℕ → Resource → Bool) (m : Map ℕ Resource)
    → IsDistinct m
    → ((id : ℕ) (r : Resource) → get id m ≡ some r → r.id ≡ id)
    → Found m (keys_where p m)
unfolding keys_where get
keys_where-Found p [] v keyed = tt
keys_where-Found p ((k, a) ∷ m) v keyed =
    let free = keys_where-missing p k m v.0 in
    let tail_keyed = λ (id : ℕ) (r : Resource) (e : get id m ≡ some r).
      keyed id r (ground (arith, e, v.0, ==_iff k id)) in
    let later =
      Found-change m ((k, a) ∷ m) k (keys_where p m) (λ j other. ground (arith, other)) free
        (keys_where-Found p m v.1 tail_keyed) in
    elim (Bool-cases (p k a)) [
      | inr out ↦ rw out later
      | inl chosen ↦
          let here : get k ((k, a) ∷ m) ≡ some a = ground (arith, (==_iff k k).1 refl) in
          rw chosen ((a, here, keyed k a here), free, later)
    ]

option_eq_iff : (a b : Option Text) → (option_eq a b ≡ true) ↔ (a ≡ b)
unfolding option_eq
option_eq_iff none none = ground arith
option_eq_iff (some a) (some b) = ground (arith, bytes_eq_iff a b)
option_eq_iff none (some b) = ground arith
option_eq_iff (some a) none = ground arith

-- A scope names a part of an identity, or leaves it open.
abbrev pub IsNamed : Option Text → Option Text → Type 0
IsNamed none part = Unit
IsNamed (some name) part = part ≡ some name

-- An identity is within a scope: in its thread, and in its turn and its item where it names them.
abbrev pub IsWithin : ExecutionIdentity → ExecutionIdentity → Type 0
IsWithin identity scope =
    (identity.thread ≡ scope.thread)
    × IsNamed scope.turn identity.turn
    × IsNamed scope.item identity.item

covers_iff : (scope part : Option Text) → (covers scope part ≡ true) ↔ IsNamed scope part
covers_iff none part = ((λ e. tt), (λ u. refl))
covers_iff (some name) part = option_eq_iff part (some name)

is_within_iff :
    (identity scope : ExecutionIdentity)
    → (is_within identity scope ≡ true) ↔ IsWithin identity scope
unfolding is_within
is_within_iff identity scope =
    let thread = option_eq_iff identity.thread scope.thread in
    let turn = covers_iff scope.turn identity.turn in
    let item = covers_iff scope.item identity.item in
    (
      (λ e. (thread.0 (ground (arith, e)), turn.0 (ground (arith, e)), item.0 (ground (arith, e)))),
      (λ w. rw (thread.1 w.0, turn.1 w.1, item.1 w.2, is_within) refl),
    )

release_scope-holds :
    (p : Registry) (scope : ExecutionIdentity) (q : Registry) (out : Release) (id : ℕ)
    (token : Token)
    → RegistryInv p
    → release_scope p scope ≡ ok (q, out)
    → (get id q.resources
        ≡ (if holds_at (in_scope scope) id p.resources then none else get id p.resources))
      × (get token q.correlations ≡ (
          if holds_at (token_in_scope scope) token p.correlations
          then none
          else get token p.correlations))
      × (contains id (map (λ (r : Resource). r.id) out.resources)
          ≡ holds_at (in_scope scope) id p.resources)
release_scope-holds p scope q out id token v e =
    let (result, report) = release_scope-result p scope q out e in
    let listed =
      take_all-ids (scope_ids p scope) p.resources
        (keys_where-Found (in_scope scope) p.resources v.resources_distinct v.keyed) in
    rw (result, report, listed)
      (
        get-remove_where (in_scope scope) id p.resources v.resources_distinct,
        get-remove_where (token_in_scope scope) token p.correlations v.correlations_distinct,
        contains-keys_where (in_scope scope) id p.resources v.resources_distinct,
      )

-- What becomes of an entry of a map: it is gone if its identity is within the scope, and else it
-- stands.
abbrev pub Fate :
    {A : Type 0} → (A → ExecutionIdentity) → ExecutionIdentity → Option A → Option A → Type 0
Fate identity_of scope none after = after ≡ none
Fate identity_of scope (some a) after =
    (IsWithin (identity_of a) scope × (after ≡ none))
    ⊎ ((¬ IsWithin (identity_of a) scope) × (after ≡ some a))

-- What is reported: a label whose identity is within the scope.
abbrev pub IsReported : ExecutionIdentity → Option Resource → Type 0
IsReported scope none = true ≡ false
IsReported scope (some r) = IsWithin r.identity scope

chosen : {A : Type 0} → (A → ExecutionIdentity) → ExecutionIdentity → Option A → Bool
chosen identity_of scope none = false
chosen identity_of scope (some a) = is_within (identity_of a) scope

fate :
    {A : Type 0} (identity_of : A → ExecutionIdentity) (scope : ExecutionIdentity)
    (before after : Option A)
    → after ≡ (if chosen identity_of scope before then none else before)
    → Fate identity_of scope before after
unfolding chosen
fate identity_of scope none after e = e
fate identity_of scope (some a) after e = elim (Bool-cases (is_within (identity_of a) scope)) [
  | inl inside ↦ inl ((is_within_iff (identity_of a) scope).0 inside, rw inside at e)
  | inr outside ↦ inr (
    (λ w. absurd (ground (arith, outside, (is_within_iff (identity_of a) scope).1 w))),
    rw outside at e,
  )
]

reported :
    (scope : ExecutionIdentity) (before : Option Resource)
    → (chosen (λ (r : Resource). r.identity) scope before ≡ true) ↔ IsReported scope before
unfolding chosen
reported scope none = ((λ e. sym e), (λ e. sym e))
reported scope (some r) = is_within_iff r.identity scope

holds_at-resource :
    (scope : ExecutionIdentity) (id : ℕ) (m : Map ℕ Resource)
    → holds_at (in_scope scope) id m ≡ chosen (λ (r : Resource). r.identity) scope (get id m)
unfolding chosen
holds_at-resource scope id m = elim (Option-cases (get id m)) [
  | inl e ↦ rw (e, holds_at) refl
  | inr (r, e) ↦ rw (e, holds_at) refl
]

holds_at-token :
    (scope : ExecutionIdentity) (token : Token) (m : Map Token ExecutionIdentity)
    → holds_at (token_in_scope scope) token m
      ≡ chosen (λ (i : ExecutionIdentity). i) scope (get token m)
unfolding chosen
holds_at-token scope token m = elim (Option-cases (get token m)) [
  | inl e ↦ rw (e, holds_at) refl
  | inr (r, e) ↦ rw (e, holds_at) refl
]

-- In a registry that satisfies its invariant, the release of a scope removes the labels and the
-- bindings whose identity is within the scope, which is in its thread, and in its turn and its
-- item where the scope names them, and leaves every other as it was; and it reports exactly the
-- labels that it removed.
pub release_scope-exact :
    (p : Registry) (scope : ExecutionIdentity) (q : Registry) (out : Release) (id : ℕ)
    (token : Token)
    → RegistryInv p
    → release_scope p scope ≡ ok (q, out)
    → Fate (λ (r : Resource). r.identity) scope (get id p.resources) (get id q.resources)
      × Fate
          (λ (i : ExecutionIdentity). i)
          scope
          (get token p.correlations)
          (get token q.correlations)
      × ((contains id (map (λ (r : Resource). r.id) out.resources) ≡ true)
          ↔ IsReported scope (get id p.resources))
release_scope-exact p scope q out id token v e =
    let held = release_scope-holds p scope q out id token v e in
    let here = holds_at-resource scope id p.resources in
    let listed = reported scope (get id p.resources) in
    (
      fate (λ (r : Resource). r.identity) scope (get id p.resources) (get id q.resources)
          (rw here at held.0),
      fate (λ (i : ExecutionIdentity). i) scope (get token p.correlations)
          (get token q.correlations) (rw (holds_at-token scope token p.correlations) at held.1),
      ((λ f. listed.0 (sym here ∙ sym held.2 ∙ f)), (λ w. held.2 ∙ here ∙ listed.1 w)),
    )

covers_trans : (a b c : Option Text) → covers b a ≡ true → covers c b ≡ true → covers c a ≡ true
covers_trans a none none p q = refl
covers_trans a (some x) none p q = refl
covers_trans a none (some y) p q = absurd (ground (arith, option_eq_iff none (some y)))
covers_trans a (some x) (some y) p q =
    ground (arith, option_eq_iff a (some x), option_eq_iff (some x) (some y))

-- Scopes nest: an identity that is within a scope is within every scope that this one is within.
pub is_within_trans :
    (a b c : ExecutionIdentity) → is_within a b ≡ true → is_within b c ≡ true → is_within a c ≡ true
unfolding is_within
is_within_trans a b c p q = ground (
  arith,
  option_eq_iff a.thread b.thread,
  option_eq_iff b.thread c.thread,
  covers_trans a.turn b.turn c.turn,
  covers_trans a.item b.item c.item,
)
