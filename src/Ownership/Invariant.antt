-- ===== src/Ownership/Invariant.antt =====
-- What holds of a registry between two calls.
use weregopher.Base.{
  ℕ_key, bytes_key, state_after, state_after_cases, ℕ, ◌≤◌, ◌<◌, ◌≡◌, inl, inr, Bool, true, false,
  Option, none, some, List, [], ◌∷◌, arith, ◌==◌, Bool-cases, Option-cases, is_some, length, ok,
  state_after, state_after_cases,
}
use mathlib.Core.Path.{subst}
use weregopher.Base.Maps.{
  get, insert, get-insert, length-insert_new, IsDistinct, insert-IsDistinct, remove_all-IsDistinct,
  length-remove_all-le,
}
use weregopher.Ownership.{
  token_key, Token, token_eq_iff, ExecutionIdentity, OwnershipLimits, ResourceKind, Resource,
  Release, Registry, new, anchor_after, bind_correlation, register, register_from_correlation,
  release_scope, close_session,
}
use weregopher.Ownership.Scope.{
  scope_tokens, scope_ids, release_scope-result, get-remove_all-some, live-remove_all,
}

-- A token of the journal that the registry is pinned to.
abbrev pub is_anchored : Option Token → Token → Bool
is_anchored none token = false
is_anchored (some anchor) token = anchor.journal == token.journal

pub record RegistryInv (p : Registry) : Type 0 where
  pub correlations_within : length p.correlations ≤ p.limits.correlations
  pub resources_within : length p.resources ≤ p.limits.resources
  pub correlations_distinct : IsDistinct p.correlations
  pub resources_distinct : IsDistinct p.resources
  pub keyed : (id : ℕ) (r : Resource) → get id p.resources ≡ some r → r.id ≡ id
  pub anchored :
      (t : Token) → is_some (get t p.correlations) ≡ true → is_anchored p.journal_anchor t ≡ true

pub data Call : Type 0 where
  binds : Token → ExecutionIdentity → Call
  registers : ℕ → ResourceKind → ExecutionIdentity → Call
  registers_from : ℕ → ResourceKind → Token → Call
  releases : ExecutionIdentity → Call
  closes : Call

unfoldable pub step : Registry → Call → Registry
step p (binds token identity) = state_after p (bind_correlation p token identity)
step p (registers id kind identity) = state_after p (register p id kind identity)
step p (registers_from id kind token) = state_after p (register_from_correlation p id kind token)
step p (releases scope) = state_after p (release_scope p scope)
step p closes = (close_session p).0

unfoldable pub run : Registry → List Call → Registry
run p [] = p
run p (c ∷ cs) = run (step p c) cs

pub new-RegistryInv : (l : OwnershipLimits) → RegistryInv (new l)
unfolding new get
new-RegistryInv l = record {
  correlations_within = omega arith;
  resources_within = omega arith;
  correlations_distinct = tt;
  resources_distinct = tt;
  keyed = λ id r e. cc;
  anchored = λ t live. cc;
}

record Binds (p : Registry) (token : Token) (identity : ExecutionIdentity) (q : Registry)
    : Type 0 where
  fresh : get token p.correlations ≡ none
  room : length p.correlations < p.limits.correlations
  native : is_anchored (anchor_after p.journal_anchor token) token ≡ true
  same_anchor :
      (t : Token)
      → is_anchored p.journal_anchor t ≡ true
      → is_anchored (anchor_after p.journal_anchor token) t ≡ true
  result : q ≡ record p {
    journal_anchor = anchor_after p.journal_anchor token;
    correlations = insert token identity p.correlations;
  }

bind_correlation-Binds :
    (p : Registry) (token : Token) (identity : ExecutionIdentity) (q : Registry) (u : Unit {0})
    → bind_correlation p token identity ≡ ok (q, u)
    → Binds p token identity q
unfolding bind_correlation
bind_correlation-Binds p token identity q u e = record {
  fresh = ground arith;
  room = ground arith;
  native = ground arith;
  same_anchor = λ t known. ground arith;
  result = ground arith;
}

Binds-RegistryInv :
    (p : Registry) (token : Token) (identity : ExecutionIdentity) (q : Registry)
    → RegistryInv p
    → Binds p token identity q
    → RegistryInv q
Binds-RegistryInv p token identity q v b = rw (b.result) (record {
  correlations_within =
      omega (arith, b.room, length-insert_new token identity p.correlations b.fresh);
  resources_within = v.resources_within;
  correlations_distinct =
      insert-IsDistinct token identity p.correlations b.fresh v.correlations_distinct;
  resources_distinct = v.resources_distinct;
  keyed = v.keyed;
  anchored = λ t live. elim (Bool-cases (token_key.beq token t)) [
    | inl same ↦
        subst (λ (j : Token). is_anchored (anchor_after p.journal_anchor token) j ≡ true)
          ((token_eq_iff token t).0 same) b.native
    | inr other ↦
        b.same_anchor t (v.anchored t (ground (arith, get-insert token t identity p.correlations)))
  ];
})

register-RegistryInv :
    (p : Registry) (id : ℕ) (kind : ResourceKind) (identity : ExecutionIdentity) (q : Registry)
    (u : Unit {0})
    → RegistryInv p
    → register p id kind identity ≡ ok (q, u)
    → RegistryInv q
unfolding register
register-RegistryInv p id kind identity q u v e =
    let r : Resource = record { id = id; kind = kind; identity = identity } in
    let fresh : get id p.resources ≡ none = ground arith in
    let room : length p.resources < p.limits.resources = ground arith in
    let result : q ≡ record p { resources = insert id r p.resources } = ground arith in
    rw result (record {
      correlations_within = v.correlations_within;
      resources_within = omega (arith, room, length-insert_new id r p.resources fresh);
      correlations_distinct = v.correlations_distinct;
      resources_distinct = insert-IsDistinct id r p.resources fresh v.resources_distinct;
      keyed = λ j s found. ground (arith, get-insert id j r p.resources, v.keyed j s, found);
      anchored = v.anchored;
    })

pub release_scope-RegistryInv :
    (p : Registry) (scope : ExecutionIdentity) (q : Registry) (out : Release)
    → RegistryInv p
    → release_scope p scope ≡ ok (q, out)
    → RegistryInv q
release_scope-RegistryInv p scope q out v e =
    let tokens = scope_tokens p scope in
    let ids = scope_ids p scope in
    rw ((release_scope-result p scope q out e).0) (record {
      correlations_within =
          omega (arith, length-remove_all-le tokens p.correlations, v.correlations_within);
      resources_within = omega (arith, length-remove_all-le ids p.resources, v.resources_within);
      correlations_distinct = remove_all-IsDistinct tokens p.correlations v.correlations_distinct;
      resources_distinct = remove_all-IsDistinct ids p.resources v.resources_distinct;
      keyed = λ id r found. v.keyed id r (get-remove_all-some ids id p.resources r found);
      anchored = λ t live. v.anchored t (live-remove_all tokens t p.correlations live);
    })

close_session-RegistryInv : (p : Registry) → RegistryInv p → RegistryInv (close_session p).0
unfolding close_session get
close_session-RegistryInv p v = record {
  correlations_within = omega arith;
  resources_within = omega arith;
  correlations_distinct = tt;
  resources_distinct = tt;
  keyed = λ id r e. cc;
  anchored = λ t live. cc;
}

register_from-RegistryInv :
    (p : Registry) (id : ℕ) (kind : ResourceKind) (token : Token) (q : Registry) (u : Unit {0})
    → RegistryInv p
    → register_from_correlation p id kind token ≡ ok (q, u)
    → RegistryInv q
unfolding register_from_correlation
register_from-RegistryInv p id kind token q u v e = elim (Option-cases (get token p.correlations)) [
  | inl unknown ↦ absurd (ground (arith, unknown))
  | inr (identity, found) ↦ register-RegistryInv p id kind identity q u v (ground (arith, found))
]

step-RegistryInv : (p : Registry) (c : Call) → RegistryInv p → RegistryInv (step p c)
unfolding step
step-RegistryInv p (binds token identity) v =
    state_after_cases RegistryInv p (bind_correlation p token identity) v λ q u e.
      Binds-RegistryInv p token identity q v (bind_correlation-Binds p token identity q u e)
step-RegistryInv p (registers id kind identity) v =
    state_after_cases RegistryInv p (register p id kind identity) v
      λ q u e. register-RegistryInv p id kind identity q u v e
step-RegistryInv p (registers_from id kind token) v =
    state_after_cases RegistryInv p (register_from_correlation p id kind token) v
      λ q u e. register_from-RegistryInv p id kind token q u v e
step-RegistryInv p (releases scope) v =
    state_after_cases RegistryInv p (release_scope p scope) v
      λ q out e. release_scope-RegistryInv p scope q out v e
step-RegistryInv p closes v = close_session-RegistryInv p v

run_from-RegistryInv : (p : Registry) (cs : List Call) → RegistryInv p → RegistryInv (run p cs)
unfolding run
run_from-RegistryInv p [] v = v
run_from-RegistryInv p (c ∷ cs) v = run_from-RegistryInv (step p c) cs (step-RegistryInv p c v)

-- Over every history of calls from a new registry, bindings and labels are within their limits, no
-- key has two, a label stands under its own identity, and every bound token is of the one journal
-- that the registry is pinned to.
pub run-RegistryInv : (l : OwnershipLimits) (cs : List Call) → RegistryInv (run (new l) cs)
run-RegistryInv l cs = run_from-RegistryInv (new l) cs (new-RegistryInv l)
