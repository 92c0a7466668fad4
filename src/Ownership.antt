-- ===== src/Ownership.antt =====
-- The ownership registry: crates/weregopher-adapter-openai/src/app_server_ownership.rs, and
use weregopher.Base.{
  ℕ_key, bytes_key, ◌>>=◌, ◌>>◌, ℕ, ◌≡◌, ◌↔◌, Bool, true, false, ◌&&◌, ◌||◌, not, Option, none,
  some, List, [], ◌∷◌, arith, ltb, leb, ◌==◌, if◌then◌else◌, is_some, length, Result, ok, err,
  reject_if, ok_or, OrdKey, bytes_eq,
}
use weregopher.Base.Maps.{Map, get, insert, remove, keys_where, remove_all}
use weregopher.Proxy.Text.{Text, is_bounded_text}
-- `AppServerCorrelationToken` of app_server_controls.rs.
pub mod Scope
pub mod Invariant
pub mod Cleanup

-- A journal is known by the address of its identity.
pub record Token : Type 0 where
  pub journal : ℕ
  pub sequence : ℕ

abbrev token_eq : Token → Token → Bool
token_eq a b = a.journal == b.journal && a.sequence == b.sequence

pub token_eq_iff : (a b : Token) → (token_eq a b ≡ true) ↔ (a ≡ b)
token_eq_iff a b = ground arith

instance abbrev pub token_key : OrdKey Token
token_key = record {
  beq = token_eq;
  blt = λ a b. ltb a.journal b.journal || a.journal == b.journal && ltb a.sequence b.sequence;
  beq_iff = token_eq_iff;
}

pub record ExecutionIdentity : Type 0 where
  pub thread : Option Text
  pub turn : Option Text
  pub item : Option Text

pub data OwnershipError : Type 0 where
  invalid_limits invalid_execution_id invalid_identity_hierarchy invalid_resource_id :
      OwnershipError
  duplicate_correlation foreign_journal correlation_limit_exceeded : OwnershipError
  duplicate_resource resource_limit_exceeded unknown_correlation : OwnershipError
  app_scope_requires_session_close : OwnershipError

abbrev max_execution_id_bytes : ℕ
max_execution_id_bytes = 256

abbrev validate_execution_id : Option Text → Result OwnershipError (Unit {0})
validate_execution_id none = ok tt
validate_execution_id (some value) =
    if is_bounded_text max_execution_id_bytes value then ok tt else err invalid_execution_id

unfoldable pub new_identity :
    Option Text → Option Text → Option Text → Result OwnershipError ExecutionIdentity
new_identity thread turn item = do
  validate_execution_id thread
  validate_execution_id turn
  validate_execution_id item
  reject_if
      (is_some turn && not (is_some thread)
        || is_some item && (not (is_some thread) || not (is_some turn)))
      invalid_identity_hierarchy
  ok (record { thread = thread; turn = turn; item = item })

pub record OwnershipLimits : Type 0 where
  pub correlations : ℕ
  pub resources : ℕ

abbrev absolute_max_correlations : ℕ
absolute_max_correlations = 65536

abbrev absolute_max_resources : ℕ
absolute_max_resources = 65536

unfoldable pub new_limits : ℕ → ℕ → Result OwnershipError OwnershipLimits
new_limits correlations resources =
    if correlations == 0
      || ltb absolute_max_correlations correlations
      || resources == 0
      || ltb absolute_max_resources resources
    then err invalid_limits
    else ok (record { correlations = correlations; resources = resources })

pub data ResourceKind : Type 0 where
  helper_process mcp_process command_process worktree browser_session : ResourceKind
  remote_mcp_connection : ResourceKind

-- A resource identity is a nonzero `u64`.
unfoldable pub new_resource_id : ℕ → Result OwnershipError ℕ
new_resource_id value = if value == 0 then err invalid_resource_id else ok value

pub record Resource : Type 0 where
  pub id : ℕ
  pub kind : ResourceKind
  pub identity : ExecutionIdentity

pub record Release : Type 0 where
  pub resources : List Resource
  pub released_correlations : ℕ

pub record Registry : Type 0 where
  pub limits : OwnershipLimits
  pub journal_anchor : Option Token
  pub correlations : Map Token ExecutionIdentity
  pub resources : Map ℕ Resource

unfoldable pub new : OwnershipLimits → Registry
new limits = record { limits = limits; journal_anchor = none; correlations = []; resources = [] }

abbrev is_foreign : Option Token → Token → Bool
is_foreign none token = false
is_foreign (some anchor) token = not (anchor.journal == token.journal)

abbrev pub anchor_after : Option Token → Token → Option Token
anchor_after none token = some token
anchor_after (some anchor) token = some anchor

unfoldable pub bind_correlation :
    Registry → Token → ExecutionIdentity → Result OwnershipError (Registry × Unit {0})
bind_correlation self token identity = do
  reject_if (is_some (get token self.correlations)) duplicate_correlation
  reject_if (is_foreign self.journal_anchor token) foreign_journal
  reject_if (leb self.limits.correlations (length self.correlations)) correlation_limit_exceeded
  ok (
    record self {
      journal_anchor = anchor_after self.journal_anchor token;
      correlations = insert token identity self.correlations;
    },
    tt,
  )

unfoldable pub register :
    Registry → ℕ → ResourceKind → ExecutionIdentity → Result OwnershipError (Registry × Unit {0})
register self id kind identity = do
  reject_if (is_some (get id self.resources)) duplicate_resource
  reject_if (leb self.limits.resources (length self.resources)) resource_limit_exceeded
  let resource : Resource = record { id = id; kind = kind; identity = identity }
  ok (record self { resources = insert id resource self.resources }, tt)

unfoldable pub register_from_correlation :
    Registry → ℕ → ResourceKind → Token → Result OwnershipError (Registry × Unit {0})
unfolding register
register_from_correlation self id kind token = do
  identity ← ok_or (get token self.correlations) unknown_correlation
  register self id kind identity

unfoldable pub option_eq : Option Text → Option Text → Bool
option_eq none none = true
option_eq (some a) (some b) = bytes_eq a b
option_eq _ _ = false

-- A part that a scope names must be the identity's.
abbrev pub covers : Option Text → Option Text → Bool
covers none part = true
covers (some named) part = option_eq part (some named)

unfoldable pub is_within : ExecutionIdentity → ExecutionIdentity → Bool
unfolding option_eq
is_within identity scope =
    option_eq identity.thread scope.thread
    && covers scope.turn identity.turn
    && covers scope.item identity.item

-- The loop that removes resources and collects what it removed.
unfoldable pub take_all : List ℕ → Map ℕ Resource → List Resource × Map ℕ Resource
take_all [] m = ([], m)
take_all (id ∷ ids) m =
    let rest = take_all ids (remove id m) in
    elim (get id m) [ none ↦ rest | some resource ↦ (resource ∷ rest.0, rest.1) ]

unfoldable pub release_scope :
    Registry → ExecutionIdentity → Result OwnershipError (Registry × Release)
unfolding is_within take_all
release_scope self scope =
    let tokens = keys_where (λ token identity. is_within identity scope) self.correlations in
    let ids = keys_where (λ id resource. is_within resource.identity scope) self.resources in
    let taken = take_all ids self.resources in
    if not (is_some scope.thread)
    then err app_scope_requires_session_close
    else ok (
      record self { correlations = remove_all tokens self.correlations; resources = taken.1 },
      record { resources = taken.0; released_correlations = length tokens },
    )

abbrev values : Map ℕ Resource → List Resource
values [] = []
values ((id, resource) ∷ m) = resource ∷ values m

unfoldable pub close_session : Registry → Registry × Release
close_session self = (
  record self { correlations = []; resources = [] },
  record { resources = values self.resources; released_correlations = length self.correlations },
)
