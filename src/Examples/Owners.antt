-- ===== src/Examples/Owners.antt =====
-- A registry with a helper process of one turn and a worktree of its thread.
use mathlib.Core.List.{map}
use weregopher.Base.{
  ℕ_key, bytes_key, ◌≡◌, refl, none, some, List, [], ◌∷◌, map, ok, bytes_eq, true, ◌↔◌,
}
use weregopher.Base.Maps.{contains, get, insert, remove, keys_where, remove_all}
use weregopher.Ownership.{
  token_key, Token, ExecutionIdentity, OwnershipLimits, helper_process, worktree, Resource, Release,
  Registry, new, bind_correlation, register, register_from_correlation, option_eq, is_within,
  take_all, release_scope,
}
use weregopher.Ownership.Invariant.{
  RegistryInv, Call, binds, registers, registers_from, step, run, run-RegistryInv,
}
use weregopher.Ownership.Cleanup.{Fate, IsReported, release_scope-exact}

abbrev thread_scope : ExecutionIdentity
thread_scope = record { thread = some (116 ∷ []); turn = none; item = none }

abbrev turn_scope : ExecutionIdentity
turn_scope = record { thread = some (116 ∷ []); turn = some (117 ∷ []); item = none }

abbrev item_scope : ExecutionIdentity
item_scope = record { thread = some (116 ∷ []); turn = some (117 ∷ []); item = some (105 ∷ []) }

abbrev limits : OwnershipLimits
limits = record { correlations = 2; resources = 2 }

abbrev token : Token
token = record { journal = 4096; sequence = 1 }

abbrev history : List Call
history =
    binds token turn_scope
    ∷ registers_from 1 helper_process token
    ∷ registers 2 worktree thread_scope
    ∷ registers 3 worktree thread_scope
    ∷ []

run-RegistryInv_example : RegistryInv (run (new limits) history)
run-RegistryInv_example = run-RegistryInv limits history

abbrev helper : Resource
helper = record { id = 1; kind = helper_process; identity = turn_scope }

abbrev tree : Resource
tree = record { id = 2; kind = worktree; identity = thread_scope }

abbrev before : Registry
before = record {
  limits = limits;
  journal_anchor = some token;
  correlations = (token, turn_scope) ∷ [];
  resources = (1, helper) ∷ (2, tree) ∷ [];
}

abbrev after : Registry
after = record before { correlations = []; resources = (2, tree) ∷ [] }

abbrev report : Release
report = record { resources = helper ∷ []; released_correlations = 1 }

reached : run (new limits) history ≡ before
unfolding run step new bind_correlation register register_from_correlation get insert
reached = refl

before-RegistryInv : RegistryInv before
before-RegistryInv = let v = run-RegistryInv limits history in rw reached at v

released : release_scope before turn_scope ≡ ok (after, report)
unfolding release_scope keys_where remove_all remove take_all get is_within option_eq bytes_eq
released = refl

release_scope-exact_example :
    Fate (λ (r : Resource). r.identity) turn_scope (get 1 before.resources) (get 1 after.resources)
    × Fate
        (λ (i : ExecutionIdentity). i)
        turn_scope
        (get token before.correlations)
        (get token after.correlations)
    × ((contains 1 (map (λ (r : Resource). r.id) report.resources) ≡ true)
        ↔ IsReported turn_scope (get 1 before.resources))
release_scope-exact_example =
    release_scope-exact before turn_scope after report 1 token before-RegistryInv released
