-- ===== src/Controls/Policy/Valid.antt =====
-- The rule lists that make a policy.
use weregopher.Base.{
  ℕ, ◌+◌, ◌≤◌, ◌≡◌, refl, ap, ◌↔◌, inl, inr, true, false, List, [], ◌∷◌, arith, ltb, ◌==◌,
  Bool-cases, length, ok, bytes_eq_iff,
}
use weregopher.Proxy.Message.{Direction, client_to_server, server_to_client}
use weregopher.Controls.Policy.{
  BlockRule, InterceptionPolicy, absolute_max_rules, absolute_max_rule_method_bytes,
  message_kind_code, message_kind_code-injective, Selector, selector_eq, selector_of, has_id,
  has_selector, check_rules, new_policy,
}
use weregopher.Controls.Journal.Key.{direction_code}

abbrev pub total_bytes : List BlockRule → ℕ
total_bytes [] = 0
total_bytes (r ∷ rs) = length r.method + total_bytes rs

-- No later rule has the identity, or the selector, of an earlier one.
abbrev IsFreshId : ℕ → List BlockRule → Type 0
IsFreshId id [] = Unit
IsFreshId id (r ∷ rs) = ((id == r.id) ≡ false) × IsFreshId id rs

-- Two rules for the same messages.
abbrev pub IsSameSelection : BlockRule → BlockRule → Type 0
IsSameSelection a b = (a.direction ≡ b.direction) × (a.kind ≡ b.kind) × (a.method ≡ b.method)

abbrev pub IsFreshSelector : BlockRule → List BlockRule → Type 0
IsFreshSelector rule [] = Unit
IsFreshSelector rule (r ∷ rs) = (¬ IsSameSelection rule r) × IsFreshSelector rule rs

abbrev pub HasUniqueIds : List BlockRule → Type 0
HasUniqueIds [] = Unit
HasUniqueIds (r ∷ rs) = IsFreshId r.id rs × HasUniqueIds rs

abbrev pub HasUniqueSelectors : List BlockRule → Type 0
HasUniqueSelectors [] = Unit
HasUniqueSelectors (r ∷ rs) = IsFreshSelector r rs × HasUniqueSelectors rs

-- The code's reading of the same: by the selectors that it keeps in its set.
abbrev pub IsFreshCode : BlockRule → List BlockRule → Type 0
IsFreshCode rule [] = Unit
IsFreshCode rule (r ∷ rs) =
    (selector_eq (selector_of rule) (selector_of r) ≡ false) × IsFreshCode rule rs

abbrev pub HasUniqueCodes : List BlockRule → Type 0
HasUniqueCodes [] = Unit
HasUniqueCodes (r ∷ rs) = IsFreshCode r rs × HasUniqueCodes rs

direction_code-injective : (a b : Direction) → (direction_code a == direction_code b) ≡ true → a ≡ b
unfolding direction_code
direction_code-injective client_to_server client_to_server e = refl
direction_code-injective server_to_client server_to_client e = refl
direction_code-injective client_to_server server_to_client e = absurd (ground (arith, e))
direction_code-injective server_to_client client_to_server e = absurd (ground (arith, e))

same_selector :
    (a b : BlockRule) → selector_eq (selector_of a) (selector_of b) ≡ true → IsSameSelection a b
unfolding selector_eq selector_of
same_selector a b e = (
  direction_code-injective a.direction b.direction (ground (arith, e)),
  message_kind_code-injective a.kind b.kind (ground (arith, e)),
  ground (arith, e, bytes_eq_iff a.method b.method),
)

same_code :
    (a b : BlockRule) → IsSameSelection a b → selector_eq (selector_of a) (selector_of b) ≡ true
unfolding selector_eq selector_of
same_code a b e =
    ground (arith, ap direction_code e.0, ap message_kind_code e.1, bytes_eq_iff a.method b.method)

code_iff :
    (a b : BlockRule)
    → (selector_eq (selector_of a) (selector_of b) ≡ false) ↔ (¬ IsSameSelection a b)
code_iff a b = (
  (λ differ same. absurd (ground (arith, differ, same_code a b same))),
  (λ apart. elim (Bool-cases (selector_eq (selector_of a) (selector_of b))) [
    | inl e ↦ absurd (apart (same_selector a b e))
    | inr e ↦ e
  ]),
)

IsFreshCode-iff : (r : BlockRule) (rs : List BlockRule) → IsFreshCode r rs ↔ IsFreshSelector r rs
IsFreshCode-iff r [] = ((λ u. u), (λ u. u))
IsFreshCode-iff r (s ∷ rs) =
    let here = code_iff r s in
    let there = IsFreshCode-iff r rs in
    ((λ f. (here.0 f.0, there.0 f.1)), (λ f. (here.1 f.0, there.1 f.1)))

pub HasUniqueCodes-iff : (rs : List BlockRule) → HasUniqueCodes rs ↔ HasUniqueSelectors rs
HasUniqueCodes-iff [] = ((λ u. u), (λ u. u))
HasUniqueCodes-iff (r ∷ rs) =
    let here = IsFreshCode-iff r rs in
    let there = HasUniqueCodes-iff rs in
    ((λ f. (here.0 f.0, there.0 f.1)), (λ f. (here.1 f.0, there.1 f.1)))

pub record IsAdmissible (rules : List BlockRule) : Type 0 where
  pub few : length rules ≤ absolute_max_rules
  pub short : total_bytes rules ≤ absolute_max_rule_method_bytes
  pub unique_ids : HasUniqueIds rules
  pub unique_selectors : HasUniqueSelectors rules

-- The rules that the loop still has to look at, none of which clashes with one before.
AllFresh : List ℕ → List Selector → List BlockRule → Type 0
AllFresh ids selectors [] = Unit
AllFresh ids selectors (r ∷ rs) =
    (has_id r.id ids ≡ false)
    × (has_selector (selector_of r) selectors ≡ false)
    × AllFresh ids selectors rs

AllFresh-cons :
    (ids : List ℕ) (selectors : List Selector) (r : BlockRule) (rs : List BlockRule)
    → AllFresh (r.id ∷ ids) (selector_of r ∷ selectors) rs
      ↔ (AllFresh ids selectors rs × IsFreshId r.id rs × IsFreshCode r rs)
unfolding has_id has_selector AllFresh
AllFresh-cons ids selectors r [] = ground arith
AllFresh-cons ids selectors r (s ∷ rs) = ground (arith, AllFresh-cons ids selectors r rs)

check_rules_iff :
    (rules : List BlockRule) (ids : List ℕ) (selectors : List Selector) (n m : ℕ)
    → n ≤ absolute_max_rule_method_bytes
    → (check_rules rules ids selectors n ≡ ok m) ↔ (
        (n + total_bytes rules ≤ absolute_max_rule_method_bytes)
        × (m ≡ n + total_bytes rules)
        × AllFresh ids selectors rules
        × HasUniqueIds rules
        × HasUniqueCodes rules)
unfolding check_rules AllFresh
check_rules_iff [] ids selectors n m small = ground arith
check_rules_iff (r ∷ rs) ids selectors n m small =
    elim (Bool-cases (ltb absolute_max_rule_method_bytes (n + length r.method))) [
      | inl over ↦ ground (arith, over)
      | inr fits ↦
          let more : n + length r.method ≤ absolute_max_rule_method_bytes = ground (arith, fits) in
          let later =
            check_rules_iff rs (r.id ∷ ids) (selector_of r ∷ selectors) (n + length r.method) m
              more in
          ground (arith, later, more, fits, AllFresh-cons ids selectors r rs)
    ]

AllFresh-nil : (rules : List BlockRule) → AllFresh [] [] rules
unfolding has_id has_selector AllFresh
AllFresh-nil [] = tt
AllFresh-nil (r ∷ rs) = (refl, refl, AllFresh-nil rs)

new_policy-codes :
    (rules : List BlockRule) (policy : InterceptionPolicy)
    → (new_policy rules ≡ ok policy) ↔ (
        (policy ≡ record { rules = rules; method_bytes = total_bytes rules })
        × (length rules ≤ absolute_max_rules)
        × (total_bytes rules ≤ absolute_max_rule_method_bytes)
        × HasUniqueIds rules
        × HasUniqueCodes rules)
unfolding new_policy AllFresh
new_policy-codes rules policy = ground (
  arith,
  check_rules_iff rules [] [] 0 policy.method_bytes,
  check_rules_iff rules [] [] 0 (total_bytes rules),
  AllFresh-nil rules,
)

-- A list of rules makes a policy exactly when it has at most 256 rules and at most 65,536 bytes of
-- methods, and no two of its rules have one identity, or one direction, kind and method. The
-- policy then has the rules in their order, and the number of those bytes.
pub new_policy_iff :
    (rules : List BlockRule) (policy : InterceptionPolicy)
    → (new_policy rules ≡ ok policy)
      ↔ ((policy ≡ record { rules = rules; method_bytes = total_bytes rules }) × IsAdmissible rules)
new_policy_iff rules policy =
    let codes = HasUniqueCodes-iff rules in
    let made = new_policy-codes rules policy in
    (
      (λ e. (
        (made.0 e).0,
        record {
          few = (made.0 e).1;
          short = (made.0 e).2;
          unique_ids = (made.0 e).3;
          unique_selectors = codes.0 ((made.0 e).4);
        },
      )),
      (λ a. made.1 (a.0, a.1.few, a.1.short, a.1.unique_ids, codes.1 a.1.unique_selectors)),
    )
