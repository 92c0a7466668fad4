-- ===== src/Controls/Policy/Selection.antt =====
-- What a policy blocks.
use mathlib.Core.List.{Memᴰ}
use weregopher.Base.{
  sym, ap, ◌∙◌, ℕ, ◌≡◌, refl, ◌↔◌, ◌⊎◌, inl, inr, true, false, some, List, [], ◌∷◌, arith,
  Bool-cases, ok, bytes_eq_iff, Option-cases,
}
use weregopher.Controls.Policy.{
  BlockRule, forward, block, InterceptionPolicy, selector_eq, selector_of, new_policy, kind_eq,
  rule_matches, first_match, evaluate, InterceptionDecision, message_kind_code-injective,
}
use weregopher.Controls.Policy.Valid.{
  IsFreshCode, HasUniqueCodes, HasUniqueCodes-iff, new_policy_iff,
}
use weregopher.Controls.Journal.Key.{direction_code-injective}
use weregopher.Proxy.Message.{Observation}
use weregopher.Proxy.Text.{Text}

-- A message of the rule's direction and class, with the rule's method.
pub record Matches (rule : BlockRule) (o : Observation) : Type 0 where
  pub direction : rule.direction ≡ o.direction
  pub kind : rule.kind ≡ o.kind
  pub method : o.method ≡ some rule.method

rule_matches_iff :
    (rule : BlockRule) (o : Observation) (m : Text)
    → o.method ≡ some m
    → (rule_matches rule o m ≡ true) ↔ Matches rule o
unfolding rule_matches kind_eq
rule_matches_iff rule o m e = ground (
  arith,
  bytes_eq_iff rule.method m,
  direction_code-injective rule.direction o.direction,
  message_kind_code-injective rule.kind o.kind,
)

-- Two rules that match one message have one selector.
Matches-selector :
    (r s : BlockRule) (o : Observation)
    → Matches r o
    → Matches s o
    → selector_eq (selector_of r) (selector_of s) ≡ true
unfolding selector_eq selector_of
Matches-selector r s o p q = ground (arith, bytes_eq_iff r.method s.method)

abbrev pub Selects : List BlockRule → Observation → ℕ → Type 0
Selects rules o id = (rule : BlockRule) × Memᴰ rule rules × (rule.id ≡ id) × Matches rule o

first_match-Selects :
    (rules : List BlockRule) (o : Observation) (m : Text) (id : ℕ)
    → o.method ≡ some m
    → first_match rules o m ≡ block id
    → Selects rules o id
unfolding first_match
first_match-Selects [] o m id e found = absurd (ground (arith, found))
first_match-Selects (r ∷ rs) o m id e found = elim (Bool-cases (rule_matches r o m)) [
  | inl hit ↦ (r, Memᴰ.head refl, ground (arith, hit, found), (rule_matches_iff r o m e).0 hit)
  | inr miss ↦
      let (rule, there, same, matched) =
        first_match-Selects rs o m id e (ground (arith, miss, found)) in
      (rule, Memᴰ.tail there, same, matched)
]

IsFreshCode-Mem :
    (r rule : BlockRule) (rs : List BlockRule)
    → IsFreshCode r rs
    → Memᴰ rule rs
    → selector_eq (selector_of r) (selector_of rule) ≡ false
IsFreshCode-Mem r rule [] fresh there = elim there [ ]
IsFreshCode-Mem r rule (s ∷ rs) fresh (Memᴰ.head e) = rw e fresh.0
IsFreshCode-Mem r rule (s ∷ rs) fresh (Memᴰ.tail there) = IsFreshCode-Mem r rule rs fresh.1 there

Selects-first_match :
    (rules : List BlockRule) (rule : BlockRule) (o : Observation) (m : Text)
    → HasUniqueCodes rules
    → o.method ≡ some m
    → Memᴰ rule rules
    → Matches rule o
    → first_match rules o m ≡ block rule.id
unfolding first_match
Selects-first_match [] rule o m unique e there matched = elim there [ ]
Selects-first_match (r ∷ rs) rule o m unique e (Memᴰ.head same) matched =
    let hit = (rule_matches_iff rule o m e).1 matched in
    let it : rule_matches r o m ≡ true = rw same at hit in rw (same, it) refl
Selects-first_match (r ∷ rs) rule o m unique e (Memᴰ.tail there) matched =
    elim (Bool-cases (rule_matches r o m)) [
      | inl hit ↦
          let clash = Matches-selector r rule o ((rule_matches_iff r o m e).0 hit) matched in
          absurd (ground (arith, clash, IsFreshCode-Mem r rule rs unique.0 there))
      | inr miss ↦ rw miss (Selects-first_match rs rule o m unique.1 e there matched)
    ]

decision_cases : (d : InterceptionDecision) → (d ≡ forward) ⊎ ((id : ℕ) × (d ≡ block id))
decision_cases forward = inl refl
decision_cases (block id) = inr (id, refl)

-- A policy that was accepted blocks a message with an identity exactly when one of its rules, in
-- whatever place, has that identity and the message's direction, class and method. Else it
-- forwards the message.
pub evaluate_iff :
    (rules : List BlockRule) (policy : InterceptionPolicy) (o : Observation)
    → new_policy rules ≡ ok policy
    → ((id : ℕ) → (evaluate policy o ≡ block id) ↔ Selects rules o id)
      × ((evaluate policy o ≡ forward) ⊎ ((id : ℕ) × (evaluate policy o ≡ block id)))
unfolding evaluate
evaluate_iff rules policy o e =
    let (whole, valid) = (new_policy_iff rules policy).0 e in
    elim (Option-cases o.method) [
      | inl bare ↦ (
        λ id. (
          λ hit. absurd (ground (arith, bare, hit)),
          λ (rule, there, same, matched). absurd (ground (arith, bare, matched.method)),
        ),
        decision_cases (evaluate policy o),
      )
      | inr (m, named) ↦
          let search : evaluate policy o ≡ first_match rules o m = rw (whole, named) refl in
          (
            λ id. (
              λ hit. first_match-Selects rules o m id named (sym search ∙ hit),
              λ (rule, there, same, matched).
                  search
                  ∙ Selects-first_match rules rule o m
                      ((HasUniqueCodes-iff rules).1 valid.unique_selectors) named there matched
                  ∙ ap block same,
            ),
            decision_cases (evaluate policy o),
          )
    ]
