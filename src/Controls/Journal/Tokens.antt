-- ===== src/Controls/Journal/Tokens.antt =====
-- The tokens that a journal has given out and still holds.
use weregopher.Base.{
  suc, ◌≤◌, ◌<◌, ◌≡◌, sym, ◌∙◌, ◌⊎◌, inl, inr, true, Option, none, some, arith, if◌then◌else◌,
  is_some, u64_max,
}
use weregopher.Base.Maps.{
  get, insert, remove, get-insert, get-remove, IsDistinct, insert-IsDistinct, remove-IsDistinct,
}
use weregopher.Ownership.{Token}
use weregopher.Controls.Journal.{Journal}
use weregopher.Controls.Journal.Key.{correlation_key, CorrelationKey, key_eq_iff}

-- The token of a request, while it is active and while its response is pending.
abbrev pub token_of : CorrelationKey → Journal → Option Token
token_of key j =
    if is_some (get key j.active_correlations)
    then get key j.active_correlations
    else get key j.pending_responses

abbrev IsIssued : Journal → Token → Type 0
IsIssued j t = (t.journal ≡ j.identity) × (0 < t.sequence) × (t.sequence ≤ j.last_correlation)

pub record TokensInv (j : Journal) : Type 0 where
  pub active_distinct : IsDistinct j.active_correlations
  pub pending_distinct : IsDistinct j.pending_responses
  pub disjoint :
      (key : CorrelationKey)
      → is_some (get key j.active_correlations) ≡ true
      → get key j.pending_responses ≡ none
  pub issued : (key : CorrelationKey) (t : Token) → token_of key j ≡ some t → IsIssued j t
  pub unique :
      (key other : CorrelationKey) (t : Token)
      → token_of key j ≡ some t
      → token_of other j ≡ some t
      → key ≡ other
  pub in_range : j.last_correlation ≤ u64_max

-- The journal after a new request.
abbrev pub opened : Journal → CorrelationKey → Journal
opened j key = record j {
  active_correlations =
      insert key (record { journal = j.identity; sequence = suc j.last_correlation })
        j.active_correlations;
  last_correlation = suc j.last_correlation;
}

-- The journal after a response to an active request with the given token.
abbrev pub answered : Journal → CorrelationKey → Token → Journal
answered j key token = record j {
  active_correlations = remove key j.active_correlations;
  pending_responses = insert key token j.pending_responses;
}

abbrev pub delivered : Journal → CorrelationKey → Journal
delivered j key = record j { pending_responses = remove key j.pending_responses }

abbrev pub expired : Journal → CorrelationKey → Journal
expired j key = record j { active_correlations = remove key j.active_correlations }

module _ (j : Journal) (v : TokensInv j) (key : CorrelationKey) where
  opened-token_of :
      (other : CorrelationKey) (t : Token)
      → token_of key j ≡ none
      → token_of other (opened j key) ≡ some t
      → ((key ≡ other) × (t.sequence ≡ suc j.last_correlation) × (t.journal ≡ j.identity))
        ⊎ (token_of other j ≡ some t)
  opened-token_of other t fresh e = ground (
    arith,
    get-insert key other (record { journal = j.identity; sequence = suc j.last_correlation })
        j.active_correlations,
    key_eq_iff key other,
  )

  pub opened-TokensInv :
      token_of key j ≡ none → j.last_correlation < u64_max → TokensInv (opened j key)
  opened-TokensInv fresh below = record {
    active_distinct =
        insert-IsDistinct key _ j.active_correlations (ground (arith, fresh)) v.active_distinct;
    pending_distinct = v.pending_distinct;
    disjoint = λ other live. ground (
      arith,
      get-insert key other (record { journal = j.identity; sequence = suc j.last_correlation })
          j.active_correlations,
      key_eq_iff key other,
      v.disjoint other,
      fresh,
    );
    issued = λ other t e. elim (opened-token_of other t fresh e) [
      | inl (same, n, own) ↦ (own, omega (arith, n), omega (arith, n))
      | inr old ↦ let (own, some_n, n) = v.issued other t old in (own, some_n, omega (arith, n))
    ];
    unique = λ a b t e f. elim (opened-token_of a t fresh e) [
      | inl (same, n, own) ↦ elim (opened-token_of b t fresh f) [
        | inl (same', n', own') ↦ sym same ∙ same'
        | inr old ↦ absurd (omega (arith, n, (v.issued b t old).2))
      ]
      | inr old ↦ elim (opened-token_of b t fresh f) [
        | inl (same', n', own') ↦ absurd (omega (arith, n', (v.issued a t old).2))
        | inr old' ↦ v.unique a b t old old'
      ]
    ];
    in_range = omega (arith, below);
  }

  -- The rest of the keys keep their tokens, and no key gets one.
  abbrev Shrinks : Journal → Type 0
  Shrinks j' =
      (other : CorrelationKey) (t : Token) → token_of other j' ≡ some t → token_of other j ≡ some t

  answered-Shrinks :
      (token : Token) → get key j.active_correlations ≡ some token → Shrinks (answered j key token)
  answered-Shrinks token found other t e = ground (
    arith,
    get-insert key other token j.pending_responses,
    get-remove key other j.active_correlations,
    key_eq_iff key other,
  )

  delivered-Shrinks : Shrinks (delivered j key)
  delivered-Shrinks other t e = ground (arith, get-remove key other j.pending_responses)

  expired-Shrinks : Shrinks (expired j key)
  expired-Shrinks other t e =
      ground
        (arith, get-remove key other j.active_correlations, v.disjoint other, key_eq_iff key other)

  pub answered-TokensInv :
      (token : Token)
      → get key j.active_correlations ≡ some token
      → TokensInv (answered j key token)
  answered-TokensInv token found =
      let less = answered-Shrinks token found in
      record {
        active_distinct = remove-IsDistinct key j.active_correlations v.active_distinct;
        pending_distinct =
            insert-IsDistinct key token j.pending_responses (v.disjoint key (ground (arith, found)))
              v.pending_distinct;
        disjoint = λ other live. ground (
          arith,
          get-insert key other token j.pending_responses,
          get-remove key other j.active_correlations,
          v.disjoint other,
        );
        issued = λ other t e. v.issued other t (less other t e);
        unique = λ a b t e f. v.unique a b t (less a t e) (less b t f);
        in_range = v.in_range;
      }

  pub delivered-TokensInv : TokensInv (delivered j key)
  delivered-TokensInv = record {
    active_distinct = v.active_distinct;
    pending_distinct = remove-IsDistinct key j.pending_responses v.pending_distinct;
    disjoint =
        λ other live. ground (arith, get-remove key other j.pending_responses, v.disjoint other);
    issued = λ other t e. v.issued other t (delivered-Shrinks other t e);
    unique = λ a b t e f. v.unique a b t (delivered-Shrinks a t e) (delivered-Shrinks b t f);
    in_range = v.in_range;
  }

  pub expired-TokensInv : TokensInv (expired j key)
  expired-TokensInv = record {
    active_distinct = remove-IsDistinct key j.active_correlations v.active_distinct;
    pending_distinct = v.pending_distinct;
    disjoint =
        λ other live. ground (arith, get-remove key other j.active_correlations, v.disjoint other);
    issued = λ other t e. v.issued other t (expired-Shrinks other t e);
    unique = λ a b t e f. v.unique a b t (expired-Shrinks a t e) (expired-Shrinks b t f);
    in_range = v.in_range;
  }
