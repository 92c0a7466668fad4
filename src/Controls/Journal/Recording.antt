-- ===== src/Controls/Journal/Recording.antt =====
-- What each record call does with a journal that satisfies its invariant.
use mathlib.Core.Path.{subst}
use weregopher.Base.{
  ℕ, suc, ◌<◌, ◌≡◌, refl, ◌⊎◌, inl, inr, Option, none, some, arith, ltb, ltb→lt, Bool-cases,
  Option-cases, ok, err, u64_max, ap,
}
use weregopher.Base.Maps.{get}
use weregopher.Ownership.{Token}
use weregopher.Controls.Method.{
  ControlError, invalid_method, event_sequence_overflow, correlation_sequence_overflow,
  inconsistent_correlation_state, MethodFingerprint,
}
use weregopher.Controls.Journal.{
  EventStage, EventDetail, Correlations, Journal, Outcome, redacted, open_correlation,
  answer_correlation, correlate_accepted, forwarded_response, forwarded_request,
  correlate_forwarded, push_message, push_event,
}
use weregopher.Controls.Journal.Key.{correlation_key, CorrelationKey}
use weregopher.Controls.Journal.Accounting.{LogInv, appended, push_event-appends, appended-LogInv}
use weregopher.Controls.Journal.Tokens.{
  token_of, TokensInv, opened, answered, opened-TokensInv, answered-TokensInv, delivered-TokensInv,
}
use weregopher.Proxy.Message.{
  Kind, request, notification, success_response, error_response, Observation,
}

pub record JournalInv (taken : ℕ) (j : Journal) : Type 0 where
  pub log : LogInv taken j
  pub tokens : TokensInv j

-- A journal with other correlations and the same events.
abbrev pub with_tokens : Journal → Correlations → Correlations → ℕ → Journal
with_tokens j active pending last = record j {
  active_correlations = active;
  pending_responses = pending;
  last_correlation = last;
}

-- A journal with the correlations of another.
abbrev pub with_tokens_of : Journal → Journal → Journal
with_tokens_of k j = with_tokens j k.active_correlations k.pending_responses k.last_correlation

pub with_tokens-LogInv :
    (taken : ℕ) (j : Journal) (active pending : Correlations) (last : ℕ)
    → LogInv taken j
    → LogInv taken (with_tokens j active pending last)
with_tokens-LogInv taken j active pending last v = record {
  room = v.room;
  within = v.within;
  accounted = v.accounted;
  numbered = v.numbered;
  in_range = v.in_range;
}

pub appended-TokensInv : (j : Journal) (d : EventDetail) → TokensInv j → TokensInv (appended j d)
appended-TokensInv j d v = record {
  active_distinct = v.active_distinct;
  pending_distinct = v.pending_distinct;
  disjoint = v.disjoint;
  issued = v.issued;
  unique = v.unique;
  in_range = v.in_range;
}

-- The errors that a record call may report.
abbrev pub IsRecordError : ControlError → Type 0
IsRecordError x =
    (x ≡ invalid_method)
    ⊎ (x ≡ event_sequence_overflow)
    ⊎ (x ≡ correlation_sequence_overflow)
    ⊎ (x ≡ inconsistent_correlation_state)

-- The end of a record call: one event more behind the correlations `kept`, or an error and the
-- journal as it was.
pub record Recorded (taken : ℕ) (j : Journal) (r : Outcome (Unit {0})) : Type 0 where
  pub keeps : JournalInv taken r.0
  pub outcome :
      ((x : ControlError) × (r ≡ (j, err x)) × IsRecordError x)
      ⊎ ((d : EventDetail) × (r ≡ (with_tokens_of r.0 (appended j d), ok tt)))

module _ (taken : ℕ) (j : Journal) (v : JournalInv taken j) where
  pub refused : (x : ControlError) → IsRecordError x → Recorded taken j (j, err x)
  refused x among = record { keeps = v; outcome = inl (x, refl, among) }

  -- The end of a correlation: the tokens are right, the events are as they were, and an error
  -- leaves the journal as it was.
  pub record Correlated (r : Outcome (Option Token)) : Type 0 where
    pub keeps : TokensInv r.0
    pub log : LogInv taken r.0
    pub same_log : r.0 ≡ with_tokens_of r.0 j
    pub outcome :
        ((x : ControlError) × (r ≡ (j, err x)) × IsRecordError x)
        ⊎ ((t : Option Token) × (r.1 ≡ ok t))

  pub push_message-Recorded :
      (stage : EventStage) (o : Observation) (method : Option MethodFingerprint) (rule : Option ℕ)
      (r : Outcome (Option Token))
      → j.last_sequence < u64_max
      → Correlated r
      → Recorded taken j (push_message stage o method rule (suc j.last_sequence) r)
  unfolding push_message
  push_message-Recorded stage o method rule r below c = elim c.outcome [
    | inl (x, same, among) ↦ rw same (refused x among)
    | inr (t, good) ↦
        let k = r.0 in
        let d = redacted stage o method t rule in
        let last : k.last_sequence ≡ j.last_sequence =
          ap (λ (l : Journal). l.last_sequence) c.same_log in
        let short : k.last_sequence < u64_max = omega (arith, last, below) in
        let whole : r ≡ (k, ok t) = cc (good) in
        let pushed =
          subst (λ n. push_event k (suc n) d ≡ (appended k d, ok tt)) last
            (push_event-appends taken k d c.log short) in
        let after : appended k d ≡ with_tokens_of k (appended j d) =
          ap (λ l. with_tokens_of k (appended l d)) c.same_log in
        rw (whole, pushed)
          (record {
            keeps = record {
              log = appended-LogInv taken k d c.log short;
              tokens = appended-TokensInv k d c.keeps;
            };
            outcome = inr (d, ap (λ (l : Journal). (l, ok tt)) after);
          })
  ]

  unchanged : (r : Outcome (Option Token)) (t : Option Token) → r ≡ (j, ok t) → Correlated r
  unchanged r t e =
      rw e (record { keeps = v.tokens; log = v.log; same_log = refl; outcome = inr (t, refl) })

  refusal :
      (r : Outcome (Option Token)) (x : ControlError)
      → r ≡ (j, err x)
      → IsRecordError x
      → Correlated r
  refusal r x e among =
      rw e
        (record { keeps = v.tokens; log = v.log; same_log = refl; outcome = inl (x, refl, among) })

  open_correlation-Correlated : (key : Option CorrelationKey) → Correlated (open_correlation j key)
  open_correlation-Correlated none = refusal _ _ refl (inr (inr (inr refl)))
  open_correlation-Correlated (some key) = elim (Option-cases (token_of key j)) [
    | inr (t, held) ↦
        refusal _ inconsistent_correlation_state (ground (arith, held)) (inr (inr (inr refl)))
    | inl fresh ↦ elim (Bool-cases (ltb j.last_correlation u64_max)) [
      | inr full ↦
          refusal _ correlation_sequence_overflow (ground (arith, fresh, full))
            (inr (inr (inl refl)))
      | inl below ↦
          let t : Token = record { journal = j.identity; sequence = suc j.last_correlation } in
          let e : open_correlation j (some key) ≡ (opened j key, ok (some t)) =
            ground (arith, fresh, below) in
          rw e (record {
            keeps = opened-TokensInv j v.tokens key fresh (ltb→lt _ _ below);
            log = with_tokens-LogInv taken j _ _ _ v.log;
            same_log = refl;
            outcome = inr (some t, refl);
          })
    ]
  ]

  answer_correlation-Correlated :
      (key : Option CorrelationKey) → Correlated (answer_correlation j key)
  answer_correlation-Correlated none = unchanged _ none refl
  answer_correlation-Correlated (some key) = elim (Option-cases (get key j.active_correlations)) [
    | inl gone ↦ unchanged _ none (ground (arith, gone))
    | inr (t, found) ↦
        let free = v.tokens.disjoint key (ground (arith, found)) in
        let e : answer_correlation j (some key) ≡ (answered j key t, ok (some t)) =
          ground (arith, found, free) in
        rw e (record {
          keeps = answered-TokensInv j v.tokens key t found;
          log = with_tokens-LogInv taken j _ _ _ v.log;
          same_log = refl;
          outcome = inr (some t, refl);
        })
  ]

  pub correlate_accepted-Correlated :
      (k : Kind) (key : Option CorrelationKey) → Correlated (correlate_accepted j k key)
  unfolding correlate_accepted
  correlate_accepted-Correlated request key = open_correlation-Correlated key
  correlate_accepted-Correlated notification key = unchanged _ none refl
  correlate_accepted-Correlated success_response key = answer_correlation-Correlated key
  correlate_accepted-Correlated error_response key = answer_correlation-Correlated key

  forwarded_request-Correlated :
      (key : Option CorrelationKey) → Correlated (forwarded_request j key)
  forwarded_request-Correlated none = refusal _ _ refl (inr (inr (inr refl)))
  forwarded_request-Correlated (some key) = elim (Option-cases (get key j.active_correlations)) [
    | inl gone ↦
        refusal _ inconsistent_correlation_state (ground (arith, gone)) (inr (inr (inr refl)))
    | inr (t, found) ↦ unchanged _ (some t) (ground (arith, found))
  ]

  forwarded_response-Correlated :
      (key : Option CorrelationKey) → Correlated (forwarded_response j key)
  forwarded_response-Correlated none = unchanged _ none refl
  forwarded_response-Correlated (some key) = record {
    keeps = delivered-TokensInv j v.tokens key;
    log = with_tokens-LogInv taken j _ _ _ v.log;
    same_log = refl;
    outcome = inr (_, refl);
  }

  pub correlate_forwarded-Correlated :
      (k : Kind) (key : Option CorrelationKey) → Correlated (correlate_forwarded j k key)
  unfolding correlate_forwarded
  correlate_forwarded-Correlated request key = forwarded_request-Correlated key
  correlate_forwarded-Correlated notification key = unchanged _ none refl
  correlate_forwarded-Correlated success_response key = forwarded_response-Correlated key
  correlate_forwarded-Correlated error_response key = forwarded_response-Correlated key

  pub blocked_message-Correlated : Correlated (j, ok none)
  blocked_message-Correlated = unchanged _ none refl
