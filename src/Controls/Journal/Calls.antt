-- ===== src/Controls/Journal/Calls.antt =====
-- The record calls of a journal.
use weregopher.Base.{
  ℕ, suc, ◌<◌, ◌≡◌, refl, ◌⊎◌, inl, inr, Option, none, some, List, ◌++◌, arith, ◌==◌, Bool-cases,
  Option-cases, length, ok, err, u64_max,
}
use weregopher.Base.Maps.{get}
use weregopher.Controls.Method.{
  ControlError, invalid_method, event_sequence_overflow, inconsistent_correlation_state,
  max_method_bytes, validate_method, method_fingerprint_domain, MethodFingerprint, for_method,
  fingerprint_observed_method,
}
use weregopher.Controls.Journal.{
  accepted, forwarded, blocked, request_expired, Journal, preflight_message, record_accepted,
  record_forwarded, record_blocked, record_expired,
}
use weregopher.Controls.Journal.Key.{correlation_key, request_key_from_parts}
use weregopher.Controls.Journal.Accounting.{
  preflight_event_sequence-next, appended, push_event-appends, appended-LogInv,
}
use weregopher.Controls.Journal.Tokens.{expired, expired-TokensInv}
use weregopher.Controls.Journal.Recording.{
  JournalInv, with_tokens-LogInv, appended-TokensInv, IsRecordError, Recorded, refused,
  push_message-Recorded, correlate_accepted-Correlated, correlate_forwarded-Correlated,
  blocked_message-Correlated,
}
use weregopher.Proxy.Message.{Observation}
use weregopher.Proxy.Expire.{ExpiredRequest}
use weregopher.Proxy.Text.{Text, is_bounded_text}

module _ (sha256 : List ℕ → List ℕ) (taken : ℕ) (j : Journal) (v : JournalInv taken j) where
  fingerprint_cases :
      (method : Option Text)
      → ((f : Option MethodFingerprint) × (fingerprint_observed_method sha256 method ≡ ok f))
        ⊎ (fingerprint_observed_method sha256 method ≡ err invalid_method)
  unfolding fingerprint_observed_method for_method validate_method
  fingerprint_cases none = inl (none, refl)
  fingerprint_cases (some m) = elim (Bool-cases (is_bounded_text max_method_bytes m)) [
    | inl fine ↦ inl (
      some (record { digest = sha256 (method_fingerprint_domain ++ m); byte_length = length m }),
      ground (arith, fine),
    )
    | inr bad ↦ inr (ground (arith, bad))
  ]

  preflight_message_cases :
      (o : Observation)
      → ((f : Option MethodFingerprint) × (preflight_message sha256 j o
            ≡ ok (f, suc j.last_sequence))
          × (j.last_sequence < u64_max))
        ⊎ ((x : ControlError) × (preflight_message sha256 j o ≡ err x) × IsRecordError x)
  unfolding preflight_message
  preflight_message_cases o =
      let next = preflight_event_sequence-next taken j v.log in
      elim (fingerprint_cases o.method) [
        | inr bad ↦ inr (invalid_method, ground (arith, bad), inl refl)
        | inl (f, good) ↦ elim (Bool-cases (j.last_sequence == u64_max)) [
          | inl full ↦
              inr (event_sequence_overflow, ground (arith, good, next, full), inr (inl refl))
          | inr below ↦
              inl (f, ground (arith, good, next, below), ground (arith, below, v.log.in_range))
        ]
      ]

  pub record_accepted-Recorded : (o : Observation) → Recorded taken j (record_accepted sha256 j o)
  unfolding record_accepted
  record_accepted-Recorded o = elim (preflight_message_cases o) [
    | inr (x, bad, among) ↦ rw (bad, record_accepted) (refused taken j v x among)
    | inl (f, good, below) ↦
        rw (good, record_accepted)
          (push_message-Recorded taken j v accepted o f none _ below
            (correlate_accepted-Correlated taken j v o.kind _))
  ]

  pub record_forwarded-Recorded : (o : Observation) → Recorded taken j (record_forwarded sha256 j o)
  unfolding record_forwarded
  record_forwarded-Recorded o = elim (preflight_message_cases o) [
    | inr (x, bad, among) ↦ rw (bad, record_forwarded) (refused taken j v x among)
    | inl (f, good, below) ↦
        rw (good, record_forwarded)
          (push_message-Recorded taken j v forwarded o f none _ below
            (correlate_forwarded-Correlated taken j v o.kind _))
  ]

  pub record_blocked-Recorded :
      (o : Observation) (rule : ℕ) → Recorded taken j (record_blocked sha256 j o rule)
  unfolding record_blocked
  record_blocked-Recorded o rule = elim (preflight_message_cases o) [
    | inr (x, bad, among) ↦ rw (bad, record_blocked) (refused taken j v x among)
    | inl (f, good, below) ↦
        rw (good, record_blocked)
          (push_message-Recorded taken j v blocked o f (some rule) _ below
            (blocked_message-Correlated taken j v))
  ]

  pub record_expired-Recorded : (e : ExpiredRequest) → Recorded taken j (record_expired sha256 j e)
  unfolding record_expired
  record_expired-Recorded e =
      let next = preflight_event_sequence-next taken j v.log in
      let key = request_key_from_parts sha256 e.origin e.request_id in
      elim (Bool-cases (j.last_sequence == u64_max)) [
        | inl full ↦
            let bad : record_expired sha256 j e ≡ (j, err event_sequence_overflow) =
              rw (record_expired, next, full) refl in
            rw bad (refused taken j v event_sequence_overflow (inr (inl refl)))
        | inr below ↦ elim (Option-cases (get key j.active_correlations)) [
          | inl gone ↦
              let bad : record_expired sha256 j e ≡ (j, err inconsistent_correlation_state) =
                rw (record_expired, next, below, gone) refl in
              rw bad (refused taken j v inconsistent_correlation_state (inr (inr (inr refl))))
          | inr (t, found) ↦
              let short : j.last_sequence < u64_max = ground (arith, below, v.log.in_range) in
              let k = expired j key in
              let d = request_expired e.origin t in
              let log = with_tokens-LogInv taken j _ _ _ v.log in
              let pushed = push_event-appends taken k d log short in
              let good : record_expired sha256 j e ≡ (appended k d, ok tt) =
                rw (record_expired, next, below, found, pushed) refl in
              rw good (record {
                keeps = record {
                  log = appended-LogInv taken k d log short;
                  tokens = appended-TokensInv k d (expired-TokensInv j v.tokens key);
                };
                outcome = inr (d, refl);
              })
        ]
      ]
