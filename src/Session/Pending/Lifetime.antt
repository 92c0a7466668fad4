-- ===== src/Session/Pending/Lifetime.antt =====
-- A request identity lives once: it is completed, or expires, and never comes back.
use weregopher.Base.{
  if◌then◌else◌, ℕ, ◌≡◌, refl, ◌≢◌, ◌+◌, ◌<◌, ◌⊎◌, Bool, true, false, some, ok, err, arith, List,
  [], ◌∷◌, is_some, Option-cases, inl, inr, ℕ_key, state_after_cases, sym, ==_iff, ◌∙◌, none,
}
use weregopher.Base.Maps.{
  get, modify, contains, holds_at, get-insert, get-remove, get-modify, get-remove_where,
  contains-keys_where,
}
use weregopher.Session.Pending.{
  PendingRequest, PendingRequests, RequestCancellation, CallCompletion, delivered, unknown_request,
  begin, cancel, complete, expire, is_due, set_cancelled, Call, begins, cancels, completes, expires,
  step, run,
}
use weregopher.Session.Pending.Invariant.{
  TableInv, step-TableInv, complete-TableInv, expire-TableInv, cancel-TableInv, begin-Began,
  cancel-IsCancelled, complete-removes,
}

-- A fact about one identity: it was issued, and if it is live then its entry passes a test.
record Holds (ok_entry : PendingRequest → Bool) (k : ℕ) (p : PendingRequests) : Type 0 where
  issued : k < p.next_request_id
  passes : (r : PendingRequest) → get k p.requests ≡ some r → ok_entry r ≡ true

module _ (ok_entry : PendingRequest → Bool)
    (stable : (r : PendingRequest) → ok_entry r ≡ true → ok_entry (set_cancelled r) ≡ true)
    (k : ℕ) where
  step-Holds :
      (instant_max : ℕ) (p : PendingRequests) (c : Call)
      → TableInv p
      → Holds ok_entry k p
      → Holds ok_entry k (step instant_max p c)
  unfolding step expire
  step-Holds instant_max p (begins now timeout) v h =
      state_after_cases (Holds ok_entry k) p (begin instant_max p now timeout) h λ q j e.
        let b = begin-Began instant_max p now timeout q j e in
        record {
          issued = omega (arith, h.issued, b.next);
          passes = λ r live. h.passes r (
              ground (
                arith,
                h.issued,
                b.inserted,
                get-insert p.next_request_id k
                    (record { deadline = now + timeout; cancelled = false }) p.requests,
              ));
        }
  step-Holds instant_max p (cancels j) v h =
      state_after_cases (Holds ok_entry k) p (cancel p j) h λ q c e.
        elim (cancel-IsCancelled p j q c e) [
          | inl same ↦ rw same h
          | inr changed ↦ rw changed (record {
            issued = h.issued;
            passes = λ r live. elim (Option-cases (get k p.requests)) [
              | inl gone ↦ absurd (ground (arith, get-modify j k set_cancelled p.requests))
              | inr (old, found) ↦
                  ground
                    (arith, h.passes old found, stable old, get-modify j k set_cancelled p.requests)
            ];
          })
        ]
  step-Holds instant_max p (completes j) v h =
      state_after_cases (Holds ok_entry k) p (complete p j) h λ q c e.
        rw (complete-removes p j q c e) (record {
          issued = h.issued;
          passes = λ r live. h.passes r (ground (arith, get-remove j k p.requests));
        })
  step-Holds instant_max p (expires now) v h = record {
    issued = h.issued;
    passes = λ r live.
        h.passes r (ground (arith, get-remove_where (is_due now) k p.requests v.distinct));
  }

  run-Holds :
      (instant_max : ℕ) (p : PendingRequests) (cs : List Call)
      → TableInv p
      → Holds ok_entry k p
      → Holds ok_entry k (run instant_max p cs)
  unfolding run
  run-Holds instant_max p [] v h = h
  run-Holds instant_max p (c ∷ cs) v h =
      run-Holds instant_max (step instant_max p c) cs (step-TableInv instant_max p c v)
        (step-Holds instant_max p c v h)

abbrev never : PendingRequest → Bool
never r = false

abbrev was_cancelled : PendingRequest → Bool
was_cancelled r = r.cancelled

retired-complete :
    (p : PendingRequests) (k : ℕ) → Holds never k p → complete p k ≡ err (unknown_request k)
unfolding complete
retired-complete p k h = elim (Option-cases (get k p.requests)) [
  | inl gone ↦ ground (arith, gone)
  | inr (r, found) ↦ cc (h.passes r found)
]

complete-live :
    (p q : PendingRequests) (k : ℕ) (c : CallCompletion)
    → complete p k ≡ ok (q, c)
    → is_some (get k p.requests) ≡ true
unfolding complete
complete-live p q k c e = ground arith

cancel-live :
    (p q : PendingRequests) (k : ℕ) (c : RequestCancellation)
    → cancel p k ≡ ok (q, c)
    → (r : PendingRequest) × (get k p.requests ≡ some r)
      × ((q ≡ p) × (r.cancelled ≡ true)
          ⊎ (q ≡ record p { requests = modify k set_cancelled p.requests }))
unfolding cancel
cancel-live p q k c e = elim (Option-cases (get k p.requests)) [
  | inl gone ↦ absurd (ground (arith, gone))
  | inr (r, found) ↦ (r, found, ground (arith, found))
]

-- In a table that satisfies its invariant, a completed request is unknown ever after: no history
-- of later calls makes its identity complete a second time.
pub complete_once :
    (instant_max : ℕ) (p q : PendingRequests) (k : ℕ) (c : CallCompletion) (cs : List Call)
    → TableInv p
    → complete p k ≡ ok (q, c)
    → complete (run instant_max q cs) k ≡ err (unknown_request k)
complete_once instant_max p q k c cs v e = retired-complete (run instant_max q cs) k (
    run-Holds never (λ r h. h) k instant_max q cs (rw e at (complete-TableInv p k v))
      (rw (complete-removes p k q c e) (record {
        issued = (v.issued k (complete-live p q k c e)).1;
        passes = λ r live. ground (arith, get-remove k k p.requests, (==_iff k k).1 refl);
      })))

expired-Holds :
    (p : PendingRequests) (now k : ℕ)
    → TableInv p
    → contains k (expire p now).1 ≡ true
    → Holds never k (expire p now).0
unfolding expire
expired-Holds p now k v e =
    let due : holds_at (is_due now) k p.requests ≡ true =
      sym (contains-keys_where (is_due now) k p.requests v.distinct) ∙ e in
    record {
      issued = (v.issued k (ground (arith, due))).1;
      passes = λ r live. ground (arith, due, get-remove_where (is_due now) k p.requests v.distinct);
    }

-- In a table that satisfies its invariant, an expired request is unknown ever after, whatever
-- calls follow.
pub expire_once :
    (instant_max : ℕ) (p : PendingRequests) (now k : ℕ) (cs : List Call)
    → TableInv p
    → contains k (expire p now).1 ≡ true
    → complete (run instant_max (expire p now).0 cs) k ≡ err (unknown_request k)
expire_once instant_max p now k cs v e = retired-complete (run instant_max (expire p now).0 cs) k (
    run-Holds never (λ r h. h) k instant_max (expire p now).0 cs (expire-TableInv p now v)
      (expired-Holds p now k v e))

cancelled-Holds :
    (p q : PendingRequests) (k : ℕ) (c : RequestCancellation)
    → TableInv p
    → cancel p k ≡ ok (q, c)
    → Holds was_cancelled k q
cancelled-Holds p q k c v e =
    let (r, found, how) = cancel-live p q k c e in
    let bound = (v.issued k (rw found)).1 in
    elim how [
      | inl (same, done) ↦
          rw same (record { issued = bound; passes = λ r' live. ground (arith, found) })
      | inr changed ↦ rw changed (record {
        issued = bound;
        passes = λ r' live.
            ground (arith, found, get-modify k k set_cancelled p.requests, (==_iff k k).1 refl);
      })
    ]

cancelled-complete :
    (p : PendingRequests) (k : ℕ) (t : PendingRequests)
    → Holds was_cancelled k p
    → complete p k ≢ ok (t, delivered)
unfolding complete
cancelled-complete p k t h = elim (Option-cases (get k p.requests)) [
  | inl gone ↦ λ e. ground (arith, gone)
  | inr (r, found) ↦ λ e. ground (arith, found, h.passes r found)
]

-- Cancellation wins: in a table that satisfies its invariant, once a request was cancelled, no
-- history of later calls ends in a response that is delivered.
pub cancel_wins :
    (instant_max : ℕ) (p q t : PendingRequests) (k : ℕ) (c : RequestCancellation) (cs : List Call)
    → TableInv p
    → cancel p k ≡ ok (q, c)
    → complete (run instant_max q cs) k ≢ ok (t, delivered)
cancel_wins instant_max p q t k c cs v e = λ late.
    let held =
      run-Holds was_cancelled (λ r h. refl) k instant_max q cs (rw e at (cancel-TableInv p k v))
        (cancelled-Holds p q k c v e) in
    cancelled-complete (run instant_max q cs) k t held late

-- In a table that satisfies its invariant, `expire` reports exactly the live requests whose
-- deadline has come, and removes those and no other.
pub expire_exact :
    (p : PendingRequests) (now k : ℕ)
    → TableInv p
    → (contains k (expire p now).1 ≡ holds_at (is_due now) k p.requests)
      × (get k (expire p now).0.requests
          ≡ (if holds_at (is_due now) k p.requests then none else get k p.requests))
unfolding expire
expire_exact p now k v = (
  contains-keys_where (is_due now) k p.requests v.distinct,
  get-remove_where (is_due now) k p.requests v.distinct,
)
