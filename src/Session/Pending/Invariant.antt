-- ===== src/Session/Pending/Invariant.antt =====
-- What holds of the pending requests between two calls.
use weregopher.Base.{
  ℕ, ◌≡◌, ◌+◌, ◌≤◌, ◌<◌, true, false, none, ok, arith, u64_max, List, [], ◌∷◌, length, is_some,
  state_after, Option-cases, inl, inr, ℕ_key, state_after_cases, ◌⊎◌,
}
use weregopher.Base.Maps.{
  get, insert, remove, modify, keys_where, IsDistinct, get-insert, get-remove, get-modify,
  length-insert_new, length-remove-le, length-modify, length-remove_all-le, insert-IsDistinct,
  remove-IsDistinct, modify-IsDistinct, remove_all-IsDistinct, get-remove_where,
}
use weregopher.Session.Pending.{
  PendingRequest, PendingRequests, RequestCancellation, CallCompletion, new, begin, cancel,
  complete, expire, is_due, set_cancelled, Call, begins, cancels, completes, expires, step, run,
}

-- Every live identity was issued: it is above zero and below the next one.
abbrev pub AllIssued : PendingRequests → Type 0
AllIssued p = (k : ℕ) → is_some (get k p.requests) ≡ true → (0 < k) × (k < p.next_request_id)

pub record TableInv (p : PendingRequests) : Type 0 where
  pub bounded : length p.requests ≤ p.maximum
  pub distinct : IsDistinct p.requests
  pub issued : AllIssued p
  pub next_positive : 0 < p.next_request_id
  pub next_in_range : p.next_request_id ≤ u64_max

next_unused : (p : PendingRequests) → TableInv p → get p.next_request_id p.requests ≡ none
next_unused p v = elim (Option-cases (get p.next_request_id p.requests)) [
  | inl e ↦ e
  | inr (r, e) ↦ absurd (ground (arith, v.issued p.next_request_id))
]

-- What a successful `begin` did.
pub record Began (instant_max : ℕ) (p : PendingRequests) (now timeout : ℕ) (q : PendingRequests)
    (k : ℕ) : Type 0 where
  pub fresh : k ≡ p.next_request_id
  pub room : length p.requests < p.maximum
  pub not_last : p.next_request_id < u64_max
  pub positive : 0 < timeout
  pub representable : now + timeout ≤ instant_max
  pub next : q.next_request_id ≡ p.next_request_id + 1
  pub same_maximum : q.maximum ≡ p.maximum
  pub inserted :
      q.requests
      ≡ insert p.next_request_id (record { deadline = now + timeout; cancelled = false }) p.requests

pub begin-Began :
    (instant_max : ℕ) (p : PendingRequests) (now timeout : ℕ) (q : PendingRequests) (k : ℕ)
    → begin instant_max p now timeout ≡ ok (q, k)
    → Began instant_max p now timeout q k
unfolding begin
begin-Began instant_max p now timeout q k h = ground arith

pub Began-TableInv :
    {instant_max : ℕ} {p : PendingRequests} {now timeout : ℕ} {q : PendingRequests} {k : ℕ}
    → TableInv p
    → Began instant_max p now timeout q k
    → TableInv q
Began-TableInv {p = p} {now = now} {timeout = timeout} {q = q} v b =
    let r : PendingRequest = record { deadline = now + timeout; cancelled = false } in
    let unused = next_unused p v in
    record {
      bounded =
          rw (b.inserted) (omega (arith, length-insert_new p.next_request_id r p.requests unused));
      distinct =
          rw (b.inserted) (insert-IsDistinct p.next_request_id r p.requests unused v.distinct);
      issued = λ k h.
          ground (arith, v.issued k, get-insert p.next_request_id k r p.requests, b.inserted);
      next_positive = omega arith;
      next_in_range = omega arith;
    }

pub cancel-IsCancelled :
    (p : PendingRequests) (k : ℕ) (q : PendingRequests) (c : RequestCancellation)
    → cancel p k ≡ ok (q, c)
    → (q ≡ p) ⊎ (q ≡ record p { requests = modify k set_cancelled p.requests })
unfolding cancel
cancel-IsCancelled p k q c h = ground arith

pub cancel-TableInv :
    (p : PendingRequests) (k : ℕ) → TableInv p → TableInv (state_after p (cancel p k))
cancel-TableInv p k v = state_after_cases TableInv p (cancel p k) v λ q c h.
    elim (cancel-IsCancelled p k q c h) [
      | inl same ↦ rw same v
      | inr changed ↦ rw changed (record {
        bounded = omega (arith, v.bounded, length-modify k set_cancelled p.requests);
        distinct = modify-IsDistinct k set_cancelled p.requests v.distinct;
        issued = λ j present. ground (arith, v.issued j, get-modify k j set_cancelled p.requests);
        next_positive = v.next_positive;
        next_in_range = v.next_in_range;
      })
    ]

pub complete-removes :
    (p : PendingRequests) (k : ℕ) (q : PendingRequests) (c : CallCompletion)
    → complete p k ≡ ok (q, c)
    → q ≡ record p { requests = remove k p.requests }
unfolding complete
complete-removes p k q c h = ground arith

pub complete-TableInv :
    (p : PendingRequests) (k : ℕ) → TableInv p → TableInv (state_after p (complete p k))
complete-TableInv p k v = state_after_cases TableInv p (complete p k) v λ q c h.
    rw (complete-removes p k q c h) (record {
      bounded = omega (arith, v.bounded, length-remove-le k p.requests);
      distinct = remove-IsDistinct k p.requests v.distinct;
      issued = λ j present. ground (arith, v.issued j, get-remove k j p.requests);
      next_positive = v.next_positive;
      next_in_range = v.next_in_range;
    })

pub expire-TableInv : (p : PendingRequests) (now : ℕ) → TableInv p → TableInv (expire p now).0
unfolding expire
expire-TableInv p now v =
    let due = keys_where (is_due now) p.requests in
    record {
      bounded = omega (arith, v.bounded, length-remove_all-le due p.requests);
      distinct = remove_all-IsDistinct due p.requests v.distinct;
      issued = λ j present.
          ground (arith, v.issued j, get-remove_where (is_due now) j p.requests v.distinct);
      next_positive = v.next_positive;
      next_in_range = v.next_in_range;
    }

pub step-TableInv :
    (instant_max : ℕ) (p : PendingRequests) (c : Call)
    → TableInv p
    → TableInv (step instant_max p c)
unfolding step
step-TableInv instant_max p (begins now timeout) v =
    state_after_cases TableInv p (begin instant_max p now timeout) v
      λ q k h. Began-TableInv v (begin-Began instant_max p now timeout q k h)
step-TableInv instant_max p (cancels k) v = cancel-TableInv p k v
step-TableInv instant_max p (completes k) v = complete-TableInv p k v
step-TableInv instant_max p (expires now) v = expire-TableInv p now v

-- Every history of calls keeps the invariant of a table: the pending requests are within their
-- maximum, one entry to an identity, and every identity among them was issued.
pub run-TableInv :
    (instant_max : ℕ) (p : PendingRequests) (cs : List Call)
    → TableInv p
    → TableInv (run instant_max p cs)
unfolding run
run-TableInv instant_max p [] v = v
run-TableInv instant_max p (c ∷ cs) v =
    run-TableInv instant_max (step instant_max p c) cs (step-TableInv instant_max p c v)

new-empty :
    (maximum : ℕ) (p : PendingRequests)
    → new maximum ≡ ok p
    → (0 < maximum) × (p ≡ record { maximum = maximum; next_request_id = 1; requests = [] })
unfolding new
new-empty maximum p h = ground arith

pub new-TableInv : (maximum : ℕ) (p : PendingRequests) → new maximum ≡ ok p → TableInv p
unfolding get
new-TableInv maximum p h = rw (new-empty maximum p h).1 (record {
  bounded = omega arith;
  distinct = tt;
  issued = λ k present. cc;
  next_positive = omega arith;
  next_in_range = omega arith;
})
