-- ===== src/Session/Stream/Accounting.antt =====
-- The sender never uses more bytes than the receiver granted.
use weregopher.Base.{
  ◌-◌, ℕ, suc, ◌≡◌, ◌+◌, ◌≤◌, ◌<◌, Result, ok, err, arith, u64_max, List, [], ◌∷◌, ◌↔◌,
}
use weregopher.Session.Stream.{
  StreamCredit, StreamCreditError, StreamOp, grants, consumes, consume, unexpected_sequence, kept,
  step, run,
}

-- The bytes that a history of calls was granted, was allowed to send, and the calls that sent some.
granted_by : StreamOp → Result StreamCreditError StreamCredit → ℕ
granted_by (grants additional) (ok t) = additional
granted_by _ _ = 0

sent_by : StreamOp → Result StreamCreditError StreamCredit → ℕ
sent_by (consumes sequence bytes) (ok t) = bytes
sent_by _ _ = 0

chunks_by : StreamOp → Result StreamCreditError StreamCredit → ℕ
chunks_by (consumes sequence bytes) (ok t) = 1
chunks_by _ _ = 0

pub total_granted : StreamCredit → List StreamOp → ℕ
total_granted s [] = 0
total_granted s (op ∷ ops) = granted_by op (step s op) + total_granted (kept s (step s op)) ops

pub total_sent : StreamCredit → List StreamOp → ℕ
total_sent s [] = 0
total_sent s (op ∷ ops) = sent_by op (step s op) + total_sent (kept s (step s op)) ops

pub total_chunks : StreamCredit → List StreamOp → ℕ
total_chunks s [] = 0
total_chunks s (op ∷ ops) = chunks_by op (step s op) + total_chunks (kept s (step s op)) ops

abbrev pub InRange : StreamCredit → Type 0
InRange s = (s.available ≤ u64_max) × (0 < s.next_sequence) × (s.next_sequence ≤ u64_max)

step-accounts :
    (s : StreamCredit) (op : StreamOp)
    → (s.available + granted_by op (step s op)
        ≡ (kept s (step s op)).available + sent_by op (step s op))
      × ((kept s (step s op)).next_sequence ≡ s.next_sequence + chunks_by op (step s op))
unfolding step granted_by sent_by chunks_by
step-accounts s (grants additional) = ground arith
step-accounts s (consumes sequence bytes) = ground arith

step-InRange : (s : StreamCredit) (op : StreamOp) → InRange s → InRange (kept s (step s op))
unfolding step
step-InRange s (grants additional) h = ground arith
step-InRange s (consumes sequence bytes) h = ground arith

-- After any history of grants and sends, failed ones among them, what the stream still has and what
-- it sent are together what it started with and was granted, and the next sequence number has moved
-- on by one for each chunk sent.
pub run-accounts :
    (s : StreamCredit) (ops : List StreamOp)
    → (s.available + total_granted s ops ≡ (run s ops).available + total_sent s ops)
      × ((run s ops).next_sequence ≡ s.next_sequence + total_chunks s ops)
unfolding run total_granted total_sent total_chunks
run-accounts s [] = omega arith
run-accounts s (op ∷ ops) = omega (arith, step-accounts s op, run-accounts (kept s (step s op)) ops)

-- Over every history of grants and sends from a state in range, credit and sequence stay in the
-- range of `u64`, the sequence above zero.
pub run-InRange : (s : StreamCredit) (ops : List StreamOp) → InRange s → InRange (run s ops)
unfolding run
run-InRange s [] h = h
run-InRange s (op ∷ ops) h = run-InRange (kept s (step s op)) ops (step-InRange s op h)

-- A chunk is taken exactly if it has the next sequence number, is not empty, is within the credit,
-- and leaves a sequence number to use.
pub consume_iff :
    (s : StreamCredit) (sequence bytes : ℕ)
    → ((t : StreamCredit) × (consume s sequence bytes ≡ ok t)) ↔ (
        (sequence ≡ s.next_sequence)
        × (0 < bytes)
        × (bytes ≤ s.available)
        × (s.next_sequence < u64_max))
unfolding consume
consume_iff s sequence bytes = (
  λ r. let e = r.1 in ground arith,
  λ h. (
    record { available = s.available - bytes; next_sequence = s.next_sequence + 1 },
    ground arith,
  ),
)

-- No chunk is taken twice: after a chunk was taken, one with the same sequence number is
-- refused, and told the next number.
pub consume_replay :
    (s t : StreamCredit) (sequence bytes again : ℕ)
    → consume s sequence bytes ≡ ok t
    → consume t sequence again ≡ err (unexpected_sequence (suc sequence) sequence)
unfolding consume
consume_replay s t sequence bytes again h = ground arith
