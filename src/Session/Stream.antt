-- ===== src/Session/Stream.antt =====
-- Stream credit and sequencing: crates/weregopher-runtime-protocol/src/session.rs.
pub mod Accounting
use weregopher.Base.{
  ℕ, ◌-◌, Result, ok, err, ◌>>=◌, ◌>>◌, reject_if, ok_or, not, ltb, ◌==◌, if◌then◌else◌, u64_max,
  checked_add, List, [], ◌∷◌,
}

pub record StreamCredit : Type 0 where
  pub available : ℕ  -- u64
  pub next_sequence : ℕ  -- u64

pub data StreamCreditError : Type 0 where
  zero_credit empty_data credit_overflow sequence_exhausted : StreamCreditError
  unexpected_sequence : ℕ → ℕ → StreamCreditError
  credit_exceeded : ℕ → ℕ → StreamCreditError

unfoldable pub new : ℕ → Result StreamCreditError StreamCredit
new initial_credit =
    if initial_credit == 0
    then err zero_credit
    else ok (record { available = initial_credit; next_sequence = 1 })

-- A method that fails leaves the stream as it was, so the new state is part of `ok` alone.
unfoldable pub grant : StreamCredit → ℕ → Result StreamCreditError StreamCredit
grant self additional = do
  reject_if (additional == 0) zero_credit
  available ← ok_or (checked_add u64_max self.available additional) credit_overflow
  ok (record self { available = available })

unfoldable pub consume : StreamCredit → ℕ → ℕ → Result StreamCreditError StreamCredit
consume self sequence bytes = do
  reject_if (not (sequence == self.next_sequence)) (unexpected_sequence self.next_sequence sequence)
  reject_if (bytes == 0) empty_data
  reject_if (ltb self.available bytes) (credit_exceeded self.available bytes)
  next_sequence ← ok_or (checked_add u64_max self.next_sequence 1) sequence_exhausted
  ok (record { available = self.available - bytes; next_sequence = next_sequence })

pub data StreamOp : Type 0 where
  grants : ℕ → StreamOp
  consumes : ℕ → ℕ → StreamOp

abbrev pub kept : StreamCredit → Result StreamCreditError StreamCredit → StreamCredit
kept s (ok t) = t
kept s (err e) = s

unfoldable pub step : StreamCredit → StreamOp → Result StreamCreditError StreamCredit
unfolding grant consume
step s (grants additional) = grant s additional
step s (consumes sequence bytes) = consume s sequence bytes

-- A history of calls, each of which may fail.
unfoldable pub run : StreamCredit → List StreamOp → StreamCredit
run s [] = s
run s (op ∷ ops) = run (kept s (step s op)) ops
