-- ===== src/Session/Pending.antt =====
-- Pending requests: crates/weregopher-runtime-protocol/src/session.rs.
-- An `Instant` is a number of nanoseconds; `instant_max` is the last one that the platform holds.
pub mod Invariant
pub mod Lifetime
use weregopher.Base.{
  ℕ, Bool, true, false, Option, none, some, List, [], ◌∷◌, Result, ok, err, ◌>>=◌, ◌>>◌, reject_if,
  ok_or, leb, ◌==◌, if◌then◌else◌, length, u64_max, checked_add, ℕ_key, state_after,
}
use weregopher.Base.Maps.{Map, get, insert, remove, modify, keys_where, remove_all}

pub record PendingRequest : Type 0 where
  pub deadline : ℕ
  pub cancelled : Bool

pub data RequestCancellation : Type 0 where
  newly_cancelled already_cancelled : RequestCancellation

pub data CallCompletion : Type 0 where
  delivered discarded_after_cancellation : CallCompletion

pub data PendingRequestError : Type 0 where
  zero_maximum zero_timeout deadline_overflow request_id_exhausted : PendingRequestError
  capacity_exceeded unknown_request : ℕ → PendingRequestError

pub record PendingRequests : Type 0 where
  pub maximum : ℕ  -- u32
  pub next_request_id : ℕ  -- u64
  pub requests : Map ℕ PendingRequest

unfoldable pub new : ℕ → Result PendingRequestError PendingRequests
new maximum =
    if maximum == 0
    then err zero_maximum
    else ok (record { maximum = maximum; next_request_id = 1; requests = [] })

unfoldable pub begin :
    ℕ → PendingRequests → ℕ → ℕ → Result PendingRequestError (PendingRequests × ℕ)
begin instant_max self now timeout = do
  reject_if (timeout == 0) zero_timeout
  reject_if (leb self.maximum (length self.requests)) (capacity_exceeded self.maximum)
  deadline ← ok_or (checked_add instant_max now timeout) deadline_overflow
  next_request_id ← ok_or (checked_add u64_max self.next_request_id 1) request_id_exhausted
  let request_id = self.next_request_id
  let request : PendingRequest = record { deadline = deadline; cancelled = false }
  ok (
    record self {
      next_request_id = next_request_id;
      requests = insert request_id request self.requests;
    },
    request_id,
  )

abbrev pub set_cancelled : PendingRequest → PendingRequest
set_cancelled r = record r { cancelled = true }

unfoldable pub cancel :
    PendingRequests → ℕ → Result PendingRequestError (PendingRequests × RequestCancellation)
cancel self request_id = do
  request ← ok_or (get request_id self.requests) (unknown_request request_id)
  let self' = record self { requests = modify request_id set_cancelled self.requests }
  if request.cancelled then ok (self, already_cancelled) else ok (self', newly_cancelled)

unfoldable pub complete :
    PendingRequests → ℕ → Result PendingRequestError (PendingRequests × CallCompletion)
complete self request_id = do
  request ← ok_or (get request_id self.requests) (unknown_request request_id)
  let self' = record self { requests = remove request_id self.requests }
  if request.cancelled then ok (self', discarded_after_cancellation) else ok (self', delivered)

abbrev pub is_due : ℕ → ℕ → PendingRequest → Bool
is_due now request_id request = leb request.deadline now

unfoldable pub expire : PendingRequests → ℕ → PendingRequests × List ℕ
expire self now =
    let expired = keys_where (is_due now) self.requests in
    (record self { requests = remove_all expired self.requests }, expired)

unfoldable pub is_empty : PendingRequests → Bool
is_empty self = length self.requests == 0

unfoldable pub len : PendingRequests → ℕ
len self = length self.requests

pub data Call : Type 0 where
  begins : ℕ → ℕ → Call
  cancels completes expires : ℕ → Call

-- One call by its client; a failed call leaves the state alone.
unfoldable pub step : ℕ → PendingRequests → Call → PendingRequests
step instant_max p (begins now timeout) = state_after p (begin instant_max p now timeout)
step instant_max p (cancels k) = state_after p (cancel p k)
step instant_max p (completes k) = state_after p (complete p k)
step instant_max p (expires now) = (expire p now).0

unfoldable pub run : ℕ → PendingRequests → List Call → PendingRequests
run instant_max p [] = p
run instant_max p (c ∷ cs) = run instant_max (step instant_max p c) cs
