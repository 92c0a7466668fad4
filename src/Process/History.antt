-- ===== src/Process/History.antt =====
-- What holds of a session over every history of calls.
use mathlib.Core.Path.{subst}
use weregopher.Proxy.State as Proxy
use weregopher.Proxy.Queue as Queue
use weregopher.Base.{
  ℕ, ◌≡◌, refl, inl, inr, Bool, true, some, List, [], ◌∷◌, ◌++◌, arith, ok, Result-cases,
}
use weregopher.Proxy.Json.{Raw}
use weregopher.Proxy.Limits.{ProxyLimits}
use weregopher.Controls.Journal.{EventLimits}
use weregopher.Controls.Policy.{InterceptionPolicy}
use weregopher.Process.Limits.{ProcessLimits, ProcessOutcome, ExitReport}
use weregopher.Process.State.{Session, process_deadlines, attached, attach}
use weregopher.Process.Phase.{course_of, phase_of, ◌⟿◌, start}
use weregopher.Process.Order.{frames_sent, IsOpening, nothing_yet, OrderInv, ⟿-OrderInv}
use weregopher.Process.Ending.{EndInv, ⟿-EndInv, ⟿-keeps}
use weregopher.Process.Session.{SessionCall, step, run, run-path}

start-phase :
    (instant_max : ℕ) (proxy_limits : ProxyLimits) (limits : ProcessLimits)
    (event_limits : EventLimits) (policy : InterceptionPolicy) (identity now : ℕ) (s : Session)
    → attach instant_max proxy_limits limits event_limits policy identity now ≡ ok s
    → phase_of s ≡ start now
unfolding attach Proxy.new Queue.new
start-phase instant_max proxy_limits limits event_limits policy identity now s e =
    elim (Result-cases (process_deadlines instant_max limits now)) [
      | inr (x, late) ↦ absurd (ground (arith, late, e))
      | inl (d, fits) ↦
          let same : attached proxy_limits limits event_limits policy identity now d ≡ s =
            ground (arith, fits, e) in
          subst (λ (t : Session). phase_of t ≡ start now) same refl
    ]

start-OrderInv : (now : ℕ) → OrderInv (start now)
start-OrderInv now = record { opening = nothing_yet; in_order = λ held. (refl, refl) }

start-EndInv : (now : ℕ) → EndInv (start now).course true
start-EndInv now = record {
  reported = refl;
  held = refl;
  unasked = λ early. refl;
  asked = λ late. absurd (ground (arith, late));
  killed = λ late. absurd (ground (arith, late));
  silent = λ late. absurd (ground (arith, late));
  failed = λ o e. absurd (ground (arith, e));
  blamed = λ r o e f. absurd (ground (arith, e));
}

module _ (deserialize : List ℕ → Raw × Bool) (sha256 : List ℕ → List ℕ) (instant_max : ℕ)
    (proxy_limits : ProxyLimits) (limits : ProcessLimits) (event_limits : EventLimits)
    (policy : InterceptionPolicy) (identity now : ℕ) (s : Session) where
  abbrev IsAttached : Type 0
  IsAttached = attach instant_max proxy_limits limits event_limits policy identity now ≡ ok s

  abbrev after : List SessionCall → Session
  after cs = run deserialize sha256 instant_max s cs

  path_from_start : (cs : List SessionCall) → IsAttached → start now ⟿ phase_of (after cs)
  path_from_start cs e =
      subst (λ p. p ⟿ phase_of (after cs))
        (start-phase instant_max proxy_limits limits event_limits policy identity now s e)
        (run-path deserialize sha256 instant_max s cs)

  -- Whatever an attached session goes through, the writer's channel first gets one `initialize`
  -- request, then one `initialized` notification, and only then other frames, none of which has
  -- one of these two methods.
  pub run-IsOpening :
      (cs : List SessionCall) → IsAttached → IsOpening (frames_sent (after cs).writer_commands)
  run-IsOpening cs e = (⟿-OrderInv (path_from_start cs e) (start-OrderInv now)).opening

  -- Whatever an attached session goes through, it has a report exactly when it has exited; until
  -- then it can ask the process to end, and it has done so once it is terminating; no outcome was
  -- asked for before, each that was is a failure, and the report names it; and the writer's sender
  -- is gone once the session is terminating or has exited.
  pub run-EndInv :
      (cs : List SessionCall) → IsAttached → EndInv (course_of (after cs)) (after cs).writer_tx
  run-EndInv cs e = ⟿-EndInv (path_from_start cs e) (start-EndInv now)

  run-append :
      (t : Session) (cs ds : List SessionCall)
      → run deserialize sha256 instant_max t (cs ++ ds)
        ≡ run deserialize sha256 instant_max (run deserialize sha256 instant_max t cs) ds
  unfolding run
  run-append t [] ds = refl
  run-append t (c ∷ cs) ds = run-append (step deserialize sha256 instant_max t c) cs ds

  -- The first failure is the one that is reported: if an attached session was ended for some
  -- outcome, then whatever calls, events and further failures follow, a report of its exit names
  -- that outcome.
  pub first_failure_wins :
      (cs ds : List SessionCall) (o : ProcessOutcome) (r : ExitReport)
      → IsAttached
      → (after cs).requested_outcome ≡ some o
      → (after (cs ++ ds)).exit_report ≡ some r
      → r.outcome ≡ o
  first_failure_wins cs ds o r e first last =
      let middle = after cs in
      let whole = run-append s cs ds in
      let end = run deserialize sha256 instant_max middle ds in
      let path = run-path deserialize sha256 instant_max middle ds in
      let kept : end.requested_outcome ≡ some o = ⟿-keeps o path first in
      let inv : EndInv (course_of end) end.writer_tx = ⟿-EndInv path (run-EndInv cs e) in
      inv.blamed r o (rw whole at last) kept
