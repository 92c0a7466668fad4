-- ===== src/Process/Ending.antt =====
-- How a session ends, and what it reports of its end.
use mathlib.Core.Path.{subst}
use weregopher.Base.{
  ℕ, ◌≡◌, refl, ap, ◌∙◌, ◌⊎◌, inl, inr, Bool, true, false, ◌||◌, not, Option, none, some, arith,
  is_some,
}
use weregopher.Process.Limits.{ProcessOutcome, transport_failure, ProcessExit, ExitReport}
use weregopher.Process.State.{
  LifecycleState, running, graceful_shutdown, WriterCommand, frame_command, close_command,
  is_terminating, is_exited, first_outcome,
}
use weregopher.Process.Phase.{
  Course, Phase, IsAlive, IsFailure, fails_forced, fails_initialization, fails_runtime,
  fails_protocol, fails_transport, fails_request, fails_interception, fails_observation, ended,
  sends, ◌⟶◌, enter, respond, take_response, dispatch, close_pipe, drain, leave, finish_stdout,
  finish_stderr, terminate, exit, ◌⟿◌, stands, moves, tick, ◌⟶*◌, stop, more,
}
use weregopher.Process.Poll.{natural_outcome, is_clean}

abbrev pub is_late : LifecycleState → Bool
is_late l = is_terminating l || is_exited l

-- What was asked first stands, an exited session has its report, and nothing is sent once a
-- session ends.
pub record EndInv (c : Course) (writer_tx : Bool) : Type 0 where
  pub reported : is_some c.exit_report ≡ is_exited c.lifecycle
  pub held : c.process_tx ≡ not (is_exited c.lifecycle)
  pub unasked : is_late c.lifecycle ≡ false → c.requested_outcome ≡ none
  pub asked : is_terminating c.lifecycle ≡ true → is_some c.requested_outcome ≡ true
  pub killed : is_terminating c.lifecycle ≡ true → c.termination_requested ≡ true
  pub silent : is_late c.lifecycle ≡ true → writer_tx ≡ false
  pub failed : (o : ProcessOutcome) → c.requested_outcome ≡ some o → IsFailure o
  pub blamed :
      (r : ExitReport) (o : ProcessOutcome)
      → c.exit_report ≡ some r
      → c.requested_outcome ≡ some o
      → r.outcome ≡ o

IsFailure-unclean : (o : ProcessOutcome) → IsFailure o → is_clean o ≡ false
IsFailure-unclean o fails_forced = refl
IsFailure-unclean o fails_initialization = refl
IsFailure-unclean o fails_runtime = refl
IsFailure-unclean o fails_protocol = refl
IsFailure-unclean o fails_transport = refl
IsFailure-unclean o fails_request = refl
IsFailure-unclean o fails_interception = refl
IsFailure-unclean o fails_observation = refl

first_outcome-failed :
    (earlier : Option ProcessOutcome) (outcome o : ProcessOutcome)
    → ((x : ProcessOutcome) → earlier ≡ some x → IsFailure x)
    → IsFailure outcome
    → first_outcome earlier outcome ≡ some o
    → IsFailure o
first_outcome-failed none outcome o old fails e =
    let same : outcome ≡ o = ground (arith, e) in subst (λ x. IsFailure x) same fails
first_outcome-failed (some x) outcome o old fails e = old o e

sends-EndInv :
    (c : Course) (before after : Bool) (command : WriterCommand)
    → (before ≡ false → after ≡ false)
    → EndInv c before
    → EndInv (sends c command) after
sends-EndInv c before after command shut v = record {
  reported = v.reported;
  held = v.held;
  unasked = v.unasked;
  asked = v.asked;
  killed = v.killed;
  silent = λ late. shut (v.silent late);
  failed = v.failed;
  blamed = v.blamed;
}

drain-EndInv :
    (c : Course) (tx : Bool) (deadline : ℕ)
    → c.lifecycle ≡ running
    → EndInv c tx
    → EndInv (record c { lifecycle = graceful_shutdown deadline }) tx
drain-EndInv c tx deadline at v = record {
  reported = v.reported ∙ rw at refl;
  held = v.held ∙ rw at refl;
  unasked = λ early. v.unasked (rw at refl);
  asked = λ late. absurd (ground (arith, late));
  killed = λ late. absurd (ground (arith, late));
  silent = λ late. absurd (ground (arith, late));
  failed = v.failed;
  blamed = v.blamed;
}

ended-EndInv :
    (c : Course) (tx : Bool) (outcome : ProcessOutcome)
    → IsFailure outcome
    → IsAlive c
    → EndInv c tx
    → EndInv (ended c outcome) false
ended-EndInv c tx outcome failure alive v = record {
  reported = v.reported ∙ alive;
  held = v.held ∙ ap not alive;
  unasked = λ early. absurd (ground (arith, early));
  asked = λ late. ground arith;
  killed = λ late. ground (arith, v.held, alive);
  silent = λ late. refl;
  failed = λ o e. first_outcome-failed c.requested_outcome outcome o v.failed failure e;
  blamed = λ r o e f. absurd (ground (arith, v.reported, alive, e));
}

exit-blamed :
    (c : Course) (process : ProcessExit) (report : ExitReport) (o : ProcessOutcome)
    → IsFailure o
    → (report.outcome ≡ natural_outcome c.requested_outcome c.lifecycle process)
      ⊎ (report.outcome ≡ transport_failure)
        × (report.streams_drained ≡ false)
        × (is_clean (natural_outcome c.requested_outcome c.lifecycle process) ≡ true)
    → c.requested_outcome ≡ some o
    → report.outcome ≡ o
exit-blamed c process report o failure (inl natural) asked = natural ∙ rw asked refl
exit-blamed c process report o failure (inr (_, _, clean)) asked =
    let it : is_clean o ≡ true = rw asked at clean in
    absurd (ground (arith, it, IsFailure-unclean o failure))

⟶-EndInv : {p q : Phase} → p ⟶ q → EndInv p.course p.writer_tx → EndInv q.course q.writer_tx
⟶-EndInv {p = p} (enter f next at fits) v = v
⟶-EndInv {p = p} (respond id at) v = v
⟶-EndInv {p = p} (take_response id at) v = v
⟶-EndInv {p = p} (dispatch f rest next held first fits) v =
    sends-EndInv p.course p.writer_tx p.writer_tx (frame_command f) (λ e. e) v
⟶-EndInv {p = p} (close_pipe idle) v =
    sends-EndInv p.course p.writer_tx false close_command (λ _. refl) v
⟶-EndInv {p = p} (drain deadline at) v = drain-EndInv p.course p.writer_tx deadline at v
⟶-EndInv {p = p} (leave process deadline there timely) v = record {
  reported = v.reported;
  held = v.held;
  unasked = v.unasked;
  asked = v.asked;
  killed = v.killed;
  silent = v.silent;
  failed = v.failed;
  blamed = v.blamed;
}
⟶-EndInv {p = p} finish_stdout v = record {
  reported = v.reported;
  held = v.held;
  unasked = v.unasked;
  asked = v.asked;
  killed = v.killed;
  silent = v.silent;
  failed = v.failed;
  blamed = v.blamed;
}
⟶-EndInv {p = p} finish_stderr v = record {
  reported = v.reported;
  held = v.held;
  unasked = v.unasked;
  asked = v.asked;
  killed = v.killed;
  silent = v.silent;
  failed = v.failed;
  blamed = v.blamed;
}
⟶-EndInv {p = p} (terminate outcome next waiting failure alive) v =
    ended-EndInv p.course p.writer_tx outcome failure alive v
⟶-EndInv {p = p} (exit report process alive gone over told why) v = record {
  reported = refl;
  held = refl;
  unasked = λ early. absurd (ground (arith, early));
  asked = λ late. absurd (ground (arith, late));
  killed = λ late. absurd (ground (arith, late));
  silent = λ late. refl;
  failed = v.failed;
  blamed = λ r o e f.
      let same : report ≡ r = ground (arith, e) in
      subst (λ (x : ExitReport). x.outcome ≡ o) same
        (exit-blamed p.course process report o (v.failed o f) why f);
}

pub ⟶*-EndInv : {p q : Phase} → p ⟶* q → EndInv p.course p.writer_tx → EndInv q.course q.writer_tx
⟶*-EndInv stop v = v
⟶*-EndInv (more step steps) v = ⟶*-EndInv steps (⟶-EndInv step v)

-- What was asked first, and a report, once written, stay.
⟶-keeps :
    {p q : Phase} (o : ProcessOutcome)
    → p ⟶ q
    → p.course.requested_outcome ≡ some o
    → q.course.requested_outcome ≡ some o
⟶-keeps o (terminate outcome next waiting failure alive) e = rw e refl
⟶-keeps o (enter f next at fits) e = e
⟶-keeps o (respond id at) e = e
⟶-keeps o (take_response id at) e = e
⟶-keeps o (dispatch f rest next held first fits) e = e
⟶-keeps o (close_pipe idle) e = e
⟶-keeps o (drain deadline at) e = e
⟶-keeps o (leave process deadline there timely) e = e
⟶-keeps o finish_stdout e = e
⟶-keeps o finish_stderr e = e
⟶-keeps o (exit report process alive gone over told why) e = e

pub ⟶*-keeps :
    {p q : Phase} (o : ProcessOutcome)
    → p ⟶* q
    → p.course.requested_outcome ≡ some o
    → q.course.requested_outcome ≡ some o
⟶*-keeps o stop e = e
⟶*-keeps o (more step steps) e = ⟶*-keeps o steps (⟶-keeps o step e)

pub ⟿-EndInv : {p q : Phase} → p ⟿ q → EndInv p.course p.writer_tx → EndInv q.course q.writer_tx
⟿-EndInv stands v = v
⟿-EndInv (moves steps rest) v = ⟿-EndInv rest (⟶*-EndInv steps v)
⟿-EndInv (tick now timely rest) v = ⟿-EndInv rest (record {
  reported = v.reported;
  held = v.held;
  unasked = v.unasked;
  asked = v.asked;
  killed = v.killed;
  silent = v.silent;
  failed = v.failed;
  blamed = v.blamed;
})

pub ⟿-keeps :
    {p q : Phase} (o : ProcessOutcome)
    → p ⟿ q
    → p.course.requested_outcome ≡ some o
    → q.course.requested_outcome ≡ some o
⟿-keeps o stands e = e
⟿-keeps o (moves steps rest) e = ⟿-keeps o rest (⟶*-keeps o steps e)
⟿-keeps o (tick now timely rest) e = ⟿-keeps o rest e
