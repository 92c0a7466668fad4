-- ===== src/Process/Session.antt =====
-- A session as a history of calls by its one owner.
use weregopher.Base.{
  ℕ, ◌≡◌, ◌∙◌, inl, inr, Bool, true, false, List, [], ◌∷◌, arith, Bool-cases, ok, err, Result-cases,
}
use weregopher.Proxy.Json.{Raw}
use weregopher.Process.Limits.{ShutdownMode}
use weregopher.Process.State.{
  LifecycleState, running, Session, is_running, is_exited, ensure_monotonic,
}
use weregopher.Process.Client.{send_client, next_for_client, shutdown, next_event}
use weregopher.Process.Poll.{Inbox, advance_deadlines, poll_workers, poll}
use weregopher.Process.Phase.{
  course_of, phase_of, IsAlive, ⟶*-now, ◌⟿◌, stands, moves, tick, ⟿-trans,
}
use weregopher.Process.Refinement.Client.{
  send_client-Reach, next_for_client-path, shutdown-path, ensure_monotonic-le,
}
use weregopher.Process.Refinement.Poll.{
  poll_workers-Reach, advance_deadlines-Reach, finish_process_exit-path,
}

pub data SessionCall : Type 0 where
  sends_line : List ℕ → SessionCall
  takes_frame : ℕ → SessionCall
  polls : Inbox → ℕ → SessionCall
  shuts : ShutdownMode → ℕ → SessionCall
  pulls : SessionCall

exited-not_running : (l : LifecycleState) → is_exited l ≡ true → is_running l ≡ false
exited-not_running running over = ground arith
exited-not_running _ over = ground arith

module _ (deserialize : List ℕ → Raw × Bool) (sha256 : List ℕ → List ℕ) (instant_max : ℕ) where
  unfoldable pub step : Session → SessionCall → Session
  step s (sends_line bytes) = (send_client sha256 deserialize s bytes).0
  step s (takes_frame now) = (next_for_client sha256 instant_max s now).0
  step s (polls inbox now) = (poll deserialize sha256 instant_max inbox s now).0
  step s (shuts mode now) = (shutdown instant_max s mode now).0
  step s pulls = (next_event s).0

  unfoldable pub run : Session → List SessionCall → Session
  run s [] = s
  run s (c ∷ cs) = run (step s c) cs

  -- A poll of a session that lives.
  poll-path :
      (inbox : Inbox) (s : Session) (now : ℕ)
      → IsAlive (course_of s)
      → phase_of s ⟿ phase_of (poll deserialize sha256 instant_max inbox s now).0
  unfolding poll
  poll-path inbox s now alive = elim (Result-cases (ensure_monotonic s now)) [
    | inr (x, early) ↦ rw (early, poll) stands
    | inl (u, timely) ↦
        let t = record s { last_observed_time = now } in
        let r = poll_workers deserialize sha256 instant_max inbox t now in
        let reached =
          poll_workers-Reach deserialize sha256 instant_max inbox t now alive (omega arith) in
        let on = ensure_monotonic-le s now timely in
        elim (Result-cases r.1) [
          | inr (x, bad) ↦
              let whole : r ≡ (r.0, err x) = cc (bad) in
              rw (timely, alive, whole, poll) (tick now on (moves reached.path stands))
          | inl (p, good) ↦
              let whole : r ≡ (r.0, ok p) = cc (good) in
              let late = advance_deadlines-Reach r.0 now p (reached.alive) in
              rw (timely, alive, whole, poll)
                (tick now on (
                  moves reached.path (
                    moves late.path (
                      moves
                        (finish_process_exit-path (advance_deadlines r.0 now) now inbox late.alive
                          (⟶*-now late.path ∙ ⟶*-now reached.path))
                        stands))))
        ]
  ]

  -- A session that has exited keeps its phase, but for the time.
  exited-path :
      (s : Session) (c : SessionCall)
      → is_exited s.lifecycle ≡ true
      → phase_of s ⟿ phase_of (step s c)
  unfolding step send_client next_for_client poll shutdown next_event ensure_monotonic
  exited-path s (sends_line bytes) over =
      rw (exited-not_running s.lifecycle over, step, send_client) stands
  exited-path s (takes_frame now) over = elim (Result-cases (ensure_monotonic s now)) [
    | inr (x, early) ↦ rw (early, step, next_for_client) stands
    | inl (u, timely) ↦
        rw (timely, over, step, next_for_client)
          (tick now (ensure_monotonic-le s now timely) stands)
  ]
  exited-path s (polls inbox now) over = elim (Result-cases (ensure_monotonic s now)) [
    | inr (x, early) ↦ rw (early, step, poll) stands
    | inl (u, timely) ↦
        rw (timely, over, step, poll) (tick now (ensure_monotonic-le s now timely) stands)
  ]
  exited-path s (shuts mode now) over = elim (Result-cases (ensure_monotonic s now)) [
    | inr (x, early) ↦ rw (early, step, shutdown) stands
    | inl (u, timely) ↦
        rw (timely, over, step, shutdown) (tick now (ensure_monotonic-le s now timely) stands)
  ]
  exited-path s pulls over = stands

  alive-path :
      (s : Session) (c : SessionCall) → IsAlive (course_of s) → phase_of s ⟿ phase_of (step s c)
  unfolding step next_event
  alive-path s (sends_line bytes) alive =
      moves (send_client-Reach sha256 deserialize s bytes alive).path stands
  alive-path s (takes_frame now) alive = next_for_client-path sha256 instant_max s now alive
  alive-path s (polls inbox now) alive = poll-path inbox s now alive
  alive-path s (shuts mode now) alive = shutdown-path instant_max s mode now alive
  alive-path s pulls alive = stands

  step-path : (s : Session) (c : SessionCall) → phase_of s ⟿ phase_of (step s c)
  step-path s c = elim (Bool-cases (is_exited s.lifecycle)) [
    | inr alive ↦ alive-path s c alive
    | inl over ↦ exited-path s c over
  ]

  -- A session refines its specification: whatever lines, polls, events of the workers, deliveries
  -- and shutdowns come, in whatever order, and whatever errors they end in, the session only goes
  -- through phases by the steps of the specification, between which the time only goes on. Only a
  -- session that runs takes a frame of its client, and it exits only once its process is gone and
  -- its streams are drained, or late at the time observed.
  pub run-path : (s : Session) (cs : List SessionCall) → phase_of s ⟿ phase_of (run s cs)
  unfolding run
  run-path s [] = stands
  run-path s (c ∷ cs) = ⟿-trans (step-path s c) (run-path (step s c) cs)
