-- ===== src/Process/Refinement/Poll.antt =====
-- A poll as steps.
use mathlib.Core.Path.{subst}
use weregopher.Base.{
  ℕ, ◌≡◌, refl, sym, ap, ◌⊎◌, inl, inr, Bool, true, false, ◌&&◌, ◌||◌, not, List, [], ◌∷◌, arith,
  leb, ◌==◌, if◌then◌else◌, Bool-cases, Option-cases, is_some, length, List-cases, ok, err,
  Result-cases, ◌≤◌, some,
}
use weregopher.Proxy.Message.{client_to_server}
use weregopher.Proxy.Json.{Raw}
use weregopher.Proxy.Expire.{ExpiredRequest, expire_requests}
use weregopher.Proxy.State.{queue}
use weregopher.Proxy.Order.{expire_requests-frames}
use weregopher.Controls.Journal.{record_expired}
use weregopher.Process.Limits.{
  stdin_worker, stdout_closed_before_exit, worker_disconnected, control_error, proxy_error,
  ProcessOutcome, forced_shutdown, initialization_timed_out, runtime_timed_out, transport_failure,
  request_timed_out, observation_failure, ProcessExit, Progress, no_progress,
}
use weregopher.Process.State.{
  LifecycleState, graceful_shutdown, Session, Step, ◌▷◌, is_running, is_terminating, is_ready,
  begin_termination,
}
use weregopher.Process.Dispatch.{Sending, sent, channel_full, channel_disconnected}
use weregopher.Process.Poll.{
  Inbox, has_passed, advance_stream_closure, record_all_expired, end_expired, expire_session,
  request_close, drain_writer, shutdown_at, advance_shutdown, advance_deadlines, natural_outcome,
  is_clean, finish, finish_process_exit, poll_workers,
}
use weregopher.Process.Phase.{
  course_of, phase_of, IsAlive, fails_forced, fails_initialization, fails_runtime, fails_transport,
  fails_request, fails_observation, close_pipe, exit, IsDrained, IsLate, ◌⟶*◌, stop, one,
}
use weregopher.Process.Refinement.{
  Reach, stays, goes, Reach-trans, Reach-▷, ends, if-Reach, if_known-Reach,
}
use weregopher.Process.Refinement.Worker.{
  consume_writer_events-Reach, consume_stderr_event-Reach, consume_process_event-Reach,
  consume_reader_events-Reach,
}
use weregopher.Process.Refinement.Dispatch.{dispatch_client_frames-Reach}

advance_stream_closure-Reach :
    (s : Session) (now : ℕ) → IsAlive (course_of s) → Reach s (advance_stream_closure s now)
unfolding advance_stream_closure
advance_stream_closure-Reach s now alive =
    if-Reach s _ (begin_termination s transport_failure, err stdout_closed_before_exit) (s, ok tt)
      (ends s s transport_failure (err stdout_closed_before_exit) fails_transport alive refl)
      (stays s s (ok tt) alive refl)

module _ (sha256 : List ℕ → List ℕ) where
  record_all_expired-Reach :
      (s : Session) (es : List ExpiredRequest)
      → IsAlive (course_of s)
      → Reach s (record_all_expired sha256 s es)
  unfolding record_all_expired
  record_all_expired-Reach s [] alive = stays s s (ok tt) alive refl
  record_all_expired-Reach s (e ∷ es) alive =
      let r = record_expired sha256 s.events e in
      let t = record s { events = r.0 } in
      elim (Result-cases r.1) [
        | inr (x, bad) ↦
            rw (bad, record_all_expired)
              (ends s t observation_failure (err (control_error x)) fails_observation alive refl)
        | inl (u, good) ↦
            let began : Reach {A = Unit {0}} s (t, ok tt) = stays s t (ok tt) alive refl in
            rw (good, record_all_expired)
              (Reach-trans s t (ok tt) _ began (record_all_expired-Reach t es alive))
      ]

  end_expired-Reach :
      {A : Type 0} (es : List ExpiredRequest) (s : Session) (a : A)
      → IsAlive (course_of s)
      → Reach {A = A} s (end_expired sha256 es s, ok a)
  end_expired-Reach [] s a alive = stays s s (ok a) alive refl
  end_expired-Reach (e ∷ es) s a alive = ends s s request_timed_out (ok a) fails_request alive refl

  expire_session-Reach :
      (s : Session) (now : ℕ) (p : Progress)
      → IsAlive (course_of s)
      → Reach s (expire_session sha256 s now p)
  unfolding expire_session queue
  expire_session-Reach s now p alive =
      let r = expire_requests sha256 s.proxy now in
      let t = record s { proxy = r.0 } in
      let same : phase_of s ≡ phase_of t =
        ap (λ fs. record (phase_of s) { waiting = fs })
          (sym (expire_requests-frames sha256 s.proxy now client_to_server)) in
      elim (Bool-cases (is_some s.process_exit || is_terminating s.lifecycle)) [
        | inl over ↦
            rw (over, expire_session)
              (stays s s (ok (record p { expired_requests = 0 })) alive refl)
        | inr live ↦ elim (Result-cases r.1) [
          | inr (x, bad) ↦
              rw (live, bad, expire_session) (stays s t (err (proxy_error x)) alive same)
          | inl (es, good) ↦
              let began : Reach {A = Unit {0}} s (t, ok tt) = stays s t (ok tt) alive same in
              rw (live, good, expire_session)
                (Reach-trans s t (ok tt) _ began (
                  Reach-▷ t (record_all_expired sha256 t es) _ (record_all_expired-Reach t es alive)
                    (λ u v e still. end_expired-Reach es u _ still)))
        ]
      ]

request_close-Reach :
    (closing : Sending) (s : Session)
    → IsAlive (course_of s)
    → (s.proxy.to_server).frames ≡ []
    → Reach s (request_close closing s)
request_close-Reach sent s alive idle = goes s _ (ok tt) alive (close_pipe idle)
request_close-Reach channel_full s alive idle = stays s s (ok tt) alive refl
request_close-Reach channel_disconnected s alive idle =
    ends s (record s { writer_tx = false }) transport_failure
      (err (worker_disconnected stdin_worker)) fails_transport alive refl

drain_writer-Reach :
    (closing : Sending) (s : Session) → IsAlive (course_of s) → Reach s (drain_writer closing s)
drain_writer-Reach closing s alive =
    let fs = (s.proxy.to_server).frames in
    if_known-Reach s (length fs == 0 && s.writer_outstanding == 0 && not s.writer_close_requested) _
      (s, ok tt)
      (λ idle.
        if-Reach s s.writer_tx (request_close closing s)
          (begin_termination s transport_failure, err (worker_disconnected stdin_worker))
          (request_close-Reach closing s alive (elim (List-cases fs) [
            | inl none_left ↦ none_left
            | inr (f, rest, some_left) ↦ absurd (ground (arith, some_left, idle))
          ]))
          (ends s s transport_failure (err (worker_disconnected stdin_worker)) fails_transport alive
            refl))
      (λ busy. stays s s (ok tt) alive refl)

shutdown_at-Reach :
    (phase : LifecycleState) (closing : Sending) (s : Session) (now : ℕ)
    → IsAlive (course_of s)
    → Reach s (shutdown_at phase closing s now)
shutdown_at-Reach (graceful_shutdown deadline) closing s now alive =
    if-Reach s (is_some s.process_exit) (s, ok tt) _ (stays s s (ok tt) alive refl)
      (if-Reach s (leb deadline now) (begin_termination s forced_shutdown, ok tt) _
        (ends s s forced_shutdown (ok tt) fails_forced alive refl)
        (drain_writer-Reach closing s alive))
shutdown_at-Reach _ closing s now alive = stays s s (ok tt) alive refl

advance_shutdown-Reach :
    (closing : Sending) (s : Session) (now : ℕ)
    → IsAlive (course_of s)
    → Reach s (advance_shutdown closing s now)
unfolding advance_shutdown
advance_shutdown-Reach closing s now alive = shutdown_at-Reach s.lifecycle closing s now alive

-- A step without a result, whose caller carries a value on.
carry-Reach :
    {A : Type 0} (s : Session) (r : Step (Unit {0})) (a : A)
    → Reach s r
    → Reach {A = A} s (r ▷ λ t unit. (t, ok a))
carry-Reach s r a first = Reach-▷ s r _ first (λ t u e still. stays t t (ok a) still refl)

module _ (deserialize : List ℕ → Raw × Bool) (sha256 : List ℕ → List ℕ) (instant_max : ℕ) where
  pub poll_workers-Reach :
      (inbox : Inbox) (s : Session) (now : ℕ)
      → IsAlive (course_of s)
      → s.last_observed_time ≤ now
      → Reach s (poll_workers deserialize sha256 instant_max inbox s now)
  unfolding poll_workers
  poll_workers-Reach inbox s now alive timely =
      Reach-▷ s _ _
        (Reach-▷ s _ _
          (Reach-▷ s _ _
            (Reach-▷ s _ _
              (Reach-▷ s _ _
                (Reach-▷ s _ _
                  (Reach-▷ s _ _
                    (consume_process_event-Reach instant_max inbox.process s now alive timely)
                    (λ t a e still.
                      consume_writer_events-Reach t.limits.poll_events inbox.writer t no_progress
                        still))
                  (λ t a e still.
                    carry-Reach t _ a (consume_stderr_event-Reach inbox.stderr t still)))
                (λ t a e still.
                  consume_reader_events-Reach deserialize sha256 instant_max inbox.reader t now a
                    still))
              (λ t a e still. carry-Reach t _ a (advance_stream_closure-Reach t now still)))
            (λ t a e still. expire_session-Reach sha256 t now a still))
          (λ t a e still.
            dispatch_client_frames-Reach sha256 instant_max inbox.sendings t now a still))
        (λ t a e still. carry-Reach t _ a (advance_shutdown-Reach inbox.closing t now still))

pub advance_deadlines-Reach :
    (s : Session) (now : ℕ) (p : Progress)
    → IsAlive (course_of s)
    → Reach s (advance_deadlines s now, ok p)
unfolding advance_deadlines
advance_deadlines-Reach s now p alive =
    elim (Bool-cases (not (is_running s.lifecycle) || is_some s.process_exit)) [
      | inl over ↦ rw (over, advance_deadlines) (stays s s (ok p) alive refl)
      | inr live ↦
          elim (Bool-cases (not (is_ready s.initialization) && leb s.initialization_deadline now)) [
            | inl late ↦
                rw (live, late, advance_deadlines)
                  (ends s s initialization_timed_out (ok p) fails_initialization alive refl)
            | inr timely ↦ elim (Bool-cases (leb s.runtime_deadline now)) [
              | inl out ↦
                  rw (live, timely, out, advance_deadlines)
                    (ends s s runtime_timed_out (ok p) fails_runtime alive refl)
              | inr in_time ↦
                  rw (live, timely, in_time, advance_deadlines) (stays s s (ok p) alive refl)
            ]
          ]
    ]

-- A clean end whose streams were not drained is reported as a failure of the transport.
reported_cases :
    (drained : Bool) (outcome : ProcessOutcome)
    → ((if not drained && is_clean outcome then transport_failure else outcome) ≡ outcome)
      ⊎ ((if not drained && is_clean outcome then transport_failure else outcome)
          ≡ transport_failure)
        × (drained ≡ false)
        × (is_clean outcome ≡ true)
reported_cases true outcome = inl refl
reported_cases false outcome = elim (Bool-cases (is_clean outcome)) [
  | inl clean ↦ inr (rw clean refl, refl, clean)
  | inr failed ↦ inl (rw failed refl)
]

IsDrained-or_IsLate :
    (s : Session) (now : ℕ)
    → s.last_observed_time ≡ now
    → (not (s.stdout_finished && s.stderr_finished) && not (has_passed now s.process_exit_deadline))
      ≡ false
    → IsDrained (course_of s) ⊎ IsLate (course_of s)
IsDrained-or_IsLate s now at over = elim (Bool-cases (s.stdout_finished && s.stderr_finished)) [
  | inl drained ↦ inl (ground (arith, drained), ground (arith, drained))
  | inr held ↦ elim (Option-cases s.process_exit_deadline) [
    | inl unset ↦ absurd (ground (arith, held, unset, over))
    | inr (deadline, set) ↦
        let late : (not false && not (has_passed now (some deadline))) ≡ false =
          rw (held, set) at over in
        inr (record { deadline = deadline; set = set; passed = ground (arith, late, at) })
  ]
]

finish-path :
    (s : Session) (e : ProcessExit) (drained : Bool) (inbox : Inbox)
    → IsAlive (course_of s)
    → s.process_exit ≡ some e
    → IsDrained (course_of s) ⊎ IsLate (course_of s)
    → drained ≡ (s.stdout_finished && s.stderr_finished)
    → phase_of s ⟶* phase_of (finish s e drained inbox)
unfolding finish queue
finish-path s e drained inbox alive gone over told = one (
    exit _ e alive gone over told
      (reported_cases drained (natural_outcome s.requested_outcome s.lifecycle e)))

pub finish_process_exit-path :
    (s : Session) (now : ℕ) (inbox : Inbox)
    → IsAlive (course_of s)
    → s.last_observed_time ≡ now
    → phase_of s ⟶* phase_of (finish_process_exit s now inbox)
unfolding finish_process_exit
finish_process_exit-path s now inbox alive at = elim (Option-cases s.process_exit) [
  | inl lives ↦
      let same : finish_process_exit s now inbox ≡ s = simp (lives, finish_process_exit) in
      subst (λ (t : Session). phase_of s ⟶* phase_of t) (sym same) stop
  | inr (e, gone) ↦
      let drained = s.stdout_finished && s.stderr_finished in
      elim (Bool-cases (not drained && not (has_passed now s.process_exit_deadline))) [
        | inl open_still ↦
            let same : finish_process_exit s now inbox ≡ s =
              simp (gone, open_still, finish_process_exit) in
            subst (λ (t : Session). phase_of s ⟶* phase_of t) (sym same) stop
        | inr over ↦
            let same : finish_process_exit s now inbox ≡ finish s e drained inbox =
              simp (gone, over, finish_process_exit) in
            subst (λ (t : Session). phase_of s ⟶* phase_of t) (sym same)
              (finish-path s e drained inbox alive gone (IsDrained-or_IsLate s now at over) refl)
      ]
]
