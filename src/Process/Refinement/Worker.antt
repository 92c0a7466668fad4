-- ===== src/Process/Refinement/Worker.antt =====
-- The events of the workers as steps.
use mathlib.Core.Path.{subst}
use mathlib.Core.List.{append-nil}
use weregopher.Base.{
  false, ◌≤◌, ℕ, zero, suc, ◌≡◌, refl, sym, ap, ◌∙◌, inl, inr, Bool, true, ◌||◌, Option, none, some,
  List, [], ◌∷◌, ◌++◌, arith, Bool-cases, Option-cases, is_some, ok, err, Result-cases, usize_max,
  checked_add,
}
use weregopher.Proxy.Message.{client_to_server, server_to_client, notification, Observation}
use weregopher.Proxy.Json.{Raw}
use weregopher.Proxy.Admit.{Candidate}
use weregopher.Proxy.Prepare.{prepare}
use weregopher.Proxy.Order.{frame_of, taken}
use weregopher.Controls.Policy.{kind_eq}
use weregopher.Process.Limits.{
  stdin_worker, stdout_worker, stderr_worker, process_role, ProcessError, deadline_overflow,
  worker_io, stdout_line_too_large, unterminated_stdout_line, stdout_allocation_failed,
  worker_disconnected, diagnostic_counter_overflow, proxy_error, protocol_failure,
  transport_failure, Progress,
}
use weregopher.Process.State.{
  InitializationState, awaiting_initialize_response, initialize_response_queued, Session,
  is_terminating, is_ready,
}
use weregopher.Process.Initialization.{server_awaited, server_initialization_after}
use weregopher.Process.Worker.{
  Received, received, disconnected, WriterEvent, written, writer_closed, writer_failed, ReaderEvent,
  line, reader_eof, line_too_long, unterminated_line, allocation_failed, reader_failed, StderrEvent,
  stderr_eof, stderr_failed, ProcessEvent, process_exited, process_failed, transport_error,
  count_written, close_writer, consume_writer_events, stderr_event, consume_stderr_event,
  process_event, consume_process_event, end_refused, server_candidate, server_line, read_events,
  consume_reader_events,
}
use weregopher.Process.Phase.{
  Phase, course_of, phase_of, IsAlive, fails_protocol, fails_transport, leave, finish_stdout,
  finish_stderr, ◌⟶◌, respond, ◌⟶*◌, stop, one,
}
use weregopher.Process.Refinement.{
  goes, Reach-trans, if_known-Reach, Reach, stays, Reach-▷, ends, if-Reach, option-Reach,
}
use weregopher.Process.Refinement.Client.{prepare-direction, taken-server, intercept-Reach}

count_written-phase :
    (s : Session) (p : Progress) (bytes : ℕ) → phase_of s ≡ phase_of (count_written s p bytes).0
unfolding count_written
count_written-phase s p bytes = ground arith

transport_error-Reach :
    (s t : Session) (x : ProcessError)
    → IsAlive (course_of s)
    → course_of s ≡ course_of t
    → Reach s (transport_error t x)
transport_error-Reach s t x alive same =
    ends s t transport_failure (err x) fails_transport alive same

-- A stream that has ended, for whatever reason.
ended_stdout-Reach :
    (s : Session) (x : ProcessError)
    → IsAlive (course_of s)
    → Reach s (transport_error (record s { stdout_finished = true }) x)
ended_stdout-Reach s x alive =
    let t = record s { stdout_finished = true } in
    Reach-trans s t (ok tt) _ (goes s t (ok tt) alive finish_stdout)
      (transport_error-Reach t t x alive refl)

pub consume_writer_events-Reach :
    (n : ℕ) (events : List (Received WriterEvent)) (s : Session) (p : Progress)
    → IsAlive (course_of s)
    → Reach s (consume_writer_events n events s p)
unfolding consume_writer_events
consume_writer_events-Reach zero events s p alive = stays s s (ok p) alive refl
consume_writer_events-Reach (suc n) [] s p alive = stays s s (ok p) alive refl
consume_writer_events-Reach (suc n) (received (written bytes) ∷ later) s p alive =
    let r = count_written s p bytes in
    Reach-▷ s r (λ t q. consume_writer_events n later t q)
      (stays s r.0 r.1 alive (count_written-phase s p bytes))
      (λ t q e still. consume_writer_events-Reach n later t q still)
consume_writer_events-Reach (suc n) (received writer_closed ∷ later) s p alive =
    stays s (close_writer s) (ok p) alive refl
consume_writer_events-Reach (suc n) (received (writer_failed kind) ∷ later) s p alive =
    if-Reach s (is_some s.process_exit) _ _ (stays s (close_writer s) (ok p) alive refl)
      (transport_error-Reach s (close_writer s) (worker_io stdin_worker kind) alive refl)
consume_writer_events-Reach (suc n) (disconnected ∷ later) s p alive =
    if-Reach s s.writer_close_requested _ _ (stays s s (ok p) alive refl)
      (transport_error-Reach s s (worker_disconnected stdin_worker) alive refl)

stderr_event-Reach :
    (event : Option (Received StderrEvent)) (s : Session)
    → IsAlive (course_of s)
    → Reach s (stderr_event event s)
stderr_event-Reach none s alive = stays s s (ok tt) alive refl
stderr_event-Reach (some (received stderr_eof)) s alive =
    goes s (record s { stderr_finished = true }) (ok tt) alive finish_stderr
stderr_event-Reach (some (received (stderr_failed kind))) s alive =
    let t = record s { stderr_finished = true } in
    Reach-trans s t (ok tt) _ (goes s t (ok tt) alive finish_stderr)
      (ends t t transport_failure (err (worker_io stderr_worker kind)) fails_transport alive refl)
stderr_event-Reach (some disconnected) s alive =
    let t = record s { stderr_finished = true } in
    Reach-trans s t (ok tt) _ (goes s t (ok tt) alive finish_stderr) (
      ends t t transport_failure (err (worker_disconnected stderr_worker)) fails_transport alive
        refl)

pub consume_stderr_event-Reach :
    (event : Option (Received StderrEvent)) (s : Session)
    → IsAlive (course_of s)
    → Reach s (consume_stderr_event event s)
unfolding consume_stderr_event
consume_stderr_event-Reach event s alive =
    if-Reach s s.stderr_finished _ _ (stays s s (ok tt) alive refl)
      (stderr_event-Reach event s alive)

process_event-Reach :
    (instant_max : ℕ) (event : Option (Received ProcessEvent)) (s : Session) (now : ℕ)
    → IsAlive (course_of s)
    → s.last_observed_time ≤ now
    → is_some s.process_exit ≡ false
    → Reach s (process_event instant_max event s now)
process_event-Reach instant_max none s now alive timely there = stays s s (ok tt) alive refl
process_event-Reach instant_max (some (received (process_exited e))) s now alive timely there =
    let lives : s.process_exit ≡ none = ground (arith, there) in
    elim (Option-cases (checked_add instant_max now s.limits.exit_drain_timeout)) [
      | inl late ↦
          rw (late, process_event)
            (goes s _ (err deadline_overflow) alive (leave e now lives timely))
      | inr (deadline, fits) ↦
          let ahead : s.last_observed_time ≤ deadline = ground (arith, timely, fits) in
          rw (fits, process_event) (goes s _ (ok tt) alive (leave e deadline lives ahead))
    ]
process_event-Reach instant_max (some (received (process_failed kind))) s now alive timely there =
    ends s s transport_failure (err (worker_io process_role kind)) fails_transport alive refl
process_event-Reach instant_max (some disconnected) s now alive timely there =
    ends s s transport_failure (err (worker_disconnected process_role)) fails_transport alive refl

pub consume_process_event-Reach :
    (instant_max : ℕ) (event : Option (Received ProcessEvent)) (s : Session) (now : ℕ)
    → IsAlive (course_of s)
    → s.last_observed_time ≤ now
    → Reach s (consume_process_event instant_max event s now)
unfolding consume_process_event
consume_process_event-Reach instant_max event s now alive timely =
    if_known-Reach s (is_some s.process_exit) _ _ (λ gone. stays s s (ok tt) alive refl)
      (λ there. process_event-Reach instant_max event s now alive timely there)

server_awaited-path :
    (i : InitializationState) (s : Session) (o : Observation) (next : InitializationState)
    → s.initialization ≡ i
    → server_awaited i o ≡ ok next
    → phase_of s ⟶ record (phase_of s) { initialization = next }
server_awaited-path (awaiting_initialize_response id) s o next e found =
    let it : next ≡ initialize_response_queued id = ground (arith, found) in rw it (respond id e)
server_awaited-path _ s o next e found = absurd (ground (arith, found))

server_initialization-path :
    (s : Session) (o : Observation) (next : InitializationState)
    → server_initialization_after s o ≡ ok next
    → phase_of s ⟶* record (phase_of s) { initialization = next }
unfolding server_initialization_after
server_initialization-path s o next e =
    elim (Bool-cases (is_ready s.initialization || is_terminating s.lifecycle)) [
      | inl done ↦
          let same : s.initialization ≡ next = ground (arith, done, e) in
          subst (λ i. phase_of s ⟶* record (phase_of s) { initialization = i }) same stop
      | inr waiting ↦ elim (Bool-cases (kind_eq o.kind notification)) [
        | inl other ↦
            let same : s.initialization ≡ next = ground (arith, waiting, other, e) in
            subst (λ i. phase_of s ⟶* record (phase_of s) { initialization = i }) same stop
        | inr answers ↦ one (
            server_awaited-path s.initialization s o next refl
              (ground (arith, waiting, answers, e)))
      ]
    ]

module _ (deserialize : List ℕ → Raw × Bool) (sha256 : List ℕ → List ℕ) where
  server_candidate-Reach :
      (s : Session) (c : Candidate)
      → IsAlive (course_of s)
      → c.observation.direction ≡ server_to_client
      → Reach s (server_candidate deserialize sha256 s c)
  unfolding server_candidate
  server_candidate-Reach s c alive from =
      elim (Result-cases (server_initialization_after s c.observation)) [
        | inr (x, bad) ↦
            rw (bad, server_candidate) (ends s s protocol_failure (err x) fails_protocol alive refl)
        | inl (next, good) ↦
            let fs = (s.proxy.to_server).frames in
            let none_entered : fs ++ taken client_to_server c.observation.direction (frame_of c)
                ≡ fs =
              ap (◌++◌ fs) (taken-server c.observation.direction (frame_of c) from)
              ∙ append-nil fs in
            rw (good, server_candidate)
              (intercept-Reach sha256 end_refused s c next
                (λ a b x still same.
                  ends a b protocol_failure (err x) fails_protocol still
                    (ap (λ (q : Phase). q.course) same))
                alive
                (subst
                  (λ gs. phase_of s ⟶* record (phase_of s) { initialization = next; waiting = gs })
                  (sym none_entered) (server_initialization-path s c.observation next good)))
      ]

  server_line-Reach :
      (s : Session) (p : Progress) (bytes : List ℕ)
      → IsAlive (course_of s)
      → Reach s (server_line deserialize sha256 s p bytes)
  unfolding server_line
  server_line-Reach s p bytes alive =
      elim (Result-cases (prepare deserialize s.proxy server_to_client bytes)) [
        | inr (x, bad) ↦
            rw (bad, server_line)
              (ends s s protocol_failure (err (proxy_error x)) fails_protocol alive refl)
        | inl (c, good) ↦
            let from = prepare-direction deserialize s.proxy server_to_client bytes c good in
            rw (good, server_line)
              (Reach-▷ s (server_candidate deserialize sha256 s c) _
                (server_candidate-Reach s c alive from)
                (λ t o e still.
                  option-Reach t (checked_add usize_max p.server_messages 1)
                    (t, err diagnostic_counter_overflow)
                    (λ n. (t, ok (record p { server_messages = n })))
                    (stays t t (err diagnostic_counter_overflow) still refl)
                    (λ n. stays t t (ok (record p { server_messages = n })) still refl)))
      ]

  module _ (instant_max : ℕ) where
    read_events-Reach :
        (n : ℕ) (events : List (Received ReaderEvent)) (s : Session) (now : ℕ) (p : Progress)
        → IsAlive (course_of s)
        → Reach s (read_events deserialize sha256 instant_max n events s now p)
    unfolding read_events
    read_events-Reach zero events s now p alive = stays s s (ok p) alive refl
    read_events-Reach (suc n) [] s now p alive = stays s s (ok p) alive refl
    read_events-Reach (suc n) (received (line bytes) ∷ later) s now p alive =
        Reach-▷ s (server_line deserialize sha256 s p bytes)
          (λ t q. read_events deserialize sha256 instant_max n later t now q)
          (server_line-Reach s p bytes alive)
          (λ t q e still. read_events-Reach n later t now q still)
    read_events-Reach (suc n) (received reader_eof ∷ later) s now p alive =
        let ended = record s { stdout_finished = true } in
        option-Reach s (checked_add instant_max now s.limits.exit_drain_timeout)
          (transport_error ended deadline_overflow)
          (λ d. (record ended { stdout_without_exit_deadline = some d }, ok p))
          (ended_stdout-Reach s deadline_overflow alive)
          (λ d.
            goes s (record ended { stdout_without_exit_deadline = some d }) (ok p) alive
              finish_stdout)
    read_events-Reach (suc n) (received line_too_long ∷ later) s now p alive =
        ended_stdout-Reach s stdout_line_too_large alive
    read_events-Reach (suc n) (received unterminated_line ∷ later) s now p alive =
        ended_stdout-Reach s unterminated_stdout_line alive
    read_events-Reach (suc n) (received allocation_failed ∷ later) s now p alive =
        ended_stdout-Reach s stdout_allocation_failed alive
    read_events-Reach (suc n) (received (reader_failed kind) ∷ later) s now p alive =
        ended_stdout-Reach s (worker_io stdout_worker kind) alive
    read_events-Reach (suc n) (disconnected ∷ later) s now p alive =
        if-Reach s s.stdout_finished _ _ (stays s s (ok p) alive refl)
          (ended_stdout-Reach s (worker_disconnected stdout_worker) alive)

    pub consume_reader_events-Reach :
        (events : List (Received ReaderEvent)) (s : Session) (now : ℕ) (p : Progress)
        → IsAlive (course_of s)
        → Reach s (consume_reader_events deserialize sha256 instant_max events s now p)
    unfolding consume_reader_events
    consume_reader_events-Reach events s now p alive =
        if-Reach s s.stdout_finished _ _ (stays s s (ok p) alive refl)
          (read_events-Reach s.limits.poll_events events s now p alive)
