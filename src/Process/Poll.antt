-- ===== src/Process/Poll.antt =====
-- One poll, from the workers' events to the end of the process.
use weregopher.Base.{
  ℕ, Bool, true, false, ◌&&◌, ◌||◌, not, Option, none, some, List, [], ◌∷◌, leb, ◌==◌,
  if◌then◌else◌, is_some, length, ok, err,
}
use weregopher.Proxy.Json.{Raw}
use weregopher.Proxy.State.{close}
use weregopher.Proxy.Expire.{ExpiredRequest, expire_requests}
use weregopher.Controls.Journal.{record_expired, clear_correlations}
use weregopher.Process.Limits.{
  stdin_worker, stdout_closed_before_exit, worker_disconnected, control_error, proxy_error,
  ProcessOutcome, clean_shutdown, forced_shutdown, unexpected_exit, crash, initialization_timed_out,
  runtime_timed_out, transport_failure, request_timed_out, observation_failure, ProcessExit,
  Progress, no_progress,
}
use weregopher.Process.State.{
  awaiting_initialize, LifecycleState, running, graceful_shutdown, exited, close_command, Session,
  Step, ◌▷◌, is_running, is_terminating, is_exited, is_ready, begin_termination, ensure_monotonic,
}
use weregopher.Process.Worker.{
  Received, WriterEvent, ReaderEvent, StderrEvent, ProcessEvent, consume_writer_events,
  consume_stderr_event, consume_process_event, consume_reader_events,
}
use weregopher.Process.Dispatch.{
  Sending, sent, channel_full, channel_disconnected, took, dispatch_client_frames,
}

-- What the channels and the shared counters hold when a poll looks at them.
pub record Inbox : Type 0 where
  pub process : Option (Received ProcessEvent)
  pub writer : List (Received WriterEvent)
  pub stderr : Option (Received StderrEvent)
  pub reader : List (Received ReaderEvent)
  pub sendings : ℕ → Sending
  pub closing : Sending
  pub stdout_bytes : ℕ
  pub stderr_bytes : ℕ

abbrev pub has_passed : ℕ → Option ℕ → Bool
has_passed now none = false
has_passed now (some deadline) = leb deadline now

abbrev is_open : LifecycleState → Bool
is_open running = true
is_open (graceful_shutdown deadline) = true
is_open _ = false

unfoldable pub advance_stream_closure : Session → ℕ → Step (Unit {0})
unfolding begin_termination
advance_stream_closure self now =
    if not (is_some self.process_exit)
      && is_open self.lifecycle
      && has_passed now self.stdout_without_exit_deadline
    then (begin_termination self transport_failure, err stdout_closed_before_exit)
    else (self, ok tt)

module _ (sha256 : List ℕ → List ℕ) where
  -- The loop that records each expired request.
  unfoldable pub record_all_expired : Session → List ExpiredRequest → Step (Unit {0})
  unfolding begin_termination
  record_all_expired self [] = (self, ok tt)
  record_all_expired self (e ∷ es) =
      let (events, result) = record_expired sha256 self.events e in
      let observed = record self { events = events } in
      let rest = record_all_expired observed es in
      elim result [
        | err x ↦ (begin_termination observed observation_failure, err (control_error x))
        | ok _ ↦ rest
      ]

  abbrev pub end_expired : List ExpiredRequest → Session → Session
  end_expired [] self = self
  end_expired (e ∷ es) self = begin_termination self request_timed_out

  unfoldable pub expire_session : Session → ℕ → Progress → Step Progress
  unfolding expire_requests record_all_expired begin_termination
  expire_session self now progress =
      if is_some self.process_exit || is_terminating self.lifecycle
      then (self, ok (record progress { expired_requests = 0 }))
      else let (proxy, result) = expire_requests sha256 self.proxy now in
        let after = record self { proxy = proxy } in
        elim result [
          | err x ↦ (after, err (proxy_error x))
          | ok expired ↦ record_all_expired after expired ▷ λ s unit.
              (end_expired expired s, ok (record progress { expired_requests = length expired }))
        ]

abbrev pub request_close : Sending → Session → Step (Unit {0})
request_close sent self =
    (record (took self close_command) { writer_tx = false; writer_close_requested = true }, ok tt)
request_close channel_full self = (self, ok tt)
request_close channel_disconnected self = (
  begin_termination (record self { writer_tx = false }) transport_failure,
  err (worker_disconnected stdin_worker),
)

-- Once nothing waits for the writer, its channel is asked to close.
abbrev pub drain_writer : Sending → Session → Step (Unit {0})
drain_writer closing self =
    if length (self.proxy.to_server).frames == 0
      && self.writer_outstanding == 0
      && not self.writer_close_requested
    then if self.writer_tx
      then request_close closing self
      else (begin_termination self transport_failure, err (worker_disconnected stdin_worker))
    else (self, ok tt)

abbrev pub shutdown_at : LifecycleState → Sending → Session → ℕ → Step (Unit {0})
shutdown_at (graceful_shutdown deadline) closing self now =
    if is_some self.process_exit
    then (self, ok tt)
    else if leb deadline now
    then (begin_termination self forced_shutdown, ok tt)
    else drain_writer closing self
shutdown_at _ closing self now = (self, ok tt)

unfoldable pub advance_shutdown : Sending → Session → ℕ → Step (Unit {0})
unfolding begin_termination
advance_shutdown closing self now = shutdown_at self.lifecycle closing self now

unfoldable pub advance_deadlines : Session → ℕ → Session
unfolding begin_termination
advance_deadlines self now =
    if not (is_running self.lifecycle) || is_some self.process_exit
    then self
    else if not (is_ready self.initialization) && leb self.initialization_deadline now
    then begin_termination self initialization_timed_out
    else if leb self.runtime_deadline now
    then begin_termination self runtime_timed_out
    else self

abbrev pub is_graceful : LifecycleState → Bool
is_graceful (graceful_shutdown deadline) = true
is_graceful _ = false

abbrev pub natural_outcome : Option ProcessOutcome → LifecycleState → ProcessExit → ProcessOutcome
natural_outcome (some outcome) lifecycle exit = outcome
natural_outcome none lifecycle exit =
    if is_graceful lifecycle && exit.success
    then clean_shutdown
    else if exit.success
    then unexpected_exit
    else crash

abbrev pub is_clean : ProcessOutcome → Bool
is_clean clean_shutdown = true
is_clean unexpected_exit = true
is_clean _ = false

unfoldable pub finish : Session → ProcessExit → Bool → Inbox → Session
unfolding close clear_correlations
finish self exit drained inbox =
    let outcome = natural_outcome self.requested_outcome self.lifecycle exit in
    let (proxy, closed) = close self.proxy in
    record self {
      proxy = proxy;
      events = clear_correlations self.events;
      initialization = awaiting_initialize;
      exit_report = some (record {
        outcome = if not drained && is_clean outcome then transport_failure else outcome;
        exit_code = exit.code;
        initialized = is_ready self.initialization;
        stdout_bytes = inbox.stdout_bytes;
        stderr_bytes = inbox.stderr_bytes;
        streams_drained = drained;
        abandoned_writer_frames = self.writer_outstanding;
        proxy_close = closed;
      });
      lifecycle = exited;
      writer_tx = false;
      process_tx = false;
    }

unfoldable pub finish_process_exit : Session → ℕ → Inbox → Session
unfolding finish
finish_process_exit self now inbox = elim self.process_exit [
  | none ↦ self
  | some exit ↦
      let drained = self.stdout_finished && self.stderr_finished in
      if not drained && not (has_passed now self.process_exit_deadline)
      then self
      else finish self exit drained inbox
]

module _ (deserialize : List ℕ → Raw × Bool) (sha256 : List ℕ → List ℕ) (instant_max : ℕ) where
  -- The parts of a poll that may fail, in their order.
  unfoldable pub poll_workers : Inbox → Session → ℕ → Step Progress
  unfolding consume_process_event consume_writer_events consume_stderr_event consume_reader_events
      advance_stream_closure expire_session dispatch_client_frames advance_shutdown
  poll_workers inbox self now =
      consume_process_event instant_max inbox.process self now
      ▷ (λ s unit. consume_writer_events s.limits.poll_events inbox.writer s no_progress)
      ▷ (λ s p. consume_stderr_event inbox.stderr s ▷ λ t unit. (t, ok p))
      ▷ (λ s p. consume_reader_events deserialize sha256 instant_max inbox.reader s now p)
      ▷ (λ s p. advance_stream_closure s now ▷ λ t unit. (t, ok p))
      ▷ (λ s p. expire_session sha256 s now p)
      ▷ (λ s p. dispatch_client_frames sha256 instant_max inbox.sendings s now p)
      ▷ (λ s p. advance_shutdown inbox.closing s now ▷ λ t unit. (t, ok p))

  unfoldable pub poll : Inbox → Session → ℕ → Step Progress
  unfolding ensure_monotonic poll_workers advance_deadlines finish_process_exit
  poll inbox self now = elim (ensure_monotonic self now) [
    | err x ↦ (self, err x)
    | ok _ ↦
        let observed = record self { last_observed_time = now } in
        if is_exited self.lifecycle
        then (observed, ok no_progress)
        else poll_workers inbox observed now ▷ λ s p.
            (finish_process_exit (advance_deadlines s now) now inbox, ok p)
  ]
