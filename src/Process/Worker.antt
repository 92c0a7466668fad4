-- ===== src/Process/Worker.antt =====
-- What a poll takes from its workers: their events, one after another, until a channel is empty.
use weregopher.Base.{
  ℕ, zero, suc, Bool, true, Option, none, some, List, [], ◌∷◌, if◌then◌else◌, is_some, ok, err,
  u64_max, usize_max, checked_add, checked_sub,
}
use weregopher.Proxy.Message.{server_to_client, Observation}
use weregopher.Proxy.Admit.{Candidate}
use weregopher.Proxy.Prepare.{prepare}
use weregopher.Proxy.Json.{Raw}
use weregopher.Process.Limits.{
  stdin_worker, stdout_worker, stderr_worker, process_role, ProcessError, deadline_overflow,
  worker_io, stdout_line_too_large, unterminated_stdout_line, stdout_allocation_failed,
  worker_disconnected, diagnostic_counter_overflow, proxy_error, protocol_failure,
  transport_failure, ProcessExit, Progress,
}
use weregopher.Process.State.{Session, Step, ◌▷◌, begin_termination}
use weregopher.Process.Initialization.{server_initialization_after}
use weregopher.Process.Client.{intercept}

-- `try_recv`; an empty channel is the end of a list, or `nothing`.
pub data Received (A : Type 0) : Type 0 where
  received : A → Received A
  disconnected : Received A

pub data WriterEvent : Type 0 where
  written : ℕ → WriterEvent
  writer_closed : WriterEvent
  writer_failed : ℕ → WriterEvent

pub data ReaderEvent : Type 0 where
  line : List ℕ → ReaderEvent
  reader_eof line_too_long unterminated_line allocation_failed : ReaderEvent
  reader_failed : ℕ → ReaderEvent

pub data StderrEvent : Type 0 where
  stderr_eof : StderrEvent
  stderr_failed : ℕ → StderrEvent

pub data ProcessEvent : Type 0 where
  process_exited : ProcessExit → ProcessEvent
  process_failed : ℕ → ProcessEvent

abbrev pub transport_error : Session → ProcessError → Step Progress
transport_error self x = (begin_termination self transport_failure, err x)

-- A counter is written before the next one is checked.
unfoldable pub count_written : Session → Progress → ℕ → Step Progress
count_written self progress bytes =
    let overflow : ProcessError = diagnostic_counter_overflow in
    elim (checked_sub self.writer_outstanding 1) [
      | none ↦ (self, err overflow)
      | some outstanding ↦
          let fewer = record self { writer_outstanding = outstanding } in
          elim (checked_add u64_max self.written_client_frames 1) [
            | none ↦ (fewer, err overflow)
            | some frames ↦
                let counted = record fewer { written_client_frames = frames } in
                elim (checked_add u64_max self.written_client_bytes bytes) [
                  | none ↦ (counted, err overflow)
                  | some total ↦
                      let whole = record counted { written_client_bytes = total } in
                      elim (checked_add usize_max progress.written_client_frames 1) [
                        | none ↦ (whole, err overflow)
                        | some n ↦ (whole, ok (record progress { written_client_frames = n }))
                      ]
                ]
          ]
    ]

abbrev pub close_writer : Session → Session
close_writer self = record self { writer_close_requested = true }

-- The loop over at most so many events.
unfoldable pub consume_writer_events :
    ℕ → List (Received WriterEvent) → Session → Progress → Step Progress
unfolding count_written begin_termination
consume_writer_events zero _ self progress = (self, ok progress)
consume_writer_events (suc n) [] self progress = (self, ok progress)
consume_writer_events (suc n) (received (written bytes) ∷ more) self progress =
    count_written self progress bytes ▷ λ s p. consume_writer_events n more s p
consume_writer_events (suc n) (received writer_closed ∷ more) self progress =
    (close_writer self, ok progress)
consume_writer_events (suc n) (received (writer_failed kind) ∷ more) self progress =
    if is_some self.process_exit
    then (close_writer self, ok progress)
    else transport_error (close_writer self) (worker_io stdin_worker kind)
consume_writer_events (suc n) (disconnected ∷ more) self progress =
    if self.writer_close_requested
    then (self, ok progress)
    else transport_error self (worker_disconnected stdin_worker)

abbrev pub stderr_event : Option (Received StderrEvent) → Session → Step (Unit {0})
stderr_event none self = (self, ok tt)
stderr_event (some (received stderr_eof)) self = (record self { stderr_finished = true }, ok tt)
stderr_event (some (received (stderr_failed kind))) self = (
  begin_termination (record self { stderr_finished = true }) transport_failure,
  err (worker_io stderr_worker kind),
)
stderr_event (some disconnected) self = (
  begin_termination (record self { stderr_finished = true }) transport_failure,
  err (worker_disconnected stderr_worker),
)

unfoldable pub consume_stderr_event : Option (Received StderrEvent) → Session → Step (Unit {0})
unfolding begin_termination
consume_stderr_event event self =
    if self.stderr_finished then (self, ok tt) else stderr_event event self

abbrev pub process_event : ℕ → Option (Received ProcessEvent) → Session → ℕ → Step (Unit {0})
process_event instant_max none self now = (self, ok tt)
process_event instant_max (some (received (process_exited exit))) self now =
    let gone = record self { process_exit = some exit; stdout_without_exit_deadline = none } in
    elim (checked_add instant_max now self.limits.exit_drain_timeout) [
      | some deadline ↦ (record gone { process_exit_deadline = some deadline }, ok tt)
      | none ↦ (record gone { process_exit_deadline = some now }, err deadline_overflow)
    ]
process_event instant_max (some (received (process_failed kind))) self now =
    (begin_termination self transport_failure, err (worker_io process_role kind))
process_event instant_max (some disconnected) self now =
    (begin_termination self transport_failure, err (worker_disconnected process_role))

unfoldable pub consume_process_event :
    ℕ → Option (Received ProcessEvent) → Session → ℕ → Step (Unit {0})
unfolding begin_termination
consume_process_event instant_max event self now =
    if is_some self.process_exit then (self, ok tt) else process_event instant_max event self now

-- A refusal of the proxy ends a server's session.
abbrev pub end_refused : Session → Session
end_refused self = begin_termination self protocol_failure

module _ (deserialize : List ℕ → Raw × Bool) (sha256 : List ℕ → List ℕ) where
  unfoldable pub server_candidate : Session → Candidate → Step Observation
  unfolding server_initialization_after begin_termination intercept
  server_candidate self candidate = elim (server_initialization_after self candidate.observation) [
    | err x ↦ (begin_termination self protocol_failure, err x)
    | ok next ↦ intercept sha256 end_refused self candidate next
  ]

  unfoldable pub server_line : Session → Progress → List ℕ → Step Progress
  unfolding prepare server_candidate begin_termination
  server_line self progress bytes = elim (prepare deserialize self.proxy server_to_client bytes) [
    | err x ↦ (begin_termination self protocol_failure, err (proxy_error x))
    | ok candidate ↦ server_candidate self candidate ▷ λ admitted o.
        elim (checked_add usize_max progress.server_messages 1) [
          | none ↦ (admitted, err diagnostic_counter_overflow)
          | some n ↦ (admitted, ok (record progress { server_messages = n }))
        ]
  ]

  abbrev pub reader_ended : Session → ProcessError → Step Progress
  reader_ended self x = transport_error (record self { stdout_finished = true }) x

  module _ (instant_max : ℕ) where
    unfoldable pub read_events :
        ℕ → List (Received ReaderEvent) → Session → ℕ → Progress → Step Progress
    unfolding server_line begin_termination
    read_events zero _ self now progress = (self, ok progress)
    read_events (suc n) [] self now progress = (self, ok progress)
    read_events (suc n) (received (line bytes) ∷ more) self now progress =
        server_line self progress bytes ▷ λ s p. read_events n more s now p
    read_events (suc n) (received reader_eof ∷ more) self now progress =
        let ended = record self { stdout_finished = true } in
        elim (checked_add instant_max now self.limits.exit_drain_timeout) [
          | none ↦ transport_error ended deadline_overflow
          | some deadline ↦
              (record ended { stdout_without_exit_deadline = some deadline }, ok progress)
        ]
    read_events (suc n) (received line_too_long ∷ more) self now progress =
        reader_ended self stdout_line_too_large
    read_events (suc n) (received unterminated_line ∷ more) self now progress =
        reader_ended self unterminated_stdout_line
    read_events (suc n) (received allocation_failed ∷ more) self now progress =
        reader_ended self stdout_allocation_failed
    read_events (suc n) (received (reader_failed kind) ∷ more) self now progress =
        reader_ended self (worker_io stdout_worker kind)
    read_events (suc n) (disconnected ∷ more) self now progress =
        if self.stdout_finished
        then (self, ok progress)
        else reader_ended self (worker_disconnected stdout_worker)

    unfoldable pub consume_reader_events :
        List (Received ReaderEvent) → Session → ℕ → Progress → Step Progress
    unfolding read_events
    consume_reader_events events self now progress =
        if self.stdout_finished
        then (self, ok progress)
        else read_events self.limits.poll_events events self now progress
