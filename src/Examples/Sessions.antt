-- ===== src/Examples/Sessions.antt =====
-- A session of a process: its `initialize` request, its first frame, and a forced shutdown.
use weregopher.Proxy.Limits as Limits
use weregopher.Proxy.State as Proxy
use weregopher.Proxy.Queue as Queue
use weregopher.Controls.Journal as Journal
use weregopher.Base.{
  ℕ, ◌+◌, ◌≡◌, refl, Bool, true, false, none, some, List, [], ◌∷◌, ◌++◌, arith, Result, ok,
  to_le_bytes, bytes_eq,
}
use weregopher.Base.Maps.{remove, modify}
use weregopher.Ownership.{option_eq}
use weregopher.Proxy.Json.{Raw, raw_object, raw_member, raw_text, raw_unsigned, raw_members_end}
use weregopher.Proxy.Text.{text, has_control, is_bounded_text}
use weregopher.Proxy.Message.{client_to_server, notification, Frame}
use weregopher.Proxy.Queue.{pop, front}
use weregopher.Proxy.State.{
  queue, requests, set_queue, set_requests, increment, ensure_monotonic_time, close,
}
use weregopher.Proxy.Release.{
  forwarded_next, deadline_for, mark_pending, take_front, plan_release, release_front, release,
}
use weregopher.Controls.Policy.{InterceptionPolicy, message_kind_code, kind_eq}
use weregopher.Controls.Method.{validate_method, for_method, fingerprint_observed_method}
use weregopher.Controls.Journal.{
  EventLimits, preflight_event_sequence, evict, push_event, correlate_forwarded, push_message,
  preflight_message, record_forwarded,
}
use weregopher.Controls.Journal.Key.{
  direction_code, key_eq, key_lt, correlation_preimage, request_key_from_parts, request_key,
}
use weregopher.Process.Limits.{
  ProcessError, initial, immediate, forced_shutdown, ProcessExit, ExitReport, Progress, no_progress,
}
use weregopher.Process.State.{
  ready, terminating, Session, begin_termination, ensure_monotonic, process_deadlines, attached,
  attach,
}
use weregopher.Process.Reader.{Reading, reader_worker}
use weregopher.Process.Reader.Lines.{lines_of, carried, reader_worker-lines_of, rounds_of}
use weregopher.Process.Worker.{line, reader_eof, received, process_exited}
use weregopher.Process.Initialization.{dispatched_after, observe_dispatched_frame}
use weregopher.Process.Client.{record_release, shutdown}
use weregopher.Process.Dispatch.{
  sent, count_dispatched, hand_over, dispatch_loop, dispatch_client_frames,
}
use weregopher.Process.Poll.{Inbox, poll}
use weregopher.Process.Order.{frames_sent, IsOpening}
use weregopher.Process.Ending.{EndInv}
use weregopher.Process.Phase.{course_of, phase_of, ◌⟿◌}
use weregopher.Process.Session.{run-path, SessionCall, sends_line, polls, shuts, step, run}
use weregopher.Process.History.{run-IsOpening, run-EndInv, first_failure_wins}
use weregopher.Process.Over.{ExitsIff, poll-ExitsIff}
use weregopher.Process.Bounds.{Kept, dispatch_loop-fuel, dispatch_client_frames-Kept}

abbrev tree : Raw
tree = raw_object (
    raw_member (text "method") (raw_text (text "initialize"))
      (raw_member (text "id") (raw_unsigned 7) raw_members_end))

abbrev presents : List ℕ → Raw × Bool
presents _ = (tree, true)

abbrev hash : List ℕ → List ℕ
hash bytes = bytes

abbrev instants : ℕ
instants = 1000000000000000

abbrev no_rules : InterceptionPolicy
no_rules = record { rules = []; method_bytes = 0 }

abbrev ten_events : EventLimits
ten_events = record { events = 10 }

abbrev fresh : Session
fresh = attached Limits.initial initial ten_events no_rules 4096 0 (30000000000, 86400000000000)

attaches : attach instants Limits.initial initial ten_events no_rules 4096 0 ≡ ok fresh
unfolding attach process_deadlines
attaches = refl

abbrev quiet : Inbox
quiet = record {
  process = none;
  writer = [];
  stderr = none;
  reader = [];
  sendings = λ n. sent;
  closing = sent;
  stdout_bytes = 0;
  stderr_bytes = 0;
}

abbrev child : ProcessExit
child = record { success = false; code = some 1 }

abbrev leaving : Inbox
leaving = record quiet { process = some (received (process_exited child)) }

abbrev starts : List SessionCall
starts = sends_line (123 ∷ 125 ∷ []) ∷ polls quiet 0 ∷ []

abbrev ends : List SessionCall
ends = shuts immediate 1 ∷ []

abbrev leaves : List SessionCall
leaves = polls leaving 2 ∷ polls quiet 2000000002 ∷ []

run-path_example : phase_of fresh ⟿ phase_of (run presents hash instants fresh (starts ++ ends))
run-path_example = run-path presents hash instants fresh (starts ++ ends)

run-IsOpening_example :
    IsOpening (frames_sent (run presents hash instants fresh starts).writer_commands)
run-IsOpening_example =
    run-IsOpening presents hash instants Limits.initial initial ten_events no_rules 4096 0 fresh
      starts attaches

run-EndInv_example :
    EndInv
      (course_of (run presents hash instants fresh ends))
      (run presents hash instants fresh ends).writer_tx
run-EndInv_example =
    run-EndInv presents hash instants Limits.initial initial ten_events no_rules 4096 0 fresh ends
      attaches

abbrev report : ExitReport
report = record {
  outcome = forced_shutdown;
  exit_code = some 1;
  initialized = false;
  stdout_bytes = 0;
  stderr_bytes = 0;
  streams_drained = false;
  abandoned_writer_frames = 0;
  proxy_close = (close fresh.proxy).1;
}

forced : (run presents hash instants fresh ends).requested_outcome ≡ some forced_shutdown
unfolding run step shutdown ensure_monotonic begin_termination
forced = refl

reported : (run presents hash instants fresh (ends ++ leaves)).exit_report ≡ some report
unfolding run step shutdown ensure_monotonic begin_termination poll
reported = refl

first_failure_wins_example : report.outcome ≡ forced_shutdown
first_failure_wins_example =
    first_failure_wins presents hash instants Limits.initial initial ten_events no_rules 4096 0
      fresh ends leaves forced_shutdown report attaches forced reported

abbrev ending : Session
ending = record fresh {
  lifecycle = terminating;
  process_exit = some child;
  process_exit_deadline = some 5;
}

poll-ExitsIff_example : ExitsIff 5 (poll presents hash instants quiet ending 5)
poll-ExitsIff_example = poll-ExitsIff presents hash instants quiet ending 5 refl

dispatch_loop-fuel_example :
    dispatch_loop hash instants (λ n. sent) (64 + 3) fresh 0 no_progress
    ≡ dispatch_loop hash instants (λ n. sent) 64 fresh 0 no_progress
dispatch_loop-fuel_example =
    dispatch_loop-fuel hash instants (λ n. sent) 64 3 fresh 0 no_progress (omega arith)

abbrev notice : Frame
notice = record {
  observation = record {
    direction = client_to_server;
    kind = notification;
    method = some (text "ping");
    request_id = none;
    byte_length = 2;
  };
  json_bytes = 123 ∷ 125 ∷ [];
}

abbrev asking : Session
asking = record fresh {
  initialization = ready;
  proxy = record fresh.proxy {
    to_server = record (fresh.proxy).to_server { frames = notice ∷ []; bytes = 2 };
  };
}

abbrev dispatched : Session × Result ProcessError Progress
dispatched = dispatch_client_frames hash instants (λ n. sent) asking 0 no_progress

abbrev one_frame : Progress
one_frame = record no_progress { dispatched_client_frames = 1 }

dispatches :
    dispatch_client_frames hash instants (λ n. sent) asking 0 no_progress
    ≡ (dispatched.0, ok one_frame)
unfolding dispatch_client_frames ensure_monotonic_time Proxy.new Queue.new front queue plan_release
    deadline_for forwarded_next increment mark_pending take_front pop record_forwarded
    preflight_message is_bounded_text has_control Journal.new set_queue bytes_eq modify remove
    to_le_bytes correlation_preimage direction_code key_eq key_lt request_key request_key_from_parts
    correlate_forwarded evict preflight_event_sequence push_event push_message
    fingerprint_observed_method for_method validate_method kind_eq message_kind_code option_eq
    record_release count_dispatched dispatch_loop hand_over dispatched_after
    observe_dispatched_frame release release_front requests set_requests
dispatches = refl

dispatch_client_frames-Kept_example : Kept asking no_progress dispatched.0 one_frame
dispatch_client_frames-Kept_example =
    dispatch_client_frames-Kept hash instants (λ n. sent) asking 0 no_progress dispatched.0
      one_frame (omega arith) (omega arith) dispatches

-- Two lines that three reads cut elsewhere.
abbrev pipe : List Reading
pipe = ok (97 ∷ 10 ∷ 98 ∷ []) ∷ ok (99 ∷ 10 ∷ []) ∷ ok [] ∷ []

abbrev suffices : ℕ → ℕ → Bool
suffices n added = true

two_lines :
    lines_of 2 [] (carried pipe).0 (carried pipe).1
    ≡ line (97 ∷ []) ∷ line (98 ∷ 99 ∷ []) ∷ reader_eof ∷ []
unfolding lines_of carried
two_lines = refl

reader_worker-lines_of_example :
    (reader_worker suffices 2 10 pipe [] [] 0).0 ≡ lines_of 2 [] (carried pipe).0 (carried pipe).1
unfolding rounds_of
reader_worker-lines_of_example =
    reader_worker-lines_of suffices 2 (omega arith) (λ n added. refl) 10 pipe [] [] 0 (omega arith)
      (omega arith)
