-- ===== src/Process/Limits.antt =====
-- The limits of a process session, and what its calls report.
use weregopher.Base.{ℕ, ◌*◌, Bool, ◌||◌, Option, ltb, ◌==◌, if◌then◌else◌, Result, ok, err}
use weregopher.Controls.Method.{ControlError}
use weregopher.Proxy.Queue.{ProxyError}
use weregopher.Proxy.State.{CloseReport}

-- The five ends of a channel that can fail.
pub data Worker : Type 0 where
  stdin_worker stdin_capacity stdout_worker stderr_worker process_role : Worker

-- An `io::ErrorKind` is a number.
pub data ProcessError : Type 0 where
  invalid_limits deadline_overflow missing_piped_stdio : ProcessError
  worker_spawn worker_io : Worker → ℕ → ProcessError
  initialization_sequence_violation initialize_rejected : ProcessError
  unexpected_server_initialization_message stdout_line_too_large : ProcessError
  unterminated_stdout_line stdout_closed_before_exit stdout_allocation_failed : ProcessError
  worker_disconnected : Worker → ProcessError
  not_running non_monotonic_clock diagnostic_counter_overflow : ProcessError
  blocked_by : ℕ → ProcessError
  control_error : ControlError → ProcessError
  proxy_error : ProxyError → ProcessError

pub record ProcessLimits : Type 0 where
  pub io_queue_messages : ℕ
  pub poll_events : ℕ
  pub initialization_timeout : ℕ
  pub runtime_timeout : ℕ
  pub shutdown_timeout : ℕ
  pub exit_drain_timeout : ℕ

abbrev seconds : ℕ → ℕ
seconds n = n * 1000000000

abbrev pub absolute_max_io_queue_messages : ℕ
absolute_max_io_queue_messages = 4

abbrev pub absolute_max_poll_events : ℕ
absolute_max_poll_events = 1024

abbrev absolute_max_initialization_timeout : ℕ
absolute_max_initialization_timeout = seconds 300

abbrev absolute_max_runtime_timeout : ℕ
absolute_max_runtime_timeout = seconds 86400

abbrev absolute_max_shutdown_timeout : ℕ
absolute_max_shutdown_timeout = seconds 30

abbrev absolute_max_exit_drain_timeout : ℕ
absolute_max_exit_drain_timeout = seconds 30

abbrev is_outside : ℕ → ℕ → Bool
is_outside n maximum = n == 0 || ltb maximum n

unfoldable pub new_limits : ℕ → ℕ → ℕ → ℕ → ℕ → ℕ → Result ProcessError ProcessLimits
new_limits io_queue_messages poll_events initialization runtime shutdown exit_drain =
    if is_outside io_queue_messages absolute_max_io_queue_messages
      || is_outside poll_events absolute_max_poll_events
      || is_outside initialization absolute_max_initialization_timeout
      || is_outside runtime absolute_max_runtime_timeout
      || is_outside shutdown absolute_max_shutdown_timeout
      || is_outside exit_drain absolute_max_exit_drain_timeout
    then err invalid_limits
    else ok (record {
      io_queue_messages = io_queue_messages;
      poll_events = poll_events;
      initialization_timeout = initialization;
      runtime_timeout = runtime;
      shutdown_timeout = shutdown;
      exit_drain_timeout = exit_drain;
    })

abbrev pub initial : ProcessLimits
initial = record {
  io_queue_messages = 4;
  poll_events = 64;
  initialization_timeout = seconds 30;
  runtime_timeout = seconds 86400;
  shutdown_timeout = seconds 2;
  exit_drain_timeout = seconds 2;
}

pub data ShutdownMode : Type 0 where
  graceful immediate : ShutdownMode

pub data ProcessOutcome : Type 0 where
  clean_shutdown forced_shutdown unexpected_exit crash : ProcessOutcome
  initialization_timed_out runtime_timed_out protocol_failure transport_failure : ProcessOutcome
  request_timed_out interception_blocked observation_failure : ProcessOutcome

-- An exit code is there where the platform supplies one.
pub record ProcessExit : Type 0 where
  pub success : Bool
  pub code : Option ℕ

pub record ExitReport : Type 0 where
  pub outcome : ProcessOutcome
  pub exit_code : Option ℕ
  pub initialized : Bool
  pub stdout_bytes : ℕ
  pub stderr_bytes : ℕ
  pub streams_drained : Bool
  pub abandoned_writer_frames : ℕ
  pub proxy_close : CloseReport

pub record Progress : Type 0 where
  pub server_messages : ℕ
  pub dispatched_client_frames : ℕ
  pub written_client_frames : ℕ
  pub expired_requests : ℕ

abbrev pub no_progress : Progress
no_progress = record {
  server_messages = 0;
  dispatched_client_frames = 0;
  written_client_frames = 0;
  expired_requests = 0;
}
