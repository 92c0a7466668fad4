-- ===== src/Process/State.antt =====
-- The state of a process session, and how it ends.
use weregopher.Base.{
  ◌>>=◌, ℕ, Bool, true, false, ◌||◌, Option, none, some, List, [], ltb, if◌then◌else◌, Result, ok,
  err, ok_or, checked_add,
}
use weregopher.Proxy.Message.{RequestId, Frame}
use weregopher.Proxy.Limits.{ProxyLimits}
use weregopher.Proxy.State as Proxy
use weregopher.Controls.Journal as Journal
use weregopher.Proxy.State.{Proxy}
use weregopher.Controls.Policy.{InterceptionPolicy}
use weregopher.Controls.Journal.{EventLimits, Journal}
use weregopher.Process.Limits.{
  ProcessError, deadline_overflow, non_monotonic_clock, ProcessLimits, ProcessOutcome, ProcessExit,
  ExitReport,
}

pub data InitializationState : Type 0 where
  awaiting_initialize : InitializationState
  initialize_queued awaiting_initialize_response : RequestId → InitializationState
  initialize_response_queued : RequestId → InitializationState
  awaiting_initialized initialized_queued ready : InitializationState

pub data LifecycleState : Type 0 where
  running : LifecycleState
  graceful_shutdown : ℕ → LifecycleState
  terminating exited : LifecycleState

pub data WriterCommand : Type 0 where
  frame_command : Frame → WriterCommand
  close_command : WriterCommand

-- A sender is held or not; beside it stands what its channel took. What the receivers hold is
-- given to each poll. The threads' handles have no part in the state.
pub record Session : Type 0 where
  pub limits : ProcessLimits
  pub proxy : Proxy
  pub interception : InterceptionPolicy
  pub events : Journal
  pub initialization : InitializationState
  pub lifecycle : LifecycleState
  pub initialization_deadline : ℕ
  pub runtime_deadline : ℕ
  pub last_observed_time : ℕ
  pub writer_tx : Bool
  pub writer_commands : List WriterCommand
  pub process_tx : Bool
  pub termination_requested : Bool
  pub writer_outstanding : ℕ
  pub writer_close_requested : Bool
  pub stdout_finished : Bool
  pub stdout_without_exit_deadline : Option ℕ
  pub stderr_finished : Bool
  pub process_exit : Option ProcessExit
  pub process_exit_deadline : Option ℕ
  pub requested_outcome : Option ProcessOutcome
  pub dispatched_client_frames : ℕ
  pub written_client_frames : ℕ
  pub written_client_bytes : ℕ
  pub exit_report : Option ExitReport

-- A call's session stands beside its result: what it wrote before an error is kept.
abbrev pub Step : Type 0 → Type 0
Step A = Session × Result ProcessError A

infixl 5 ◌▷◌
abbrev pub ◌▷◌ : {A B : Type 0} → Step A → (Session → A → Step B) → Step B
(self, err x) ▷ next = (self, err x)
(self, ok value) ▷ next = next self value

abbrev pub is_running : LifecycleState → Bool
is_running running = true
is_running _ = false

abbrev pub is_terminating : LifecycleState → Bool
is_terminating terminating = true
is_terminating _ = false

abbrev pub is_exited : LifecycleState → Bool
is_exited exited = true
is_exited _ = false

abbrev pub is_ready : InitializationState → Bool
is_ready ready = true
is_ready _ = false

abbrev pub first_outcome : Option ProcessOutcome → ProcessOutcome → Option ProcessOutcome
first_outcome none outcome = some outcome
first_outcome (some earlier) outcome = some earlier

-- The process is asked to end where its sender is still held; whether the channel takes the
-- command does not matter to the code.
unfoldable pub begin_termination : Session → ProcessOutcome → Session
begin_termination self outcome = if is_exited self.lifecycle then self else record self {
  requested_outcome = first_outcome self.requested_outcome outcome;
  lifecycle = terminating;
  writer_close_requested = true;
  writer_tx = false;
  termination_requested = self.termination_requested || self.process_tx;
}

unfoldable pub ensure_monotonic : Session → ℕ → Result ProcessError (Unit {0})
ensure_monotonic self now =
    if ltb now self.last_observed_time then err non_monotonic_clock else ok tt

unfoldable pub process_deadlines : ℕ → ProcessLimits → ℕ → Result ProcessError (ℕ × ℕ)
process_deadlines instant_max limits now = do
  initialization ←
      ok_or (checked_add instant_max now limits.initialization_timeout) deadline_overflow
  runtime ← ok_or (checked_add instant_max now limits.runtime_timeout) deadline_overflow
  ok (initialization, runtime)

-- The session that is attached once every worker runs.
abbrev pub attached :
    ProxyLimits → ProcessLimits → EventLimits → InterceptionPolicy → ℕ → ℕ → ℕ × ℕ → Session
attached proxy_limits limits event_limits interception identity now deadlines = record {
  limits = limits;
  proxy = Proxy.new proxy_limits;
  interception = interception;
  events = Journal.new event_limits identity;
  initialization = awaiting_initialize;
  lifecycle = running;
  initialization_deadline = deadlines.0;
  runtime_deadline = deadlines.1;
  last_observed_time = now;
  writer_tx = true;
  writer_commands = [];
  process_tx = true;
  termination_requested = false;
  writer_outstanding = 0;
  writer_close_requested = false;
  stdout_finished = false;
  stdout_without_exit_deadline = none;
  stderr_finished = false;
  process_exit = none;
  process_exit_deadline = none;
  requested_outcome = none;
  dispatched_client_frames = 0;
  written_client_frames = 0;
  written_client_bytes = 0;
  exit_report = none;
}

-- `attach_unverified_child_with_controls` of a child with all three pipes, whose workers start.
unfoldable pub attach :
    ℕ
    → ProxyLimits
    → ProcessLimits
    → EventLimits
    → InterceptionPolicy
    → ℕ
    → ℕ
    → Result ProcessError Session
unfolding process_deadlines Proxy.new Journal.new
attach instant_max proxy_limits limits event_limits interception identity now = do
  deadlines ← process_deadlines instant_max limits now
  ok (attached proxy_limits limits event_limits interception identity now deadlines)
