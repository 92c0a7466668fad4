-- ===== src/Process/Phase.antt =====
-- The specification of a process session: its phases as a step relation.
use weregopher.Base.{
  ◌≤◌, refl, ◌∙◌, ℕ, ◌≡◌, ◌⊎◌, Bool, true, false, ◌||◌, Option, none, some, List, [], ◌∷◌, ◌++◌,
  ◌&&◌,
}
use weregopher.Proxy.Message.{RequestId, Frame}
use weregopher.Process.Limits.{
  ProcessOutcome, forced_shutdown, initialization_timed_out, runtime_timed_out, protocol_failure,
  transport_failure, request_timed_out, interception_blocked, observation_failure, ProcessExit,
  ExitReport,
}
use weregopher.Process.State.{
  InitializationState, awaiting_initialize, awaiting_initialize_response,
  initialize_response_queued, awaiting_initialized, LifecycleState, running, graceful_shutdown,
  terminating, exited, WriterCommand, frame_command, close_command, Session, is_exited,
  first_outcome,
}
use weregopher.Process.Initialization.{client_initialization_after, dispatched_after}
use weregopher.Process.Poll.{natural_outcome, is_clean}

-- How far a session has come, what it handed to the writer, how it ended, what it knows of its
-- process and its streams, and the time that it observed last.
pub record Course : Type 0 where
  pub lifecycle : LifecycleState
  pub writer_commands : List WriterCommand
  pub process_tx : Bool
  pub termination_requested : Bool
  pub requested_outcome : Option ProcessOutcome
  pub exit_report : Option ExitReport
  pub process_exit : Option ProcessExit
  pub process_exit_deadline : Option ℕ
  pub stdout_finished : Bool
  pub stderr_finished : Bool
  pub last_observed_time : ℕ

-- The course beside the initialization and the frames that wait for the process.
pub record Phase : Type 0 where
  pub course : Course
  pub writer_tx : Bool
  pub initialization : InitializationState
  pub waiting : List Frame

abbrev pub course_of : Session → Course
course_of s = record {
  lifecycle = s.lifecycle;
  writer_commands = s.writer_commands;
  process_tx = s.process_tx;
  termination_requested = s.termination_requested;
  requested_outcome = s.requested_outcome;
  exit_report = s.exit_report;
  process_exit = s.process_exit;
  process_exit_deadline = s.process_exit_deadline;
  stdout_finished = s.stdout_finished;
  stderr_finished = s.stderr_finished;
  last_observed_time = s.last_observed_time;
}

abbrev pub phase_of : Session → Phase
phase_of s = record {
  course = course_of s;
  writer_tx = s.writer_tx;
  initialization = s.initialization;
  waiting = (s.proxy.to_server).frames;
}

abbrev pub IsAlive : Course → Type 0
IsAlive c = is_exited c.lifecycle ≡ false

-- What ends a session before its process exits. None of these is a clean end.
pub data IsFailure : ProcessOutcome → Type 0 where
  fails_forced : IsFailure forced_shutdown
  fails_initialization : IsFailure initialization_timed_out
  fails_runtime : IsFailure runtime_timed_out
  fails_protocol : IsFailure protocol_failure
  fails_transport : IsFailure transport_failure
  fails_request : IsFailure request_timed_out
  fails_interception : IsFailure interception_blocked
  fails_observation : IsFailure observation_failure

abbrev pub ended : Course → ProcessOutcome → Course
ended c outcome = record c {
  lifecycle = terminating;
  termination_requested = c.termination_requested || c.process_tx;
  requested_outcome = first_outcome c.requested_outcome outcome;
}

abbrev pub sends : Course → WriterCommand → Course
sends c command = record c { writer_commands = c.writer_commands ++ command ∷ [] }

-- The streams are drained, or the time to drain them has passed.
abbrev pub IsDrained : Course → Type 0
IsDrained c = (c.stdout_finished ≡ true) × (c.stderr_finished ≡ true)

pub record IsLate (c : Course) : Type 0 where
  pub deadline : ℕ
  pub set : c.process_exit_deadline ≡ some deadline
  pub passed : deadline ≤ c.last_observed_time

infix 30 ◌⟶◌
pub data ◌⟶◌ : Phase → Phase → Type 0 where
  -- While the session runs, a client's frame that is in order waits for the process.
  enter :
      {p : Phase} (f : Frame) (next : InitializationState)
      → p.course.lifecycle ≡ running
      → client_initialization_after p.initialization f.observation ≡ some next
      → p ⟶ record p { initialization = next; waiting = p.waiting ++ f ∷ [] }
  -- The response to `initialize` is accepted.
  respond :
      {p : Phase} (id : RequestId)
      → p.initialization ≡ awaiting_initialize_response id
      → p ⟶ record p { initialization = initialize_response_queued id }
  -- The client takes it.
  take_response :
      {p : Phase} (id : RequestId)
      → p.initialization ≡ initialize_response_queued id
      → p ⟶ record p { initialization = awaiting_initialized }
  -- The first waiting frame goes to the writer.
  dispatch :
      {p : Phase} (f : Frame) (rest : List Frame) (next : InitializationState)
      → p.writer_tx ≡ true
      → p.waiting ≡ f ∷ rest
      → dispatched_after p.initialization f.observation ≡ some next
      → p ⟶ record p {
        course = sends p.course (frame_command f);
        initialization = next;
        waiting = rest;
      }
  -- The writer is asked to close its pipe once nothing waits for it.
  close_pipe :
      {p : Phase}
      → p.waiting ≡ []
      → p ⟶ record p { course = sends p.course close_command; writer_tx = false }
  drain :
      {p : Phase} (deadline : ℕ)
      → p.course.lifecycle ≡ running
      → p ⟶ record p { course = record (p.course) { lifecycle = graceful_shutdown deadline } }
  -- The process is gone, and its streams have until a time to come to drain.
  leave :
      {p : Phase} (process : ProcessExit) (deadline : ℕ)
      → p.course.process_exit ≡ none
      → p.course.last_observed_time ≤ deadline
      → p ⟶ record p {
        course = record (p.course) {
          process_exit = some process;
          process_exit_deadline = some deadline;
        };
      }
  finish_stdout :
      {p : Phase} → p ⟶ record p { course = record (p.course) { stdout_finished = true } }
  finish_stderr :
      {p : Phase} → p ⟶ record p { course = record (p.course) { stderr_finished = true } }
  -- Whatever waits, and however far the initialization is: nothing goes to the writer any more.
  terminate :
      {p : Phase} (outcome : ProcessOutcome) (next : InitializationState) (waiting : List Frame)
      → IsFailure outcome
      → IsAlive p.course
      → p ⟶ record {
        course = ended p.course outcome;
        writer_tx = false;
        initialization = next;
        waiting = waiting;
      }
  -- A process that is gone is reported once its streams are drained or late.
  exit :
      {p : Phase} (report : ExitReport) (process : ProcessExit)
      → IsAlive p.course
      → p.course.process_exit ≡ some process
      → IsDrained p.course ⊎ IsLate p.course
      → report.streams_drained ≡ (p.course.stdout_finished && p.course.stderr_finished)
      → (report.outcome ≡ natural_outcome p.course.requested_outcome p.course.lifecycle process)
        ⊎ (report.outcome ≡ transport_failure)
          × (report.streams_drained ≡ false)
          × (is_clean (natural_outcome p.course.requested_outcome p.course.lifecycle process)
              ≡ true)
      → p ⟶ record {
        course = record (p.course) {
          lifecycle = exited;
          process_tx = false;
          exit_report = some report;
        };
        writer_tx = false;
        initialization = awaiting_initialize;
        waiting = [];
      }

infix 30 ◌⟶*◌
pub data ◌⟶*◌ : Phase → Phase → Type 0 where
  stop : {p : Phase} → p ⟶* p
  more : {p q r : Phase} → p ⟶ q → q ⟶* r → p ⟶* r

pub ⟶*-trans : {p q r : Phase} → p ⟶* q → q ⟶* r → p ⟶* r
⟶*-trans stop path = path
⟶*-trans (more step steps) path = more step (⟶*-trans steps path)

pub one : {p q : Phase} → p ⟶ q → p ⟶* q
one step = more step stop

-- Steps, and the time going on between them.
infix 30 ◌⟿◌
pub data ◌⟿◌ : Phase → Phase → Type 0 where
  stands : {p : Phase} → p ⟿ p
  moves : {p q r : Phase} → p ⟶* q → q ⟿ r → p ⟿ r
  tick :
      {p r : Phase} (now : ℕ)
      → p.course.last_observed_time ≤ now
      → record p { course = record (p.course) { last_observed_time = now } } ⟿ r
      → p ⟿ r

pub ⟿-trans : {p q r : Phase} → p ⟿ q → q ⟿ r → p ⟿ r
⟿-trans stands path = path
⟿-trans (moves steps rest) path = moves steps (⟿-trans rest path)
⟿-trans (tick now timely rest) path = tick now timely (⟿-trans rest path)

-- No step takes time.
⟶-now : {p q : Phase} → p ⟶ q → q.course.last_observed_time ≡ p.course.last_observed_time
⟶-now (enter f next at fits) = refl
⟶-now (respond id at) = refl
⟶-now (take_response id at) = refl
⟶-now (dispatch f rest next held first fits) = refl
⟶-now (close_pipe idle) = refl
⟶-now (drain deadline at) = refl
⟶-now (leave process deadline there timely) = refl
⟶-now finish_stdout = refl
⟶-now finish_stderr = refl
⟶-now (terminate outcome next waiting failure alive) = refl
⟶-now (exit report process alive gone over told why) = refl

pub ⟶*-now : {p q : Phase} → p ⟶* q → q.course.last_observed_time ≡ p.course.last_observed_time
⟶*-now stop = refl
⟶*-now (more step steps) = ⟶*-now steps ∙ ⟶-now step

-- A session that was just attached.
abbrev pub start : ℕ → Phase
start now = record {
  course = record {
    lifecycle = running;
    writer_commands = [];
    process_tx = true;
    termination_requested = false;
    requested_outcome = none;
    exit_report = none;
    process_exit = none;
    process_exit_deadline = none;
    stdout_finished = false;
    stderr_finished = false;
    last_observed_time = now;
  };
  writer_tx = true;
  initialization = awaiting_initialize;
  waiting = [];
}
