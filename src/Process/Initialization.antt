-- ===== src/Process/Initialization.antt =====
-- The order in which a session is initialized.
use weregopher.Base.{Bool, false, ◌&&◌, ◌||◌, Option, none, some, if◌then◌else◌, Result, ok, err}
use weregopher.Proxy.Message.{
  Kind, request, notification, success_response, error_response, RequestId, id_eq, Observation,
  Frame,
}
use weregopher.Proxy.Text.{Text, text}
use weregopher.Controls.Policy.{kind_eq}
use weregopher.Ownership.{option_eq}
use weregopher.Process.Limits.{
  ProcessError, initialization_sequence_violation, initialize_rejected,
  unexpected_server_initialization_message, protocol_failure,
}
use weregopher.Process.State.{
  InitializationState, awaiting_initialize, initialize_queued, awaiting_initialize_response,
  initialize_response_queued, awaiting_initialized, initialized_queued, ready, Session, Step,
  is_terminating, is_ready, begin_termination,
}

-- A message of the class with the method.
abbrev pub is_call : Kind → Text → Observation → Bool
is_call kind method o = kind_eq o.kind kind && option_eq o.method (some method)

abbrev pub initialize : Text
initialize = text "initialize"

abbrev pub initialized : Text
initialized = text "initialized"

abbrev pub queue_initialize : Option RequestId → Option InitializationState
queue_initialize none = none
queue_initialize (some id) = some (initialize_queued id)

-- The state behind a client's message, where the message is in order.
unfoldable pub client_initialization_after :
    InitializationState → Observation → Option InitializationState
unfolding kind_eq option_eq
client_initialization_after awaiting_initialize o =
    if is_call request initialize o then queue_initialize o.request_id else none
client_initialization_after awaiting_initialized o =
    if is_call notification initialized o then some initialized_queued else none
client_initialization_after ready o =
    if option_eq o.method (some initialize) || option_eq o.method (some initialized)
    then none
    else some ready
client_initialization_after _ o = none

abbrev pub is_id : Option RequestId → RequestId → Bool
is_id none expected = false
is_id (some id) expected = id_eq id expected

abbrev pub answer_initialize : Kind → RequestId → Result ProcessError InitializationState
answer_initialize success_response expected = ok (initialize_response_queued expected)
answer_initialize error_response expected = err initialize_rejected
answer_initialize _ expected = err unexpected_server_initialization_message

abbrev pub server_awaited :
    InitializationState → Observation → Result ProcessError InitializationState
server_awaited (awaiting_initialize_response expected) o =
    if is_id o.request_id expected
    then answer_initialize o.kind expected
    else err unexpected_server_initialization_message
server_awaited _ o = err unexpected_server_initialization_message

unfoldable pub server_initialization_after :
    Session → Observation → Result ProcessError InitializationState
unfolding kind_eq id_eq
server_initialization_after self o =
    if is_ready self.initialization || is_terminating self.lifecycle
    then ok self.initialization
    else if kind_eq o.kind notification
    then ok self.initialization
    else server_awaited self.initialization o

-- The state behind a frame that leaves for the process, where it is in order.
unfoldable pub dispatched_after : InitializationState → Observation → Option InitializationState
unfolding kind_eq option_eq id_eq
dispatched_after (initialize_queued id) o =
    if is_call request initialize o && is_id o.request_id id
    then some (awaiting_initialize_response id)
    else none
dispatched_after initialized_queued o =
    if is_call notification initialized o then some ready else none
dispatched_after ready o = some ready
dispatched_after _ o = none

unfoldable pub observe_dispatched_frame : Session → Frame → Step (Unit {0})
unfolding dispatched_after begin_termination
observe_dispatched_frame self frame =
    elim (dispatched_after self.initialization frame.observation) [
      | some next ↦ (record self { initialization = next }, ok tt)
      | none ↦ (begin_termination self protocol_failure, err initialization_sequence_violation)
    ]

abbrev pub delivered : InitializationState → Session → Observation → Step (Unit {0})
delivered (initialize_response_queued expected) self o =
    if kind_eq o.kind success_response && is_id o.request_id expected
    then (record self { initialization = awaiting_initialized }, ok tt)
    else if kind_eq o.kind notification
    then (self, ok tt)
    else (begin_termination self protocol_failure, err unexpected_server_initialization_message)
delivered _ self o = (self, ok tt)

unfoldable pub observe_client_delivery : Session → Frame → Step (Unit {0})
unfolding kind_eq id_eq begin_termination
observe_client_delivery self frame = delivered self.initialization self frame.observation
