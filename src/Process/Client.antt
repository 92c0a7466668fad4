-- ===== src/Process/Client.antt =====
-- The calls of the client's side: sending a line, taking a frame, shutting down.
use weregopher.Base.{ℕ, Bool, not, Option, none, some, List, if◌then◌else◌, ok, err, checked_add}
use weregopher.Proxy.Message.{client_to_server, server_to_client, Observation, Frame}
use weregopher.Proxy.Admit.{Candidate, admit}
use weregopher.Proxy.Release.{release}
use weregopher.Proxy.Prepare.{prepare}
use weregopher.Proxy.Json.{Raw}
use weregopher.Controls.Policy.{InterceptionDecision, forward, block, evaluate}
use weregopher.Controls.Journal as Journal
use weregopher.Controls.Journal.{
  SessionEvent, Journal, record_accepted, record_forwarded, record_blocked,
}
use weregopher.Process.Limits.{
  deadline_overflow, initialization_sequence_violation, not_running, blocked_by, control_error,
  proxy_error, ShutdownMode, graceful, immediate, forced_shutdown, protocol_failure,
  interception_blocked, observation_failure,
}
use weregopher.Process.State.{
  InitializationState, LifecycleState, running, graceful_shutdown, Session, Step, ◌▷◌, is_running,
  is_exited, begin_termination, ensure_monotonic,
}
use weregopher.Process.Initialization.{client_initialization_after, observe_client_delivery}

abbrev pub blocking_rule : InterceptionDecision → Option ℕ
blocking_rule forward = none
blocking_rule (block rule) = some rule

module _ (sha256 : List ℕ → List ℕ) where
  -- The end of a candidate that a rule denies.
  unfoldable pub block_candidate : Session → Observation → ℕ → Step Observation
  unfolding begin_termination
  block_candidate self o rule =
      let (events, result) = record_blocked sha256 self.events o rule in
      let observed = record self { events = events } in
      elim result [
        | err x ↦ (begin_termination observed observation_failure, err (control_error x))
        | ok _ ↦ (begin_termination observed interception_blocked, err (blocked_by rule))
      ]

  unfoldable pub record_admission : Session → Observation → InitializationState → Step Observation
  unfolding begin_termination
  record_admission self o next =
      let (events, result) = record_accepted sha256 self.events o in
      let observed = record self { events = events } in
      elim result [
        | err x ↦ (begin_termination observed observation_failure, err (control_error x))
        | ok _ ↦ (record observed { initialization = next }, ok o)
      ]

  -- Admission of a candidate that is in order and that no rule denies. `refused` is what a
  -- refusal of the proxy does to the session.
  unfoldable pub admit_in_order :
      (Session → Session) → Session → Candidate → InitializationState → Step Observation
  unfolding record_admission
  admit_in_order refused self candidate next =
      let (proxy, admitted) = admit sha256 self.proxy candidate in
      let entered = record self { proxy = proxy } in
      elim admitted [
        | err x ↦ (refused entered, err (proxy_error x))
        | ok o ↦ record_admission entered o next
      ]

  unfoldable pub intercept :
      (Session → Session) → Session → Candidate → InitializationState → Step Observation
  unfolding block_candidate admit_in_order evaluate
  intercept refused self candidate next =
      elim (blocking_rule (evaluate self.interception candidate.observation)) [
        | some rule ↦ block_candidate self candidate.observation rule
        | none ↦ admit_in_order refused self candidate next
      ]

  unfoldable pub send_candidate : Session → Candidate → Step Observation
  unfolding client_initialization_after begin_termination intercept
  send_candidate self candidate =
      elim (client_initialization_after self.initialization candidate.observation) [
        | none ↦ (begin_termination self protocol_failure, err initialization_sequence_violation)
        | some next ↦ intercept (λ entered. entered) self candidate next
      ]

  unfoldable pub send_client : (List ℕ → Raw × Bool) → Session → List ℕ → Step Observation
  unfolding prepare send_candidate
  send_client deserialize self json_line =
      if not (is_running self.lifecycle)
      then (self, err not_running)
      else elim (prepare deserialize self.proxy client_to_server json_line) [
        | err x ↦ (self, err (proxy_error x))
        | ok candidate ↦ send_candidate self candidate
      ]

  -- The journal's part in the release of a frame.
  unfoldable pub record_release : Session → Frame → Step (Unit {0})
  unfolding begin_termination
  record_release self frame =
      let (events, result) = record_forwarded sha256 self.events frame.observation in
      let observed = record self { events = events } in
      elim result [
        | err x ↦ (begin_termination observed observation_failure, err (control_error x))
        | ok _ ↦ (observed, ok tt)
      ]

  -- A frame that the proxy released toward the client is recorded and observed.
  unfoldable pub deliver : Session → Option Frame → Step (Unit {0})
  unfolding record_release observe_client_delivery
  deliver self none = (self, ok tt)
  deliver self (some frame) =
      record_release self frame ▷ λ released unit. observe_client_delivery released frame

  unfoldable pub next_for_client : ℕ → Session → ℕ → Step (Option Frame)
  unfolding ensure_monotonic release deliver
  next_for_client instant_max self now = elim (ensure_monotonic self now) [
    | err x ↦ (self, err x)
    | ok _ ↦
        if is_exited self.lifecycle
        then (record self { last_observed_time = now }, ok none)
        else let (proxy, released) = release instant_max self.proxy server_to_client now in
          let after = record self { proxy = proxy } in
          elim released [
            | err x ↦ (after, err (proxy_error x))
            | ok frame ↦ deliver after frame ▷ λ delivered unit.
                (record delivered { last_observed_time = now }, ok frame)
          ]
  ]

abbrev pub shutdown_running : ShutdownMode → LifecycleState → ℕ → Session → ℕ → Step (Unit {0})
shutdown_running graceful running instant_max self now =
    elim (checked_add instant_max now self.limits.shutdown_timeout) [
      | none ↦ (self, err deadline_overflow)
      | some deadline ↦
          (record self { lifecycle = graceful_shutdown deadline; last_observed_time = now }, ok tt)
    ]
shutdown_running graceful _ instant_max self now = (record self { last_observed_time = now }, ok tt)
shutdown_running immediate _ instant_max self now =
    (record (begin_termination self forced_shutdown) { last_observed_time = now }, ok tt)

unfoldable pub shutdown : ℕ → Session → ShutdownMode → ℕ → Step (Unit {0})
unfolding ensure_monotonic begin_termination
shutdown instant_max self mode now = elim (ensure_monotonic self now) [
  | err x ↦ (self, err x)
  | ok _ ↦
      if is_exited self.lifecycle
      then (record self { last_observed_time = now }, ok tt)
      else shutdown_running mode self.lifecycle instant_max self now
]

unfoldable pub next_event : Session → Session × Option SessionEvent
unfolding Journal.next_event
next_event self =
    let (events, event) = Journal.next_event self.events in (record self { events = events }, event)
