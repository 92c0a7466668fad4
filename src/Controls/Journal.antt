-- ===== src/Controls/Journal.antt =====
-- The bounded journal of redacted events.
use weregopher.Base.{
  ◌>>◌, ◌>>=◌, ℕ, Bool, ◌&&◌, ◌||◌, not, Option, none, some, List, [], ◌∷◌, ◌++◌, ltb, ◌==◌,
  if◌then◌else◌, is_some, length, Result, ok, err, reject_if, ok_or, u64_max, checked_add,
}
use weregopher.Base.Maps.{Map, get, insert, remove}
use weregopher.Proxy.Message.{
  Direction, Kind, request, notification, success_response, error_response, Observation,
}
use weregopher.Proxy.Expire.{ExpiredRequest}
use weregopher.Ownership.{Token}
use weregopher.Controls.Method.{
  ControlError, invalid_event_limits, event_sequence_overflow, correlation_sequence_overflow,
  event_eviction_overflow, inconsistent_correlation_state, inconsistent_event_state,
  MethodFingerprint, fingerprint_observed_method,
}
use weregopher.Controls.Journal.Key.{
  correlation_key, CorrelationKey, request_key_from_parts, request_key,
}
pub mod Key
pub mod Accounting
pub mod Tokens
pub mod Recording
pub mod Calls
pub mod History

pub record EventLimits : Type 0 where
  pub events : ℕ

abbrev absolute_max_events : ℕ
absolute_max_events = 65536

unfoldable pub new_limits : ℕ → Result ControlError EventLimits
new_limits events =
    if events == 0 || ltb absolute_max_events events
    then err invalid_event_limits
    else ok (record { events = events })

pub data EventStage : Type 0 where
  accepted forwarded blocked : EventStage

pub record RedactedMessage : Type 0 where
  pub stage : EventStage
  pub direction : Direction
  pub kind : Kind
  pub method : Option MethodFingerprint
  pub correlation : Option Token
  pub byte_length : ℕ
  pub block_rule : Option ℕ

pub data EventDetail : Type 0 where
  message : RedactedMessage → EventDetail
  request_expired : Direction → Token → EventDetail

pub record SessionEvent : Type 0 where
  pub sequence : ℕ
  pub detail : EventDetail

pub record EventDiagnostics : Type 0 where
  pub queued_events : ℕ
  pub max_events : ℕ
  pub evicted_events : ℕ
  pub active_correlations : ℕ
  pub pending_response_correlations : ℕ

abbrev pub Correlations : Type 0
Correlations = Map CorrelationKey Token

-- The address of the identity tells journals apart.
pub record Journal : Type 0 where
  pub limits : EventLimits
  pub identity : ℕ
  pub events : List SessionEvent
  pub evicted_events : ℕ
  pub last_sequence : ℕ
  pub last_correlation : ℕ
  pub active_correlations : Correlations
  pub pending_responses : Correlations

unfoldable pub new : EventLimits → ℕ → Journal
new limits identity = record {
  limits = limits;
  identity = identity;
  events = [];
  evicted_events = 0;
  last_sequence = 0;
  last_correlation = 0;
  active_correlations = [];
  pending_responses = [];
}

-- A call's journal stands beside its result: what it wrote before an error is kept.
abbrev pub Outcome : Type 0 → Type 0
Outcome A = Journal × Result ControlError A

abbrev pub is_full : Journal → Bool
is_full self = length self.events == self.limits.events

unfoldable pub preflight_event_sequence : Journal → Result ControlError ℕ
preflight_event_sequence self = do
  sequence ← ok_or (checked_add u64_max self.last_sequence 1) event_sequence_overflow
  reject_if (is_full self && not (is_some (checked_add u64_max self.evicted_events 1)))
      event_eviction_overflow
  ok sequence

-- The oldest event goes, and the loss is counted.
unfoldable pub evict : Journal → Outcome (Unit {0})
evict self = elim self.events [
  | [] ↦ (self, err inconsistent_event_state)
  | oldest ∷ rest ↦ elim (checked_add u64_max self.evicted_events 1) [
    | none ↦ (record self { events = rest }, err event_eviction_overflow)
    | some evicted ↦ (record self { events = rest; evicted_events = evicted }, ok tt)
  ]
]

abbrev pub event_at : ℕ → EventDetail → SessionEvent
event_at sequence detail = record { sequence = sequence; detail = detail }

abbrev append_event : ℕ → EventDetail → Journal → Journal
append_event sequence detail self = record self {
  events = self.events ++ event_at sequence detail ∷ [];
  last_sequence = sequence;
}

unfoldable pub push_event : Journal → ℕ → EventDetail → Outcome (Unit {0})
unfolding evict
push_event self sequence detail =
    let (roomy, room) = if is_full self then evict self else (self, ok tt) in
    elim room [ err x ↦ (roomy, err x) | ok _ ↦ (append_event sequence detail roomy, ok tt) ]

abbrev pub redacted :
    EventStage → Observation → Option MethodFingerprint → Option Token → Option ℕ → EventDetail
redacted stage o method correlation rule = message (record {
  stage = stage;
  direction = o.direction;
  kind = o.kind;
  method = method;
  correlation = correlation;
  byte_length = o.byte_length;
  block_rule = rule;
})

-- A new request gets the next token of the journal.
abbrev pub open_correlation : Journal → Option CorrelationKey → Outcome (Option Token)
open_correlation self none = (self, err inconsistent_correlation_state)
open_correlation self (some key) =
    if is_some (get key self.active_correlations) || is_some (get key self.pending_responses)
    then (self, err inconsistent_correlation_state)
    else elim (checked_add u64_max self.last_correlation 1) [
      | none ↦ (self, err correlation_sequence_overflow)
      | some next ↦
          let token : Token = record { journal = self.identity; sequence = next } in
          (
            record self {
              active_correlations = insert key token self.active_correlations;
              last_correlation = next;
            },
            ok (some token),
          )
    ]

-- A response to an active request makes its token pending.
abbrev pub answer_correlation : Journal → Option CorrelationKey → Outcome (Option Token)
answer_correlation self none = (self, ok none)
answer_correlation self (some key) = elim (get key self.active_correlations) [
  | none ↦ (self, ok none)
  | some token ↦ (
    record self {
      active_correlations = remove key self.active_correlations;
      pending_responses = insert key token self.pending_responses;
    },
    if is_some (get key self.pending_responses)
        then err inconsistent_correlation_state
        else ok (some token),
  )
]

unfoldable pub correlate_accepted : Journal → Kind → Option CorrelationKey → Outcome (Option Token)
correlate_accepted self request key = open_correlation self key
correlate_accepted self notification key = (self, ok none)
correlate_accepted self success_response key = answer_correlation self key
correlate_accepted self error_response key = answer_correlation self key

abbrev pub forwarded_response : Journal → Option CorrelationKey → Outcome (Option Token)
forwarded_response self none = (self, ok none)
forwarded_response self (some key) = (
  record self { pending_responses = remove key self.pending_responses },
  ok (get key self.pending_responses),
)

abbrev pub forwarded_request : Journal → Option CorrelationKey → Outcome (Option Token)
forwarded_request self none = (self, err inconsistent_correlation_state)
forwarded_request self (some key) = elim (get key self.active_correlations) [
  | none ↦ (self, err inconsistent_correlation_state)
  | some token ↦ (self, ok (some token))
]

unfoldable pub correlate_forwarded : Journal → Kind → Option CorrelationKey → Outcome (Option Token)
correlate_forwarded self request key = forwarded_request self key
correlate_forwarded self notification key = (self, ok none)
correlate_forwarded self success_response key = forwarded_response self key
correlate_forwarded self error_response key = forwarded_response self key

-- `push_message` behind the correlation of a message, which may have failed.
unfoldable pub push_message :
    EventStage
    → Observation
    → Option MethodFingerprint
    → Option ℕ
    → ℕ
    → Outcome (Option Token)
    → Outcome (Unit {0})
unfolding push_event
push_message stage o method rule sequence (self, err x) = (self, err x)
push_message stage o method rule sequence (self, ok correlation) =
    push_event self sequence (redacted stage o method correlation rule)

module _ (sha256 : List ℕ → List ℕ) where
  -- The fingerprint and the sequence number that every record of a message begins with.
  unfoldable pub preflight_message :
      Journal → Observation → Result ControlError (Option MethodFingerprint × ℕ)
  unfolding fingerprint_observed_method preflight_event_sequence
  preflight_message self o = do
    method ← fingerprint_observed_method sha256 o.method
    sequence ← preflight_event_sequence self
    ok (method, sequence)

  unfoldable pub record_accepted : Journal → Observation → Outcome (Unit {0})
  unfolding correlate_accepted push_message request_key
  record_accepted self o = elim (preflight_message self o) [
    | err x ↦ (self, err x)
    | ok (method, sequence) ↦
        push_message accepted o method none sequence
          (correlate_accepted self o.kind (request_key sha256 o))
  ]

  unfoldable pub record_forwarded : Journal → Observation → Outcome (Unit {0})
  unfolding correlate_forwarded push_message request_key
  record_forwarded self o = elim (preflight_message self o) [
    | err x ↦ (self, err x)
    | ok (method, sequence) ↦
        push_message forwarded o method none sequence
          (correlate_forwarded self o.kind (request_key sha256 o))
  ]

  unfoldable pub record_blocked : Journal → Observation → ℕ → Outcome (Unit {0})
  unfolding push_message
  record_blocked self o rule = elim (preflight_message self o) [
    | err x ↦ (self, err x)
    | ok (method, sequence) ↦ push_message blocked o method (some rule) sequence (self, ok none)
  ]

  unfoldable pub record_expired : Journal → ExpiredRequest → Outcome (Unit {0})
  unfolding preflight_event_sequence push_event request_key_from_parts
  record_expired self expired = elim (preflight_event_sequence self) [
    | err x ↦ (self, err x)
    | ok sequence ↦
        let key = request_key_from_parts sha256 expired.origin expired.request_id in
        elim (get key self.active_correlations) [
          | none ↦ (self, err inconsistent_correlation_state)
          | some token ↦
              push_event (record self { active_correlations = remove key self.active_correlations })
                sequence (request_expired expired.origin token)
        ]
  ]

unfoldable pub next_event : Journal → Journal × Option SessionEvent
next_event self = elim self.events [
  | [] ↦ (self, none)
  | oldest ∷ rest ↦ (record self { events = rest }, some oldest)
]

unfoldable pub clear_correlations : Journal → Journal
clear_correlations self = record self { active_correlations = []; pending_responses = [] }

unfoldable pub diagnostics : Journal → EventDiagnostics
diagnostics self = record {
  queued_events = length self.events;
  max_events = self.limits.events;
  evicted_events = self.evicted_events;
  active_correlations = length self.active_correlations;
  pending_response_correlations = length self.pending_responses;
}
