-- ===== src/Examples/Controls.antt =====
-- A journal of two events, and a policy of two rules.
use weregopher.Controls.Journal.Key.{key_eq, correlation_preimage, correlation_key}
use weregopher.Base.{to_le_bytes, ℕ, ◌≡◌, refl, ◌↔◌, ◌⊎◌, none, some, List, [], ◌∷◌, ok, bytes_eq}
use weregopher.Controls.Policy.{BlockRule, forward, block, InterceptionPolicy, new_policy, evaluate}
use weregopher.Controls.Policy.Valid.{total_bytes, IsAdmissible, new_policy_iff}
use weregopher.Controls.Policy.Selection.{Selects, evaluate_iff}
use weregopher.Base.Maps.{get, insert}
use weregopher.Controls.Journal.{
  preflight_message, record_forwarded, record_blocked, EventLimits, Journal, new, new_limits,
  record_accepted,
}
use weregopher.Controls.Journal.History.{
  accepts, forwards, blocks, JournalCall, records, takes, record_entry, step, run,
  record_entry-Recorded, run-JournalInv,
}
use weregopher.Controls.Journal.Recording.{JournalInv, Recorded}
use weregopher.Proxy.Message.{
  client_to_server, server_to_client, Kind, request, notification, success_response, unsigned,
  Observation,
}
use weregopher.Proxy.Text.{is_bounded_text, has_control, text}

abbrev message_of : Kind → Observation
message_of kind = record {
  direction = client_to_server;
  kind = kind;
  method = some (text "ping");
  request_id = some (unsigned 7);
  byte_length = 40;
}

abbrev answer : Observation
answer = record {
  direction = server_to_client;
  kind = success_response;
  method = none;
  request_id = some (unsigned 7);
  byte_length = 9;
}

abbrev two_events : EventLimits
two_events = record { events = 2 }

-- A request, its delivery, its answer and a blocked notification; one event is taken.
abbrev calls : List JournalCall
calls =
    records (accepts (message_of request))
    ∷ records (forwards (message_of request))
    ∷ records (accepts answer)
    ∷ takes
    ∷ records (blocks (message_of notification) 3)
    ∷ []

abbrev recorded : ℕ × Journal
recorded = run (λ bytes. bytes) (0, new two_events 4096) calls

run-JournalInv_example : JournalInv recorded.0 recorded.1
unfolding new_limits
run-JournalInv_example = run-JournalInv (λ bytes. bytes) two_events 2 4096 calls refl

record_entry-Recorded_example :
    Recorded 0
      (new two_events 4096)
      (record_entry (λ bytes. bytes) (new two_events 4096) (accepts (message_of request)))
unfolding new_limits run new
record_entry-Recorded_example =
    record_entry-Recorded (λ bytes. bytes) 0 (new two_events 4096) (accepts (message_of request))
      (run-JournalInv (λ bytes. bytes) two_events 2 4096 [] refl)

-- The oldest event was evicted, one was taken, two are queued, and four were recorded.
recorded_counts :
    (recorded.0 ≡ 1) × (recorded.1.evicted_events ≡ 1) × (recorded.1.last_sequence ≡ 4)
unfolding run step record_entry new record_accepted preflight_message record_forwarded
    record_blocked is_bounded_text has_control get insert key_eq bytes_eq correlation_preimage
    to_le_bytes
recorded_counts = (refl, refl, refl)

abbrev ping_rule : BlockRule
ping_rule = record {
  id = 3;
  direction = client_to_server;
  kind = notification;
  method = text "ping";
}

abbrev pong_rule : BlockRule
pong_rule = record {
  id = 4;
  direction = client_to_server;
  kind = notification;
  method = text "pong";
}

abbrev rules : List BlockRule
rules = pong_rule ∷ ping_rule ∷ []

abbrev policy : InterceptionPolicy
policy = record { rules = rules; method_bytes = 8 }

new_policy_iff_example :
    (new_policy rules ≡ ok policy)
    ↔ ((policy ≡ record { rules = rules; method_bytes = total_bytes rules }) × IsAdmissible rules)
new_policy_iff_example = new_policy_iff rules policy

evaluate_iff_example :
    ((id : ℕ)
      → (evaluate policy (message_of notification) ≡ block id)
        ↔ Selects rules (message_of notification) id)
    × ((evaluate policy (message_of notification) ≡ forward)
        ⊎ ((id : ℕ) × (evaluate policy (message_of notification) ≡ block id)))
unfolding new_policy bytes_eq
evaluate_iff_example = evaluate_iff rules policy (message_of notification) refl
