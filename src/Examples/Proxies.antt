-- ===== src/Examples/Proxies.antt =====
-- A session of the proxy, hashed by the identity in place of SHA-256.
use weregopher.Base.{
  bytes_key, ℕ, ◌≡◌, refl, inl, true, none, some, List, [], ◌∷◌, ◌++◌, arith, length, ok, err,
  to_le_bytes, bytes_eq,
}
use weregopher.Base.Maps.{contains, get, insert, remove, modify, keys_where}
use weregopher.Proxy.Queue.{
  ensure_capacity, push_after_capacity_check, pop, front, reused_request_id,
}
use weregopher.Proxy.Queue
use weregopher.Proxy.Limits.{initial, limits_eq}
use weregopher.Proxy.Message.{
  id_key, client_to_server, server_to_client, request, success_response, unsigned, id_eq,
  id_preimage, request_id_digest,
}
use weregopher.Proxy.Message.Digest.{id_preimage-injective}
use weregopher.Proxy.State.{
  pending, Proxy, new, queue, requests, request_history, set_queue, set_requests,
  set_request_history, add_digest, increment, add, ensure_monotonic_time,
}
use weregopher.Proxy.Correlation.{
  late, active_count, tracked_count, is_retired, preflight_request, preflight_response,
  preflight_correlation, open_request, complete_request, apply_correlation,
}
use weregopher.Proxy.Admit.{Candidate, next_counters, preflight, commit, admit_candidate, admit}
use weregopher.Proxy.Release.{
  forwarded_next, deadline_for, mark_pending, take_front, plan_release, release_front, release,
}
use weregopher.Proxy.Expire.Exact.{ExpiryOutcome, expire_requests-exact}
use weregopher.Proxy.Ended.{by_expiry, ended_for_good}
use weregopher.Proxy.Expire.{
  ExpiredRequest, expired_direction, all_expired, retire_all, expire_requests,
}
use weregopher.Proxy.Run.{Call, ingests, admits, releases, expires, step, run}
use weregopher.Proxy.Order.{all_arrivals, all_departures, run-frames}
use weregopher.Proxy.Invariant.{Inv, Sound}
use weregopher.Proxy.Invariant.Calls.{IsPrepared, AllPrepared, admit-Sound, release-Sound}
use weregopher.Proxy.Invariant.History.{run-Inv}
use weregopher.Proxy.Answer.{response-Answered}
use weregopher.Proxy.Side.{IsCollisionFree}

abbrev pub hash : List ℕ → List ℕ
hash bytes = bytes

pub hash-IsCollisionFree : IsCollisionFree hash
unfolding request_id_digest
hash-IsCollisionFree a b p q e = id_preimage-injective a b p q e

abbrev asks : Candidate
asks = record {
  prepared_limits = initial;
  observation = record {
    direction = client_to_server;
    kind = request;
    method = some (109 ∷ []);
    request_id = some (unsigned 7);
    byte_length = 3;
  };
  json_bytes = 1 ∷ 2 ∷ 3 ∷ [];
}

abbrev replies : Candidate
replies = record {
  prepared_limits = initial;
  observation = record {
    direction = server_to_client;
    kind = success_response;
    method = none;
    request_id = some (unsigned 7);
    byte_length = 2;
  };
  json_bytes = 4 ∷ 5 ∷ [];
}

asks-IsPrepared : IsPrepared asks
asks-IsPrepared = record { identified = λ e. refl; wire = λ id e. ground arith }

replies-IsPrepared : IsPrepared replies
replies-IsPrepared = record { identified = λ e. refl; wire = λ id e. ground arith }

abbrev session : List Call
session =
    ingests asks
    ∷ releases client_to_server 10
    ∷ admits replies
    ∷ releases server_to_client 12
    ∷ admits replies
    ∷ expires 20
    ∷ []

session-AllPrepared : AllPrepared session
session-AllPrepared = (asks-IsPrepared, (replies-IsPrepared, (replies-IsPrepared, tt)))

after_session : length (run hash 1000000000000 (new initial) session).client_request_history ≡ 1
unfolding run step new Queue.new initial admit_candidate admit preflight ensure_capacity
    preflight_correlation preflight_request preflight_response active_count tracked_count is_retired
    next_counters increment add commit apply_correlation open_request complete_request set_requests
    set_request_history set_queue push_after_capacity_check queue requests request_history
    add_digest request_id_digest id_preimage id_eq bytes_eq get insert remove modify contains
    release release_front plan_release deadline_for forwarded_next mark_pending take_front pop front
    ensure_monotonic_time limits_eq expire_requests all_expired expired_direction retire_all
    keys_where to_le_bytes
after_session = refl

run-Inv_example : Inv hash (run hash 1000000000000 (new initial) session)
run-Inv_example =
    run-Inv hash 1000000000000 initial session hash-IsCollisionFree session-AllPrepared

abbrev asked : Proxy
asked = run hash 1000000000000 (new initial) (ingests asks ∷ [])

asked-Inv : Inv hash asked
asked-Inv =
    run-Inv hash 1000000000000 initial (ingests asks ∷ []) hash-IsCollisionFree
      (asks-IsPrepared, tt)

admit-Sound_example : Sound hash asked (admit hash asked replies)
admit-Sound_example =
    admit-Sound hash asked replies hash-IsCollisionFree asked-Inv replies-IsPrepared

release-Sound_example : Sound hash asked (release 1000000000000 asked client_to_server 10)
release-Sound_example = release-Sound hash 1000000000000 asked client_to_server 10 asked-Inv

run-frames_example :
    (queue client_to_server asked).frames
      ++ all_arrivals hash 1000000000000 client_to_server asked session
    ≡ all_departures hash 1000000000000 client_to_server asked session
      ++ (queue client_to_server (run hash 1000000000000 asked session)).frames
run-frames_example = run-frames hash 1000000000000 client_to_server asked session

abbrev later : List Call
later = admits asks ∷ admits replies ∷ []

abbrev forwarded : Proxy
forwarded = run hash 1000000000000 (new initial) (ingests asks ∷ releases client_to_server 10 ∷ [])

forwarded-pending :
    get (unsigned 7) (requests client_to_server forwarded) ≡ some (pending 300000000010)
unfolding run step new Queue.new initial admit_candidate preflight ensure_capacity
    preflight_correlation preflight_request active_count tracked_count is_retired next_counters
    increment add commit apply_correlation open_request set_requests set_queue
    push_after_capacity_check queue requests request_history request_id_digest id_preimage id_eq get
    insert modify contains release release_front plan_release deadline_for forwarded_next
    mark_pending take_front pop front ensure_monotonic_time to_le_bytes
forwarded-pending = refl

forwarded-replies : (admit hash forwarded replies).1 ≡ ok replies.observation
unfolding run step new Queue.new initial admit_candidate admit preflight ensure_capacity
    preflight_correlation preflight_request preflight_response active_count tracked_count is_retired
    next_counters increment add commit apply_correlation open_request complete_request set_requests
    set_request_history set_queue push_after_capacity_check queue requests request_history
    add_digest request_id_digest id_preimage id_eq bytes_eq get insert remove modify contains
    release release_front plan_release deadline_for forwarded_next mark_pending take_front pop front
    ensure_monotonic_time limits_eq to_le_bytes
forwarded-replies = refl

response-Answered_example :
    (is_retired hash (admit hash forwarded replies).0 client_to_server (unsigned 7) ≡ true)
    × (get (unsigned 7) (requests client_to_server (admit hash forwarded replies).0) ≡ none)
response-Answered_example =
    response-Answered hash client_to_server (unsigned 7) forwarded replies 300000000010
      replies.observation
      (run-Inv hash 1000000000000 initial (ingests asks ∷ releases client_to_server 10 ∷ [])
        hash-IsCollisionFree (asks-IsPrepared, tt))
      (inl refl) refl refl forwarded-pending forwarded-replies

forwarded-Inv : Inv hash forwarded
forwarded-Inv =
    run-Inv hash 1000000000000 initial (ingests asks ∷ releases client_to_server 10 ∷ [])
      hash-IsCollisionFree (asks-IsPrepared, tt)

abbrev overdue : ExpiredRequest
overdue = record { origin = client_to_server; request_id = unsigned 7 }

abbrev expired : Proxy
expired = (expire_requests hash forwarded 300000000010).0

forwarded-expires : expire_requests hash forwarded 300000000010 ≡ (expired, ok (overdue ∷ []))
unfolding run step new Queue.new initial admit_candidate admit preflight ensure_capacity
    preflight_correlation preflight_request preflight_response active_count tracked_count is_retired
    next_counters increment add commit apply_correlation open_request complete_request set_requests
    set_request_history set_queue push_after_capacity_check queue requests request_history
    add_digest request_id_digest id_preimage id_eq bytes_eq get insert remove modify contains
    release release_front plan_release deadline_for forwarded_next mark_pending take_front pop front
    ensure_monotonic_time limits_eq expire_requests all_expired expired_direction retire_all
    keys_where to_le_bytes
forwarded-expires = refl

expire_requests-exact_example :
    ExpiryOutcome hash forwarded 300000000010 client_to_server
      (unsigned 7)
      (expire_requests hash forwarded 300000000010)
expire_requests-exact_example =
    expire_requests-exact hash forwarded 300000000010 client_to_server (unsigned 7)
      hash-IsCollisionFree forwarded-Inv

ended_for_good_example :
    (preflight_request hash (run hash 1000000000000 expired later) client_to_server (unsigned 7)
      ≡ err (reused_request_id client_to_server))
    × (preflight_response hash (run hash 1000000000000 expired later) server_to_client (unsigned 7)
        ≡ ok late)
ended_for_good_example =
    ended_for_good hash client_to_server (unsigned 7) 1000000000000 forwarded expired later
      hash-IsCollisionFree (asks-IsPrepared, (replies-IsPrepared, tt)) tt forwarded-Inv
      (by_expiry 300000000010 300000000010 (overdue ∷ []) forwarded-pending (omega arith)
        forwarded-expires)
