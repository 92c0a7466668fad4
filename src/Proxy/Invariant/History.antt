-- ===== src/Proxy/Invariant/History.antt =====
-- The invariant from a session's start, through expiry and closing, over every history of calls.
use weregopher.Base.{
  bytes_key, ℕ, ◌≡◌, refl, ◌≢◌, inl, inr, false, some, List, [], ◌∷◌, arith, length, any, ok, err,
  Result-cases,
}
use weregopher.Base.Maps.{contains, get}
use weregopher.Proxy.Limits.{ProxyLimits}
use weregopher.Proxy.Queue.{ProxyQueue, clear, ProxyError, inconsistent_correlation_state}
use weregopher.Proxy.Queue
use weregopher.Proxy.Message.{id_key, client_to_server, server_to_client}
use weregopher.Proxy.State.{Proxy, new, add, ensure_monotonic_time, close}
use weregopher.Proxy.Correlation.{is_retired}
use weregopher.Proxy.Release.Cases.{ensure_monotonic_time-err}
use weregopher.Proxy.Expire.{all_expired, retire_all, expire_requests}
use weregopher.Proxy.Run.{Call, ingests, admits, releases, expires, closes, step, run}
use weregopher.Proxy.Invariant.{Inv, Sound, set_counters-Inv}
use weregopher.Proxy.Invariant.Calls.{
  AllPrepared, refused_as_it_was, admit-Sound, admit_candidate-Sound, good-Sound, release-Sound,
}
use weregopher.Proxy.Invariant.Expiry.{retire_all_expired, expired-unretired}
use weregopher.Proxy.Side.{SideInv, IsCollisionFree}
use weregopher.Proxy.Waiting.{waiting_ids}
use weregopher.Proxy.Queue.Accounting.{QueueInv, new-QueueInv, clear-QueueInv}

empty-SideInv :
    (sha256 : List ℕ → List ℕ) (q : ProxyQueue)
    → QueueInv q
    → q.frames ≡ []
    → SideInv sha256 q [] []
unfolding waiting_ids get contains
empty-SideInv sha256 q v e = record {
  queue_valid = v;
  distinct = tt;
  wire_ids = λ id live. cc;
  waiting = rw e tt;
  unretired = λ id live. cc;
}

add-err :
    (value amount : ℕ) (x : ProxyError)
    → add value amount ≡ err x
    → x ≢ inconsistent_correlation_state
unfolding add
add-err value amount x e = λ same. ground arith

module _ (sha256 : List ℕ → List ℕ) where
  pub new-Inv : (l : ProxyLimits) → Inv sha256 (new l)
  unfolding new Queue.new
  new-Inv l = record {
    client =
        empty-SideInv sha256 (new l).to_server (new-QueueInv client_to_server l.to_server) refl;
    server =
        empty-SideInv sha256 (new l).to_client (new-QueueInv server_to_client l.to_client) refl;
    active_within = omega arith;
    tracked_within = omega arith;
    to_server_limits = refl;
    to_client_limits = refl;
  }

  close-Inv : (p : Proxy) → Inv sha256 p → Inv sha256 (close p).0
  unfolding close clear
  close-Inv p v = record {
    client =
        empty-SideInv sha256 (close p).0.to_server
          (unfold clear in clear-QueueInv p.to_server v.client.queue_valid) refl;
    server =
        empty-SideInv sha256 (close p).0.to_client
          (unfold clear in clear-QueueInv p.to_client v.server.queue_valid) refl;
    active_within = omega arith;
    tracked_within = omega arith;
    to_server_limits = v.to_server_limits;
    to_client_limits = v.to_client_limits;
  }

  -- A session with the requests retired, the clock and the counter moved.
  expired_at : Proxy → ℕ → ℕ → Proxy
  expired_at r count now = record r {
    counters = record r.counters { expired_requests = count };
    last_observed_time = some now;
  }

  expire_requests-whole :
      (p r : Proxy) (now count : ℕ)
      → ensure_monotonic_time p now ≡ ok tt
      → add p.counters.expired_requests (length (all_expired p now)) ≡ ok count
      → any (λ e. is_retired sha256 p e.origin e.request_id) (all_expired p now) ≡ false
      → retire_all sha256 p (all_expired p now) ≡ (r, ok tt)
      → expire_requests sha256 p now ≡ (expired_at r count now, ok (all_expired p now))
  unfolding expire_requests expired_at
  expire_requests-whole p r now count timely fits free whole =
      ground (arith, timely, fits, free, whole)

  expired_at-Inv : (r : Proxy) (count now : ℕ) → Inv sha256 r → Inv sha256 (expired_at r count now)
  unfolding expired_at
  expired_at-Inv r count now v =
      set_counters-Inv sha256 r v (record r.counters { expired_requests = count }) (some now)

  -- Expiry is atomic: on a session that satisfies its invariant, expiry either succeeds or
  -- leaves the session as it was, keeps the invariant, and never reports an inconsistent
  -- correlation state. SHA-256 is taken to be free of collisions on request identities.
  pub expire_requests-Sound :
      (p : Proxy) (now : ℕ)
      → IsCollisionFree sha256
      → Inv sha256 p
      → Sound sha256 p (expire_requests sha256 p now)
  unfolding expire_requests
  expire_requests-Sound p now apart v =
      let expired = all_expired p now in
      let (r, whole, kept) = retire_all_expired sha256 p now apart v in
      let free = expired-unretired sha256 p now v in
      elim (Result-cases (ensure_monotonic_time p now)) [
        | inr (x, early) ↦
            rw (early, expire_requests)
              (refused_as_it_was sha256 p x v (ensure_monotonic_time-err p now x early))
        | inl (u, timely) ↦ elim (Result-cases (add p.counters.expired_requests (length expired))) [
          | inr (x, full) ↦
              rw (timely, full, expire_requests)
                (refused_as_it_was sha256 p x v
                  (add-err p.counters.expired_requests (length expired) x full))
          | inl (count, fits) ↦ rw (expire_requests-whole p r now count timely fits free whole) (
              good-Sound sha256 p (expired_at r count now) expired
                (expired_at-Inv r count now kept))
        ]
      ]

  step-Inv :
      (instant_max : ℕ) (p : Proxy) (c : Call)
      → IsCollisionFree sha256
      → AllPrepared (c ∷ [])
      → Inv sha256 p
      → Inv sha256 (step sha256 instant_max p c)
  unfolding step
  step-Inv instant_max p (ingests c) apart w v =
      (admit_candidate-Sound sha256 p c apart v w.0).keeps
  step-Inv instant_max p (admits c) apart w v = (admit-Sound sha256 p c apart v w.0).keeps
  step-Inv instant_max p (releases d now) apart w v =
      (release-Sound sha256 instant_max p d now v).keeps
  step-Inv instant_max p (expires now) apart w v = (expire_requests-Sound p now apart v).keeps
  step-Inv instant_max p closes apart w v = close-Inv p v

  AllPrepared-cons :
      (c : Call) (cs : List Call) → AllPrepared (c ∷ cs) → AllPrepared (c ∷ []) × AllPrepared cs
  AllPrepared-cons (ingests c) cs w = ((w.0, tt), w.1)
  AllPrepared-cons (admits c) cs w = ((w.0, tt), w.1)
  AllPrepared-cons (releases d now) cs w = (tt, w)
  AllPrepared-cons (expires now) cs w = (tt, w)
  AllPrepared-cons closes cs w = (tt, w)

  pub run_from-Inv :
      (instant_max : ℕ) (p : Proxy) (cs : List Call)
      → IsCollisionFree sha256
      → AllPrepared cs
      → Inv sha256 p
      → Inv sha256 (run sha256 instant_max p cs)
  unfolding run
  run_from-Inv instant_max p [] apart w v = v
  run_from-Inv instant_max p (c ∷ cs) apart w v =
      let (one, more) = AllPrepared-cons c cs w in
      run_from-Inv instant_max (step sha256 instant_max p c) cs apart more
        (step-Inv instant_max p c apart one v)

  -- From a session's start, whatever the history of calls with prepared candidates, the
  -- invariant holds: every direction's queue knows its bytes and is within its limits, every
  -- request that still waits in a queue is queued in the map and waits once, no live identity is
  -- retired, and the live and the retired identities are within their limits. SHA-256 is taken
  -- to be free of collisions on request identities.
  pub run-Inv :
      (instant_max : ℕ) (l : ProxyLimits) (cs : List Call)
      → IsCollisionFree sha256
      → AllPrepared cs
      → Inv sha256 (run sha256 instant_max (new l) cs)
  run-Inv instant_max l cs apart w = run_from-Inv instant_max (new l) cs apart w (new-Inv l)
