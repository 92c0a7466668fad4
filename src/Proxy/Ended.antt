-- ===== src/Proxy/Ended.antt =====
-- A request that ended, by its answer or by its expiry, has ended for good.
use mathlib.Core.Path.{subst}
use weregopher.Base.{ℕ, ◌≤◌, ◌≡◌, ap, ◌⊎◌, inl, inr, true, some, List, arith, Result, ok, err}
use weregopher.Base.Maps.{get}
use weregopher.Proxy.Message.{
  id_key, Direction, opposite, success_response, error_response, RequestId, Observation,
}
use weregopher.Proxy.Queue.{ProxyError, reused_request_id}
use weregopher.Proxy.State.{pending, Proxy, requests}
use weregopher.Proxy.Correlation.{late, is_retired, preflight_request, preflight_response}
use weregopher.Proxy.Admit.{Candidate, admit}
use weregopher.Proxy.Expire.{ExpiredRequest, expire_requests}
use weregopher.Proxy.Expire.Exact.{IsExpiry, expire_requests-IsExpiry}
use weregopher.Proxy.Run.{Call, run}
use weregopher.Proxy.Invariant.{Inv}
use weregopher.Proxy.Invariant.Calls.{IsPrepared, AllPrepared, admit-Sound}
use weregopher.Proxy.Invariant.History.{expire_requests-Sound}
use weregopher.Proxy.Answer.{response-Answered}
use weregopher.Proxy.Retirement.{NeverCloses, retired_for_good}
use weregopher.Proxy.Side.{IsCollisionFree}

module _ (sha256 : List ℕ → List ℕ) (d : Direction) (id : RequestId) where
  -- A call in which a forwarded request ends: its response is admitted, or it expires.
  pub data Ending (p q : Proxy) : Type 0 where
    by_answer :
        (c : Candidate) (o : Observation) (deadline : ℕ)
        → IsPrepared c
        → (c.observation.kind ≡ success_response) ⊎ (c.observation.kind ≡ error_response)
        → c.observation.direction ≡ opposite d
        → c.observation.request_id ≡ some id
        → get id (requests d p) ≡ some (pending deadline)
        → admit sha256 p c ≡ (q, ok o)
        → Ending p q
    by_expiry :
        (now deadline : ℕ) (es : List ExpiredRequest)
        → get id (requests d p) ≡ some (pending deadline)
        → deadline ≤ now
        → expire_requests sha256 p now ≡ (q, ok es)
        → Ending p q

  Ending-Retired :
      (p q : Proxy)
      → IsCollisionFree sha256
      → Inv sha256 p
      → Ending p q
      → Inv sha256 q × (is_retired sha256 q d id ≡ true)
  Ending-Retired p q apart v (by_answer c o deadline prepared kind from names found e) =
      let kept = (admit-Sound sha256 p c apart v prepared).keeps in
      let left : (admit sha256 p c).0 ≡ q =
        ap (λ (r : Proxy × Result ProxyError Observation). r.0) e in
      let said : (admit sha256 p c).1 ≡ ok o =
        ap (λ (r : Proxy × Result ProxyError Observation). r.1) e in
      let retired = (response-Answered sha256 d id p c deadline o v kind from names found said).0 in
      (
        subst (λ (r : Proxy). Inv sha256 r) left kept,
        subst (λ (r : Proxy). is_retired sha256 r d id ≡ true) left retired,
      )
  Ending-Retired p q apart v (by_expiry now deadline es found due e) =
      let kept = (expire_requests-Sound sha256 p now apart v).keeps in
      let left : (expire_requests sha256 p now).0 ≡ q =
        ap (λ (r : Proxy × Result ProxyError (List ExpiredRequest)). r.0) e in
      let fate : IsExpiry now (some (pending deadline)) (get id (requests d q))
          (is_retired sha256 q d id) =
        rw found at (expire_requests-IsExpiry sha256 p q now es d id apart v e) in
      elim fate [
        | inl gone ↦ (subst (λ (r : Proxy). Inv sha256 r) left kept, gone.2)
        | inr early ↦ absurd (omega (arith, early.0, due))
      ]

  -- A request that has ended stays ended. Once the response to a forwarded request was admitted, or
  -- a forwarded request expired with its deadline reached, then after every history of calls with
  -- prepared candidates that does not close the session, a new request with its identity in its
  -- direction is refused as reused, and a response to it is late and completes nothing. The
  -- session in which it ended is taken to satisfy its invariant, and SHA-256 to be free of
  -- collisions on request identities.
  pub ended_for_good :
      (instant_max : ℕ) (p q : Proxy) (cs : List Call)
      → IsCollisionFree sha256
      → AllPrepared cs
      → NeverCloses cs
      → Inv sha256 p
      → Ending p q
      → (preflight_request sha256 (run sha256 instant_max q cs) d id ≡ err (reused_request_id d))
        × (preflight_response sha256 (run sha256 instant_max q cs) (opposite d) id ≡ ok late)
  ended_for_good instant_max p q cs apart w open_still v ending =
      let (kept, retired) = Ending-Retired p q apart v ending in
      retired_for_good sha256 d id instant_max q cs apart w open_still kept retired
