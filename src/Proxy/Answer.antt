-- ===== src/Proxy/Answer.antt =====
-- A response to a forwarded request completes it.
use weregopher.Base.{
  bytes_key, ℕ, ◌≡◌, refl, ◌⊎◌, true, false, none, some, List, arith, Result, ok, bytes_eq_iff,
}
use weregopher.Base.Maps.{get, get-remove}
use weregopher.Proxy.Queue.{ProxyError, ProxyQueue}
use weregopher.Proxy.Message.{
  id_key, Direction, opposite, success_response, error_response, RequestId, id_eq_iff, Observation,
  request_id_digest,
}
use weregopher.Proxy.State.{
  pending, ProxyCounters, Proxy, queue, requests, request_history, set_queue,
}
use weregopher.Proxy.Correlation.{
  ResponseAction, is_retired, preflight_response, preflight_correlation, apply_correlation,
}
use weregopher.Proxy.Admit.{Candidate, admit}
use weregopher.Proxy.Admit.Cases.{admit_cases}
use weregopher.Proxy.Invariant.{Inv, set_side, side}
use weregopher.Proxy.Invariant.Plan.{preflight-correlates}
use weregopher.Proxy.Invariant.Completion.{completed, complete_request-whole}
use weregopher.Proxy.Invariant.Admission.{push, commit-applied}
use weregopher.Proxy.Retirement.{opposite_twice}
use weregopher.Proxy.Side.{contains-add_digest}

module _ (sha256 : List ℕ → List ℕ) (d : Direction) (id : RequestId) where
  -- What a response to a forwarded request left.
  abbrev Answered : {A : Type 0} → Proxy × Result ProxyError A → Type 0
  Answered r = (is_retired sha256 r.0 d id ≡ true) × (get id (requests d r.0) ≡ none)

  completed-Answered :
      (p : Proxy) (from : Direction) (q : ProxyQueue) (n : ProxyCounters) (o : Observation)
      → Answered (record (set_queue from q (completed sha256 p d id)) { counters = n }, ok o)
  unfolding is_retired set_side requests request_history set_queue
  completed-Answered p from q n o = ground (
    arith,
    contains-add_digest (request_id_digest sha256 id) (request_id_digest sha256 id)
        (request_history d p),
    (bytes_eq_iff (request_id_digest sha256 id) (request_id_digest sha256 id)).1 refl,
    get-remove id id (requests d p),
    (id_eq_iff id id).1 refl,
  )

  completes :
      (p : Proxy) (o : Observation) (a : ResponseAction) (deadline : ℕ)
      → (o.kind ≡ success_response) ⊎ (o.kind ≡ error_response)
      → o.direction ≡ opposite d
      → o.request_id ≡ some id
      → get id (requests d p) ≡ some (pending deadline)
      → is_retired sha256 p d id ≡ false
      → preflight_correlation sha256 p o ≡ ok a
      → apply_correlation sha256 p o a ≡ (completed sha256 p d id, ok tt)
  unfolding preflight_correlation preflight_response apply_correlation
  completes p o a deadline kind from names found free e =
      let whole = complete_request-whole sha256 p d id deadline found free in
      ground (arith, opposite_twice d, whole)

  -- On a session that satisfies its invariant, an admitted response to a forwarded request
  -- completes it: the request is no longer live in its direction, and its identity is retired
  -- there.
  pub response-Answered :
      (p : Proxy) (c : Candidate) (deadline : ℕ) (o : Observation)
      → Inv sha256 p
      → (c.observation.kind ≡ success_response) ⊎ (c.observation.kind ≡ error_response)
      → c.observation.direction ≡ opposite d
      → c.observation.request_id ≡ some id
      → get id (requests d p) ≡ some (pending deadline)
      → (admit sha256 p c).1 ≡ ok o
      → (is_retired sha256 (admit sha256 p c).0 d id ≡ true)
        × (get id (requests d (admit sha256 p c).0) ≡ none)
  unfolding is_retired
  response-Answered p c deadline o v kind from names found =
      let free = (side sha256 p v d).unretired id (ground (arith, found)) in
      admit_cases sha256 p c (λ r. r.1 ≡ ok o → Answered r) (λ x why done. absurd (ground arith))
        λ a n e done.
          let applied =
            completes p c.observation a deadline kind from names found free
              (preflight-correlates sha256 p c a n e) in
          let r = completed sha256 p d id in
          let at = c.observation.direction in
          rw (commit-applied sha256 p c a n r applied)
            (completed-Answered p at (push c (queue at r)) n c.observation)
