-- ===== src/Proxy/Invariant/Completion.antt =====
-- A forwarded request that is answered, or expires, is completed whole and keeps the invariant.
use weregopher.Base.{bytes_key, ℕ, ◌<◌, ◌≡◌, refl, false, some, List, arith, length, ok}
use weregopher.Base.Maps.{get, remove, length-remove-lt}
use weregopher.Proxy.Message.{id_key, Direction, opposite, RequestId, request_id_digest}
use weregopher.Proxy.State.{
  pending, Proxy, queue, requests, request_history, set_requests, set_request_history, add_digest,
}
use weregopher.Proxy.Correlation.{is_retired, complete_request}
use weregopher.Proxy.Invariant.{
  Inv, set_side, active-set_side, tracked-set_side, side, set_side-Inv,
}
use weregopher.Proxy.Side.{length-add_digest, IsCollisionFree, complete-SideInv}

module _ (sha256 : List ℕ → List ℕ) (p : Proxy) (origin : Direction) (id : RequestId) where
  abbrev digest : List ℕ
  digest = request_id_digest sha256 id

  -- The session in which the request is retired.
  abbrev pub completed : Proxy
  completed =
      set_side origin (queue origin p) (remove id (requests origin p))
        (add_digest digest (request_history origin p)) p

  pub complete_request-whole :
      (deadline : ℕ)
      → get id (requests origin p) ≡ some (pending deadline)
      → is_retired sha256 p origin id ≡ false
      → complete_request sha256 p origin id ≡ (completed, ok tt)
  unfolding complete_request is_retired set_side queue requests request_history set_requests
      set_request_history
  complete_request-whole deadline found free = ground (arith, found, free)

  pub completed-Inv :
      (deadline : ℕ)
      → IsCollisionFree sha256
      → Inv sha256 p
      → get id (requests origin p) ≡ some (pending deadline)
      → Inv sha256 completed
  completed-Inv deadline apart v found =
      let q = queue origin p in
      let m = remove id (requests origin p) in
      let h = add_digest digest (request_history origin p) in
      let w =
        complete-SideInv sha256 q (requests origin p) (request_history origin p) id deadline apart
          (side sha256 p v origin) found in
      let shorter : length m < length (requests origin p) =
        length-remove-lt id (requests origin p) (ground (arith, found)) in
      let one_more = length-add_digest digest (request_history origin p) in
      set_side-Inv sha256 p v origin q m h w refl
        (omega (arith, shorter, active-set_side origin q m h p, v.active_within))
        (omega (arith, shorter, one_more, tracked-set_side origin q m h p, v.tracked_within))

  pub completed-queue : (d : Direction) → queue d completed ≡ queue d p
  unfolding set_side queue
  completed-queue d = ground arith

  pub completed-requests : requests origin completed ≡ remove id (requests origin p)
  unfolding set_side requests
  completed-requests = ground arith

  pub completed-other : requests (opposite origin) completed ≡ requests (opposite origin) p
  unfolding set_side requests
  completed-other = ground arith
