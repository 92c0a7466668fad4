-- ===== src/Proxy/Invariant/Admission.antt =====
-- An admission keeps the invariant, and what passed its preflight is written whole.
use weregopher.Base.{
  bytes_key, ℕ, ◌≡◌, refl, sym, ◌∙◌, inl, inr, none, some, List, arith, length, ok,
}
use weregopher.Base.Maps.{insert, length-insert_new}
use weregopher.Proxy.Message.{id_key, Direction, opposite, RequestId, Frame}
use weregopher.Proxy.Message.Digest.{IsWireId}
use weregopher.Proxy.State.{
  queued, ProxyCounters, Proxy, queue, requests, request_history, set_queue,
}
use weregopher.Proxy.Queue.{ProxyQueue, ensure_capacity, push_after_capacity_check}
use weregopher.Proxy.Correlation.{ResponseAction, is_retired, open_request, apply_correlation}
use weregopher.Proxy.Admit.{Candidate, preflight, commit}
use weregopher.Proxy.Release.{released_id}
use weregopher.Proxy.Invariant.{
  Inv, set_side, active-set_side, tracked-set_side, set_side_queue, side, set_side-Inv,
  set_counters-Inv,
}
use weregopher.Proxy.Invariant.Plan.{Opens, Answers, Passes, preflight-Plan}
use weregopher.Proxy.Invariant.Completion.{
  completed, complete_request-whole, completed-Inv, completed-queue,
}
use weregopher.Proxy.Side.{IsCollisionFree, push-SideInv, open-SideInv}

abbrev pub frame_of : Candidate → Frame
frame_of c = record { observation = c.observation; json_bytes = c.json_bytes }

abbrev pub push : Candidate → ProxyQueue → ProxyQueue
push c q = push_after_capacity_check q (frame_of c)

module _ (sha256 : List ℕ → List ℕ) (p : Proxy) (c : Candidate) (a : ResponseAction)
    (n : ProxyCounters) where
  abbrev pub d : Direction
  d = c.observation.direction

  abbrev Written : Type 0
  Written = (commit sha256 p c a n).1 ≡ ok c.observation

  commit-Opens :
      (id : RequestId)
      → Opens sha256 p c.observation id
      → commit sha256 p c a n ≡ (
        record (set_side d
            (push c (queue d p))
            (insert id queued (requests d p))
            (request_history d p)
            p) { counters = n },
        ok c.observation,
      )
  unfolding commit apply_correlation open_request set_side queue requests request_history
  commit-Opens id o = ground (arith, o.is_request, o.names, o.new)

  Opens-Inv :
      (id : RequestId)
      → Inv sha256 p
      → ensure_capacity (queue d p) (length c.json_bytes) ≡ ok tt
      → IsWireId id
      → Opens sha256 p c.observation id
      → Inv sha256 (commit sha256 p c a n).0 × Written
  unfolding push_after_capacity_check
  Opens-Inv id v room wire o =
      let q = queue d p in
      let h = request_history d p in
      let m = insert id queued (requests d p) in
      let asks : released_id c.observation.kind c.observation.request_id ≡ some id = ground arith in
      let w =
        open-SideInv sha256 q (requests d p) h (frame_of c) id (side sha256 p v d) room asks wire
          o.new (unfold is_retired in o.fresh) in
      let longer = length-insert_new id queued (requests d p) o.new in
      let kept =
        set_side-Inv sha256 p v d (push c q) m h w refl
          (omega (arith, longer, active-set_side d (push c q) m h p, o.room))
          (omega (arith, longer, tracked-set_side d (push c q) m h p, o.history_room)) in
      let p' = set_side d (push c q) m h p in
      rw (commit-Opens id o) (set_counters-Inv sha256 p' kept n p'.last_observed_time, refl)

  -- A frame that is no request enters a session.
  push-Inv :
      (r : Proxy)
      → Inv sha256 r
      → ensure_capacity (queue d r) (length c.json_bytes) ≡ ok tt
      → released_id c.observation.kind c.observation.request_id ≡ none
      → Inv sha256 (record (set_queue d (push c (queue d r)) r) { counters = n })
  unfolding push_after_capacity_check
  push-Inv r v room plain =
      let q = queue d r in
      let m = requests d r in
      let h = request_history d r in
      let w = push-SideInv sha256 q m h (frame_of c) (side sha256 r v d) room plain in
      let kept =
        set_side-Inv sha256 r v d (push c q) m h w refl
          (omega (arith, active-set_side d (push c q) m h r, v.active_within))
          (omega (arith, tracked-set_side d (push c q) m h r, v.tracked_within)) in
      let same = set_side_queue d (push c q) r in
      let r' = set_queue d (push c q) r in
      set_counters-Inv sha256 r' (rw same at kept) n r'.last_observed_time

  pub commit-applied :
      (r : Proxy)
      → apply_correlation sha256 p c.observation a ≡ (r, ok tt)
      → commit sha256 p c a n
        ≡ (record (set_queue d (push c (queue d r)) r) { counters = n }, ok c.observation)
  unfolding commit
  commit-applied r e = ground (arith, e)

  Passes-Inv :
      Inv sha256 p
      → ensure_capacity (queue d p) (length c.json_bytes) ≡ ok tt
      → Passes sha256 p c.observation a
      → Inv sha256 (commit sha256 p c a n).0 × Written
  Passes-Inv v room o = rw (commit-applied p o.applies) (push-Inv p v room o.no_request, refl)

  Answers-Inv :
      (id : RequestId) (deadline : ℕ)
      → IsCollisionFree sha256
      → Inv sha256 p
      → ensure_capacity (queue d p) (length c.json_bytes) ≡ ok tt
      → Answers sha256 p c.observation a id deadline
      → Inv sha256 (commit sha256 p c a n).0 × Written
  Answers-Inv id deadline apart v room o =
      let origin = opposite d in
      let r = completed sha256 p origin id in
      let whole =
        o.applies ∙ complete_request-whole sha256 p origin id deadline o.waits o.unretired in
      let v' = completed-Inv sha256 p origin id deadline apart v o.waits in
      let same_queue = completed-queue sha256 p origin id d in
      rw (commit-applied r whole) (push-Inv r v' (rw (sym same_queue) at room) o.no_request, refl)

  pub commit-Inv :
      IsCollisionFree sha256
      → Inv sha256 p
      → ((id : RequestId) → c.observation.request_id ≡ some id → IsWireId id)
      → preflight sha256 p c ≡ ok (a, n)
      → Inv sha256 (commit sha256 p c a n).0 × Written
  commit-Inv apart v wire e =
      let (room, plan) = preflight-Plan sha256 p c a n e in
      elim plan [
        | inl (id, o) ↦ Opens-Inv id v room (wire id o.names) o
        | inr (inl (id, deadline, o)) ↦ Answers-Inv id deadline apart v room o
        | inr (inr o) ↦ Passes-Inv v room o
      ]
