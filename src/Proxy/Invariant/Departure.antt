-- ===== src/Proxy/Invariant/Departure.antt =====
-- A release keeps the invariant, and finds the request of its frame queued.
use weregopher.Base.{
  bytes_key, ℕ, ◌≡◌, refl, inl, inr, Option, none, some, List, ◌∷◌, arith, Option-cases, List-cases,
  Result, ok,
}
use weregopher.Base.Maps.{modify, length-modify}
use weregopher.Proxy.Message.{id_key, Direction, RequestId, Frame}
use weregopher.Proxy.State.{
  pending, ProxyCounters, Proxy, queue, requests, request_history, set_queue, set_requests,
  set_request_history,
}
use weregopher.Proxy.Queue.{ProxyError, ProxyQueue, front}
use weregopher.Proxy.Queue.Accounting.{rest_of, pop-cons}
use weregopher.Proxy.Release.{released_id, mark_pending, take_front}
use weregopher.Proxy.Release.Cases.{id_of}
use weregopher.Proxy.Invariant.{
  Inv, set_side, active-set_side, tracked-set_side, set_side_queue, side, set_side-Inv,
  set_counters-Inv,
}
use weregopher.Proxy.Side.{waiting_front, plain-SideInv, start-SideInv}

pub frames_of-front :
    (q : ProxyQueue) (f : Frame) → front q ≡ some f → (rest : List Frame) × (q.frames ≡ f ∷ rest)
unfolding front
frames_of-front q f e = elim (List-cases q.frames) [
  | inl none_left ↦ absurd (ground (arith, none_left))
  | inr (g, rest, more) ↦ (rest, ground (arith, more))
]

module _ (sha256 : List ℕ → List ℕ) (p : Proxy) (d : Direction) (n : ProxyCounters) (now : ℕ)
    (f : Frame) (rest : List Frame) (v : Inv sha256 p)
    (at_front : (queue d p).frames ≡ f ∷ rest) where
  take_front-whole :
      (m : Proxy)
      → queue d m ≡ queue d p
      → take_front m d n now ≡ (
        record (set_queue d (rest_of (queue d p) rest) m) {
          counters = n;
          last_observed_time = some now;
        },
        ok (some f),
      )
  unfolding take_front
  take_front-whole m same =
      ground (arith, same, pop-cons (queue d p) f rest (side sha256 p v d).queue_valid at_front)

  abbrev Good : Proxy × Result ProxyError (Option Frame) → Type 0
  Good r = Inv sha256 r.0 × (r.1 ≡ ok (some f))

  plain-Good :
      released_id f.observation.kind f.observation.request_id ≡ none → Good (take_front p d n now)
  plain-Good plain =
      let q = queue d p in
      let m = requests d p in
      let h = request_history d p in
      let w = plain-SideInv sha256 q m h f rest (side sha256 p v d) at_front plain in
      let kept =
        set_side-Inv sha256 p v d (rest_of q rest) m h w refl
          (omega (arith, active-set_side d (rest_of q rest) m h p, v.active_within))
          (omega (arith, tracked-set_side d (rest_of q rest) m h p, v.tracked_within)) in
      let same = set_side_queue d (rest_of q rest) p in
      rw (take_front-whole p refl) (
        set_counters-Inv sha256 (set_queue d (rest_of q rest) p) (rw same at kept) n (some now),
        refl,
      )

  started : RequestId → ℕ → Proxy
  started id deadline = set_requests d (modify id (λ _. pending deadline) (requests d p)) p

  started-side :
      (id : RequestId) (deadline : ℕ)
      → set_side d
          (rest_of (queue d p) rest)
          (modify id (λ _. pending deadline) (requests d p))
          (request_history d p)
          p
        ≡ set_queue d (rest_of (queue d p) rest) (started id deadline)
  unfolding set_side set_queue started set_requests set_request_history request_history
  started-side id deadline = ground arith

  started-queue : (id : RequestId) (deadline : ℕ) → queue d (started id deadline) ≡ queue d p
  unfolding started queue set_requests
  started-queue id deadline = ground arith

  started-Good :
      (id : RequestId) (deadline : ℕ)
      → released_id f.observation.kind f.observation.request_id ≡ some id
      → Good (take_front (started id deadline) d n now)
  started-Good id deadline asks =
      let q = queue d p in
      let m = modify id (λ _. pending deadline) (requests d p) in
      let h = request_history d p in
      let w =
        start-SideInv sha256 q (requests d p) h f rest id deadline (side sha256 p v d) at_front
          asks in
      let as_many = length-modify id (λ _. pending deadline) (requests d p) in
      let kept =
        set_side-Inv sha256 p v d (rest_of q rest) m h w refl
          (omega (arith, as_many, active-set_side d (rest_of q rest) m h p, v.active_within))
          (omega (arith, as_many, tracked-set_side d (rest_of q rest) m h p, v.tracked_within)) in
      let same = started-side id deadline in
      rw (take_front-whole (started id deadline) (started-queue id deadline)) (
        set_counters-Inv sha256 (set_queue d (rest_of q rest) (started id deadline))
            (rw same at kept) n (some now),
        refl,
      )

  -- Marking the frame's request succeeds, and taking the frame then succeeds too.
  pub mark_pending-Good :
      (deadline : ℕ)
      → (m : Proxy) × (mark_pending p d (id_of f) deadline ≡ ok m) × Good (take_front m d n now)
  unfolding mark_pending started
  mark_pending-Good deadline = elim (Option-cases (id_of f)) [
    | inl plain ↦ (p, ground (arith, plain), plain-Good plain)
    | inr (id, asks) ↦
        let (found, _, _) =
          waiting_front (queue d p) (requests d p) f rest id (side sha256 p v d).waiting at_front
            asks in
        (started id deadline, ground (arith, asks, found), started-Good id deadline asks)
  ]
