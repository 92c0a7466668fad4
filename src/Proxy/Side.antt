-- ===== src/Proxy/Side.antt =====
-- One direction of the proxy: its queue, its unresolved requests, and the identities it retired.
use mathlib.Core.List.{append-nil}
use weregopher.Base.{
  ℕ, suc, ◌≡◌, ◌∙◌, ◌≢◌, ◌≤◌, true, false, ◌||◌, none, some, List, ◌∷◌, ok, arith, inl, inr, ◌⊎◌,
  Bool-cases, is_some, length, bytes_eq, bytes_eq_iff, bytes_key,
}
use weregopher.Base.Maps.{
  Map, get, insert, remove, modify, contains, IsDistinct, get-insert, get-remove, get-modify,
  insert-IsDistinct, remove-IsDistinct, modify-IsDistinct,
}
use weregopher.Proxy.Message.{RequestId, id_key, id_eq, id_eq_iff, Frame, request_id_digest}
use weregopher.Proxy.Message.Digest.{IsWireId}
use weregopher.Proxy.Queue.{ProxyQueue, ensure_capacity, push_after_capacity_check}
use weregopher.Proxy.Queue.Accounting.{QueueInv, push-QueueInv, rest_of, rest_of-QueueInv}
use weregopher.Proxy.State.{ActiveRequestState, queued, pending, Digests, add_digest}
use weregopher.Proxy.Release.{released_id}
use weregopher.Proxy.Waiting.{
  waiting_ids, Queued, Queued-missing, Queued-change, Queued-append, waiting_ids-append,
}

abbrev pub Requests : Type 0
Requests = Map RequestId ActiveRequestState

live-insert :
    (id j : RequestId) (a : ActiveRequestState) (m : Requests)
    → is_some (get j (insert id a m)) ≡ true
    → (id ≡ j) ⊎ (is_some (get j m) ≡ true)
live-insert id j a m live = elim (Bool-cases (id_eq id j)) [
  | inl same ↦ inl ((id_eq_iff id j).0 same)
  | inr other ↦ inr (ground (arith, get-insert id j a m))
]

live-remove :
    (id j : RequestId) (m : Requests)
    → is_some (get j (remove id m)) ≡ true
    → (id ≢ j) × (is_some (get j m) ≡ true)
live-remove id j m live = elim (Bool-cases (id_eq id j)) [
  | inl same ↦ absurd (ground (arith, get-remove id j m))
  | inr other ↦
      (λ e. ground (arith, (id_eq_iff id j).1 e, other), ground (arith, get-remove id j m))
]

live-modify :
    (id j : RequestId) (g : ActiveRequestState → ActiveRequestState) (m : Requests)
    → is_some (get j (modify id g m)) ≡ true
    → is_some (get j m) ≡ true
live-modify id j g m live = ground (arith, get-modify id j g m)

-- The request at the front of the queue is queued, and does not wait a second time.
pub waiting_front :
    (q : ProxyQueue) (m : Requests) (f : Frame) (rest : List Frame) (id : RequestId)
    → Queued m (waiting_ids q.frames)
    → q.frames ≡ f ∷ rest
    → released_id f.observation.kind f.observation.request_id ≡ some id
    → (get id m ≡ some queued)
      × (contains id (waiting_ids rest) ≡ false)
      × Queued m (waiting_ids rest)
unfolding waiting_ids
waiting_front q m f rest id w e asks = rw (e, asks) at w

pub contains-add_digest :
    (d x : List ℕ) (h : Digests) → contains x (add_digest d h) ≡ (bytes_eq d x || contains x h)
unfolding add_digest contains
contains-add_digest d x h = ground (arith, bytes_eq_iff d x)

pub length-add_digest : (d : List ℕ) (h : Digests) → length (add_digest d h) ≤ suc (length h)
unfolding add_digest
length-add_digest d h = ground arith

module _ (sha256 : List ℕ → List ℕ) where
  pub record SideInv (q : ProxyQueue) (m : Requests) (h : Digests) : Type 0 where
    pub queue_valid : QueueInv q
    pub distinct : IsDistinct m
    pub wire_ids : (id : RequestId) → is_some (get id m) ≡ true → IsWireId id
    pub waiting : Queued m (waiting_ids q.frames)
    pub unretired :
        (id : RequestId)
        → is_some (get id m) ≡ true
        → contains (request_id_digest sha256 id) h ≡ false

  -- No two identities hash alike.
  abbrev pub IsCollisionFree : Type 0
  IsCollisionFree =
      (a b : RequestId)
      → IsWireId a
      → IsWireId b
      → request_id_digest sha256 a ≡ request_id_digest sha256 b
      → a ≡ b

  -- A frame that is no request enters the queue.
  pub push-SideInv :
      (q : ProxyQueue) (m : Requests) (h : Digests) (f : Frame)
      → SideInv q m h
      → ensure_capacity q (length f.json_bytes) ≡ ok tt
      → released_id f.observation.kind f.observation.request_id ≡ none
      → SideInv (push_after_capacity_check q f) m h
  unfolding push_after_capacity_check
  push-SideInv q m h f v room plain = record {
    queue_valid = unfold push_after_capacity_check in push-QueueInv q f v.queue_valid room;
    distinct = v.distinct;
    wire_ids = v.wire_ids;
    waiting =
        rw (waiting_ids-append q.frames f, plain, append-nil (waiting_ids q.frames)) v.waiting;
    unretired = v.unretired;
  }

  -- A new request enters the queue and the map.
  pub open-SideInv :
      (q : ProxyQueue) (m : Requests) (h : Digests) (f : Frame) (id : RequestId)
      → SideInv q m h
      → ensure_capacity q (length f.json_bytes) ≡ ok tt
      → released_id f.observation.kind f.observation.request_id ≡ some id
      → IsWireId id
      → get id m ≡ none
      → contains (request_id_digest sha256 id) h ≡ false
      → SideInv (push_after_capacity_check q f) (insert id queued m) h
  unfolding push_after_capacity_check
  open-SideInv q m h f id v room asks wire new fresh =
      let free = Queued-missing m id (waiting_ids q.frames) (λ e. ground (arith, new)) v.waiting in
      let old =
        Queued-change m (insert id queued m) id (waiting_ids q.frames)
          (λ j other. ground (arith, get-insert id j queued m)) free v.waiting in
      record {
        queue_valid = unfold push_after_capacity_check in push-QueueInv q f v.queue_valid room;
        distinct = insert-IsDistinct id queued m new v.distinct;
        wire_ids = λ j live. elim (live-insert id j queued m live) [
          | inl same ↦ rw same at wire
          | inr there ↦ v.wire_ids j there
        ];
        waiting =
            rw (waiting_ids-append q.frames f, asks)
              (Queued-append (insert id queued m) id (waiting_ids q.frames)
                (ground (arith, get-insert id id queued m, id_eq_iff id id)) free old);
        unretired = λ j live. elim (live-insert id j queued m live) [
          | inl same ↦ rw same at fresh
          | inr there ↦ v.unretired j there
        ];
      }

  -- A pending request is answered or expires.
  pub complete-SideInv :
      (q : ProxyQueue) (m : Requests) (h : Digests) (id : RequestId) (deadline : ℕ)
      → IsCollisionFree
      → SideInv q m h
      → get id m ≡ some (pending deadline)
      → SideInv q (remove id m) (add_digest (request_id_digest sha256 id) h)
  complete-SideInv q m h id deadline apart v found =
      let free =
        Queued-missing m id (waiting_ids q.frames) (λ e. ground (arith, found)) v.waiting in
      record {
        queue_valid = v.queue_valid;
        distinct = remove-IsDistinct id m v.distinct;
        wire_ids = λ j live. v.wire_ids j (live-remove id j m live).1;
        waiting =
            Queued-change m (remove id m) id (waiting_ids q.frames)
              (λ j other. ground (arith, get-remove id j m)) free v.waiting;
        unretired = λ j live.
            let (other, there) = live-remove id j m live in
            let wire = v.wire_ids id (ground (arith, found)) in
            elim (Bool-cases
              (bytes_eq (request_id_digest sha256 id) (request_id_digest sha256 j))) [
                | inl same ↦
                    absurd
                      (other (apart id j wire (v.wire_ids j there) ((bytes_eq_iff _ _).0 same)))
                | inr differ ↦
                    contains-add_digest (request_id_digest sha256 id) (request_id_digest sha256 j) h
                    ∙ rw (differ, v.unretired j there)
              ];
      }

  -- The front frame leaves. If it is a request, its deadline starts.
  pub plain-SideInv :
      (q : ProxyQueue) (m : Requests) (h : Digests) (f : Frame) (rest : List Frame)
      → SideInv q m h
      → q.frames ≡ f ∷ rest
      → released_id f.observation.kind f.observation.request_id ≡ none
      → SideInv (rest_of q rest) m h
  unfolding waiting_ids
  plain-SideInv q m h f rest v e plain = record {
    queue_valid = rest_of-QueueInv q f rest v.queue_valid e;
    distinct = v.distinct;
    wire_ids = v.wire_ids;
    waiting = rw (e, plain) at v.waiting;
    unretired = v.unretired;
  }

  pub start-SideInv :
      (q : ProxyQueue) (m : Requests) (h : Digests) (f : Frame) (rest : List Frame) (id : RequestId)
      (deadline : ℕ)
      → SideInv q m h
      → q.frames ≡ f ∷ rest
      → released_id f.observation.kind f.observation.request_id ≡ some id
      → SideInv (rest_of q rest) (modify id (λ _. pending deadline) m) h
  start-SideInv q m h f rest id deadline v e asks =
      let head = waiting_front q m f rest id v.waiting e asks in
      record {
        queue_valid = rest_of-QueueInv q f rest v.queue_valid e;
        distinct = modify-IsDistinct id (λ _. pending deadline) m v.distinct;
        wire_ids = λ j live. v.wire_ids j (live-modify id j (λ _. pending deadline) m live);
        waiting =
            Queued-change m (modify id (λ _. pending deadline) m) id (waiting_ids rest)
              (λ j other. ground (arith, get-modify id j (λ _. pending deadline) m)) head.1 head.2;
        unretired = λ j live. v.unretired j (live-modify id j (λ _. pending deadline) m live);
      }
