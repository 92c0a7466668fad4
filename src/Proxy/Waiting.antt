-- ===== src/Proxy/Waiting.antt =====
-- The requests whose frames are still in a queue.
use mathlib.Core.List.{append-nil, append_assoc}
use weregopher.Base.{
  ap, ◌≡◌, refl, sym, ◌∙◌, ◌≢◌, false, Option, none, some, List, [], ◌∷◌, ◌++◌, arith, inl, inr,
  Bool-cases,
}
use weregopher.Base.Maps.{Map, get, contains}
use weregopher.Proxy.Message.{RequestId, id_key, id_eq, id_eq_iff, Frame}
use weregopher.Proxy.State.{ActiveRequestState, queued}
use weregopher.Proxy.Release.{released_id}

abbrev ids_of : Option RequestId → List RequestId
ids_of none = []
ids_of (some id) = id ∷ []

-- The identities of the requests among queued frames, in their order.
unfoldable pub waiting_ids : List Frame → List RequestId
waiting_ids [] = []
waiting_ids (f ∷ fs) =
    ids_of (released_id f.observation.kind f.observation.request_id) ++ waiting_ids fs

-- Each is in the map as queued, and is there once.
abbrev pub Queued : Map RequestId ActiveRequestState → List RequestId → Type 0
Queued m [] = Unit
Queued m (id ∷ ids) = (get id m ≡ some queued) × (contains id ids ≡ false) × Queued m ids

-- What is not queued does not wait.
pub Queued-missing :
    (m : Map RequestId ActiveRequestState) (k : RequestId) (ids : List RequestId)
    → get k m ≢ some queued
    → Queued m ids
    → contains k ids ≡ false
unfolding contains
Queued-missing m k [] h q = refl
Queued-missing m k (id ∷ ids) h q = elim (Bool-cases (id_eq id k)) [
  | inl same ↦ absurd (h (ground (arith, id_eq_iff id k, q.0)))
  | inr other ↦ ground (arith, Queued-missing m k ids h q.2)
]

-- A change of the map at a key that does not wait.
pub Queued-change :
    (m m' : Map RequestId ActiveRequestState) (k : RequestId) (ids : List RequestId)
    → ((j : RequestId) → id_eq k j ≡ false → get j m' ≡ get j m)
    → contains k ids ≡ false
    → Queued m ids
    → Queued m' ids
unfolding contains
Queued-change m m' k [] same free q = tt
Queued-change m m' k (id ∷ ids) same free q = (
  same id (ground (arith, id_eq_iff k id, id_eq_iff id k)) ∙ q.0,
  q.1,
  Queued-change m m' k ids same (ground arith) q.2,
)

contains-append :
    (j k : RequestId) (ids : List RequestId)
    → contains j ids ≡ false
    → id_eq k j ≡ false
    → contains j (ids ++ k ∷ []) ≡ false
unfolding contains
contains-append j k [] free other = ground arith
contains-append j k (id ∷ ids) free other = ground (arith, contains-append j k ids)

pub waiting_ids-append :
    (fs : List Frame) (f : Frame)
    → waiting_ids (fs ++ f ∷ [])
      ≡ waiting_ids fs ++ ids_of (released_id f.observation.kind f.observation.request_id)
unfolding waiting_ids
waiting_ids-append [] f =
    append-nil (ids_of (released_id f.observation.kind f.observation.request_id))
waiting_ids-append (g ∷ fs) f =
    let head = ids_of (released_id g.observation.kind g.observation.request_id) in
    ap (◌++◌ head) (waiting_ids-append fs f) ∙ sym (append_assoc head (waiting_ids fs) _)

pub Queued-append :
    (m : Map RequestId ActiveRequestState) (k : RequestId) (ids : List RequestId)
    → get k m ≡ some queued
    → contains k ids ≡ false
    → Queued m ids
    → Queued m (ids ++ k ∷ [])
unfolding contains
Queued-append m k [] found free q = (found, refl, tt)
Queued-append m k (id ∷ ids) found free q = (
  q.0,
  contains-append id k ids q.1 (ground (arith, id_eq_iff k id, id_eq_iff id k)),
  Queued-append m k ids found (ground arith) q.2,
)
