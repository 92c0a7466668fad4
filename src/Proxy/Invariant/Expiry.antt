-- ===== src/Proxy/Invariant/Expiry.antt =====
-- Expiry retires every due request whole, and keeps the invariant.
use weregopher.Base.{
  bytes_key, ℕ, ◌≡◌, refl, ◌∙◌, inl, inr, Bool, true, false, ◌||◌, some, List, [], ◌∷◌, ◌++◌, map,
  arith, Bool-cases, any, ok, Result-cases,
}
use weregopher.Base.Maps.{contains, get, keys_where, get-remove, IsDistinct, keys_where-missing}
use weregopher.Proxy.Message.{
  id_key, Direction, client_to_server, server_to_client, opposite, RequestId, id_eq, id_eq_iff,
}
use weregopher.Proxy.State.{ActiveRequestState, queued, pending, Proxy, requests}
use weregopher.Proxy.Correlation.{is_retired, complete_request}
use weregopher.Proxy.Expire.{ExpiredRequest, is_due, expired_direction, all_expired, retire_all}
use weregopher.Proxy.Invariant.{Inv, side}
use weregopher.Proxy.Invariant.Completion.{
  completed, complete_request-whole, completed-Inv, completed-requests, completed-other,
}
use weregopher.Proxy.Side.{Requests, IsCollisionFree}

-- Distinct requests that were all forwarded.
abbrev pub Due : Requests → List RequestId → Type 0
Due m [] = Unit
Due m (id ∷ ids) =
    ((deadline : ℕ) × (get id m ≡ some (pending deadline))) × (contains id ids ≡ false) × Due m ids

pub Due-change :
    (m m' : Requests) (k : RequestId) (ids : List RequestId)
    → ((j : RequestId) → id_eq k j ≡ false → get j m' ≡ get j m)
    → contains k ids ≡ false
    → Due m ids
    → Due m' ids
unfolding contains
Due-change m m' k [] same free q = tt
Due-change m m' k (id ∷ ids) same free q = (
  (q.0.0, same id (ground (arith, id_eq_iff k id, id_eq_iff id k)) ∙ q.0.1),
  q.1,
  Due-change m m' k ids same (ground arith) q.2,
)

due_pending :
    (now : ℕ) (id : RequestId) (a : ActiveRequestState)
    → is_due now id a ≡ true
    → (deadline : ℕ) × (a ≡ pending deadline)
due_pending now id queued e = cc e
due_pending now id (pending deadline) e = (deadline, refl)

pub keys_where-Due : (now : ℕ) (m : Requests) → IsDistinct m → Due m (keys_where (is_due now) m)
unfolding keys_where get
keys_where-Due now [] v = tt
keys_where-Due now ((k, a) ∷ m) v =
    let free = keys_where-missing (is_due now) k m v.0 in
    let later =
      Due-change m ((k, a) ∷ m) k (keys_where (is_due now) m) (λ j other. ground (arith, other))
        free (keys_where-Due now m v.1) in
    elim (Bool-cases (is_due now k a)) [
      | inr early ↦ rw early later
      | inl due ↦
          let (deadline, is_pending) = due_pending now k a due in
          rw due ((deadline, ground (arith, is_pending, id_eq_iff k k)), free, later)
    ]

abbrev pub tagged : Direction → List RequestId → List ExpiredRequest
tagged d ids = map (λ id. record { origin = d; request_id = id }) ids

any-append :
    (f : ExpiredRequest → Bool) (xs ys : List ExpiredRequest)
    → any f (xs ++ ys) ≡ (any f xs || any f ys)
any-append f [] ys = refl
any-append f (x ∷ xs) ys = ground (arith, any-append f xs ys)

module _ (sha256 : List ℕ → List ℕ) where
  Due-unretired :
      (p : Proxy) (d : Direction) (ids : List RequestId)
      → Inv sha256 p
      → Due (requests d p) ids
      → any (λ e. is_retired sha256 p e.origin e.request_id) (tagged d ids) ≡ false
  unfolding is_retired
  Due-unretired p d [] v due = refl
  Due-unretired p d (id ∷ ids) v due =
      ground (arith, due.0.1, (side sha256 p v d).unretired id, Due-unretired p d ids v due.2)

  -- The session after a list of requests of one direction was retired.
  record Gone (p : Proxy) (d : Direction) (ids : List RequestId) : Type 0 where
    after : Proxy
    whole : retire_all sha256 p (tagged d ids) ≡ (after, ok tt)
    keeps : Inv sha256 after
    other : requests (opposite d) after ≡ requests (opposite d) p

  retire_all-Gone :
      (p : Proxy) (d : Direction) (ids : List RequestId)
      → IsCollisionFree sha256
      → Inv sha256 p
      → Due (requests d p) ids
      → Gone p d ids
  unfolding retire_all
  retire_all-Gone p d [] apart v due = record { after = p; whole = refl; keeps = v; other = refl }
  retire_all-Gone p d (id ∷ ids) apart v due =
      let (deadline, found) = due.0 in
      let next = completed sha256 p d id in
      let one =
        complete_request-whole sha256 p d id deadline found
          ((side sha256 p v d).unretired id (ground (arith, found))) in
      let rest =
        Due-change (requests d p) (requests d next) id ids
          (λ j differ.
            ground (arith, completed-requests sha256 p d id, get-remove id j (requests d p)))
          due.1 due.2 in
      let r =
        retire_all-Gone next d ids apart (completed-Inv sha256 p d id deadline apart v found)
          rest in
      record {
        after = r.after;
        whole = ground (arith, one, r.whole);
        keeps = r.keeps;
        other = r.other ∙ completed-other sha256 p d id;
      }

  pub retire_all-append :
      (p r : Proxy) (xs ys : List ExpiredRequest)
      → retire_all sha256 p xs ≡ (r, ok tt)
      → retire_all sha256 p (xs ++ ys) ≡ retire_all sha256 r ys
  unfolding retire_all
  retire_all-append p r [] ys e = ground arith
  retire_all-append p r (x ∷ xs) ys e =
      let next = complete_request sha256 p x.origin x.request_id in
      elim (Result-cases next.1) [
        | inl (u, good) ↦ ground (arith, good, retire_all-append next.0 r xs ys)
        | inr (y, bad) ↦ absurd (ground (arith, bad))
      ]

  -- Every due request of both directions is retired.
  pub retire_all_expired :
      (p : Proxy) (now : ℕ)
      → IsCollisionFree sha256
      → Inv sha256 p
      → (r : Proxy) × (retire_all sha256 p (all_expired p now) ≡ (r, ok tt)) × Inv sha256 r
  unfolding all_expired expired_direction requests
  retire_all_expired p now apart v =
      let ids = keys_where (is_due now) p.client_requests in
      let ids' = keys_where (is_due now) p.server_requests in
      let a =
        retire_all-Gone p client_to_server ids apart v
          (keys_where-Due now p.client_requests v.client.distinct) in
      let due' = keys_where-Due now p.server_requests v.server.distinct in
      let b = retire_all-Gone a.after server_to_client ids' apart a.keeps (rw (a.other) due') in
      (
        b.after,
        retire_all-append p a.after (tagged client_to_server ids) (tagged server_to_client ids')
              a.whole
            ∙ b.whole,
        b.keeps,
      )

  pub expired-unretired :
      (p : Proxy) (now : ℕ)
      → Inv sha256 p
      → any (λ e. is_retired sha256 p e.origin e.request_id) (all_expired p now) ≡ false
  unfolding all_expired expired_direction requests
  expired-unretired p now v =
      let ids = keys_where (is_due now) p.client_requests in
      let ids' = keys_where (is_due now) p.server_requests in
      let check : ExpiredRequest → Bool = λ e. is_retired sha256 p e.origin e.request_id in
      any-append check (tagged client_to_server ids) (tagged server_to_client ids')
      ∙ ground (
        arith,
        Due-unretired p client_to_server ids v
            (keys_where-Due now p.client_requests v.client.distinct),
        Due-unretired p server_to_client ids' v
            (keys_where-Due now p.server_requests v.server.distinct),
      )
