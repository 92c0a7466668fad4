-- ===== src/Proxy/Expire/Exact.antt =====
-- Which requests expiry retires.
use mathlib.Core.Path.{subst}
use weregopher.Base.{
  bytes_key, ℕ, ◌≤◌, ◌<◌, ◌≡◌, refl, ap, ◌∙◌, ◌≢◌, ◌⊎◌, inl, inr, Bool, true, false, Option, none,
  some, List, [], ◌∷◌, arith, leb, Bool-cases, Option-cases, Result, ok, err, bytes_eq_iff,
}
use weregopher.Base.Maps.{
  Map, contains, get, keys_where, get-remove, IsDistinct, holds_at, contains-keys_where,
}
use weregopher.Proxy.Message.{
  id_key, Direction, client_to_server, server_to_client, opposite, RequestId, id_eq, id_eq_iff,
  request_id_digest,
}
use weregopher.Proxy.Queue.{ProxyError, inconsistent_correlation_state}
use weregopher.Proxy.State.{ActiveRequestState, queued, pending, Proxy, requests, request_history}
use weregopher.Proxy.Correlation.{is_retired}
use weregopher.Proxy.Expire.{
  ExpiredRequest, is_due, expired_direction, all_expired, retire_all, expire_requests,
}
use weregopher.Proxy.Invariant.{Inv, Sound, set_side, side}
use weregopher.Proxy.Invariant.Completion.{
  completed, complete_request-whole, completed-Inv, completed-requests, completed-other,
}
use weregopher.Proxy.Invariant.Expiry.{Due, Due-change, keys_where-Due, tagged, retire_all-append}
use weregopher.Proxy.Invariant.History.{expire_requests-Sound}
use weregopher.Proxy.Retirement.{retire_all-Retired}
use weregopher.Proxy.Side.{contains-add_digest, IsCollisionFree}

-- What expiry does to an identity of a direction: `before` and `after` are its entries, and
-- `retired` is whether it is retired afterwards.
abbrev pub IsExpiry : ℕ → Option ActiveRequestState → Option ActiveRequestState → Bool → Type 0
IsExpiry now none after retired = after ≡ none
IsExpiry now (some queued) after retired = after ≡ some queued
IsExpiry now (some (pending deadline)) after retired =
    ((deadline ≤ now) × (after ≡ none) × (retired ≡ true))
    ⊎ ((now < deadline) × (after ≡ some (pending deadline)))

either_direction :
    (P : Direction → Type 0) → P client_to_server → P server_to_client → (d : Direction) → P d
either_direction P client server client_to_server = client
either_direction P client server server_to_client = server

module _ (sha256 : List ℕ → List ℕ) where
  -- An identity that is among those to retire is gone and retired; another keeps its entry.
  abbrev Retires : Proxy → Proxy → Direction → RequestId → Bool → Type 0
  Retires p r d j true = (get j (requests d r) ≡ none) × (is_retired sha256 r d j ≡ true)
  Retires p r d j false = get j (requests d r) ≡ get j (requests d p)

  record Retirement (p : Proxy) (d : Direction) (ids : List RequestId) : Type 0 where
    after : Proxy
    whole : retire_all sha256 p (tagged d ids) ≡ (after, ok tt)
    keeps : Inv sha256 after
    other : requests (opposite d) after ≡ requests (opposite d) p
    each : (j : RequestId) → Retires p after d j (contains j ids)

  completed-Retired :
      (p : Proxy) (d : Direction) (id : RequestId)
      → is_retired sha256 (completed sha256 p d id) d id ≡ true
  unfolding is_retired set_side requests request_history
  completed-Retired p d id = ground (
    arith,
    contains-add_digest (request_id_digest sha256 id) (request_id_digest sha256 id)
        (request_history d p),
    (bytes_eq_iff (request_id_digest sha256 id) (request_id_digest sha256 id)).1 refl,
  )

  completed-gone :
      (p : Proxy) (d : Direction) (id : RequestId)
      → get id (requests d (completed sha256 p d id)) ≡ none
  completed-gone p d id = ground (
    arith,
    completed-requests sha256 p d id,
    get-remove id id (requests d p),
    (id_eq_iff id id).1 refl,
  )

  completed-others :
      (p : Proxy) (d : Direction) (id j : RequestId)
      → id_eq id j ≡ false
      → get j (requests d (completed sha256 p d id)) ≡ get j (requests d p)
  completed-others p d id j differ =
      ground (arith, completed-requests sha256 p d id, get-remove id j (requests d p), differ)

  retire_all-Retirement :
      (p : Proxy) (d : Direction) (ids : List RequestId)
      → IsCollisionFree sha256
      → Inv sha256 p
      → Due (requests d p) ids
      → Retirement p d ids
  unfolding retire_all contains
  retire_all-Retirement p d [] apart v due = record {
    after = p;
    whole = refl;
    keeps = v;
    other = refl;
    each = λ j. refl;
  }
  retire_all-Retirement p d (id ∷ ids) apart v due =
      let (deadline, found) = due.0 in
      let next = completed sha256 p d id in
      let one =
        complete_request-whole sha256 p d id deadline found
          ((side sha256 p v d).unretired id (ground (arith, found))) in
      let rest =
        Due-change (requests d p) (requests d next) id ids
          (λ j differ. completed-others p d id j differ) due.1 due.2 in
      let r =
        retire_all-Retirement next d ids apart (completed-Inv sha256 p d id deadline apart v found)
          rest in
      let stays : is_retired sha256 r.after d id ≡ true = ground (
        arith,
        r.whole,
        retire_all-Retired sha256 d id next (tagged d ids) (completed-Retired p d id),
      ) in
      record {
        after = r.after;
        whole = ground (arith, one, r.whole);
        keeps = r.keeps;
        other = r.other ∙ completed-other sha256 p d id;
        each = λ j. elim (Bool-cases (id_eq id j)) [
          | inr differ ↦ elim (Bool-cases (contains j ids)) [
            | inl there ↦ rw (differ, there) (rw there at (r.each j))
            | inr free ↦
                rw (differ, free) ((rw free at (r.each j)) ∙ completed-others p d id j differ)
          ]
          | inl same ↦
              let here : id ≡ j = (id_eq_iff id j).0 same in
              let gone : get id (requests d r.after) ≡ none =
                (rw due.1 at (r.each id)) ∙ completed-gone p d id in
              rw same (
                subst
                  (λ k.
                    (get k (requests d r.after) ≡ none) × (is_retired sha256 r.after d k ≡ true))
                  here (gone, stays))
        ];
      }

  server-Retires :
      (p a r : Proxy) (j : RequestId) (listed : Bool)
      → requests server_to_client a ≡ requests server_to_client p
      → Retires a r server_to_client j listed
      → Retires p r server_to_client j listed
  server-Retires p a r j true same each = each
  server-Retires p a r j false same each =
      each ∙ ap (λ (m : Map RequestId ActiveRequestState). get j m) same

  client-Retires :
      (p a r : Proxy) (ids : List RequestId) (j : RequestId) (listed : Bool)
      → retire_all sha256 a (tagged server_to_client ids) ≡ (r, ok tt)
      → requests client_to_server r ≡ requests client_to_server a
      → Retires p a client_to_server j listed
      → Retires p r client_to_server j listed
  client-Retires p a r ids j true whole same each = (
    ap (λ (m : Map RequestId ActiveRequestState). get j m) same ∙ each.0,
    ground (
      arith,
      whole,
      retire_all-Retired sha256 client_to_server j a (tagged server_to_client ids) each.1,
    ),
  )
  client-Retires p a r ids j false whole same each =
      ap (λ (m : Map RequestId ActiveRequestState). get j m) same ∙ each

  due_ids : ℕ → Proxy → Direction → List RequestId
  due_ids now p d = keys_where (is_due now) (requests d p)

  -- Both directions are retired, one after the other.
  all-Retires :
      (p : Proxy) (now : ℕ)
      → IsCollisionFree sha256
      → Inv sha256 p
      → (r : Proxy) × (retire_all sha256 p (all_expired p now) ≡ (r, ok tt))
        × ((d : Direction) (j : RequestId) → Retires p r d j (contains j (due_ids now p d)))
  unfolding all_expired expired_direction requests due_ids
  all-Retires p now apart v =
      let ids = keys_where (is_due now) p.client_requests in
      let ids' = keys_where (is_due now) p.server_requests in
      let a =
        retire_all-Retirement p client_to_server ids apart v
          (keys_where-Due now p.client_requests v.client.distinct) in
      let due' = keys_where-Due now p.server_requests v.server.distinct in
      let b =
        retire_all-Retirement a.after server_to_client ids' apart a.keeps (rw (a.other) due') in
      (
        b.after,
        retire_all-append sha256 p a.after (tagged client_to_server ids)
              (tagged server_to_client ids') a.whole
            ∙ b.whole,
        either_direction
            (λ d. (j : RequestId) → Retires p b.after d j (contains j (due_ids now p d)))
            (λ j.
              client-Retires p a.after b.after ids' j (contains j ids) b.whole b.other (a.each j))
            (λ j. server-Retires p a.after b.after j (contains j ids') a.other (b.each j)),
      )

  -- The loop's fate of one identity is the expiry's.
  Retires-IsExpiry :
      (p r : Proxy) (d : Direction) (id : RequestId) (now : ℕ)
      → IsDistinct (requests d p)
      → Retires p r d id (contains id (due_ids now p d))
      → IsExpiry now (get id (requests d p)) (get id (requests d r)) (is_retired sha256 r d id)
  unfolding due_ids
  Retires-IsExpiry p r d id now apart each =
      let listed = contains-keys_where (is_due now) id (requests d p) apart in
      elim (Option-cases (get id (requests d p))) [
        | inl missing ↦
            let free : contains id (due_ids now p d) ≡ false =
              listed ∙ rw (missing, holds_at) refl in
            rw missing ((rw free at each) ∙ missing)
        | inr (queued, found) ↦
            let free : contains id (due_ids now p d) ≡ false = listed ∙ rw (found, holds_at) refl in
            rw found ((rw free at each) ∙ found)
        | inr (pending deadline, found) ↦ elim (Bool-cases (leb deadline now)) [
          | inl due ↦
              let there : contains id (due_ids now p d) ≡ true =
                listed ∙ rw (found, holds_at) due in
              let gone = rw there at each in rw found (inl (ground (arith, due), gone.0, gone.1))
          | inr early ↦
              let free : contains id (due_ids now p d) ≡ false =
                listed ∙ rw (found, holds_at) early in
              rw found (inr (ground (arith, early), (rw free at each) ∙ found))
        ]
      ]

  pub expire_requests-IsExpiry :
      (p q : Proxy) (now : ℕ) (es : List ExpiredRequest) (d : Direction) (id : RequestId)
      → IsCollisionFree sha256
      → Inv sha256 p
      → expire_requests sha256 p now ≡ (q, ok es)
      → IsExpiry now (get id (requests d p)) (get id (requests d q)) (is_retired sha256 q d id)
  unfolding expire_requests is_retired request_history requests
  expire_requests-IsExpiry p q now es d id apart v e =
      let (r, whole, each) = all-Retires p now apart v in
      let fate = Retires-IsExpiry p r d id now ((side sha256 p v d).distinct) (each d id) in
      let same : (requests d q ≡ requests d r) × (request_history d q ≡ request_history d r) =
        ground (arith, whole, e) in
      rw (same.0, same.1, is_retired) fate

  -- What a call of expiry comes to, for an identity of a direction.
  abbrev pub ExpiryOutcome :
      Proxy → ℕ → Direction → RequestId → Proxy × Result ProxyError (List ExpiredRequest) → Type 0
  ExpiryOutcome p now d id (q, ok es) =
      IsExpiry now (get id (requests d p)) (get id (requests d q)) (is_retired sha256 q d id)
  ExpiryOutcome p now d id (q, err x) = (q ≡ p) × (x ≢ inconsistent_correlation_state)

  outcome_of :
      (p : Proxy) (now : ℕ) (d : Direction) (id : RequestId)
      (r : Proxy × Result ProxyError (List ExpiredRequest))
      → Sound sha256 p r
      → ((q : Proxy) (es : List ExpiredRequest)
          → r ≡ (q, ok es)
          → IsExpiry now (get id (requests d p)) (get id (requests d q)) (is_retired sha256 q d id))
      → ExpiryOutcome p now d id r
  outcome_of p now d id (q, ok es) sound fate = fate q es refl
  outcome_of p now d id (q, err x) sound fate = elim (sound.outcome) [
    | inl (y, same, plain) ↦ (ground (arith, same), λ e. plain (ground (arith, same, e)))
    | inr (es, bad) ↦ absurd (ground (arith, bad))
  ]

  -- Expiry is exact. On a session that satisfies its invariant, where it succeeds, then in either
  -- direction a forwarded request whose deadline is reached is live no longer and is retired, and
  -- every other request, one that still waits in its queue or one whose deadline is ahead, stands
  -- as it was; and where it fails, it leaves the session as it was, and the error is not an
  -- inconsistent correlation state. SHA-256 is taken to be free of collisions on request
  -- identities.
  pub expire_requests-exact :
      (p : Proxy) (now : ℕ) (d : Direction) (id : RequestId)
      → IsCollisionFree sha256
      → Inv sha256 p
      → ExpiryOutcome p now d id (expire_requests sha256 p now)
  expire_requests-exact p now d id apart v =
      outcome_of p now d id (expire_requests sha256 p now)
        (expire_requests-Sound sha256 p now apart v)
        (λ q es e. expire_requests-IsExpiry p q now es d id apart v e)
