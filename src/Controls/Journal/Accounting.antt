-- ===== src/Controls/Journal/Accounting.antt =====
-- What a journal holds, has lost and has handed out.
use weregopher.Base.{
  ℕ, suc, ◌+◌, ◌≤◌, ◌<◌, ◌≡◌, inl, inr, true, false, List, [], ◌∷◌, ◌++◌, arith, ◌==◌,
  if◌then◌else◌, Bool-cases, length, drop, List-cases, length-append, ok, err, u64_max,
}
use weregopher.Controls.Journal.{
  EventDetail, SessionEvent, Journal, is_full, preflight_event_sequence, evict, event_at,
  push_event,
}
use weregopher.Controls.Method.{event_sequence_overflow}

-- Events numbered one after another, from the given number on.
abbrev pub Numbered : ℕ → List SessionEvent → Type 0
Numbered n [] = Unit
Numbered n (e ∷ es) = (e.sequence ≡ n) × Numbered (suc n) es

Numbered-append :
    (n : ℕ) (xs : List SessionEvent) (e : SessionEvent)
    → Numbered n xs
    → e.sequence ≡ n + length xs
    → Numbered n (xs ++ e ∷ [])
Numbered-append n [] e v next = (omega (arith, next), tt)
Numbered-append n (x ∷ xs) e v next = (v.0, Numbered-append (suc n) xs e v.1 (omega (arith, next)))

-- `taken` events were pulled by the journal's owner.
pub record LogInv (taken : ℕ) (j : Journal) : Type 0 where
  pub room : 0 < j.limits.events
  pub within : length j.events ≤ j.limits.events
  pub accounted : j.evicted_events + taken + length j.events ≡ j.last_sequence
  pub numbered : Numbered (suc (j.evicted_events + taken)) j.events
  pub in_range : j.last_sequence ≤ u64_max

-- A journal with the same events and counters, whatever its correlations.
abbrev pub with_log : Journal → List SessionEvent → ℕ → ℕ → Journal
with_log j events evicted last = record j {
  events = events;
  evicted_events = evicted;
  last_sequence = last;
}

pub preflight_event_sequence-next :
    (taken : ℕ) (j : Journal)
    → LogInv taken j
    → preflight_event_sequence j ≡ (
        if j.last_sequence == u64_max
        then err event_sequence_overflow
        else ok (suc j.last_sequence))
unfolding preflight_event_sequence
preflight_event_sequence-next taken j v = ground (arith, v.room, v.within, v.accounted, v.in_range)

-- The journal after one event more.
abbrev pub appended : Journal → EventDetail → Journal
appended j d =
    with_log j
      ((if is_full j then drop 1 j.events else j.events) ++ event_at (suc j.last_sequence) d ∷ [])
      (if is_full j then suc j.evicted_events else j.evicted_events) (suc j.last_sequence)

pub push_event-appends :
    (taken : ℕ) (j : Journal) (d : EventDetail)
    → LogInv taken j
    → j.last_sequence < u64_max
    → push_event j (suc j.last_sequence) d ≡ (appended j d, ok tt)
unfolding push_event evict
push_event-appends taken j d v below = elim (List-cases j.events) [
  | inl none_there ↦ ground (arith, none_there, v.room)
  | inr (oldest, rest, e) ↦ ground (arith, e, v.accounted)
]

appended_full :
    (taken : ℕ) (j : Journal) (d : EventDetail) (oldest : SessionEvent) (rest : List SessionEvent)
    → LogInv taken j
    → j.last_sequence < u64_max
    → length j.events ≡ j.limits.events
    → j.events ≡ oldest ∷ rest
    → LogInv taken (appended j d)
appended_full taken j d oldest rest v below full e =
    let marked : is_full j ≡ true = ground (arith, full) in
    let size : suc (length rest) ≡ length j.events = ground (arith, e) in
    let now : Numbered (suc (suc (j.evicted_events + taken))) rest =
      ground (arith, e, v.numbered) in
    let shift : suc j.evicted_events + taken ≡ suc (j.evicted_events + taken) = omega arith in
    let event = event_at (suc j.last_sequence) d in
    rw (marked, e)
      (record {
        room = v.room;
        within = omega (arith, length-append rest (event ∷ []), size, v.within);
        accounted = omega (arith, length-append rest (event ∷ []), size, v.accounted);
        numbered = rw shift (Numbered-append _ rest event now (omega (arith, size, v.accounted)));
        in_range = omega (arith, below);
      })

appended_room :
    (taken : ℕ) (j : Journal) (d : EventDetail)
    → LogInv taken j
    → j.last_sequence < u64_max
    → is_full j ≡ false
    → LogInv taken (appended j d)
appended_room taken j d v below roomy =
    let event = event_at (suc j.last_sequence) d in
    let short : length j.events < j.limits.events = ground (arith, roomy, v.within) in
    rw roomy (record {
      room = v.room;
      within = omega (arith, length-append j.events (event ∷ []), short);
      accounted = omega (arith, length-append j.events (event ∷ []), v.accounted);
      numbered = Numbered-append _ j.events event v.numbered (omega (arith, v.accounted));
      in_range = omega (arith, below);
    })

pub appended-LogInv :
    (taken : ℕ) (j : Journal) (d : EventDetail)
    → LogInv taken j
    → j.last_sequence < u64_max
    → LogInv taken (appended j d)
appended-LogInv taken j d v below = elim (Bool-cases (is_full j)) [
  | inr roomy ↦ appended_room taken j d v below roomy
  | inl marked ↦
      let full : length j.events ≡ j.limits.events = ground (arith, marked) in
      elim (List-cases j.events) [
        | inl none_there ↦ absurd (ground (arith, none_there, full, v.room))
        | inr (oldest, rest, e) ↦ appended_full taken j d oldest rest v below full e
      ]
]
