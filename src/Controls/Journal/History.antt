-- ===== src/Controls/Journal/History.antt =====
-- A journal between two calls, and as a history of calls by its one owner.
use weregopher.Controls.Journal.Key.{correlation_key}
use weregopher.Base.{
  ℕ, suc, ◌+◌, ◌≡◌, refl, inl, inr, List, [], ◌∷◌, arith, if◌then◌else◌, is_some, length,
  List-cases, ok,
}
use weregopher.Base.Maps.{get}
use weregopher.Ownership.{}
use weregopher.Controls.Journal.{
  EventLimits, new_limits, SessionEvent, Journal, new, Outcome, record_accepted, record_forwarded,
  record_blocked, record_expired, next_event, clear_correlations,
}
use weregopher.Controls.Journal.Calls.{
  record_accepted-Recorded, record_forwarded-Recorded, record_blocked-Recorded,
  record_expired-Recorded,
}
use weregopher.Controls.Journal.Recording.{JournalInv, with_tokens-LogInv, Recorded}
use weregopher.Proxy.Message.{Observation}
use weregopher.Proxy.Expire.{ExpiredRequest}

-- A record call.
pub data Entry : Type 0 where
  accepts forwards : Observation → Entry
  blocks : Observation → ℕ → Entry
  expires : ExpiredRequest → Entry

pub data JournalCall : Type 0 where
  records : Entry → JournalCall
  takes clears : JournalCall

module _ (sha256 : List ℕ → List ℕ) where
  unfoldable pub record_entry : Journal → Entry → Outcome (Unit {0})
  record_entry j (accepts o) = record_accepted sha256 j o
  record_entry j (forwards o) = record_forwarded sha256 j o
  record_entry j (blocks o rule) = record_blocked sha256 j o rule
  record_entry j (expires e) = record_expired sha256 j e

  -- The number of events that the owner took stands beside the journal.
  unfoldable pub step : ℕ × Journal → JournalCall → ℕ × Journal
  unfolding record_entry next_event
  step (taken, j) (records entry) = (taken, (record_entry j entry).0)
  step (taken, j) takes = (if is_some (next_event j).1 then suc taken else taken, (next_event j).0)
  step (taken, j) clears = (taken, clear_correlations j)

  unfoldable pub run : ℕ × Journal → List JournalCall → ℕ × Journal
  run s [] = s
  run s (c ∷ cs) = run (step s c) cs

  -- On a journal that satisfies its invariant, a record call has one of two ends, after which the
  -- invariant holds. Either it succeeds, and the journal has one event more: it carries the next
  -- number and stands last, the oldest event is gone and counted as evicted exactly when the
  -- journal was full, and nothing but the correlations has changed besides. Or it fails with one
  -- of four errors (a bad method, one of the two number overflows, a correlation that
  -- contradicts the proxy's order), and the journal is as it was.
  pub record_entry-Recorded :
      (taken : ℕ) (j : Journal) (entry : Entry)
      → JournalInv taken j
      → Recorded taken j (record_entry j entry)
  unfolding record_entry
  record_entry-Recorded taken j (accepts o) v = record_accepted-Recorded sha256 taken j v o
  record_entry-Recorded taken j (forwards o) v = record_forwarded-Recorded sha256 taken j v o
  record_entry-Recorded taken j (blocks o rule) v = record_blocked-Recorded sha256 taken j v o rule
  record_entry-Recorded taken j (expires e) v = record_expired-Recorded sha256 taken j v e

  new-JournalInv :
      (limits : EventLimits) (n identity : ℕ)
      → new_limits n ≡ ok limits
      → JournalInv 0 (new limits identity)
  unfolding new_limits new get
  new-JournalInv limits n identity e = record {
    log = record {
      room = ground (arith, e);
      within = omega arith;
      accounted = refl;
      numbered = tt;
      in_range = omega arith;
    };
    tokens = record {
      active_distinct = tt;
      pending_distinct = tt;
      disjoint = λ key live. refl;
      issued = λ key t found. absurd (ground arith);
      unique = λ key other t found _. absurd (ground arith);
      in_range = omega arith;
    };
  }

  clear-JournalInv :
      (taken : ℕ) (j : Journal) → JournalInv taken j → JournalInv taken (clear_correlations j)
  unfolding clear_correlations get
  clear-JournalInv taken j v = record {
    log = with_tokens-LogInv taken j [] [] j.last_correlation v.log;
    tokens = record {
      active_distinct = tt;
      pending_distinct = tt;
      disjoint = λ key live. refl;
      issued = λ key t found. absurd (ground arith);
      unique = λ key other t found _. absurd (ground arith);
      in_range = v.tokens.in_range;
    };
  }

  take-JournalInv :
      (taken : ℕ) (j : Journal) (oldest : SessionEvent) (rest : List SessionEvent)
      → JournalInv taken j
      → j.events ≡ oldest ∷ rest
      → JournalInv (suc taken) (record j { events = rest })
  take-JournalInv taken j oldest rest v e =
      let size : length j.events ≡ suc (length rest) = ground (arith, e) in
      let shift : j.evicted_events + suc taken ≡ suc (j.evicted_events + taken) = omega arith in
      record {
        log = record {
          room = v.log.room;
          within = omega (arith, size, v.log.within);
          accounted = omega (arith, size, v.log.accounted);
          numbered = rw shift (ground (arith, e, v.log.numbered));
          in_range = v.log.in_range;
        };
        tokens = record {
          active_distinct = v.tokens.active_distinct;
          pending_distinct = v.tokens.pending_distinct;
          disjoint = v.tokens.disjoint;
          issued = v.tokens.issued;
          unique = v.tokens.unique;
          in_range = v.tokens.in_range;
        };
      }

  step-JournalInv :
      (s : ℕ × Journal) (c : JournalCall)
      → JournalInv s.0 s.1
      → JournalInv (step s c).0 (step s c).1
  unfolding step
  step-JournalInv (taken, j) (records entry) v = (record_entry-Recorded taken j entry v).keeps
  step-JournalInv (taken, j) clears v = clear-JournalInv taken j v
  step-JournalInv (taken, j) takes v = elim (List-cases j.events) [
    | inl none_there ↦ rw (none_there, next_event) v
    | inr (oldest, rest, e) ↦ rw (e, next_event) (take-JournalInv taken j oldest rest v e)
  ]

  run_from-JournalInv :
      (s : ℕ × Journal) (cs : List JournalCall)
      → JournalInv s.0 s.1
      → JournalInv (run s cs).0 (run s cs).1
  unfolding run
  run_from-JournalInv s [] v = v
  run_from-JournalInv s (c ∷ cs) v = run_from-JournalInv (step s c) cs (step-JournalInv s c v)

  -- Whatever calls its owner makes, a journal under limits that were accepted holds no more events
  -- than its limit allows; its events carry consecutive numbers, of which the last is the number
  -- of the last recorded event; the evicted events, the taken ones and those that are queued are
  -- as many as were recorded; no key is both active and pending, every token it holds is its own
  -- and was given out, and no token belongs to two keys.
  pub run-JournalInv :
      (limits : EventLimits) (n identity : ℕ) (cs : List JournalCall)
      → new_limits n ≡ ok limits
      → JournalInv (run (0, new limits identity) cs).0 (run (0, new limits identity) cs).1
  run-JournalInv limits n identity cs e =
      run_from-JournalInv (0, new limits identity) cs (new-JournalInv limits n identity e)
