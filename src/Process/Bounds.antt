-- ===== src/Process/Bounds.antt =====
-- How much one poll dispatches, and that its loop ends.
use weregopher.Base.{
  ℕ, zero, suc, ◌+◌, ◌≤◌, ◌≡◌, refl, sym, ap, ◌∙◌, inl, inr, Bool, true, false, ◌||◌, none, some,
  List, arith, if◌then◌else◌, Bool-cases, Result, ok, err, Result-cases, length, length-append, ◌∷◌,
  [],
}
use weregopher.Proxy.Message.{client_to_server, Frame}
use weregopher.Proxy.State.{Proxy}
use weregopher.Proxy.Release.{release}
use weregopher.Process.Limits.{
  stdin_worker, ProcessError, worker_disconnected, proxy_error, transport_failure, Progress,
}
use weregopher.Process.State.{
  frame_command, Session, Step, ◌▷◌, is_terminating, is_exited, begin_termination,
}
use weregopher.Process.Dispatch.{
  Sending, sent, channel_full, channel_disconnected, may_dispatch, count_dispatched, took,
  send_frame, hand_over, dispatch_loop, dispatch_client_frames,
}
use weregopher.Process.Phase.{ended, sends}
use weregopher.Process.Refinement.Dispatch.{record_release_cases, observe_dispatched_cases}

-- A frame that was handed over is counted once, for the session and for the poll, and the
-- channel took so many commands.
record Counted (n : ℕ) (s : Session) (p : Progress) (t : Session) (q : Progress) : Type 0 where
  limits : t.limits ≡ s.limits
  outstanding : t.writer_outstanding ≡ suc s.writer_outstanding
  dispatched : q.dispatched_client_frames ≡ suc p.dispatched_client_frames
  handed_over : length t.writer_commands ≡ n + length s.writer_commands
  in_all : t.dispatched_client_frames ≡ suc s.dispatched_client_frames

count_dispatched-Counted :
    (s : Session) (p : Progress) (t : Session) (q : Progress)
    → count_dispatched s p ≡ (t, ok q)
    → Counted 0 s p t q
unfolding count_dispatched
count_dispatched-Counted s p t q e = record {
  limits = ground (arith, e);
  outstanding = ground (arith, e);
  dispatched = ground (arith, e);
  handed_over = ground (arith, e);
  in_all = ground (arith, e);
}

send_frame-Counted :
    (sending : Sending) (s : Session) (p : Progress) (f : Frame) (t : Session) (q : Progress)
    → send_frame sending s p f ≡ (t, ok q)
    → Counted 1 s p t q
send_frame-Counted sent s p f t q e =
    let c = count_dispatched-Counted (took s (frame_command f)) p t q e in
    record {
      limits = c.limits;
      outstanding = c.outstanding;
      dispatched = c.dispatched;
      handed_over =
          omega (arith, c.handed_over, length-append s.writer_commands (frame_command f ∷ []));
      in_all = c.in_all;
    }
send_frame-Counted channel_full s p f t q e = absurd (ground (arith, e))
send_frame-Counted channel_disconnected s p f t q e = absurd (ground (arith, e))

▷_cases :
    {A B : Type 0} (r : Step A) (next : Session → A → Step B) (t : Session) (b : B)
    → r ▷ next ≡ (t, ok b)
    → (s : Session) × (a : A) × (r ≡ (s, ok a)) × (next s a ≡ (t, ok b))
▷_cases (s, ok a) next t b e = (s, a, refl, e)
▷_cases (s, err x) next t b e = absurd (ground (arith, e))

▷-ext :
    {A B : Type 0} (r : Step A) (f g : Session → A → Step B)
    → ((s : Session) (a : A) → r ≡ (s, ok a) → f s a ≡ g s a)
    → r ▷ f ≡ r ▷ g
▷-ext (s, ok a) f g same = same s a refl
▷-ext (s, err x) f g same = refl

then-ok :
    (b : Bool) (x : Step Progress) (s : Session) (e : ProcessError) (t : Session) (q : Progress)
    → (if b then x else (s, err e)) ≡ (t, ok q)
    → x ≡ (t, ok q)
then-ok true x s e t q good = good
then-ok false x s e t q good = absurd (ground (arith, good))

hand_over-Counted :
    (sha256 : List ℕ → List ℕ) (sending : Sending) (s : Session) (p : Progress) (f : Frame)
    (t : Session) (q : Progress)
    → hand_over sha256 sending s p f ≡ (t, ok q)
    → Counted 1 s p t q
unfolding hand_over
hand_over-Counted sha256 sending s p f t q e = elim (record_release_cases sha256 s f) [
  | inr (events, x, bad) ↦ absurd (ground (arith, bad, e))
  | inl (events, good) ↦ elim (observe_dispatched_cases (record s { events = events }) f) [
    | inr bad ↦ absurd (ground (arith, good, bad, e))
    | inl (next, _, seen) ↦
        let v = record s { events = events; initialization = next } in
        let c = send_frame-Counted sending v p f t q (
          then-ok s.writer_tx (send_frame sending v p f) (begin_termination v transport_failure)
            (worker_disconnected stdin_worker) t q (rw (good, seen) at e)) in
        record {
          limits = c.limits;
          outstanding = c.outstanding;
          dispatched = c.dispatched;
          handed_over = c.handed_over;
          in_all = c.in_all;
        }
  ]
]

-- What the loop keeps: the counts it goes by grow together, within their limits.
pub record Kept (s : Session) (p : Progress) (t : Session) (q : Progress) : Type 0 where
  pub limits : t.limits ≡ s.limits
  pub outstanding : t.writer_outstanding ≤ s.limits.io_queue_messages
  pub dispatched : q.dispatched_client_frames ≤ s.limits.poll_events
  pub together :
      t.writer_outstanding + p.dispatched_client_frames
      ≡ s.writer_outstanding + q.dispatched_client_frames
  pub handed_over :
      length t.writer_commands + p.dispatched_client_frames
      ≡ length s.writer_commands + q.dispatched_client_frames
  pub in_all :
      t.dispatched_client_frames + p.dispatched_client_frames
      ≡ s.dispatched_client_frames + q.dispatched_client_frames

module _ (sha256 : List ℕ → List ℕ) (instant_max : ℕ) (sendings : ℕ → Sending) where
  abbrev loop : ℕ → Session → ℕ → Progress → Step Progress
  loop fuel s now p = dispatch_loop sha256 instant_max sendings fuel s now p

  -- One round of the loop: it stops, or it hands a frame over.
  data Round (s : Session) (now : ℕ) (p : Progress) : Type 0 where
    stops :
        (t : Session) (o : Result ProcessError Progress)
        → t.writer_outstanding ≡ s.writer_outstanding
        → t.limits ≡ s.limits
        → length t.writer_commands ≡ length s.writer_commands
        → t.dispatched_client_frames ≡ s.dispatched_client_frames
        → ((q : Progress) → o ≡ ok q → q ≡ p)
        → ((fuel : ℕ) → loop (suc fuel) s now p ≡ (t, o))
        → Round s now p
    rounds :
        (u : Proxy) (f : Frame)
        → may_dispatch s p ≡ true
        → ((fuel : ℕ)
            → loop (suc fuel) s now p ≡ (
                hand_over sha256 (sendings p.dispatched_client_frames) (record s { proxy = u }) p f
                ▷ λ t q. loop fuel t now q))
        → Round s now p

  round : (s : Session) (now : ℕ) (p : Progress) → Round s now p
  unfolding dispatch_loop release
  round s now p =
      let r = release instant_max s.proxy client_to_server now in
      let t = record s { proxy = r.0 } in
      elim (Bool-cases (may_dispatch s p)) [
        | inr done ↦
            stops s (ok p) refl refl refl refl (λ q e. ground (arith, e))
              (λ fuel. rw (done, dispatch_loop) refl)
        | inl free ↦ elim (Result-cases r.1) [
          | inr (x, bad) ↦
              stops t (err (proxy_error x)) refl refl refl refl (λ q e. absurd (ground (arith, e)))
                (λ fuel. rw (free, bad, dispatch_loop) refl)
          | inl (none, good) ↦
              stops t (ok p) refl refl refl refl (λ q e. ground (arith, e))
                (λ fuel. rw (free, good, dispatch_loop) refl)
          | inl (some f, good) ↦ rounds r.0 f free (λ fuel. rw (free, good, dispatch_loop) refl)
        ]
      ]

  may_dispatch-bounds :
      (s : Session) (p : Progress)
      → may_dispatch s p ≡ true
      → (suc s.writer_outstanding ≤ s.limits.io_queue_messages)
        × (suc p.dispatched_client_frames ≤ s.limits.poll_events)
  may_dispatch-bounds s p free = (ground (arith, free), ground (arith, free))

  dispatch_loop-Kept :
      (fuel : ℕ) (s : Session) (now : ℕ) (p : Progress) (t : Session) (q : Progress)
      → s.writer_outstanding ≤ s.limits.io_queue_messages
      → p.dispatched_client_frames ≤ s.limits.poll_events
      → loop fuel s now p ≡ (t, ok q)
      → Kept s p t q
  unfolding dispatch_loop
  dispatch_loop-Kept zero s now p t q held few e = record {
    limits = ground (arith, e);
    outstanding = ground (arith, e);
    dispatched = ground (arith, e);
    together = ground (arith, e);
    handed_over = ground (arith, e);
    in_all = ground (arith, e);
  }
  dispatch_loop-Kept (suc fuel) s now p t q held few e = elim (round s now p) [
    | stops u o same limits sent_same in_same unmoved ends ↦
        let r : (u, o) ≡ (t, ok q) = sym (ends fuel) ∙ e in
        let said : o ≡ ok q = ap (λ r. r.1) r in
        let m : q ≡ p = unmoved q said in
        record {
          limits = ground (arith, r, limits);
          outstanding = ground (arith, r, same);
          dispatched = ground (arith, m);
          together = ground (arith, r, m, same);
          handed_over = ground (arith, r, m, sent_same);
          in_all = ground (arith, r, m, in_same);
        }
    | rounds u f free goes ↦
        let v = record s { proxy = u } in
        let r : (hand_over sha256 (sendings p.dispatched_client_frames) v p f ▷ λ t q.
        loop fuel t now q)
            ≡ (t, ok q) =
          sym (goes fuel) ∙ e in
        let (w, p', sends, rest) =
          ▷_cases (hand_over sha256 (sendings p.dispatched_client_frames) v p f)
            (λ t q. loop fuel t now q) t q r in
        let c = hand_over-Counted sha256 (sendings p.dispatched_client_frames) v p f w p' sends in
        let b = may_dispatch-bounds s p free in
        let k =
          dispatch_loop-Kept fuel w now p' t q (ground (arith, c.limits, c.outstanding, b))
            (ground (arith, c.limits, c.dispatched, b)) rest in
        record {
          limits = k.limits ∙ c.limits;
          outstanding = ground (arith, k.outstanding, c.limits);
          dispatched = ground (arith, k.dispatched, c.limits);
          together = ground (arith, k.together, c.outstanding, c.dispatched);
          handed_over = ground (arith, k.handed_over, c.handed_over, c.dispatched);
          in_all = ground (arith, k.in_all, c.in_all, c.dispatched);
        }
  ]

  count : (n k : ℕ) → suc n + k ≡ suc (n + k)
  count n k = omega arith

  -- Fuel past what the poll may still dispatch makes no difference to the loop: from the fuel
  -- that the code's limit on a poll's events gives, more of it changes neither the session nor
  -- the result.
  pub dispatch_loop-fuel :
      (fuel extra : ℕ) (s : Session) (now : ℕ) (p : Progress)
      → s.limits.poll_events ≤ p.dispatched_client_frames + fuel
      → loop (fuel + extra) s now p ≡ loop fuel s now p
  unfolding dispatch_loop release
  dispatch_loop-fuel zero zero s now p enough = refl
  dispatch_loop-fuel zero (suc k) s now p enough =
      let full : may_dispatch s p ≡ false = ground (arith, enough) in
      let stays : loop (suc k) s now p ≡ (s, ok p) = rw (full, dispatch_loop) refl in
      let none_left : zero + suc k ≡ suc k = omega arith in
      ap (λ n. loop n s now p) none_left ∙ stays
  dispatch_loop-fuel (suc n) k s now p enough = elim (round s now p) [
    | stops u o same limits sent_same in_same unmoved ends ↦
        ap (λ m. loop m s now p) (count n k) ∙ ends (n + k) ∙ sym (ends n)
    | rounds u f free goes ↦
        ap (λ m. loop m s now p) (count n k)
        ∙ goes (n + k)
        ∙ ▷-ext
            (hand_over sha256 (sendings p.dispatched_client_frames) (record s { proxy = u }) p f)
            (λ t q. loop (n + k) t now q) (λ t q. loop n t now q)
            (λ t q e.
              let c =
                hand_over-Counted sha256 (sendings p.dispatched_client_frames)
                  (record s { proxy = u }) p f t q e in
              dispatch_loop-fuel n k t now q (ground (arith, c.limits, c.dispatched, enough)))
        ∙ sym (goes n)
  ]

  -- A poll of a session whose outstanding commands are within the writer's queue, and that
  -- succeeds, dispatches at most the number of events that its limits allow to one poll, and
  -- leaves the outstanding commands within the queue. As many frames as it counts for itself, it
  -- hands to the writer's channel, and adds to the session's outstanding commands and to the
  -- frames that the session dispatched in all. The poll is taken to have dispatched no more than
  -- its limit before.
  pub dispatch_client_frames-Kept :
      (s : Session) (now : ℕ) (p : Progress) (t : Session) (q : Progress)
      → s.writer_outstanding ≤ s.limits.io_queue_messages
      → p.dispatched_client_frames ≤ s.limits.poll_events
      → dispatch_client_frames sha256 instant_max sendings s now p ≡ (t, ok q)
      → Kept s p t q
  unfolding dispatch_client_frames
  dispatch_client_frames-Kept s now p t q held few e =
      elim (Bool-cases
        (is_terminating s.lifecycle || is_exited s.lifecycle || s.writer_close_requested)) [
          | inl ended ↦ dispatch_loop-Kept zero s now p t q held few (rw ended at e)
          | inr live ↦ dispatch_loop-Kept s.limits.poll_events s now p t q held few (rw live at e)
        ]
