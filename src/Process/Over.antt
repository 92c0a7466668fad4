-- ===== src/Process/Over.antt =====
-- When a session is over.
use weregopher.Base.{
  ◌≤◌, ◌≢◌, ◌↔◌, ◌⊎◌, true, none, some, sym, ap, ◌∙◌, ℕ, ◌≡◌, refl, inl, inr, Bool, false, ◌&&◌,
  ◌||◌, List, Bool-cases, Option-cases, is_some, ok, err, Result-cases, arith,
}
use weregopher.Proxy.Json.{Raw}
use weregopher.Process.Limits.{Progress}
use weregopher.Process.State.{exited, LifecycleState, Session, Step, is_exited, ensure_monotonic}
use weregopher.Process.Poll.{
  Inbox, has_passed, advance_deadlines, finish, finish_process_exit, poll_workers, poll,
}
use weregopher.Process.Refinement.Poll.{poll_workers-Reach, advance_deadlines-Reach}

-- Whether the process of a session is gone, and its streams are drained or the time to drain them
-- has passed.
abbrev is_over : Session → ℕ → Bool
is_over s now =
    is_some s.process_exit
    && (s.stdout_finished && s.stderr_finished || has_passed now s.process_exit_deadline)

-- The process of a session is gone, and its streams are drained or the time to drain them has
-- passed.
pub record IsOver (s : Session) (now : ℕ) : Type 0 where
  pub gone : s.process_exit ≢ none
  pub streams :
      (s.stdout_finished ≡ true) × (s.stderr_finished ≡ true)
      ⊎ (deadline : ℕ) × (s.process_exit_deadline ≡ some deadline) × (deadline ≤ now)

-- Behind a call that succeeds a session has exited exactly if it is over, and behind one that fails
-- it has not.
abbrev pub ExitsIff : ℕ → Step Progress → Type 0
ExitsIff now (t, ok p) = (t.lifecycle ≡ exited) ↔ IsOver t now
ExitsIff now (t, err x) = t.lifecycle ≢ exited

alive-running : (l : LifecycleState) → is_exited l ≡ false → l ≢ exited
alive-running l alive gone = ground (arith, alive, gone)

is_over-IsOver : (s : Session) (now : ℕ) → is_over s now ≡ true → IsOver s now
is_over-IsOver s now over = record {
  gone = λ there. absurd (ground (arith, over, there));
  streams = elim (Bool-cases (s.stdout_finished && s.stderr_finished)) [
    | inl drained ↦ inl (ground (arith, drained), ground (arith, drained))
    | inr held ↦ elim (Option-cases s.process_exit_deadline) [
      | inl unset ↦ absurd (ground (arith, over, held, unset))
      | inr (deadline, set) ↦ inr (deadline, set, ground (arith, over, held, set))
    ]
  ];
}

IsOver-is_over : (s : Session) (now : ℕ) → IsOver s now → is_over s now ≡ true
IsOver-is_over s now o = elim (Option-cases s.process_exit) [
  | inl there ↦ absurd (o.gone there)
  | inr (e, gone) ↦ elim (o.streams) [
    | inl (out, error) ↦ ground (arith, gone, out, error)
    | inr (deadline, set, passed) ↦ ground (arith, gone, set, passed)
  ]
]

is_exited-exited : (l : LifecycleState) → is_exited l ≡ true → l ≡ exited
is_exited-exited exited over = refl
is_exited-exited _ over = absurd (ground (arith, over))

exits_iff :
    (s : Session) (now : ℕ)
    → is_exited s.lifecycle ≡ is_over s now
    → (s.lifecycle ≡ exited) ↔ IsOver s now
exits_iff s now same = (
  λ gone. is_over-IsOver s now (sym same ∙ ap is_exited gone),
  λ over. is_exited-exited s.lifecycle (same ∙ IsOver-is_over s now over),
)

finish_process_exit-over :
    (s : Session) (now : ℕ) (inbox : Inbox)
    → is_exited s.lifecycle ≡ false
    → is_exited (finish_process_exit s now inbox).lifecycle
      ≡ is_over (finish_process_exit s now inbox) now
unfolding finish_process_exit finish
finish_process_exit-over s now inbox alive = elim (Option-cases s.process_exit) [
  | inl there ↦ rw (there, finish_process_exit) (rw there alive)
  | inr (e, gone) ↦ elim (Bool-cases (s.stdout_finished && s.stderr_finished)) [
    | inl drained ↦ rw (gone, drained, finish_process_exit) (rw (gone, drained) refl)
    | inr held ↦ elim (Bool-cases (has_passed now s.process_exit_deadline)) [
      | inl late ↦ rw (gone, held, late, finish_process_exit) (rw (gone, held, late) refl)
      | inr early ↦ rw (gone, held, early, finish_process_exit) (rw (gone, held, early) alive)
    ]
  ]
]

module _ (deserialize : List ℕ → Raw × Bool) (sha256 : List ℕ → List ℕ) (instant_max : ℕ) where
  -- A poll ends a session exactly when the session is over. Whatever the workers have to say: a
  -- session that had not exited has exited behind a poll that succeeds if and only if its process
  -- is known to be gone, and its streams are drained or the time to drain them has passed; and
  -- behind a poll that fails it has not exited.
  pub poll-ExitsIff :
      (inbox : Inbox) (s : Session) (now : ℕ)
      → is_exited s.lifecycle ≡ false
      → ExitsIff now (poll deserialize sha256 instant_max inbox s now)
  unfolding poll
  poll-ExitsIff inbox s now alive = elim (Result-cases (ensure_monotonic s now)) [
    | inr (x, early) ↦ rw (early, poll) (alive-running s.lifecycle alive)
    | inl (u, timely) ↦
        let t = record s { last_observed_time = now } in
        let r = poll_workers deserialize sha256 instant_max inbox t now in
        let reached =
          poll_workers-Reach deserialize sha256 instant_max inbox t now alive (omega arith) in
        elim (Result-cases r.1) [
          | inr (x, bad) ↦
              let whole : r ≡ (r.0, err x) = cc (bad) in
              rw (timely, alive, whole, poll) (alive-running r.0.lifecycle reached.alive)
          | inl (p, good) ↦
              let whole : r ≡ (r.0, ok p) = cc (good) in
              let late = advance_deadlines-Reach r.0 now p (reached.alive) in
              rw (timely, alive, whole, poll)
                (exits_iff (finish_process_exit (advance_deadlines r.0 now) now inbox) now
                  (finish_process_exit-over (advance_deadlines r.0 now) now inbox late.alive))
        ]
  ]
