-- ===== src/Process/Refinement.antt =====
-- The calls of a session take the steps of its specification.
use mathlib.Core.Path.{subst}
use weregopher.Base.{
  Option, none, some, Bool, true, false, if◌then◌else◌, ◌≡◌, refl, true, false, ◌||◌, Result, ok,
  err,
}
use weregopher.Process.Limits.{ProcessError, ProcessOutcome}
use weregopher.Process.State.{
  terminating, Session, Step, ◌▷◌, is_exited, first_outcome, begin_termination,
}
use weregopher.Process.Phase.{
  Course, Phase, course_of, phase_of, IsAlive, IsFailure, ended, ◌⟶◌, terminate, ◌⟶*◌, stop,
  ⟶*-trans, one,
}
pub mod Client
pub mod Worker
pub mod Dispatch
pub mod Poll

-- A call that began in a session which has not exited ends in one that a path of phases leads to
-- and that has not exited.
pub record Reach {A : Type 0} (s : Session) (r : Step A) : Type 0 where
  pub path : phase_of s ⟶* phase_of r.0
  pub alive : IsAlive (course_of r.0)

pub stays :
    {A : Type 0} (s t : Session) (r : Result ProcessError A)
    → IsAlive (course_of s)
    → phase_of s ≡ phase_of t
    → Reach s (t, r)
stays s t r alive same = record {
  path = subst (λ p. phase_of s ⟶* p) same stop;
  alive = subst (λ (p : Phase). IsAlive p.course) same alive;
}

pub goes :
    {A : Type 0} (s t : Session) (r : Result ProcessError A)
    → IsAlive (course_of t)
    → phase_of s ⟶ phase_of t
    → Reach s (t, r)
goes s t r alive step = record { path = one step; alive = alive }

pub Reach-trans :
    {A B : Type 0} (s t : Session) (a : Result ProcessError A) (r : Step B)
    → Reach s (t, a)
    → Reach t r
    → Reach s r
Reach-trans s t a r first second = record {
  path = ⟶*-trans first.path second.path;
  alive = second.alive;
}

pub Reach-▷ :
    {A B : Type 0} (s : Session) (r : Step A) (next : Session → A → Step B)
    → Reach s r
    → ((t : Session) (a : A) → r ≡ (t, ok a) → IsAlive (course_of t) → Reach t (next t a))
    → Reach s (r ▷ next)
Reach-▷ s (t, err x) next first rest = record { path = first.path; alive = first.alive }
Reach-▷ s (t, ok a) next first rest =
    Reach-trans s t (ok a) (next t a) first (rest t a refl first.alive)

-- A termination, whatever the call wrote beside the course before.
pub ends :
    {A : Type 0} (s t : Session) (outcome : ProcessOutcome) (r : Result ProcessError A)
    → IsFailure outcome
    → IsAlive (course_of s)
    → course_of s ≡ course_of t
    → Reach s (begin_termination t outcome, r)
unfolding begin_termination
ends s t outcome r failure alive same =
    let still : is_exited t.lifecycle ≡ false = subst (λ (c : Course). IsAlive c) same alive in
    let whole : begin_termination t outcome ≡ record t {
      requested_outcome = first_outcome t.requested_outcome outcome;
      lifecycle = terminating;
      writer_close_requested = true;
      writer_tx = false;
      termination_requested = t.termination_requested || t.process_tx;
    } =
      rw still refl in
    rw whole (record {
      path =
          subst
            (λ c. phase_of s ⟶* record {
              course = ended c outcome;
              writer_tx = false;
              initialization = t.initialization;
              waiting = (t.proxy.to_server).frames;
            })
            same
            (one (terminate outcome t.initialization (t.proxy.to_server).frames failure alive));
      alive = refl;
    })

pub if-Reach :
    {A : Type 0} (s : Session) (b : Bool) (x y : Step A)
    → Reach s x
    → Reach s y
    → Reach s (if b then x else y)
if-Reach s true x y first second = first
if-Reach s false x y first second = second

pub option-Reach :
    {A B : Type 0} (s : Session) (o : Option B) (x : Step A) (y : B → Step A)
    → Reach s x
    → ((b : B) → Reach s (y b))
    → Reach s (elim o [ none ↦ x | some b ↦ y b ])
option-Reach s none x y first second = first
option-Reach s (some b) x y first second = second b

pub if_known-Reach :
    {A : Type 0} (s : Session) (b : Bool) (x y : Step A)
    → (b ≡ true → Reach s x)
    → (b ≡ false → Reach s y)
    → Reach s (if b then x else y)
if_known-Reach s true x y first second = first refl
if_known-Reach s false x y first second = second refl
