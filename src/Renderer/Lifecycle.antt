-- ===== src/Renderer/Lifecycle.antt =====
-- The renderer lifecycle: crates/weregopher-renderer/src/lifecycle.rs.
pub mod Navigation
pub mod Closing
use Prim.Native.String.{String}
use weregopher.Base.{
  ℕ, Bool, true, false, List, [], ◌∷◌, Result, ok, err, ◌>>=◌, ◌>>◌, reject_if, ok_or, not, ◌==◌,
  if◌then◌else◌, u32_max, checked_add, state_after,
}

pub data RendererLifecycleState : Type 0 where
  creating initialized navigating dom_content_loaded loaded closing closed : RendererLifecycleState
  crashed : RendererLifecycleState

pub record RendererLifecycle : Type 0 where
  pub renderer : ℕ
  pub state : RendererLifecycleState
  pub generation : ℕ  -- u32

pub data RendererLifecycleError : Type 0 where
  invalid_transition : RendererLifecycleState → String → RendererLifecycleError
  stale_navigation : ℕ → ℕ → RendererLifecycleError
  navigation_generation_exhausted : RendererLifecycleError

-- A method that only changes the state returns the new one.
abbrev pub Outcome : Type 0
Outcome = Result RendererLifecycleError (RendererLifecycle × Unit {0})

unfoldable pub new : ℕ → RendererLifecycle
new renderer = record { renderer = renderer; state = creating; generation = 0 }

-- The derived equality of states, by clauses on the first.
abbrev pub state_eq : RendererLifecycleState → RendererLifecycleState → Bool
state_eq creating creating = true
state_eq initialized initialized = true
state_eq navigating navigating = true
state_eq dom_content_loaded dom_content_loaded = true
state_eq loaded loaded = true
state_eq closing closing = true
state_eq closed closed = true
state_eq crashed crashed = true
state_eq _ _ = false

abbrev operation_name : RendererLifecycleState → String
operation_name initialized = "mark initialized"
operation_name dom_content_loaded = "mark DOM content loaded"
operation_name loaded = "mark loaded"
operation_name closed = "mark closed"
operation_name _ = "transition"

unfoldable pub transition :
    RendererLifecycle → RendererLifecycleState → RendererLifecycleState → Outcome
transition self expected next =
    if state_eq self.state expected
    then ok (record self { state = next }, tt)
    else err (invalid_transition self.state (operation_name next))

unfoldable pub require_generation : RendererLifecycle → ℕ → Result RendererLifecycleError (Unit {0})
require_generation self generation =
    if generation == self.generation
    then ok tt
    else err (stale_navigation self.generation generation)

unfoldable pub mark_initialized : RendererLifecycle → Outcome
unfolding transition
mark_initialized self = transition self creating initialized

abbrev may_navigate : RendererLifecycleState → Bool
may_navigate initialized = true
may_navigate loaded = true
may_navigate _ = false

unfoldable pub begin_navigation :
    RendererLifecycle → Result RendererLifecycleError (RendererLifecycle × ℕ)
begin_navigation self = do
  reject_if (not (may_navigate self.state)) (invalid_transition self.state "begin navigation")
  generation ← ok_or (checked_add u32_max self.generation 1) navigation_generation_exhausted
  ok (record self { generation = generation; state = navigating }, generation)

unfoldable pub mark_dom_content_loaded : RendererLifecycle → ℕ → Outcome
unfolding require_generation transition
mark_dom_content_loaded self generation = do
  require_generation self generation
  transition self navigating dom_content_loaded

unfoldable pub mark_loaded : RendererLifecycle → ℕ → Outcome
unfolding require_generation transition
mark_loaded self generation = do
  require_generation self generation
  transition self dom_content_loaded loaded

abbrev pub is_closing : RendererLifecycleState → Bool
is_closing closing = true
is_closing closed = true
is_closing _ = false

unfoldable pub mark_crashed : RendererLifecycle → Outcome
mark_crashed self = do
  reject_if (is_closing self.state) (invalid_transition self.state "mark crashed")
  ok (record self { state = crashed }, tt)

unfoldable pub begin_close : RendererLifecycle → Outcome
begin_close self = do
  reject_if (is_closing self.state) (invalid_transition self.state "begin close")
  ok (record self { state = closing }, tt)

unfoldable pub mark_closed : RendererLifecycle → Outcome
unfolding transition
mark_closed self = transition self closing closed

-- The calls of a backend, in the order in which they arrive.
pub data Call : Type 0 where
  initializes begins_navigation crashes begins_close closes : Call
  loads_dom loads : ℕ → Call

unfoldable pub step : RendererLifecycle → Call → RendererLifecycle
unfolding mark_initialized begin_navigation mark_dom_content_loaded mark_loaded mark_crashed
    begin_close mark_closed
step r initializes = state_after r (mark_initialized r)
step r begins_navigation = state_after r (begin_navigation r)
step r crashes = state_after r (mark_crashed r)
step r begins_close = state_after r (begin_close r)
step r closes = state_after r (mark_closed r)
step r (loads_dom generation) = state_after r (mark_dom_content_loaded r generation)
step r (loads generation) = state_after r (mark_loaded r generation)

unfoldable pub run : RendererLifecycle → List Call → RendererLifecycle
run r [] = r
run r (c ∷ cs) = run (step r c) cs
