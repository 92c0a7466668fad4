-- ===== src/Renderer/Lifecycle/Navigation.antt =====
-- Navigation generations only grow, so that the events of an old navigation are refused.
use weregopher.Base.{
  ℕ, ◌≡◌, ◌≤◌, ◌<◌, List, [], ◌∷◌, ok, err, arith, true, Bool, false, ◌&&◌, ◌||◌, ◌==◌, any,
}
use weregopher.Renderer.Lifecycle.{
  RendererLifecycle, stale_navigation, begin_navigation, mark_dom_content_loaded, mark_loaded, Call,
  initializes, crashes, begins_close, closes, loads_dom, loads, loaded, dom_content_loaded, step,
  run, new, begins_navigation,
}

step-generation-le : (r : RendererLifecycle) (c : Call) → r.generation ≤ (step r c).generation
unfolding step
step-generation-le r c = ground arith

pub run-generation-le :
    (r : RendererLifecycle) (cs : List Call) → r.generation ≤ (run r cs).generation
unfolding run
run-generation-le r [] = omega arith
run-generation-le r (c ∷ cs) =
    omega (arith, step-generation-le r c, run-generation-le (step r c) cs)

-- The generation that a navigation gets is new: whatever happened before and happens after, the
-- events of every lower generation are refused as stale.
pub begin_navigation-stale :
    (r t : RendererLifecycle) (generation old : ℕ) (cs : List Call)
    → begin_navigation r ≡ ok (t, generation)
    → old ≤ r.generation
    → (r.generation < generation)
      × (mark_dom_content_loaded (run t cs) old ≡ err (stale_navigation (run t cs).generation old))
      × (mark_loaded (run t cs) old ≡ err (stale_navigation (run t cs).generation old))
unfolding begin_navigation mark_dom_content_loaded mark_loaded
begin_navigation-stale r t generation old cs e h = ground (arith, run-generation-le t cs)

-- A renderer and the calls that it was given, the latest first.
pub data Reach : RendererLifecycle → List Call → Type 0 where
  start : (renderer : ℕ) → Reach (new renderer) []
  next :
      {r : RendererLifecycle} {past : List Call} (c : Call)
      → Reach r past
      → Reach (step r c) (c ∷ past)

abbrev pub is_dom_of : ℕ → Call → Bool
is_dom_of generation (loads_dom g) = g == generation
is_dom_of generation _ = false

abbrev pub is_load_of : ℕ → Call → Bool
is_load_of generation (loads g) = g == generation
is_load_of generation _ = false

-- The history has a load of the generation, and before it the generation's `DOMContentLoaded`.
pub loaded_in_order : ℕ → List Call → Bool
loaded_in_order generation [] = false
loaded_in_order generation (c ∷ past) =
    is_load_of generation c && any (is_dom_of generation) past || loaded_in_order generation past

record Explains (r : RendererLifecycle) (past : List Call) : Type 0 where
  dom : r.state ≡ dom_content_loaded → any (is_dom_of r.generation) past ≡ true
  load : r.state ≡ loaded → loaded_in_order r.generation past ≡ true

step-Explains :
    (r : RendererLifecycle) (c : Call) (past : List Call)
    → Explains r past
    → Explains (step r c) (c ∷ past)
unfolding step loaded_in_order
step-Explains r initializes past h = ground arith
step-Explains r (loads_dom g) past h = ground arith
step-Explains r (loads g) past h = ground arith
step-Explains r begins_navigation past h = ground arith
step-Explains r crashes past h = ground arith
step-Explains r begins_close past h = ground arith
step-Explains r closes past h = ground arith

Reach-Explains : {r : RendererLifecycle} {past : List Call} → Reach r past → Explains r past
unfolding new
Reach-Explains (start renderer) = record { dom = λ e. cc; load = λ e. cc }
Reach-Explains (next {r = r} {past = past} c h) = step-Explains r c past (Reach-Explains h)

-- A renderer that is loaded, after any history of calls since its creation, was told of the load
-- of its current navigation, and before that of the same navigation's `DOMContentLoaded`.
pub loaded-in_order :
    {r : RendererLifecycle} {past : List Call}
    → Reach r past
    → r.state ≡ loaded
    → loaded_in_order r.generation past ≡ true
loaded-in_order h = (Reach-Explains h).load
