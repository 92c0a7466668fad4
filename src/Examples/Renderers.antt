-- ===== src/Examples/Renderers.antt =====
-- A renderer from its creation to its first loaded page.
use weregopher.Base.{◌≡◌, refl, List, [], ◌∷◌, ◌⊎◌}
use weregopher.Renderer.Lifecycle.{
  navigating, loaded, closed, RendererLifecycle, new, Call, initializes, begins_navigation, crashes,
  loads_dom, loads, step, run,
}
use weregopher.Renderer.Lifecycle.Navigation.{Reach, start, next}
use weregopher.Renderer.Lifecycle.Closing.{Edge, step-Edge, run-closed}

abbrev loaded_page : RendererLifecycle
loaded_page = record { renderer = 7; state = loaded; generation = 1 }

abbrev navigated : RendererLifecycle
navigated = record { renderer = 7; state = navigating; generation = 2 }

abbrev past : List Call
past = loads 1 ∷ loads_dom 1 ∷ begins_navigation ∷ initializes ∷ []

reached :
    Reach
      (step (step (step (step (new 7) initializes) begins_navigation) (loads_dom 1)) (loads 1))
      past
reached = next (loads 1) (next (loads_dom 1) (next begins_navigation (next initializes (start 7))))

step-Edge_example :
    ((t : RendererLifecycle) → Edge loaded_page crashes t → step loaded_page crashes ≡ t)
    × (Edge loaded_page crashes (step loaded_page crashes)
        ⊎ (step loaded_page crashes ≡ loaded_page))
step-Edge_example = step-Edge loaded_page crashes

run-closed_example :
    run (record loaded_page { state = closed }) (crashes ∷ initializes ∷ [])
    ≡ record loaded_page { state = closed }
run-closed_example =
    run-closed (record loaded_page { state = closed }) (crashes ∷ initializes ∷ []) refl
