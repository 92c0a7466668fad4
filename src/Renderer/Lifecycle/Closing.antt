-- ===== src/Renderer/Lifecycle/Closing.antt =====
-- Closing is final, and every call moves along the life of a renderer.
use weregopher.Base.{
  suc, ◌≤◌, ◌≡◌, refl, ◌≢◌, ◌⊎◌, inl, inr, true, false, List, [], ◌∷◌, arith, Bool-cases, u32_max,
}
use weregopher.Renderer.Lifecycle.{
  RendererLifecycleState, creating, initialized, navigating, dom_content_loaded, loaded, closing,
  closed, crashed, RendererLifecycle, state_eq, is_closing, Call, initializes, begins_navigation,
  crashes, begins_close, closes, loads_dom, loads, step, run,
}

-- A renderer that may still crash, and that may still be closed.
abbrev IsLive : RendererLifecycleState → Type 0
IsLive s = (s ≢ closing) × (s ≢ closed)

-- The life of a renderer: what each call needs, and what it leads to.
pub Edge : RendererLifecycle → Call → RendererLifecycle → Type 0
Edge r initializes t = (r.state ≡ creating) × (t ≡ record r { state = initialized })
Edge r begins_navigation t =
    ((r.state ≡ initialized) ⊎ (r.state ≡ loaded))
    × (suc r.generation ≤ u32_max)
    × (t ≡ record r { generation = suc r.generation; state = navigating })
Edge r (loads_dom generation) t =
    (generation ≡ r.generation)
    × (r.state ≡ navigating)
    × (t ≡ record r { state = dom_content_loaded })
Edge r (loads generation) t =
    (generation ≡ r.generation) × (r.state ≡ dom_content_loaded) × (t ≡ record r { state = loaded })
Edge r crashes t = IsLive r.state × (t ≡ record r { state = crashed })
Edge r begins_close t = IsLive r.state × (t ≡ record r { state = closing })
Edge r closes t = (r.state ≡ closing) × (t ≡ record r { state = closed })

step_along : (r t : RendererLifecycle) (c : Call) → Edge r c t → step r c ≡ t
unfolding step Edge
step_along r t initializes e = ground (arith, e)
step_along r t begins_navigation e = ground (arith, e)
step_along r t (loads_dom generation) e = ground (arith, e)
step_along r t (loads generation) e = ground (arith, e)
step_along r t crashes e = ground (arith, e)
step_along r t begins_close e = ground (arith, e)
step_along r t closes e = ground (arith, e)

IsLive-or_closing :
    (s : RendererLifecycleState) → (IsLive s × (is_closing s ≡ false)) ⊎ (is_closing s ≡ true)
IsLive-or_closing closing = inr refl
IsLive-or_closing closed = inr refl
IsLive-or_closing creating = inl ((λ e. ground (arith, e), λ e. ground (arith, e)), refl)
IsLive-or_closing initialized = inl ((λ e. ground (arith, e), λ e. ground (arith, e)), refl)
IsLive-or_closing navigating = inl ((λ e. ground (arith, e), λ e. ground (arith, e)), refl)
IsLive-or_closing dom_content_loaded = inl ((λ e. ground (arith, e), λ e. ground (arith, e)), refl)
IsLive-or_closing loaded = inl ((λ e. ground (arith, e), λ e. ground (arith, e)), refl)
IsLive-or_closing crashed = inl ((λ e. ground (arith, e), λ e. ground (arith, e)), refl)

state_eq_eq : (s t : RendererLifecycleState) → state_eq s t ≡ true → s ≡ t
state_eq_eq s t e = ground (arith, e)

Edge-or_same : (r : RendererLifecycle) (c : Call) → Edge r c (step r c) ⊎ (step r c ≡ r)
unfolding step Edge
Edge-or_same r initializes = elim (Bool-cases (state_eq r.state creating)) [
  | inl e ↦ inl (state_eq_eq r.state creating e, rw (e, step) refl)
  | inr f ↦ inr (rw (f, step) refl)
]
Edge-or_same r begins_navigation = ground arith
Edge-or_same r (loads_dom generation) = ground arith
Edge-or_same r (loads generation) = ground arith
Edge-or_same r crashes = elim (IsLive-or_closing r.state) [
  | inl (live, free) ↦ inl (live, rw (free, step) refl)
  | inr over ↦ inr (rw (over, step) refl)
]
Edge-or_same r begins_close = elim (IsLive-or_closing r.state) [
  | inl (live, free) ↦ inl (live, rw (free, step) refl)
  | inr over ↦ inr (rw (over, step) refl)
]
Edge-or_same r closes = elim (Bool-cases (state_eq r.state closing)) [
  | inl e ↦ inl (state_eq_eq r.state closing e, rw (e, step) refl)
  | inr f ↦ inr (rw (f, step) refl)
]

-- The calls follow the life of a renderer: a call leads along the edge that the life has for it,
-- and where the life has none, it leaves the renderer as it was.
pub step-Edge :
    (r : RendererLifecycle) (c : Call)
    → ((t : RendererLifecycle) → Edge r c t → step r c ≡ t) × (Edge r c (step r c) ⊎ (step r c ≡ r))
step-Edge r c = (λ t e. step_along r t c e, Edge-or_same r c)

step-closed : (r : RendererLifecycle) (c : Call) → r.state ≡ closed → step r c ≡ r
unfolding step
step-closed r c e = ground arith

-- A closed renderer is final: no history of calls changes it.
pub run-closed : (r : RendererLifecycle) (cs : List Call) → r.state ≡ closed → run r cs ≡ r
unfolding run
run-closed r [] e = refl
run-closed r (c ∷ cs) e = let same = step-closed r c e in rw same (run-closed r cs e)

-- From every state but the closing ones, closing and then marking closed succeeds and ends the life.
pub close_completes :
    (r : RendererLifecycle)
    → is_closing r.state ≡ false
    → run r (begins_close ∷ closes ∷ []) ≡ record r { state = closed }
unfolding run step
close_completes r e = ground arith
