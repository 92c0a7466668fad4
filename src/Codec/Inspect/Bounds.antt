-- ===== src/Codec/Inspect/Bounds.antt =====
-- What an inspection counts, and that its loop ends.
use mathlib.Core.Path.{subst}
use weregopher.Base.{
  ℕ, zero, suc, ◌+◌, ◌≤◌, ◌≡◌, refl, sym, ap, ◌∙◌, inl, inr, List, [], ◌∷◌, arith, List-cases,
  Result, ok, err, Result-cases,
}
use weregopher.Protocol.Limits.{ProtocolLimits}
use weregopher.Codec.Cursor.{MessagePackError}
use weregopher.Codec.Inspect.{Levels, pop_finished, Inspection, opening, visit, inspect_loop}
use weregopher.Codec.Inspect.Rounds.{ok-injective, Inv, opening-Inv, round-Visited, visit-Inv}

pop_finished-HasMore : (levels rest : Levels) → pop_finished levels ≡ zero ∷ rest → ⊥
unfolding pop_finished
pop_finished-HasMore [] rest e = ground (arith, e)
pop_finished-HasMore (zero ∷ levels) rest e = pop_finished-HasMore levels rest e
pop_finished-HasMore (suc n ∷ levels) rest e = ground (arith, e)

module _ (limits : ProtocolLimits) where
  abbrev pub loop : ℕ → Inspection → Result MessagePackError Inspection
  loop fuel i = inspect_loop limits fuel i

  -- One round of the loop, whatever its fuel.
  pub data Round (i : Inspection) : Type 0 where
    stops : pop_finished i.levels ≡ [] → ((fuel : ℕ) → loop (suc fuel) i ≡ ok i) → Round i
    fails : (x : MessagePackError) → ((fuel : ℕ) → loop (suc fuel) i ≡ err x) → Round i
    goes :
        (remaining : ℕ) (levels : Levels) (j : Inspection)
        → pop_finished i.levels ≡ suc remaining ∷ levels
        → visit limits remaining levels i ≡ ok j
        → ((fuel : ℕ) → loop (suc fuel) i ≡ loop fuel j)
        → Round i

  pub round : (i : Inspection) → Round i
  unfolding inspect_loop
  round i = elim (List-cases (pop_finished i.levels)) [
    | inl e ↦ stops e (λ fuel. rw (e, inspect_loop) refl)
    | inr (zero, levels, e) ↦ absurd (pop_finished-HasMore i.levels levels e)
    | inr (suc n, levels, e) ↦ elim (Result-cases (visit limits n levels i)) [
      | inl (j, good) ↦ goes n levels j e good (λ fuel. rw (e, good, inspect_loop) refl)
      | inr (x, bad) ↦ fails x (λ fuel. rw (e, bad, inspect_loop) refl)
    ]
  ]

  pub loop-Inv :
      (fuel : ℕ) (payload : List ℕ) (i j : Inspection)
      → Inv limits payload i
      → loop fuel i ≡ ok j
      → Inv limits payload j
  unfolding inspect_loop
  loop-Inv zero payload i j inv e =
      subst (λ (k : Inspection). Inv limits payload k) (ok-injective i j e) inv
  loop-Inv (suc fuel) payload i j inv e = elim (round i) [
    | stops popped done ↦
        subst (λ (k : Inspection). Inv limits payload k) (ok-injective i j (sym (done fuel) ∙ e))
          inv
    | fails x bad ↦ absurd (ground (arith, bad fuel, e))
    | goes n levels k next step rest ↦
        loop-Inv fuel payload k j (visit-Inv limits payload i n levels k inv next step)
          (sym (rest fuel) ∙ e)
  ]

  loop-fuel :
      (fuel extra : ℕ) (payload : List ℕ) (i : Inspection)
      → Inv limits payload i
      → suc limits.max_graph_nodes ≤ i.nodes + fuel
      → loop (fuel + extra) i ≡ loop fuel i
  loop-fuel zero extra payload i inv enough = absurd (omega (arith, inv.nodes_within, enough))
  loop-fuel (suc n) extra payload i inv enough =
      let count : suc n + extra ≡ suc (n + extra) = omega arith in
      ap (λ m. loop m i) count ∙ elim (round i) [
        | stops popped done ↦ done (n + extra) ∙ sym (done n)
        | fails x bad ↦ bad (n + extra) ∙ sym (bad n)
        | goes k levels j next step rest ↦
            let v = round-Visited limits payload i k levels j inv step in
            rest (n + extra)
            ∙ loop-fuel n extra payload j (visit-Inv limits payload i k levels j inv next step)
                (omega (arith, v.nodes, enough))
            ∙ sym (rest n)
      ]

  -- The loop of an inspection ends within as many rounds as the limits allow values, and one more:
  -- fuel past that changes nothing.
  pub inspect_loop-fuel :
      (payload : List ℕ) (extra : ℕ)
      → inspect_loop limits (suc limits.max_graph_nodes + extra) (opening payload)
        ≡ inspect_loop limits (suc limits.max_graph_nodes) (opening payload)
  inspect_loop-fuel payload extra =
      loop-fuel (suc limits.max_graph_nodes) extra payload (opening payload)
        (opening-Inv limits payload) (omega arith)
