-- ===== src/Codec/Inspect/Values.antt =====
-- The values of a payload, and that an inspection reads them.
use mathlib.Core.Path.{subst}
use weregopher.Base.{
  ℕ, zero, suc, ◌+◌, ◌-◌, ◌≤◌, ◌≡◌, refl, sym, ap, ◌∙◌, List, [], ◌∷◌, arith, length, ok,
}
use weregopher.Protocol.Limits.{ProtocolLimits}
use weregopher.Codec.Cursor.{Cursor, read_value}
use weregopher.Codec.Inspect.{Levels, pop_finished, Inspection, opening, inspect_loop}
use weregopher.Codec.Inspect.Bounds.{loop, round, stops, fails, goes}
use weregopher.Codec.Inspect.Rounds.{
  Visited, levels_behind, round-Visited, visit-Inv, ok-injective, Inv, opening-Inv, round-Visited,
  visit-Inv,
}

-- So many values, one behind the other, from a cursor to a cursor: how many there are in them, with
-- those that they hold, if they nest no deeper than the height. Each value is read by itself, and
-- is followed by its children.
pub data Values (limits : ProtocolLimits) : ℕ → ℕ → Cursor → ℕ → Cursor → Type 0 where
  no_more : {height : ℕ} {c : Cursor} → Values limits height 0 c 0 c
  one_more :
      {height children count inner outer nodes : ℕ} {c body behind end : Cursor}
      → read_value limits c ≡ ok (children, body)
      → Values limits height children body inner behind
      → Values limits (suc height) count behind outer end
      → nodes ≡ suc (inner + outer)
      → Values limits (suc height) (suc count) c nodes end

module _ (limits : ProtocolLimits) where
  -- What is left of every level, the deepest first.
  abbrev Spans : ℕ → Levels → Cursor → ℕ → Cursor → Type 0
  Spans height [] c nodes end = (c ≡ end) × (nodes ≡ 0)
  Spans height (count ∷ levels) c nodes end =
      (inner : ℕ) × (outer : ℕ) × (behind : Cursor) × Values limits height count c inner behind
      × Spans (suc height) levels behind outer end
      × (nodes ≡ inner + outer)

  Spans-pop_finished :
      (levels : Levels) (h g nodes : ℕ) (c end : Cursor)
      → g + length (pop_finished levels) ≡ h + length levels
      → Spans g (pop_finished levels) c nodes end
      → Spans h levels c nodes end
  unfolding pop_finished
  Spans-pop_finished [] h g nodes c end e s = s
  Spans-pop_finished (zero ∷ levels) h g nodes c end e s = (
    0,
    nodes,
    c,
    no_more,
    Spans-pop_finished levels (suc h) g nodes c end (omega (arith, e)) s,
    omega arith,
  )
  Spans-pop_finished (suc n ∷ levels) h g nodes c end e s =
      let same : g ≡ h = omega (arith, e) in
      subst (λ k. Spans k (suc n ∷ levels) c nodes end) same s

  Spans-read :
      (h children remaining nodes : ℕ) (levels : Levels) (c body end : Cursor)
      → read_value limits c ≡ ok (children, body)
      → ((g : ℕ)
          → g + length (levels_behind children remaining levels) ≡ h + suc (suc (length levels))
          → Spans g (levels_behind children remaining levels) body nodes end)
      → Spans (suc h) (suc remaining ∷ levels) c (suc nodes) end
  Spans-read h zero remaining nodes levels c body end read rest =
      let (outer, out, behind, vs, s, e) = rest (suc h) (omega arith) in
      (suc outer, out, behind, one_more read no_more vs (omega arith), s, omega (arith, e))
  Spans-read h (suc n) remaining nodes levels c body end read rest =
      let (inner, more, behind, own, (outer, out, past, vs, s, f), e) = rest h (omega arith) in
      (suc (inner + outer), out, past, one_more read own vs refl, s, omega (arith, e, f))

  -- The loop only counts up.
  loop-grows :
      (fuel : ℕ) (payload : List ℕ) (i j : Inspection)
      → Inv limits payload i
      → loop limits fuel i ≡ ok j
      → (i.maximum_depth ≤ j.maximum_depth) × (i.nodes ≤ j.nodes)
  unfolding inspect_loop
  loop-grows zero payload i j inv e =
      let same = ok-injective i j e in
      (
        omega (arith, ap (λ (k : Inspection). k.maximum_depth) same),
        omega (arith, ap (λ (k : Inspection). k.nodes) same),
      )
  loop-grows (suc fuel) payload i j inv e = elim (round limits i) [
    | stops popped done ↦
        let same = ok-injective i j (sym (done fuel) ∙ e) in
        (
          omega (arith, ap (λ (k : Inspection). k.maximum_depth) same),
          omega (arith, ap (λ (k : Inspection). k.nodes) same),
        )
    | fails x bad ↦ absurd (ground (arith, bad fuel, e))
    | goes n levels k next step rest ↦
        let v = round-Visited limits payload i n levels k inv step in
        let inv1 = visit-Inv limits payload i n levels k inv next step in
        let grown = loop-grows fuel payload k j inv1 (sym (rest fuel) ∙ e) in
        (omega (arith, v.depth, grown), omega (arith, v.nodes, grown))
  ]

  stops-Spans :
      (i j : Inspection) (h nodes : ℕ)
      → pop_finished i.levels ≡ []
      → i ≡ j
      → i.nodes + nodes ≡ j.nodes
      → Spans h i.levels i.cursor nodes j.cursor
  stops-Spans i j h nodes popped same count =
      let short = ap (λ (ls : Levels). length ls) popped in
      Spans-pop_finished i.levels h (h + length i.levels) nodes i.cursor j.cursor
        (omega (arith, short))
        (subst (λ (ls : Levels). Spans (h + length i.levels) ls i.cursor nodes j.cursor)
          (sym popped)
          (
            ap (λ (k : Inspection). k.cursor) same,
            omega (arith, count, ap (λ (k : Inspection). k.nodes) same),
          ))

  goes-Spans :
      (i k : Inspection) (n : ℕ) (levels : Levels) (h depth nodes : ℕ) (end : Cursor)
      → pop_finished i.levels ≡ suc n ∷ levels
      → Visited limits n levels i k
      → h + length i.levels ≡ suc depth
      → suc (length levels) ≤ depth
      → ((g : ℕ) → g + length k.levels ≡ suc depth → Spans g k.levels k.cursor nodes end)
      → Spans h i.levels i.cursor (suc nodes) end
  goes-Spans i k n levels h depth nodes end next v high deep rest =
      let g = depth - suc (length levels) in
      let short = ap (λ (ls : Levels). length ls) next in
      let pushed = ap (λ (ls : Levels). length ls) v.pushed in
      Spans-pop_finished i.levels h (suc g) (suc nodes) i.cursor end
        (omega (arith, short, high, deep))
        (subst (λ (ls : Levels). Spans (suc g) ls i.cursor (suc nodes) end) (sym next)
          (Spans-read g v.children n nodes levels i.cursor k.cursor end v.read (λ m e.
            subst (λ (ls : Levels). Spans m ls k.cursor nodes end) v.pushed
              (rest m (omega (arith, e, pushed, deep))))))

  loop-Spans :
      (fuel : ℕ) (payload : List ℕ) (i j : Inspection) (h nodes : ℕ)
      → Inv limits payload i
      → suc limits.max_graph_nodes ≤ i.nodes + fuel
      → loop limits fuel i ≡ ok j
      → h + length i.levels ≡ suc j.maximum_depth
      → i.nodes + nodes ≡ j.nodes
      → Spans h i.levels i.cursor nodes j.cursor
  loop-Spans zero payload i j h nodes inv enough e high count =
      absurd (omega (arith, inv.nodes_within, enough))
  loop-Spans (suc fuel) payload i j h nodes inv enough e high count = elim (round limits i) [
    | stops popped done ↦
        stops-Spans i j h nodes popped (ok-injective i j (sym (done fuel) ∙ e)) count
    | fails x bad ↦ absurd (ground (arith, bad fuel, e))
    | goes n levels k next step rest ↦
        let v = round-Visited limits payload i n levels k inv step in
        let inv1 = visit-Inv limits payload i n levels k inv next step in
        let good = sym (rest fuel) ∙ e in
        let grown = loop-grows fuel payload k j inv1 good in
        let one_less = nodes - 1 in
        let whole : suc one_less ≡ nodes = omega (arith, count, v.nodes, grown) in
        subst (λ m. Spans h i.levels i.cursor m j.cursor) whole
          (goes-Spans i k n levels h j.maximum_depth one_less j.cursor next v high
            (omega (arith, v.depth, grown))
            (λ g top.
              loop-Spans fuel payload k j g one_less inv1 (omega (arith, v.nodes, enough)) good top
                (omega (arith, v.nodes, grown, count, whole))))
  ]

  -- An inspection reads one value.
  pub inspect_loop-Values :
      (payload : List ℕ) (j : Inspection)
      → inspect_loop limits (suc limits.max_graph_nodes) (opening payload) ≡ ok j
      → Values limits j.maximum_depth 1 (opening payload).cursor j.nodes j.cursor
  inspect_loop-Values payload j e =
      let (inner, outer, behind, vs, (same, none_left), total) =
        loop-Spans (suc limits.max_graph_nodes) payload (opening payload) j j.maximum_depth j.nodes
          (opening-Inv limits payload) (omega arith) e (omega arith) (omega arith) in
      let whole : inner ≡ j.nodes = omega (arith, total, none_left) in
      subst (λ m. Values limits j.maximum_depth 1 (opening payload).cursor m j.cursor) whole
        (subst (λ c. Values limits j.maximum_depth 1 (opening payload).cursor inner c) same vs)
