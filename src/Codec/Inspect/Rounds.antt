-- ===== src/Codec/Inspect/Rounds.antt =====
-- One round of an inspection, and what it keeps.
use mathlib.Core.Path.{subst, sym}
use weregopher.Base.{
  ℕ, zero, suc, ◌+◌, ◌≤◌, max, ◌≡◌, refl, ap, ◌∙◌, inl, inr, List, [], ◌∷◌, arith, ltb, leb,
  Bool-cases, length, Result, ok, ◌>>=◌, >>=-eq-ok, u16_max, u32_max,
}
use weregopher.Protocol.Limits.{ProtocolLimits}
use weregopher.Codec.Cursor.{MessagePackError, Cursor, read_value}
use weregopher.Codec.Cursor.Forward.{Moves, read_value-Forward}
use weregopher.Codec.Inspect.{Levels, pop_finished, Inspection, opening, push_children, visit}

pub length-pop_finished : (levels : Levels) → length (pop_finished levels) ≤ length levels
unfolding pop_finished
length-pop_finished [] = omega arith
length-pop_finished (zero ∷ levels) = omega (arith, length-pop_finished levels)
length-pop_finished (suc n ∷ levels) = omega arith

pub ok-injective :
    {A : Type 0} (x y : A) → ◌≡◌ {A = Result MessagePackError A} (ok x) (ok y) → x ≡ y
ok-injective x y e = ground arith

-- The levels behind a value of so many children.
abbrev pub levels_behind : ℕ → ℕ → Levels → Levels
levels_behind zero remaining levels = remaining ∷ levels
levels_behind (suc n) remaining levels = suc n ∷ remaining ∷ levels

module _ (limits : ProtocolLimits) where
  -- A round that succeeds counts one value, within the limits, and moves the cursor on.
  pub record Visited (remaining : ℕ) (levels : Levels) (i j : Inspection) : Type 0 where
    pub nodes : j.nodes ≡ suc i.nodes
    pub nodes_within : j.nodes ≤ limits.max_graph_nodes
    pub depth : j.maximum_depth ≡ max i.maximum_depth (suc (length levels))
    pub depth_within : suc (length levels) ≤ limits.max_object_depth
    pub levels_of : length j.levels ≤ suc (suc (length levels))
    pub moves : Moves 1 i.cursor j.cursor
    pub children : ℕ
    pub read : read_value limits i.cursor ≡ ok (children, j.cursor)
    pub pushed : j.levels ≡ levels_behind children remaining levels

  abbrev after_push : Levels → Inspection → Cursor → Levels → Result MessagePackError Inspection
  after_push levels i cursor pushed = ok (record {
    levels = pushed;
    cursor = cursor;
    nodes = i.nodes + 1;
    maximum_depth = max i.maximum_depth (suc (length levels));
  })

  abbrev after_read : ℕ → Levels → Inspection → ℕ × Cursor → Result MessagePackError Inspection
  after_read remaining levels i r =
      push_children limits (suc (length levels)) r.0 (remaining ∷ levels)
      >>= after_push levels i r.1

  push_children-length :
      (depth children : ℕ) (levels pushed : Levels)
      → push_children limits depth children levels ≡ ok pushed
      → length pushed ≤ suc (length levels)
  push_children-length depth zero levels pushed e = ground (arith, e)
  push_children-length depth (suc n) levels pushed e = ground (arith, e)

  push_children-behind :
      (depth children remaining : ℕ) (levels pushed : Levels)
      → push_children limits depth children (remaining ∷ levels) ≡ ok pushed
      → pushed ≡ levels_behind children remaining levels
  push_children-behind depth zero remaining levels pushed e = ground (arith, e)
  push_children-behind depth (suc n) remaining levels pushed e = ground (arith, e)

  visit-Visited :
      (remaining : ℕ) (levels : Levels) (i j : Inspection)
      → (i.cursor).offset ≤ length (i.cursor).bytes
      → visit limits remaining levels i ≡ ok j
      → Visited remaining levels i j
  unfolding visit
  visit-Visited remaining levels i j inside e =
      let depth = suc (length levels) in
      elim (Bool-cases (ltb u16_max depth)) [
        | inl bad ↦ absurd (ground (arith, bad, e))
        | inr a ↦ elim (Bool-cases (ltb limits.max_object_depth depth)) [
          | inl bad ↦ absurd (ground (arith, a, bad, e))
          | inr b ↦ elim (Bool-cases (leb (i.nodes + 1) u32_max)) [
            | inr bad ↦ absurd (ground (arith, a, b, bad, e))
            | inl c ↦ elim (Bool-cases (ltb limits.max_graph_nodes (i.nodes + 1))) [
              | inl bad ↦ absurd (ground (arith, a, b, c, bad, e))
              | inr d ↦
                  let f : (read_value limits i.cursor >>= after_read remaining levels i) ≡ ok j =
                    rw (a, b, c, d, visit) at e in
                  let (r, read, g) =
                    >>=-eq-ok (read_value limits i.cursor) (after_read remaining levels i) f in
                  let (pushed, push, h) =
                    >>=-eq-ok (push_children limits depth r.0 (remaining ∷ levels))
                      (after_push levels i r.1) g in
                  record {
                    nodes = ground (arith, h);
                    nodes_within = ground (arith, h, d);
                    depth = ground (arith, h);
                    depth_within = ground (arith, b);
                    levels_of =
                        ground (
                          arith,
                          h,
                          push_children-length depth r.0 (remaining ∷ levels) pushed push,
                        );
                    moves =
                        subst (λ (k : Inspection). Moves 1 i.cursor k.cursor) (ok-injective _ j h)
                          (read_value-Forward limits i.cursor inside r.0 r.1 read);
                    children = r.0;
                    read =
                        subst (λ (k : Inspection). read_value limits i.cursor ≡ ok (r.0, k.cursor))
                          (ok-injective _ j h) read;
                    pushed =
                        ap (λ (k : Inspection). k.levels) (sym (ok-injective _ j h))
                        ∙ push_children-behind depth r.0 remaining levels pushed push;
                  }
            ]
          ]
        ]
      ]

  -- What holds of an inspection of the payload between two rounds.
  pub record Inv (payload : List ℕ) (i : Inspection) : Type 0 where
    pub bytes : (i.cursor).bytes ≡ payload
    pub inside : (i.cursor).offset ≤ length payload
    pub nodes_read : i.nodes ≤ (i.cursor).offset
    pub nodes_within : i.nodes ≤ limits.max_graph_nodes
    pub depth_within : i.maximum_depth ≤ limits.max_object_depth
    pub depth_counted : i.maximum_depth ≤ i.nodes
    pub levels_counted : length i.levels ≤ suc i.nodes

  pub opening-Inv : (payload : List ℕ) → Inv payload (opening payload)
  opening-Inv payload = record {
    bytes = refl;
    inside = omega arith;
    nodes_read = omega arith;
    nodes_within = omega arith;
    depth_within = omega arith;
    depth_counted = omega arith;
    levels_counted = omega arith;
  }

  pub round-Visited :
      (payload : List ℕ) (i : Inspection) (remaining : ℕ) (levels : Levels) (j : Inspection)
      → Inv payload i
      → visit limits remaining levels i ≡ ok j
      → Visited remaining levels i j
  round-Visited payload i remaining levels j inv e =
      visit-Visited remaining levels i j
        (omega (arith, inv.inside, ap (λ (bs : List ℕ). length bs) inv.bytes)) e

  pub visit-Inv :
      (payload : List ℕ) (i : Inspection) (remaining : ℕ) (levels : Levels) (j : Inspection)
      → Inv payload i
      → pop_finished i.levels ≡ suc remaining ∷ levels
      → visit limits remaining levels i ≡ ok j
      → Inv payload j
  visit-Inv payload i remaining levels j inv next e =
      let v = round-Visited payload i remaining levels j inv e in
      let m = v.moves in
      let whole = ap (λ (bs : List ℕ). length bs) inv.bytes in
      let popped = ap (λ (ls : Levels). length ls) next in
      let shorter = length-pop_finished i.levels in
      record {
        bytes = m.bytes ∙ inv.bytes;
        inside = omega (arith, m.inside, whole);
        nodes_read = omega (arith, v.nodes, m.onward, inv.nodes_read);
        nodes_within = v.nodes_within;
        depth_within = omega (arith, v.depth, v.depth_within, inv.depth_within);
        depth_counted =
            omega (arith, v.depth, v.nodes, inv.depth_counted, popped, shorter, inv.levels_counted);
        levels_counted = omega (arith, v.levels_of, v.nodes, popped, shorter, inv.levels_counted);
      }
