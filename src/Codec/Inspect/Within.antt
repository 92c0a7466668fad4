-- ===== src/Codec/Inspect/Within.antt =====
-- What a payload that passes the preflight holds.
use mathlib.Core.Path.{subst}
use weregopher.Base.{
  ℕ, suc, ◌≤◌, ◌≡◌, refl, sym, ap, ◌∙◌, Bool, true, false, not, List, arith, ltb, ◌==◌, length,
  Result, ok, ◌>>=◌, ◌>>◌, reject_if, map_err, >>=-eq-ok,
}
use weregopher.Protocol.Limits.{ProtocolLimits, validate}
use weregopher.Codec.Cursor.{
  Cursor, MessagePackError, empty, trailing_bytes, frame_bytes_exceeded, budget_allocation_failed,
  invalid_limits,
}
use weregopher.Codec.Inspect.{
  Budget, new_budget, Inspection, opening, inspect_loop, inspect_messagepack,
}
use weregopher.Codec.Inspect.Bounds.{loop-Inv}
use weregopher.Codec.Inspect.Values.{Values, inspect_loop-Values}
use weregopher.Codec.Inspect.Rounds.{opening-Inv}

abbrev pub at : List ℕ → ℕ → Cursor
at payload offset = record { bytes = payload; offset = offset }

-- A budget within the limits, of a payload that is within them.
pub record IsWithin (limits : ProtocolLimits) (payload : List ℕ) (b : Budget) : Type 0 where
  pub frame_bytes : length payload ≤ limits.max_frame_bytes
  pub some_nodes : 1 ≤ b.nodes
  pub some_depth : 1 ≤ b.maximum_depth
  pub nodes : b.nodes ≤ limits.max_graph_nodes
  pub nodes_read : b.nodes ≤ length payload
  pub depth : b.maximum_depth ≤ limits.max_object_depth
  pub depth_counted : b.maximum_depth ≤ b.nodes
  pub values : Values limits b.maximum_depth 1 (at payload 0) b.nodes (at payload (length payload))

passed :
    {A : Type 0} (b : Bool) (x : MessagePackError) (r : Result MessagePackError A) (a : A)
    → reject_if b x >> r ≡ ok a
    → (b ≡ false) × (r ≡ ok a)
passed true x r a bad = absurd (ground (arith, bad))
passed false x r a good = (refl, good)

new_budget-ok :
    (nodes depth : ℕ) (b : Budget)
    → new_budget nodes depth ≡ ok b
    → (b.nodes ≡ nodes) × (b.maximum_depth ≡ depth) × (1 ≤ nodes) × (1 ≤ depth)
unfolding new_budget
new_budget-ok nodes depth b e =
    (ground (arith, e), ground (arith, e), ground (arith, e), ground (arith, e))

one_value :
    (limits : ProtocolLimits) (payload : List ℕ) (j : Inspection) (b : Budget)
    → (b.nodes ≡ j.nodes)
      × (b.maximum_depth ≡ j.maximum_depth)
      × (1 ≤ j.nodes)
      × (1 ≤ j.maximum_depth)
    → not (j.cursor.offset == length payload) ≡ false
    → j.cursor.bytes ≡ payload
    → Values limits j.maximum_depth 1 (at payload 0) j.nodes j.cursor
    → Values limits b.maximum_depth 1 (at payload 0) b.nodes (at payload (length payload))
one_value limits payload j b made whole same vs =
    let last : j.cursor.offset ≡ length payload = ground (arith, whole) in
    let end : j.cursor ≡ at payload (length payload) =
      ap (λ (bs : List ℕ). record { bytes = bs; offset = j.cursor.offset }) same
      ∙ ap (λ n. at payload n) last in
    subst (λ d. Values limits d 1 (at payload 0) b.nodes (at payload (length payload))) (sym made.1)
      (subst (λ n. Values limits j.maximum_depth 1 (at payload 0) n (at payload (length payload)))
        (sym made.0) (subst (λ c. Values limits j.maximum_depth 1 (at payload 0) j.nodes c) end vs))

-- What `inspect_messagepack` does behind its loop, and behind its first check.
abbrev judge : List ℕ → Inspection → Result MessagePackError Budget
judge payload j = do
  reject_if (not (j.cursor.offset == length payload)) (trailing_bytes j.cursor.offset)
  new_budget j.nodes j.maximum_depth

abbrev inspected : ProtocolLimits → List ℕ → Result MessagePackError Budget
inspected limits payload =
    inspect_loop limits (suc limits.max_graph_nodes) (opening payload) >>= judge payload

abbrev reserved : ProtocolLimits → Bool → List ℕ → Result MessagePackError Budget
reserved limits try_reserve payload =
    reject_if (not try_reserve) budget_allocation_failed >> inspected limits payload

abbrev filled : ProtocolLimits → Bool → List ℕ → Result MessagePackError Budget
filled limits try_reserve payload =
    reject_if (length payload == 0) empty >> reserved limits try_reserve payload

abbrev checked : ProtocolLimits → Bool → List ℕ → Result MessagePackError Budget
checked limits try_reserve payload =
    reject_if (ltb limits.max_frame_bytes (length payload))
      (frame_bytes_exceeded limits.max_frame_bytes (length payload))
    >> filled limits try_reserve payload

-- A payload that passes the preflight is, from its first byte to its last, one value that nests no
-- deeper than the depth of the budget that is answered, and holds, itself counted, exactly the
-- budget's number of values. The bytes, the number and the depth are within the limits; and there
-- are no more values than bytes.
pub inspect_messagepack-IsWithin :
    (limits : ProtocolLimits) (try_reserve : Bool) (payload : List ℕ) (b : Budget)
    → inspect_messagepack limits try_reserve payload ≡ ok b
    → IsWithin limits payload b
unfolding inspect_messagepack
inspect_messagepack-IsWithin limits try_reserve payload b e =
    let (u, valid, e1) =
      >>=-eq-ok (map_err invalid_limits (validate limits))
        (λ (u : Unit {0}). checked limits try_reserve payload) e in
    let long = ltb limits.max_frame_bytes (length payload) in
    let (short, e2) =
      passed long (frame_bytes_exceeded limits.max_frame_bytes (length payload))
        (filled limits try_reserve payload) b e1 in
    let (some_bytes, e3) =
      passed (length payload == 0) empty (reserved limits try_reserve payload) b e2 in
    let (held, e4) =
      passed (not try_reserve) budget_allocation_failed (inspected limits payload) b e3 in
    let (j, good, e5) =
      >>=-eq-ok (inspect_loop limits (suc limits.max_graph_nodes) (opening payload)) (judge payload)
        e4 in
    let (whole, e6) =
      passed (not (j.cursor.offset == length payload)) (trailing_bytes j.cursor.offset)
        (new_budget j.nodes j.maximum_depth) b e5 in
    let made = new_budget-ok j.nodes j.maximum_depth b e6 in
    let inv =
      loop-Inv limits (suc limits.max_graph_nodes) payload (opening payload) j
        (opening-Inv limits payload) good in
    let one = inspect_loop-Values limits payload j good in
    record {
      frame_bytes = ground (arith, short);
      some_nodes = omega (arith, made);
      some_depth = omega (arith, made);
      nodes = omega (arith, made, inv.nodes_within);
      nodes_read = omega (arith, made, inv.nodes_read, inv.inside);
      depth = omega (arith, made, inv.depth_within);
      depth_counted = omega (arith, made, inv.depth_counted);
      values = one_value limits payload j b made whole inv.bytes one;
    }
