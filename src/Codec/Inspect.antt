-- ===== src/Codec/Inspect.antt =====
-- The preflight of one MessagePack value: `inspect_messagepack`.
use weregopher.Base.{
  ◌>>◌, ℕ, zero, suc, max, Bool, ◌||◌, not, List, [], ◌∷◌, ltb, ◌==◌, if◌then◌else◌, length, Result,
  ok, err, ◌>>=◌, reject_if, ok_or, map_err, u16_max, u32_max, checked_add,
}
use weregopher.Protocol.Limits.{ProtocolLimits, validate}
use weregopher.Codec.Cursor.{
  MessagePackError, empty, trailing_bytes, child_count_overflow, frame_bytes_exceeded,
  nodes_exceeded, depth_exceeded, budget_allocation_failed, invalid_observed_budget, invalid_limits,
  Cursor, read_value,
}
pub mod Rounds
pub mod Bounds
pub mod Values
pub mod Within

pub record Budget : Type 0 where
  pub nodes : ℕ  -- u32
  pub maximum_depth : ℕ  -- u16

unfoldable pub new_budget : ℕ → ℕ → Result MessagePackError Budget
new_budget nodes maximum_depth =
    if nodes == 0 || maximum_depth == 0 || ltb nodes maximum_depth
    then err invalid_observed_budget
    else ok (record { nodes = nodes; maximum_depth = maximum_depth })

-- What is left to read at each depth, the deepest first.
abbrev pub Levels : Type 0
Levels = List ℕ

unfoldable pub pop_finished : Levels → Levels
pop_finished [] = []
pop_finished (zero ∷ levels) = let rest = pop_finished levels in rest
pop_finished (suc n ∷ levels) = suc n ∷ levels

pub record Inspection : Type 0 where
  pub levels : Levels
  pub cursor : Cursor
  pub nodes : ℕ
  pub maximum_depth : ℕ

abbrev pub opening : List ℕ → Inspection
opening payload = record {
  levels = 1 ∷ [];
  cursor = record { bytes = payload; offset = 0 };
  nodes = 0;
  maximum_depth = 0;
}

module _ (limits : ProtocolLimits) where
  abbrev pub depth_error : ℕ → MessagePackError
  depth_error actual = depth_exceeded limits.max_object_depth actual

  abbrev pub push_children : ℕ → ℕ → Levels → Result MessagePackError Levels
  push_children depth zero levels = ok levels
  push_children depth (suc n) levels = do
    child_depth ← ok_or (checked_add u16_max depth 1) (depth_error u16_max)
    reject_if (ltb limits.max_object_depth child_depth) (depth_error child_depth)
    ok (suc n ∷ levels)

  -- One round, of the level that has one more value to read.
  unfoldable pub visit : ℕ → Levels → Inspection → Result MessagePackError Inspection
  unfolding read_value
  visit remaining levels i = do
    let depth = suc (length levels)
    reject_if (ltb u16_max depth) (depth_error u16_max)
    reject_if (ltb limits.max_object_depth depth) (depth_error depth)
    nodes ← ok_or (checked_add u32_max i.nodes 1) child_count_overflow
    reject_if (ltb limits.max_graph_nodes nodes) (nodes_exceeded limits.max_graph_nodes nodes)
    (children, cursor) ← read_value limits i.cursor
    pushed ← push_children depth children (remaining ∷ levels)
    ok (record {
      levels = pushed;
      cursor = cursor;
      nodes = nodes;
      maximum_depth = max i.maximum_depth depth;
    })

  -- The loop, on fuel.
  unfoldable pub inspect_loop : ℕ → Inspection → Result MessagePackError Inspection
  unfolding visit pop_finished
  inspect_loop zero i = ok i
  inspect_loop (suc fuel) i = elim (pop_finished i.levels) [
    | [] ↦ ok i
    | zero ∷ levels ↦ ok i
    | suc remaining ∷ levels ↦ visit remaining levels i >>= inspect_loop fuel
  ]

  -- `try_reserve` is whether memory for the levels can be had.
  unfoldable pub inspect_messagepack : Bool → List ℕ → Result MessagePackError Budget
  unfolding validate inspect_loop new_budget
  inspect_messagepack try_reserve payload = do
    map_err invalid_limits (validate limits)
    reject_if (ltb limits.max_frame_bytes (length payload))
        (frame_bytes_exceeded limits.max_frame_bytes (length payload))
    reject_if (length payload == 0) empty
    reject_if (not try_reserve) budget_allocation_failed
    i ← inspect_loop (suc limits.max_graph_nodes) (opening payload)
    reject_if (not (i.cursor.offset == length payload)) (trailing_bytes i.cursor.offset)
    new_budget i.nodes i.maximum_depth
