-- ===== src/Codec/Cursor.antt =====
-- The cursor over a MessagePack payload, and the markers that it reads.
use weregopher.Base.{
  ◌>>◌, ◌>>=◌, ℕ, zero, suc, ◌*◌, ◌%◌, Bool, false, ◌&&◌, ◌||◌, not, none, some, List, [], ◌∷◌, ltb,
  leb, ◌==◌, if◌then◌else◌, length, take, drop, Result, ok, err, reject_if, u64_max, usize_max,
  checked_add, from_be_bytes,
}
use weregopher.Protocol.Limits.{ProtocolLimits, ProtocolLimitError}
pub mod Forward

pub data MessagePackError : Type 0 where
  empty : MessagePackError
  truncated trailing_bytes : ℕ → MessagePackError
  extension_type : ℕ → MessagePackError
  reserved_marker : MessagePackError
  invalid_utf8 : ℕ → MessagePackError
  child_count_overflow : MessagePackError
  frame_bytes_exceeded nodes_exceeded depth_exceeded : ℕ → ℕ → MessagePackError
  string_bytes_exceeded binary_bytes_exceeded : ℕ → ℕ → MessagePackError
  budget_allocation_failed invalid_observed_budget : MessagePackError
  invalid_limits : ProtocolLimitError → MessagePackError

pub record Cursor : Type 0 where
  pub bytes : List ℕ
  pub offset : ℕ

-- A read gives its value and the cursor behind it. A failed read ends the inspection.
abbrev pub Read : Type 0 → Type 0
Read A = Result MessagePackError (A × Cursor)

unfoldable pub take_bytes : ℕ → Cursor → Read (List ℕ)
take_bytes n c = elim (checked_add usize_max c.offset n) [
  | none ↦ err (truncated c.offset)
  | some end ↦
      if leb end (length c.bytes)
      then ok (take n (drop c.offset c.bytes), record c { offset = end })
      else err (truncated c.offset)
]

unfoldable pub skip : ℕ → Cursor → Read (Unit {0})
unfolding take_bytes
skip n c = do (value, after) ← take_bytes n c; ok (tt, after)

-- An integer of so many bytes: `read_u8`, `read_u16` and `read_u32`.
unfoldable pub read_uint : ℕ → Cursor → Read ℕ
unfolding take_bytes from_be_bytes
read_uint width c = do (value, after) ← take_bytes width c; ok (from_be_bytes 0 value, after)

-- What `std::str::from_utf8` accepts: `pending` bytes are to follow, the next between `low` and
-- `high`.
abbrev pub is_between : ℕ → ℕ → ℕ → Bool
is_between low high b = leb low b && leb b high

unfoldable is_utf8_after : ℕ → ℕ → ℕ → List ℕ → Bool
is_utf8_after pending low high [] = pending == 0
is_utf8_after zero low high (b ∷ bs) =
    let single = is_utf8_after 0 0 0 bs in
    let double = is_utf8_after 1 128 191 bs in
    let triple = is_utf8_after 2 128 191 bs in
    let quadruple = is_utf8_after 3 128 191 bs in
    let after_e0 = is_utf8_after 2 160 191 bs in
    let after_ed = is_utf8_after 2 128 159 bs in
    let after_f0 = is_utf8_after 3 144 191 bs in
    let after_f4 = is_utf8_after 3 128 143 bs in
    if leb b 127
    then single
    else if is_between 194 223 b
    then double
    else if b == 224
    then after_e0
    else if b == 237
    then after_ed
    else if is_between 225 239 b
    then triple
    else if b == 240
    then after_f0
    else if is_between 241 243 b
    then quadruple
    else if b == 244
    then after_f4
    else false
is_utf8_after (suc pending) low high (b ∷ bs) =
    let rest = is_utf8_after pending 128 191 bs in is_between low high b && rest

unfoldable pub is_utf8 : List ℕ → Bool
unfolding is_utf8_after
is_utf8 bytes = is_utf8_after 0 0 0 bytes

-- Twice a `u32` is a `u64`, so the code's overflow cannot occur, but it is checked.
unfoldable pub map_children : ℕ → Result MessagePackError ℕ
map_children entries =
    if leb (entries * 2) u64_max then ok (entries * 2) else err child_count_overflow

abbrev pub scalar : ℕ → Cursor → Read ℕ
scalar width c = do (unit, after) ← skip width c; ok (0, after)

abbrev pub map_of : ℕ → Cursor → Read ℕ
map_of entries c = do children ← map_children entries; ok (children, c)

abbrev pub sized : ℕ → (ℕ → Cursor → Read ℕ) → Cursor → Read ℕ
sized width next c = do (n, after) ← read_uint width c; next n after

module _ (limits : ProtocolLimits) where
  unfoldable pub read_string : ℕ → Cursor → Read ℕ
  unfolding take_bytes is_utf8
  read_string n c = do
    reject_if (ltb limits.max_string_bytes n) (string_bytes_exceeded limits.max_string_bytes n)
    (value, after) ← take_bytes n c
    reject_if (not (is_utf8 value)) (invalid_utf8 c.offset)
    ok (0, after)

  unfoldable pub read_binary : ℕ → Cursor → Read ℕ
  unfolding skip
  read_binary n c = do
    reject_if (ltb limits.max_inline_buffer_bytes n)
        (binary_bytes_exceeded limits.max_inline_buffer_bytes n)
    (unit, after) ← skip n c
    ok (0, after)

  -- The number of values that the marker's value holds.
  unfoldable pub read_marked : ℕ → Cursor → Read ℕ
  unfolding read_string read_binary read_uint skip map_children
  read_marked marker c =
      if leb marker 127
        || is_between 224 255 marker
        || marker == 192
        || marker == 194
        || marker == 195
      then ok (0, c)
      else if is_between 128 143 marker
      then map_of (marker % 16) c
      else if is_between 144 159 marker
      then ok (marker % 16, c)
      else if is_between 160 191 marker
      then read_string (marker % 32) c
      else if marker == 193
      then err reserved_marker
      else if marker == 196
      then sized 1 read_binary c
      else if marker == 197
      then sized 2 read_binary c
      else if marker == 198
      then sized 4 read_binary c
      else if is_between 199 201 marker || is_between 212 216 marker
      then err (extension_type marker)
      else if marker == 202 || marker == 206 || marker == 210
      then scalar 4 c
      else if marker == 203 || marker == 207 || marker == 211
      then scalar 8 c
      else if marker == 204 || marker == 208
      then scalar 1 c
      else if marker == 205 || marker == 209
      then scalar 2 c
      else if marker == 217
      then sized 1 read_string c
      else if marker == 218
      then sized 2 read_string c
      else if marker == 219
      then sized 4 read_string c
      else if marker == 220
      then read_uint 2 c
      else if marker == 221
      then read_uint 4 c
      else if marker == 222
      then sized 2 map_of c
      else sized 4 map_of c

  unfoldable pub read_value : Cursor → Read ℕ
  unfolding read_uint read_marked
  read_value c = do (marker, after) ← read_uint 1 c; read_marked marker after
