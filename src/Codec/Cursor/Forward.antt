-- ===== src/Codec/Cursor/Forward.antt =====
-- Every read moves the cursor on, within its bytes.
use weregopher.Base.{
  ℕ, ◌+◌, ◌%◌, ◌≤◌, ◌≡◌, refl, ap, ◌∙◌, inl, inr, Bool, true, false, ◌||◌, not, arith, ltb, leb,
  ◌==◌, if◌then◌else◌, length, ok, err, ◌>>=◌, ◌>>◌, reject_if, Result-cases, from_be_bytes,
}
use weregopher.Protocol.Limits.{ProtocolLimits}
use weregopher.Codec.Cursor.{
  MessagePackError, extension_type, reserved_marker, invalid_utf8, string_bytes_exceeded,
  binary_bytes_exceeded, Cursor, Read, take_bytes, skip, read_uint, is_between, is_utf8,
  map_children, scalar, map_of, sized, read_string, read_binary, read_marked, read_value,
}

-- The cursor stands behind at least so many bytes more.
pub record Moves (least : ℕ) (c d : Cursor) : Type 0 where
  pub bytes : d.bytes ≡ c.bytes
  pub onward : c.offset + least ≤ d.offset
  pub inside : d.offset ≤ length c.bytes

abbrev pub Forward : {A : Type 0} → ℕ → Cursor → Read A → Type 0
Forward {A = A} least c r =
    c.offset ≤ length c.bytes → (a : A) (d : Cursor) → r ≡ ok (a, d) → Moves least c d

then-Forward :
    {A B : Type 0} (m n : ℕ) (c : Cursor) (r : Read A) (next : A × Cursor → Read B)
    → Forward m c r
    → ((a : A) (d : Cursor) → Forward n d (next (a, d)))
    → Forward (m + n) c (r >>= next)
then-Forward m n c (err x) next first rest start b e bad = absurd (ground (arith, bad))
then-Forward m n c (ok (a, d)) next first rest start b e good =
    let f = first start a d refl in
    let g = rest a d (omega (arith, f.inside, ap length f.bytes)) b e good in
    record {
      bytes = g.bytes ∙ f.bytes;
      onward = omega (arith, f.onward, g.onward);
      inside = omega (arith, g.inside, ap length f.bytes);
    }

check-Forward :
    {A : Type 0} (n : ℕ) (c : Cursor) (b : Bool) (x : MessagePackError) (r : Read A)
    → Forward n c r
    → Forward n c (reject_if b x >> r)
check-Forward n c true x r f start a d bad = absurd (ground (arith, bad))
check-Forward n c false x r f start a d e = f start a d e

ok-Forward : {A : Type 0} (c : Cursor) (a : A) → Forward 0 c (ok (a, c))
ok-Forward c a start b d e = record {
  bytes = ground (arith, e);
  onward = ground (arith, e);
  inside = ground (arith, e, start);
}

err-Forward : (A : Type 0) (n : ℕ) (c : Cursor) (x : MessagePackError) → Forward {A = A} n c (err x)
err-Forward A n c x start a d bad = absurd (ground (arith, bad))

-- A test between two reads.
branch :
    {A : Type 0} {n : ℕ} {c : Cursor} (b : Bool) {r s : Read A}
    → Forward n c r
    → Forward n c s
    → Forward n c (if b then r else s)
branch true f g = f
branch false f g = g

at_least : {A : Type 0} (m n : ℕ) (c : Cursor) (r : Read A) → m ≤ n → Forward n c r → Forward m c r
at_least m n c r less f start a d e =
    let moved = f start a d e in
    record {
      bytes = moved.bytes;
      onward = omega (arith, moved.onward, less);
      inside = moved.inside;
    }

weaker : {A : Type 0} (n : ℕ) (c : Cursor) (r : Read A) → Forward n c r → Forward 0 c r
weaker n c r f = at_least 0 n c r (omega arith) f

take_bytes-Forward : (n : ℕ) (c : Cursor) → Forward n c (take_bytes n c)
unfolding take_bytes
take_bytes-Forward n c start a d e = record {
  bytes = ground (arith, e);
  onward = ground (arith, e);
  inside = ground (arith, e);
}

skip-Forward : (n : ℕ) (c : Cursor) → Forward n c (skip n c)
unfolding skip
skip-Forward n c = at_least n (n + 0) c _ (omega arith) (
    then-Forward n 0 c (take_bytes n c) (λ r. ok (tt, r.1)) (take_bytes-Forward n c)
      (λ v d. ok-Forward d tt))

read_uint-Forward : (width : ℕ) (c : Cursor) → Forward (width + 0) c (read_uint width c)
unfolding read_uint
read_uint-Forward width c =
    then-Forward width 0 c (take_bytes width c) (λ r. ok (from_be_bytes 0 r.0, r.1))
      (take_bytes-Forward width c) (λ v d. ok-Forward d (from_be_bytes 0 v))

module _ (limits : ProtocolLimits) where
  read_string-Forward : (n : ℕ) (c : Cursor) → Forward 0 c (read_string limits n c)
  unfolding read_string
  read_string-Forward n c =
      check-Forward 0 c (ltb limits.max_string_bytes n)
        (string_bytes_exceeded limits.max_string_bytes n) _
        (weaker (n + 0) c _ (
          then-Forward n 0 c (take_bytes n c) _ (take_bytes-Forward n c) (λ v d.
            check-Forward 0 d (not (is_utf8 v)) (invalid_utf8 c.offset) _ (ok-Forward d 0))))

  read_binary-Forward : (n : ℕ) (c : Cursor) → Forward 0 c (read_binary limits n c)
  unfolding read_binary
  read_binary-Forward n c =
      check-Forward 0 c (ltb limits.max_inline_buffer_bytes n)
        (binary_bytes_exceeded limits.max_inline_buffer_bytes n) _
        (weaker (n + 0) c _
          (then-Forward n 0 c (skip n c) _ (skip-Forward n c) (λ v d. ok-Forward d 0)))

scalar-Forward : (n : ℕ) (c : Cursor) → Forward 0 c (scalar n c)
scalar-Forward n c =
    weaker (n + 0) c _ (then-Forward n 0 c (skip n c) _ (skip-Forward n c) (λ v d. ok-Forward d 0))

map_of-Forward : (n : ℕ) (c : Cursor) → Forward 0 c (map_of n c)
map_of-Forward n c = elim (Result-cases (map_children n)) [
  | inl (children, e) ↦ rw e (ok-Forward c children)
  | inr (x, e) ↦ rw e (err-Forward ℕ 0 c x)
]

sized-Forward :
    (width : ℕ) (next : ℕ → Cursor → Read ℕ) (c : Cursor)
    → ((n : ℕ) (d : Cursor) → Forward 0 d (next n d))
    → Forward 0 c (sized width next c)
sized-Forward width next c f =
    weaker (width + 0 + 0) c _
      (then-Forward (width + 0) 0 c (read_uint width c) _ (read_uint-Forward width c) f)

module _ (limits : ProtocolLimits) where
  read_marked-Forward : (marker : ℕ) (c : Cursor) → Forward 0 c (read_marked limits marker c)
  unfolding read_marked
  read_marked-Forward marker c =
      (branch
        (leb marker 127
          || is_between 224 255 marker
          || marker == 192
          || marker == 194
          || marker == 195)
        (ok-Forward c 0)
        (branch (is_between 128 143 marker) (map_of-Forward (marker % 16) c) (
          branch (is_between 144 159 marker) (ok-Forward c (marker % 16)) (
            branch (is_between 160 191 marker) (read_string-Forward limits (marker % 32) c) (
              branch (marker == 193) (err-Forward ℕ 0 c reserved_marker) (
                branch (marker == 196) (sized-Forward 1 _ c (read_binary-Forward limits)) (
                  branch (marker == 197) (sized-Forward 2 _ c (read_binary-Forward limits)) (
                    branch (marker == 198) (sized-Forward 4 _ c (read_binary-Forward limits)) (
                      branch (is_between 199 201 marker || is_between 212 216 marker)
                        (err-Forward ℕ 0 c (extension_type marker))
                        (branch (marker == 202 || marker == 206 || marker == 210)
                          (scalar-Forward 4 c)
                          (branch (marker == 203 || marker == 207 || marker == 211)
                            (scalar-Forward 8 c)
                            (branch (marker == 204 || marker == 208) (scalar-Forward 1 c) (
                              branch (marker == 205 || marker == 209) (scalar-Forward 2 c) (
                                branch (marker == 217)
                                  (sized-Forward 1 _ c (read_string-Forward limits))
                                  (branch (marker == 218)
                                    (sized-Forward 2 _ c (read_string-Forward limits))
                                    (branch (marker == 219)
                                      (sized-Forward 4 _ c (read_string-Forward limits))
                                      (branch (marker == 220) (weaker 2 c _ (read_uint-Forward 2 c))
                                        (branch (marker == 221)
                                          (weaker 4 c _ (read_uint-Forward 4 c))
                                          (branch (marker == 222)
                                            (sized-Forward 2 _ c map_of-Forward)
                                            (sized-Forward 4 _ c map_of-Forward))))))))))))))))))))

  pub read_value-Forward : (c : Cursor) → Forward 1 c (read_value limits c)
  unfolding read_value
  read_value-Forward c =
      then-Forward 1 0 c (read_uint 1 c) _ (read_uint-Forward 1 c) (read_marked-Forward)
