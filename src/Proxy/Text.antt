-- ===== src/Proxy/Text.antt =====
-- A Rust `String` as its UTF-8 bytes, which the code measures, compares and hashes.
use Prim.Native.String.{String}
use Prim.Native.Char.{code}
use weregopher.Base.{ℕ, Bool, false, not, ◌&&◌, ◌||◌, List, [], ◌∷◌, ltb, leb, ◌==◌, length}

abbrev pub Text : Type 0
Text = List ℕ

-- An ASCII literal.
abbrev pub text : String → Text
text String.[] = []
text (String.◌∷◌ c s) = code c ∷ text s

abbrev starts_c1 : Text → Bool
starts_c1 [] = false
starts_c1 (b ∷ bs) = leb 0x80 b && ltb b 0xa0

-- `value.chars().any(char::is_control)`: U+0000 to U+001F and U+007F are single bytes, U+0080 to
-- U+009F follow the byte 0xc2.
unfoldable pub has_control : Text → Bool
has_control [] = false
has_control (b ∷ bs) = ltb b 32 || b == 127 || b == 0xc2 && starts_c1 bs || has_control bs

-- The shape that a method, a request identity and an execution identity share.
unfoldable pub is_bounded_text : ℕ → Text → Bool
is_bounded_text maximum s = not (length s == 0) && leb (length s) maximum && not (has_control s)
