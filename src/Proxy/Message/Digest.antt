-- ===== src/Proxy/Message/Digest.antt =====
-- The hashed bytes of a request identity determine it.
use mathlib.Core.List.{reverse, reverse-reverse}
use weregopher.Base.{
  ℕ, ◌-◌, ◌≡◌, refl, sym, ap, ◌∙◌, ◌≤◌, ◌<◌, List, [], ◌∷◌, ◌++◌, arith, length, u64_max,
  to_le_bytes, from_le_bytes, from_le_bytes-to_le_bytes_8, append-injective,
}
use weregopher.Proxy.Message.{
  RequestId, unsigned, signed, named, id_preimage, request_id_digest_domain, to_be_bytes,
}

-- The identities that the code's types hold: a `u64`, a negative `i64`, or a text.
abbrev pub IsWireId : RequestId → Type 0
IsWireId (unsigned n) = n ≤ u64_max
IsWireId (signed n) = n < 9223372036854775808
IsWireId (named s) = length s ≤ u64_max

to_be_bytes-injective :
    (a b : ℕ) → a ≤ u64_max → b ≤ u64_max → to_be_bytes 8 a ≡ to_be_bytes 8 b → a ≡ b
to_be_bytes-injective a b p q e =
    let e' : to_le_bytes 8 a ≡ to_le_bytes 8 b =
      sym (reverse-reverse (to_le_bytes 8 a)) ∙ ap reverse e ∙ reverse-reverse (to_le_bytes 8 b) in
    sym (from_le_bytes-to_le_bytes_8 a p) ∙ ap from_le_bytes e' ∙ from_le_bytes-to_le_bytes_8 b q

after_domain :
    (xs ys : List ℕ) → request_id_digest_domain ++ xs ≡ request_id_digest_domain ++ ys → xs ≡ ys
after_domain xs ys e = (append-injective request_id_digest_domain request_id_digest_domain refl e).1

length-to_be_bytes : (n : ℕ) → length (to_be_bytes 8 n) ≡ 8
unfolding to_le_bytes
length-to_be_bytes n = refl

-- The bytes behind the one that tells the kinds of identity apart.
abbrev untagged : List ℕ → List ℕ
untagged [] = []
untagged (b ∷ bs) = bs

same_tag :
    (a b : ℕ) (xs ys : List ℕ)
    → request_id_digest_domain ++ a ∷ xs ≡ request_id_digest_domain ++ b ∷ ys
    → a ≡ b
same_tag a b xs ys e = cc (after_domain (a ∷ xs) (b ∷ ys) e)

number-injective :
    (tag a b : ℕ)
    → a ≤ u64_max
    → b ≤ u64_max
    → request_id_digest_domain ++ tag ∷ to_be_bytes 8 a
      ≡ request_id_digest_domain ++ tag ∷ to_be_bytes 8 b
    → a ≡ b
number-injective tag a b p q e =
    to_be_bytes-injective a b p q
      (ap untagged (after_domain (tag ∷ to_be_bytes 8 a) (tag ∷ to_be_bytes 8 b) e))

text-injective :
    (m n : ℕ) (s t : List ℕ)
    → request_id_digest_domain ++ 2 ∷ (to_be_bytes 8 m ++ s)
      ≡ request_id_digest_domain ++ 2 ∷ (to_be_bytes 8 n ++ t)
    → s ≡ t
text-injective m n s t e =
    (append-injective (to_be_bytes 8 m) (to_be_bytes 8 n)
      (length-to_be_bytes m ∙ sym (length-to_be_bytes n))
      (ap untagged (after_domain (2 ∷ (to_be_bytes 8 m ++ s)) (2 ∷ (to_be_bytes 8 n ++ t)) e))).1

-- Two identities in the ranges of the code's types that have the same hashed bytes are one.
pub id_preimage-injective :
    (a b : RequestId) → IsWireId a → IsWireId b → id_preimage a ≡ id_preimage b → a ≡ b
unfolding id_preimage
id_preimage-injective (unsigned m) (unsigned n) p q e = ap unsigned (number-injective 0 m n p q e)
id_preimage-injective (signed m) (signed n) p q e =
    ap signed
      (omega (arith, number-injective 1 (u64_max - m) (u64_max - n) (omega arith) (omega arith) e))
id_preimage-injective (named s) (named t) p q e = ap named (text-injective _ _ s t e)
id_preimage-injective (unsigned m) (signed n) p q e = absurd (omega (arith, same_tag 0 1 _ _ e))
id_preimage-injective (unsigned m) (named t) p q e = absurd (omega (arith, same_tag 0 2 _ _ e))
id_preimage-injective (signed m) (unsigned n) p q e = absurd (omega (arith, same_tag 1 0 _ _ e))
id_preimage-injective (signed m) (named t) p q e = absurd (omega (arith, same_tag 1 2 _ _ e))
id_preimage-injective (named s) (unsigned n) p q e = absurd (omega (arith, same_tag 2 0 _ _ e))
id_preimage-injective (named s) (signed n) p q e = absurd (omega (arith, same_tag 2 1 _ _ e))
