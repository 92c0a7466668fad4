-- ===== src/Proxy/Message.antt =====
-- Messages as the proxy sees them: their direction, class and correlation identity.
pub mod Digest
use weregopher.Base.{
  ℕ, ◌-◌, ◌≡◌, ◌↔◌, Bool, true, false, Option, List, [], ◌∷◌, ◌++◌, arith, ltb, leb, ◌==◌,
  if◌then◌else◌, length, OrdKey, bytes_eq, bytes_eq_iff, bytes_lt, u64_max, to_le_bytes,
}
use mathlib.Core.List.{reverse}
use weregopher.Proxy.Text.{Text, text}

pub data Direction : Type 0 where
  client_to_server server_to_client : Direction

abbrev pub opposite : Direction → Direction
opposite client_to_server = server_to_client
opposite server_to_client = client_to_server

pub data Kind : Type 0 where
  request notification success_response error_response : Kind

-- `signed n` is the negative identity -(n + 1).
pub data RequestId : Type 0 where
  unsigned signed : ℕ → RequestId
  named : Text → RequestId

unfoldable pub id_eq : RequestId → RequestId → Bool
id_eq (unsigned a) (unsigned b) = a == b
id_eq (signed a) (signed b) = a == b
id_eq (named a) (named b) = bytes_eq a b
id_eq _ _ = false

-- The derived order: by constructor, then by value.
unfoldable pub id_lt : RequestId → RequestId → Bool
id_lt (unsigned a) (unsigned b) = ltb a b
id_lt (unsigned a) _ = true
id_lt (signed a) (unsigned b) = false
id_lt (signed a) (signed b) = ltb b a
id_lt (signed a) (named b) = true
id_lt (named a) (named b) = bytes_lt a b
id_lt (named a) _ = false

pub id_eq_iff : (a b : RequestId) → (id_eq a b ≡ true) ↔ (a ≡ b)
unfolding id_eq
id_eq_iff (unsigned a) (unsigned b) = ground arith
id_eq_iff (signed a) (signed b) = ground arith
id_eq_iff (named a) (named b) = ground (arith, bytes_eq_iff a b)
id_eq_iff _ _ = ground arith

instance abbrev pub id_key : OrdKey RequestId
id_key = record { beq = id_eq; blt = id_lt; beq_iff = id_eq_iff }

pub record Observation : Type 0 where
  pub direction : Direction
  pub kind : Kind
  pub method : Option Text
  pub request_id : Option RequestId
  pub byte_length : ℕ

pub record Frame : Type 0 where
  pub observation : Observation
  pub json_bytes : List ℕ

abbrev pub request_id_digest_domain : List ℕ
request_id_digest_domain = text "weregopher.app-server-request-id.v1" ++ 0 ∷ []

abbrev pub to_be_bytes : ℕ → ℕ → List ℕ
to_be_bytes width n = reverse (to_le_bytes width n)

-- The hashed bytes of an identity. A negative one is written in two's complement.
unfoldable pub id_preimage : RequestId → List ℕ
id_preimage (unsigned n) = request_id_digest_domain ++ 0 ∷ to_be_bytes 8 n
id_preimage (signed n) = request_id_digest_domain ++ 1 ∷ to_be_bytes 8 (u64_max - n)
id_preimage (named s) =
    let size = length s in
    request_id_digest_domain
    ++ 2 ∷ (to_be_bytes 8 (if leb size u64_max then size else u64_max) ++ s)

-- `Sha256` of the `sha2` crate is a parameter.
unfoldable pub request_id_digest : (List ℕ → List ℕ) → RequestId → List ℕ
request_id_digest sha256 id = sha256 (id_preimage id)
