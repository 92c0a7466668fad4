-- ===== src/Controls/Journal/Key.antt =====
-- The key of a request's correlation.
use weregopher.Base.{
  ℕ, ◌-◌, ◌≡◌, refl, ◌↔◌, Bool, true, ◌&&◌, ◌||◌, Option, none, some, List, [], ◌∷◌, ◌++◌, arith,
  ltb, ◌==◌, length, u64_max, OrdKey, bytes_eq, bytes_lt, bytes_eq_iff,
}
use weregopher.Proxy.Text.{text}
use weregopher.Proxy.Message.{
  Direction, client_to_server, server_to_client, opposite, Kind, request, notification,
  success_response, error_response, RequestId, unsigned, signed, named, Observation, to_be_bytes,
}

pub record CorrelationKey : Type 0 where
  pub origin : Direction
  pub digest : List ℕ

unfoldable pub direction_code : Direction → ℕ
direction_code client_to_server = 0
direction_code server_to_client = 1

unfoldable pub key_eq : CorrelationKey → CorrelationKey → Bool
unfolding direction_code
key_eq a b = direction_code a.origin == direction_code b.origin && bytes_eq a.digest b.digest

-- The derived order: by origin, then by digest.
unfoldable pub key_lt : CorrelationKey → CorrelationKey → Bool
unfolding direction_code
key_lt a b =
    ltb (direction_code a.origin) (direction_code b.origin)
    || direction_code a.origin == direction_code b.origin && bytes_lt a.digest b.digest

pub direction_code-injective : (a b : Direction) → direction_code a ≡ direction_code b → a ≡ b
unfolding direction_code
direction_code-injective client_to_server client_to_server e = refl
direction_code-injective client_to_server server_to_client e = absurd (omega (arith, e))
direction_code-injective server_to_client client_to_server e = absurd (omega (arith, e))
direction_code-injective server_to_client server_to_client e = refl

pub key_eq_iff : (a b : CorrelationKey) → (key_eq a b ≡ true) ↔ (a ≡ b)
unfolding key_eq
key_eq_iff a b =
    ground (arith, bytes_eq_iff a.digest b.digest, direction_code-injective a.origin b.origin)

instance abbrev pub correlation_key : OrdKey CorrelationKey
correlation_key = record { beq = key_eq; blt = key_lt; beq_iff = key_eq_iff }

abbrev pub request_correlation_domain : List ℕ
request_correlation_domain = text "weregopher.app-server-observed-request.v1" ++ 0 ∷ []

abbrev pub identity_bytes : RequestId → List ℕ
identity_bytes (unsigned n) = 0 ∷ to_be_bytes 8 n
identity_bytes (signed n) = 1 ∷ to_be_bytes 8 (u64_max - n)
identity_bytes (named s) = 2 ∷ (to_be_bytes 8 (length s) ++ s)

-- The hashed bytes of a correlation. A negative identity is written in two's complement.
unfoldable pub correlation_preimage : Direction → RequestId → List ℕ
unfolding direction_code
correlation_preimage origin id =
    request_correlation_domain ++ direction_code origin ∷ identity_bytes id

-- The direction of the request that a message belongs to; a notification belongs to none.
abbrev pub origin_of : Kind → Direction → Option Direction
origin_of request d = some d
origin_of notification d = none
origin_of success_response d = some (opposite d)
origin_of error_response d = some (opposite d)

module _ (sha256 : List ℕ → List ℕ) where
  unfoldable pub request_key_from_parts : Direction → RequestId → CorrelationKey
  request_key_from_parts origin id = record {
    origin = origin;
    digest = sha256 (correlation_preimage origin id);
  }

  abbrev key_of : Option Direction → Option RequestId → Option CorrelationKey
  key_of (some origin) (some id) = some (request_key_from_parts origin id)
  key_of _ _ = none

  unfoldable pub request_key : Observation → Option CorrelationKey
  unfolding request_key_from_parts
  request_key o = key_of (origin_of o.kind o.direction) o.request_id
