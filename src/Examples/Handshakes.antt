-- ===== src/Examples/Handshakes.antt =====
-- A host and a worker that meet, hashed by the identity in place of SHA-256.
use weregopher.Base.{
  ℕ, ◌≡◌, refl, true, false, List, [], ◌∷◌, arith, replicate, ok, to_le_bytes, bytes_eq,
}
use weregopher.Protocol.Limits.{secure_default, validate_nonzero, validate, lower, negotiate}
use weregopher.Protocol.Version.{
  ProtocolVersionRange, negotiate_range, ProtocolFeatures, negotiate_features,
}
use weregopher.Protocol.Hello.{RuntimeBackendIdentity, RuntimeHello, RuntimeWelcome, new_welcome}
use weregopher.Session.Handshake.{
  nonce_proof_domain, length_prefixed, proof_preimage, backend_eq, HostHandshake,
  nonce_possession_proof, negotiate_hello, from_hello, accept,
}
use weregopher.Session.Handshake.Preimage.{IsSized}
use weregopher.Session.Handshake.Authentication.{
  Authenticated, negotiate_hello-Authenticated, nonce_proof_binds,
}
use weregopher.Session.Handshake.Agreement.{accept-negotiate_hello}

abbrev backend : RuntimeBackendIdentity
backend = record { id = 98 ∷ []; version = 49 ∷ [] }

abbrev nonce_bytes : List ℕ
nonce_bytes = replicate 32 7

abbrev identity_bytes : List ℕ
identity_bytes = replicate 16 1

abbrev range : ProtocolVersionRange
range = record {
  minimum = record { major = 1; minor = 0 };
  maximum = record { major = 1; minor = 3 };
}

abbrev features : ProtocolFeatures
features = record {
  calls = true;
  cancellation = true;
  events = false;
  credit_streams = true;
  sync_lane = false;
  shared_buffers = false;
}

abbrev host : HostHandshake
host = record {
  nonce = nonce_bytes;
  expected_peer_pid = 42;
  runtime = identity_bytes;
  app = identity_bytes;
  backend = backend;
  versions = range;
  features = features;
  hard_limits = secure_default;
  session = identity_bytes;
  compatibility = [];
  heartbeat = record { interval_millis = 1000; timeout_millis = 5000 };
}

abbrev hash : List ℕ → List ℕ
hash bytes = bytes

abbrev greeting : RuntimeHello
greeting = record {
  runtime = identity_bytes;
  app = identity_bytes;
  backend = backend;
  protocol_range = range;
  nonce_proof = nonce_possession_proof hash nonce_bytes identity_bytes identity_bytes backend 42;
  capabilities = record features { events = true };
  requested_limits = record secure_default { max_open_streams = 8 };
}

abbrev reply : RuntimeWelcome
reply = record {
  session = identity_bytes;
  version = record { major = 1; minor = 3 };
  limits = record secure_default { max_open_streams = 8 };
  compatibility = [];
  heartbeat = record { interval_millis = 1000; timeout_millis = 5000 };
  features = features;
}

meets : negotiate_hello hash host greeting 42 ≡ ok reply
unfolding negotiate_hello backend_eq bytes_eq nonce_possession_proof proof_preimage
    nonce_proof_domain length_prefixed to_le_bytes negotiate_range negotiate validate
    validate_nonzero lower negotiate_features new_welcome
meets = refl

negotiate_hello-Authenticated_example : Authenticated hash host greeting 42
negotiate_hello-Authenticated_example =
    negotiate_hello-Authenticated hash host greeting 42 reply meets

sized : IsSized nonce_bytes identity_bytes identity_bytes backend 42
sized = omega arith

nonce_proof_binds_example :
    (nonce_bytes ≡ host.nonce)
    × (identity_bytes ≡ host.runtime)
    × (identity_bytes ≡ host.app)
    × (backend ≡ host.backend)
    × (42 ≡ host.expected_peer_pid)
nonce_proof_binds_example =
    nonce_proof_binds hash host greeting 42 reply nonce_bytes identity_bytes identity_bytes backend
      42 (λ same. same) sized sized refl meets

accept-negotiate_hello_example : accept (from_hello greeting) reply ≡ ok tt
accept-negotiate_hello_example =
    accept-negotiate_hello hash host greeting 42 reply (omega arith) (omega arith) meets
