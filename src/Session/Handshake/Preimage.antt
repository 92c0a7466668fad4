-- ===== src/Session/Handshake/Preimage.antt =====
-- The hashed bytes determine what they were made from.
use weregopher.Base.{
  ℕ, ◌≡◌, refl, sym, ap, ◌∙◌, ◌≤◌, List, ◌++◌, arith, length, u32_max, u64_max, to_le_bytes,
  from_le_bytes, from_le_bytes-to_le_bytes_4, from_le_bytes-to_le_bytes_8, length-to_le_bytes,
  append-injective, le→leb,
}
use mathlib.Core.List.{append_assoc}
use weregopher.Protocol.Hello.{RuntimeBackendIdentity}
use weregopher.Session.Handshake.{nonce_proof_domain, length_prefixed, proof_preimage}

to_le_bytes-injective_8 :
    (a b : ℕ) → a ≤ u64_max → b ≤ u64_max → to_le_bytes 8 a ≡ to_le_bytes 8 b → a ≡ b
to_le_bytes-injective_8 a b p q e =
    sym (from_le_bytes-to_le_bytes_8 a p) ∙ ap from_le_bytes e ∙ from_le_bytes-to_le_bytes_8 b q

to_le_bytes-injective_4 :
    (a b : ℕ) → a ≤ u32_max → b ≤ u32_max → to_le_bytes 4 a ≡ to_le_bytes 4 b → a ≡ b
to_le_bytes-injective_4 a b p q e =
    sym (from_le_bytes-to_le_bytes_4 a p) ∙ ap from_le_bytes e ∙ from_le_bytes-to_le_bytes_4 b q

length_prefixed_lem :
    (v rest : List ℕ)
    → length v ≤ u64_max
    → length_prefixed v ++ rest ≡ to_le_bytes 8 (length v) ++ (v ++ rest)
unfolding length_prefixed
length_prefixed_lem v rest h =
    rw (le→leb (length v) u64_max h) (append_assoc (to_le_bytes 8 (length v)) v rest)

-- A prefixed value ends where its length says.
length_prefixed-injective :
    (v w us vs : List ℕ)
    → length v ≤ u64_max
    → length w ≤ u64_max
    → length_prefixed v ++ us ≡ length_prefixed w ++ vs
    → (v ≡ w) × (us ≡ vs)
length_prefixed-injective v w us vs p q e =
    let e' = sym (length_prefixed_lem v us p) ∙ e ∙ length_prefixed_lem w vs q in
    let (sizes, tails) =
      append-injective (to_le_bytes 8 (length v)) (to_le_bytes 8 (length w))
        (length-to_le_bytes 8 (length v) ∙ sym (length-to_le_bytes 8 (length w))) e' in
    append-injective v w (to_le_bytes-injective_8 (length v) (length w) p q sizes) tails

-- The sizes of what a proof binds: a 256-bit nonce, two UUIDs, and a `u32` process number.
pub record IsSized (nonce runtime app : List ℕ) (backend : RuntimeBackendIdentity) (pid : ℕ)
    : Type 0 where
  pub nonce_size : length nonce ≡ 32
  pub runtime_size : length runtime ≡ 16
  pub app_size : length app ≡ 16
  pub id_size : length backend.id ≤ u64_max
  pub version_size : length backend.version ≤ u64_max
  pub pid_size : pid ≤ u32_max

-- Two proofs that hash the same bytes bind the same nonce, runtime, application, backend and process.
pub proof_preimage-injective :
    (nonce nonce' runtime runtime' app app' : List ℕ) (backend backend' : RuntimeBackendIdentity)
    (pid pid' : ℕ)
    → IsSized nonce runtime app backend pid
    → IsSized nonce' runtime' app' backend' pid'
    → proof_preimage nonce runtime app backend pid
      ≡ proof_preimage nonce' runtime' app' backend' pid'
    → (nonce ≡ nonce') × (runtime ≡ runtime') × (app ≡ app') × (backend ≡ backend') × (pid ≡ pid')
unfolding proof_preimage
proof_preimage-injective n n' r r' a a' b b' p p' s s' e =
    let (_, e1) = append-injective nonce_proof_domain nonce_proof_domain refl e in
    let (same_nonce, e2) = append-injective n n' (omega arith) e1 in
    let (same_runtime, e3) = append-injective r r' (omega arith) e2 in
    let (same_app, e4) = append-injective a a' (omega arith) e3 in
    let (same_id, e5) = length_prefixed-injective b.id b'.id _ _ s.id_size s'.id_size e4 in
    let (same_version, e6) =
      length_prefixed-injective b.version b'.version _ _ s.version_size s'.version_size e5 in
    (
      same_nonce,
      same_runtime,
      same_app,
      ground arith,
      to_le_bytes-injective_4 p p' s.pid_size s'.pid_size e6,
    )
