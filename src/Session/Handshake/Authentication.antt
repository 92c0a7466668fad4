-- ===== src/Session/Handshake/Authentication.antt =====
-- What a completed handshake proves of the peer.
use weregopher.Base.{ℕ, ◌≡◌, sym, ◌∙◌, true, List, ok, arith, >>=-eq-ok, bytes_eq_iff}
use weregopher.Protocol.Hello.{RuntimeBackendIdentity, RuntimeHello, RuntimeWelcome}
use weregopher.Session.Handshake.{
  HostHandshake, authenticate, negotiate_offer, negotiate_hello, backend_eq, nonce_possession_proof,
  proof_preimage,
}
use weregopher.Session.Handshake.Preimage.{IsSized, proof_preimage-injective}

backend_eq→≡ : (a b : RuntimeBackendIdentity) → backend_eq a b ≡ true → a ≡ b
unfolding backend_eq
backend_eq→≡ a b e = ground (arith, bytes_eq_iff a.id b.id, bytes_eq_iff a.version b.version)

module _ (sha256 : List ℕ → List ℕ) where
  -- The hello that a completed handshake accepted.
  pub record Authenticated (self : HostHandshake) (hello : RuntimeHello) (pid : ℕ) : Type 0 where
    pub process : pid ≡ self.expected_peer_pid
    pub runtime : hello.runtime ≡ self.runtime
    pub app : hello.app ≡ self.app
    pub backend : hello.backend ≡ self.backend
    pub proof :
        hello.nonce_proof
        ≡ nonce_possession_proof sha256 self.nonce self.runtime self.app self.backend pid

  authenticate-Authenticated :
      (self : HostHandshake) (hello : RuntimeHello) (pid : ℕ)
      → authenticate sha256 self hello pid ≡ ok tt
      → Authenticated self hello pid
  unfolding authenticate
  authenticate-Authenticated self hello pid e =
      let expected =
        nonce_possession_proof sha256 self.nonce self.runtime self.app self.backend pid in
      ground (
        arith,
        bytes_eq_iff hello.runtime self.runtime,
        bytes_eq_iff hello.app self.app,
        backend_eq→≡ hello.backend self.backend,
        bytes_eq_iff hello.nonce_proof expected,
      )

  -- A completed handshake was with the expected process, which named the expected runtime,
  -- application and backend, and sent the proof that these and the host's nonce hash to.
  pub negotiate_hello-Authenticated :
      (self : HostHandshake) (hello : RuntimeHello) (pid : ℕ) (welcome : RuntimeWelcome)
      → negotiate_hello sha256 self hello pid ≡ ok welcome
      → Authenticated self hello pid
  negotiate_hello-Authenticated self hello pid welcome e =
      let (_, checked, _) =
        >>=-eq-ok (authenticate sha256 self hello pid) (λ _. negotiate_offer self hello)
          {b = welcome} (unfold negotiate_hello in e) in
      authenticate-Authenticated self hello pid checked

  -- If the hashed bytes of a peer's proof and of the host's own do not collide, a proof made from
  -- other data than the host's is never accepted: a peer that made its proof from some nonce,
  -- runtime, application, backend and process, all of the right sizes, made it from the host's own.
  pub nonce_proof_binds :
      (self : HostHandshake) (hello : RuntimeHello) (pid : ℕ) (welcome : RuntimeWelcome)
      (nonce runtime app : List ℕ) (backend : RuntimeBackendIdentity) (made_for : ℕ)
      → (sha256 (proof_preimage nonce runtime app backend made_for)
            ≡ sha256 (proof_preimage self.nonce self.runtime self.app self.backend pid)
          → proof_preimage nonce runtime app backend made_for
            ≡ proof_preimage self.nonce self.runtime self.app self.backend pid)
      → IsSized self.nonce self.runtime self.app self.backend pid
      → IsSized nonce runtime app backend made_for
      → hello.nonce_proof ≡ nonce_possession_proof sha256 nonce runtime app backend made_for
      → negotiate_hello sha256 self hello pid ≡ ok welcome
      → (nonce ≡ self.nonce)
        × (runtime ≡ self.runtime)
        × (app ≡ self.app)
        × (backend ≡ self.backend)
        × (made_for ≡ self.expected_peer_pid)
  unfolding nonce_possession_proof
  nonce_proof_binds self hello pid welcome nonce runtime app backend made_for apart s s' made e =
      let peer = negotiate_hello-Authenticated self hello pid welcome e in
      let same = apart (sym made ∙ peer.proof) in
      let (a, b, c, d, f) =
        proof_preimage-injective nonce self.nonce runtime self.runtime app self.app backend
          self.backend made_for pid s' s same in
      (a, b, c, d, f ∙ peer.process)
