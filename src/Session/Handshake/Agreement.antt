-- ===== src/Session/Handshake/Agreement.antt =====
-- Host and worker agree: what the host selects, the worker accepts.
use weregopher.Base.{◌∙◌, true, List, ℕ, >>=-eq-ok, ◌≡◌, some, ok, arith}
use weregopher.Protocol.Limits.{ProtocolLimits, negotiate}
use weregopher.Protocol.Limits.Meet.{
  negotiate-lower, IsPositive-negotiate, lower_assoc_self, lower-IsPositive, IsPositive,
}
use weregopher.Protocol.Version.Common.{IsOrdered, negotiate_range-Offers}
use weregopher.Protocol.Version.{ProtocolFeatures, negotiate_range, negotiate_features}
use weregopher.Protocol.Hello.{RuntimeHello, RuntimeWelcome, new_welcome}
use weregopher.Session.Handshake.{
  authenticate, negotiate_hello, from_hello, accept, HostHandshake, negotiate_offer,
  features_are_subset, limits_eq,
}

negotiate_features-subset :
    (a b : ProtocolFeatures) → features_are_subset (negotiate_features a b) a ≡ true
unfolding features_are_subset negotiate_features
negotiate_features-subset a b = ground arith

limits_eq_refl : (a : ProtocolLimits) → limits_eq a a ≡ true
unfolding limits_eq
limits_eq_refl a = ground arith

-- What the host's welcome holds.
pub record Selected (self : HostHandshake) (hello : RuntimeHello) (welcome : RuntimeWelcome)
    : Type 0 where
  pub version : negotiate_range self.versions hello.protocol_range ≡ some welcome.version
  pub limits : negotiate hello.requested_limits self.hard_limits ≡ ok welcome.limits
  pub features : welcome.features ≡ negotiate_features hello.capabilities self.features
  pub session : welcome.session ≡ self.session

negotiate_offer-Selected :
    (self : HostHandshake) (hello : RuntimeHello) (welcome : RuntimeWelcome)
    → negotiate_offer self hello ≡ ok welcome
    → Selected self hello welcome
unfolding negotiate_offer new_welcome
negotiate_offer-Selected self hello welcome e = ground arith

Selected-accept :
    (self : HostHandshake) (hello : RuntimeHello) (welcome : RuntimeWelcome)
    → IsOrdered self.versions
    → IsOrdered hello.protocol_range
    → Selected self hello welcome
    → accept (from_hello hello) welcome ≡ ok tt
unfolding accept from_hello
Selected-accept self hello welcome p q s =
    let (_, offered) =
      negotiate_range-Offers self.versions hello.protocol_range welcome.version p q s.version in
    let (lowered, requested, hard) =
      negotiate-lower hello.requested_limits self.hard_limits s.limits in
    let positive : IsPositive welcome.limits =
      rw lowered (lower-IsPositive hello.requested_limits self.hard_limits requested hard) in
    let again : negotiate welcome.limits hello.requested_limits ≡ ok welcome.limits =
      IsPositive-negotiate welcome.limits hello.requested_limits positive requested
      ∙ rw lowered (rw (lower_assoc_self hello.requested_limits self.hard_limits)) in
    let subset : features_are_subset welcome.features hello.capabilities ≡ true =
      rw (s.features) (negotiate_features-subset hello.capabilities self.features) in
    rw (again, subset, limits_eq_refl welcome.limits) (ground (arith, offered))

module _ (sha256 : List ℕ → List ℕ) where
  -- Host and worker agree: a welcome that the host negotiated from a hello, over ordered version
  -- ranges, is accepted by the worker that sent the hello.
  pub accept-negotiate_hello :
      (self : HostHandshake) (hello : RuntimeHello) (pid : ℕ) (welcome : RuntimeWelcome)
      → IsOrdered self.versions
      → IsOrdered hello.protocol_range
      → negotiate_hello sha256 self hello pid ≡ ok welcome
      → accept (from_hello hello) welcome ≡ ok tt
  accept-negotiate_hello self hello pid welcome p q e =
      let (_, _, offer) =
        >>=-eq-ok (authenticate sha256 self hello pid) (λ _. negotiate_offer self hello)
          {b = welcome} (unfold negotiate_hello in e) in
      Selected-accept self hello welcome p q (negotiate_offer-Selected self hello welcome offer)
