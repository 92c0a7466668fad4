-- ===== src/Protocol/Version/Common.antt =====
-- The highest version that two ranges share.
use weregopher.Base.{◌≡◌, ◌≤◌, some, ok, arith, min}
use weregopher.Protocol.Version.{ProtocolVersion, ProtocolVersionRange, new_range, negotiate_range}

-- The inclusive range holds the version.
pub record Offers (r : ProtocolVersionRange) (v : ProtocolVersion) : Type 0 where
  pub generation : v.major ≡ r.minimum.major
  pub lower : r.minimum.minor ≤ v.minor
  pub upper : v.minor ≤ r.maximum.minor

-- What `ProtocolVersionRange::new` establishes.
pub record IsOrdered (r : ProtocolVersionRange) : Type 0 where
  pub generation : r.minimum.major ≡ r.maximum.major
  pub minors : r.minimum.minor ≤ r.maximum.minor

pub new_range-IsOrdered :
    (a b : ProtocolVersion) {r : ProtocolVersionRange}
    → new_range a b ≡ ok r
    → IsOrdered r × (r.minimum ≡ a) × (r.maximum ≡ b)
unfolding new_range
new_range-IsOrdered a b h = ground arith

pub negotiate_range-Offers :
    (r s : ProtocolVersionRange) (v : ProtocolVersion)
    → IsOrdered r
    → IsOrdered s
    → negotiate_range r s ≡ some v
    → Offers r v × Offers s v
unfolding negotiate_range
negotiate_range-Offers r s v p q h = ground arith

-- Two ordered ranges with a common version settle on a version that both offer, and that is at
-- least as high as every common one.
pub negotiate_range-highest :
    (r s : ProtocolVersionRange) (w : ProtocolVersion)
    → IsOrdered r
    → IsOrdered s
    → Offers r w
    → Offers s w
    → (v : ProtocolVersion) × (negotiate_range r s ≡ some v)
      × Offers r v
      × Offers s v
      × (w.major ≡ v.major)
      × (w.minor ≤ v.minor)
unfolding negotiate_range
negotiate_range-highest r s w p q a b = (
  record { major = r.minimum.major; minor = min s.maximum.minor r.maximum.minor },
  ground arith,
  omega arith,
  omega arith,
  omega arith,
  omega arith,
)
