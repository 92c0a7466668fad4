-- ===== src/Base/Keys.antt =====
-- The keys of the ordered maps: an equality test that is right, and the order of iteration.
use Prim.Native.Nat.{ℕ}
use mathlib.Core.Path.{◌≡◌}
use mathlib.Core.Logic.{◌↔◌}
use mathlib.Core.Bool.{Bool, true}
use weregopher.Base.Tests.{ltb, ◌==◌, ==_iff}

pub record OrdKey {ℓ} (K : Type ℓ) : Type ℓ where
  pub beq : K → K → Bool
  pub blt : K → K → Bool
  pub beq_iff : (a b : K) → (beq a b ≡ true) ↔ (a ≡ b)

instance abbrev pub ℕ_key : OrdKey ℕ
ℕ_key = record { beq = ◌==◌; blt = ltb; beq_iff = ==_iff }
