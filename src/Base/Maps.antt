-- ===== src/Base/Maps.antt =====
-- Rust's `BTreeMap` as the list of its entries in key order.
use mathlib.Core.Path.{◌≡◌, refl}
use mathlib.Core.Bool.{Bool, true, false, ◌||◌}
use mathlib.Core.Option.{Option, none, some}
use mathlib.Core.List.{List, [], ◌∷◌}
use Prim.Native.Nat.{suc, ◌≤◌, ◌<◌}
use native.Mathlib.Omega.{arith}
use weregopher.Base.Tests.{if◌then◌else◌, is_some}
use weregopher.Base.Lists.{length}
use weregopher.Base.Keys.{OrdKey}

abbrev pub Map {ℓ} : Type 0 → Type ℓ → Type ℓ
Map K V = List (K × V)

module _ {K : Type 0} ⦃key : OrdKey K⦄ where
  unfoldable pub contains : K → List K → Bool
  contains k [] = false
  contains k (j ∷ js) = key.beq j k || contains k js

module _ {ℓ} {K : Type 0} ⦃key : OrdKey K⦄ {V : Type ℓ} where
  unfoldable pub get : K → Map K V → Option V
  get k [] = none
  get k ((j, v) ∷ m) = if key.beq j k then some v else get k m

  unfoldable pub insert : K → V → Map K V → Map K V
  insert k v [] = (k, v) ∷ []
  insert k v ((j, w) ∷ m) =
      let later = (j, w) ∷ insert k v m in
      if key.beq j k then (k, v) ∷ m else if key.blt k j then (k, v) ∷ (j, w) ∷ m else later

  unfoldable pub remove : K → Map K V → Map K V
  remove k [] = []
  remove k ((j, v) ∷ m) = let rest = remove k m in if key.beq j k then rest else (j, v) ∷ rest

  -- `get_mut`, and a write through what it returns; a missing key is left missing.
  unfoldable pub modify : K → (V → V) → Map K V → Map K V
  modify k f [] = []
  modify k f ((j, v) ∷ m) =
      let rest = modify k f m in if key.beq j k then (j, f v) ∷ m else (j, v) ∷ rest

  -- The keys of the entries that pass a test, in key order.
  unfoldable pub keys_where : (K → V → Bool) → Map K V → List K
  keys_where p [] = []
  keys_where p ((k, v) ∷ m) = let rest = keys_where p m in if p k v then k ∷ rest else rest

  unfoldable pub remove_all : List K → Map K V → Map K V
  remove_all [] m = m
  remove_all (k ∷ ks) m = remove_all ks (remove k m)

  pub get-insert :
      (k j : K) (v : V) (m : Map K V)
      → get j (insert k v m) ≡ (if key.beq k j then some v else get j m)
  unfolding get insert
  get-insert k j v [] = refl
  get-insert k j v ((i, w) ∷ m) =
      ground (arith, get-insert k j v m, key.beq_iff i k, key.beq_iff i j, key.beq_iff k j)

  pub get-remove :
      (k j : K) (m : Map K V) → get j (remove k m) ≡ (if key.beq k j then none else get j m)
  unfolding get remove
  get-remove k j [] = ground arith
  get-remove k j ((i, w) ∷ m) =
      ground (arith, get-remove k j m, key.beq_iff i k, key.beq_iff i j, key.beq_iff k j)

  pub length-insert_new :
      (k : K) (v : V) (m : Map K V) → get k m ≡ none → length (insert k v m) ≡ suc (length m)
  unfolding get insert
  length-insert_new k v [] h = refl
  length-insert_new k v ((i, w) ∷ m) h = ground (arith, length-insert_new k v m)

  pub length-remove-le : (k : K) (m : Map K V) → length (remove k m) ≤ length m
  unfolding remove
  length-remove-le k [] = omega arith
  length-remove-le k ((i, w) ∷ m) = ground (arith, length-remove-le k m)

  pub length-remove-lt :
      (k : K) (m : Map K V) → is_some (get k m) ≡ true → length (remove k m) < length m
  unfolding get remove
  length-remove-lt k [] h = cc
  length-remove-lt k ((i, w) ∷ m) h = ground (arith, length-remove-lt k m, length-remove-le k m)

  pub get-modify :
      (k j : K) (f : V → V) (m : Map K V)
      → get j (modify k f m)
        ≡ (if key.beq k j then elim (get j m) [ none ↦ none | some v ↦ some (f v) ] else get j m)
  unfolding get modify
  get-modify k j f [] = ground arith
  get-modify k j f ((i, w) ∷ m) =
      ground (arith, get-modify k j f m, key.beq_iff i k, key.beq_iff i j, key.beq_iff k j)

  pub length-modify : (k : K) (f : V → V) (m : Map K V) → length (modify k f m) ≡ length m
  unfolding modify
  length-modify k f [] = refl
  length-modify k f ((i, w) ∷ m) = ground (arith, length-modify k f m)

  -- No key has two entries.
  abbrev pub IsDistinct : Map K V → Type ℓ
  IsDistinct [] = Unit
  IsDistinct ((k, v) ∷ m) = (get k m ≡ none) × IsDistinct m

  pub insert-IsDistinct :
      (k : K) (v : V) (m : Map K V) → get k m ≡ none → IsDistinct m → IsDistinct (insert k v m)
  unfolding get insert
  insert-IsDistinct k v [] h d = (refl, tt)
  insert-IsDistinct k v ((i, w) ∷ m) h d =
      ground (arith, insert-IsDistinct k v m, get-insert k i v m, key.beq_iff i k, key.beq_iff k i)

  pub remove-IsDistinct : (k : K) (m : Map K V) → IsDistinct m → IsDistinct (remove k m)
  unfolding remove
  remove-IsDistinct k [] d = tt
  remove-IsDistinct k ((i, w) ∷ m) d = ground (arith, remove-IsDistinct k m, get-remove k i m)

  pub modify-IsDistinct :
      (k : K) (f : V → V) (m : Map K V) → IsDistinct m → IsDistinct (modify k f m)
  unfolding modify
  modify-IsDistinct k f [] d = tt
  modify-IsDistinct k f ((i, w) ∷ m) d =
      ground (arith, modify-IsDistinct k f m, get-modify k i f m, key.beq_iff i k, key.beq_iff k i)

  get-remove_all :
      (ks : List K) (j : K) (m : Map K V)
      → get j (remove_all ks m) ≡ (if contains j ks then none else get j m)
  unfolding remove_all contains
  get-remove_all [] j m = refl
  get-remove_all (k ∷ ks) j m = ground (arith, get-remove_all ks j (remove k m), get-remove k j m)

  pub remove_all-IsDistinct :
      (ks : List K) (m : Map K V) → IsDistinct m → IsDistinct (remove_all ks m)
  unfolding remove_all
  remove_all-IsDistinct [] m d = d
  remove_all-IsDistinct (k ∷ ks) m d =
      remove_all-IsDistinct ks (remove k m) (remove-IsDistinct k m d)

  pub length-remove_all-le : (ks : List K) (m : Map K V) → length (remove_all ks m) ≤ length m
  unfolding remove_all
  length-remove_all-le [] m = omega arith
  length-remove_all-le (k ∷ ks) m =
      omega (arith, length-remove_all-le ks (remove k m), length-remove-le k m)

  -- What a test says of the value of a key; a missing key fails.
  abbrev pub holds_at : (K → V → Bool) → K → Map K V → Bool
  holds_at p k m = elim (get k m) [ none ↦ false | some v ↦ p k v ]

  pub keys_where-missing :
      (p : K → V → Bool) (k : K) (m : Map K V)
      → get k m ≡ none
      → contains k (keys_where p m) ≡ false
  unfolding get keys_where contains
  keys_where-missing p k [] h = refl
  keys_where-missing p k ((i, w) ∷ m) h = ground (arith, keys_where-missing p k m)

  pub contains-keys_where :
      (p : K → V → Bool) (k : K) (m : Map K V)
      → IsDistinct m
      → contains k (keys_where p m) ≡ holds_at p k m
  unfolding get keys_where contains
  contains-keys_where p k [] d = refl
  contains-keys_where p k ((i, w) ∷ m) d =
      ground (arith, contains-keys_where p k m, keys_where-missing p k m, key.beq_iff i k)

  -- The entries that fail a test, which `remove_all (keys_where p m) m` leaves.
  pub get-remove_where :
      (p : K → V → Bool) (k : K) (m : Map K V)
      → IsDistinct m
      → get k (remove_all (keys_where p m) m) ≡ (if holds_at p k m then none else get k m)
  get-remove_where p k m d = rw (get-remove_all (keys_where p m) k m, contains-keys_where p k m d)
