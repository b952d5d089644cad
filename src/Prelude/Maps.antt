-- ===== src/Prelude/Maps.antt =====
-- `std::map` and `std::unordered_map` as association lists in the order of insertion. The program
-- is modelled where it only looks keys up in them and inserts by `emplace`, which keeps an old value.
use Prim.Native.Nat.{ℕ}
use mathlib.Core.Path.{◌≡◌, refl}
use mathlib.Core.Logic.{◌↔◌}
use mathlib.Core.Bool.{Bool, true, false, ◌&&◌}
use mathlib.Core.Option.{Option, none, some}
use mathlib.Core.List.{List, [], ◌∷◌}
use native.Mathlib.Omega.{arith}
use rellaf.Prelude.Tests.{◌==◌, ==_iff, if◌then◌else◌}
use rellaf.Prelude.Lists.{Bytes}

pub record Eq {ℓ} (A : Type ℓ) : Type ℓ where
  pub beq : A → A → Bool
  pub beq_iff : (a b : A) → (beq a b ≡ true) ↔ (a ≡ b)

unfoldable pub same : Bytes → Bytes → Bool
same [] [] = true
same [] (d ∷ t) = false
same (c ∷ s) [] = false
same (c ∷ s) (d ∷ t) = c == d && same s t

pub same_iff : (s t : Bytes) → (same s t ≡ true) ↔ (s ≡ t)
unfolding same
same_iff [] [] = (λ h. refl, λ h. refl)
same_iff [] (d ∷ t) = (λ h. cc, λ h. cc)
same_iff (c ∷ s) [] = (λ h. cc, λ h. cc)
same_iff (c ∷ s) (d ∷ t) = ground (arith, same_iff s t)

instance abbrev pub nat_eq : Eq ℕ
nat_eq = record { beq = ◌==◌; beq_iff = ==_iff }

instance abbrev pub bytes_eq : Eq Bytes
bytes_eq = record { beq = same; beq_iff = same_iff }

module _ {ℓ κ} {K : Type ℓ} {V : Type κ} ⦃e : Eq K⦄ where
  unfoldable pub find : K → List (K × V) → Option V
  find k [] = none
  find k ((j, v) ∷ m) = if e.beq j k then some v else find k m

  unfoldable pub emplace : K → V → List (K × V) → List (K × V)
  emplace k v [] = (k, v) ∷ []
  emplace k v ((j, w) ∷ m) = if e.beq j k then (j, w) ∷ m else (j, w) ∷ emplace k v m

  -- A key that is there keeps its value.
  pub find-emplace :
      (k j : K) (v : V) (m : List (K × V))
      → find j (emplace k v m)
        ≡ (if e.beq k j then elim (find k m) [ none ↦ some v | some w ↦ some w ] else find j m)
  unfolding find emplace
  find-emplace k j v [] = ground arith
  find-emplace k j v ((i, w) ∷ m) =
      ground (arith, e.beq_iff k j, e.beq_iff i k, e.beq_iff i j, find-emplace k j v m)

-- A map by numbers whose values are changed and whose keys are taken out.
module _ {ℓ} {V : Type ℓ} where
  unfoldable pub put_back : ℕ → V → List (ℕ × V) → List (ℕ × V)
  put_back k v [] = []
  put_back k v ((j, w) ∷ m) = if j == k then (j, v) ∷ m else (j, w) ∷ put_back k v m

  unfoldable pub erase : ℕ → List (ℕ × V) → List (ℕ × V)
  erase k [] = []
  erase k ((j, w) ∷ m) = let rest = erase k m in if j == k then rest else (j, w) ∷ rest

  pub find-put_back :
      (k j : ℕ) (v : V) (m : List (ℕ × V))
      → find j (put_back k v m)
        ≡ (if k == j then elim (find j m) [ none ↦ none | some w ↦ some v ] else find j m)
  unfolding find put_back
  find-put_back k j v [] = ground arith
  find-put_back k j v ((i, w) ∷ m) = ground (arith, find-put_back k j v m)

  pub find-erase :
      (k j : ℕ) (m : List (ℕ × V)) → find j (erase k m) ≡ (if k == j then none else find j m)
  unfolding find erase
  find-erase k j [] = ground arith
  find-erase k j ((i, w) ∷ m) = ground (arith, find-erase k j m)

  -- A key that was not there is put in and taken out.
  pub erase-fresh : (k : ℕ) (m : List (ℕ × V)) → find k m ≡ none → erase k m ≡ m
  unfolding find erase
  erase-fresh k [] h = refl
  erase-fresh k ((i, w) ∷ m) h = ground (arith, erase-fresh k m)

  pub erase-emplace :
      (k : ℕ) (v : V) (m : List (ℕ × V)) → find k m ≡ none → erase k (emplace k v m) ≡ m
  unfolding find erase emplace
  erase-emplace k v [] h = ground arith
  erase-emplace k v ((i, w) ∷ m) h = ground (arith, erase-emplace k v m)

  pub erase-put_back : (k : ℕ) (v : V) (m : List (ℕ × V)) → erase k (put_back k v m) ≡ erase k m
  unfolding find erase put_back
  erase-put_back k v [] = refl
  erase-put_back k v ((i, w) ∷ m) = ground (arith, erase-put_back k v m)
