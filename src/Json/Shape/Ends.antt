-- ===== src/Json/Shape/Ends.antt =====
-- Reads that end with a result of some property, or with an exception, and the reads of a plain.
use rellaf.Prelude.{Bool, true, false, Option, none, some, if◌then◌else◌, ◌≡◌, ◌≢◌, refl}
use rellaf.Prelude.Maps.{bytes_eq}
use rellaf.Cast.{
  Kind, char, int16, int, int64, uint16, uint32, uint64, bool, float, double, str, Val,
}
use rellaf.Plain.{Plain}
use rellaf.Outcome.{returned}
use rellaf.Json.{JsonCpp, json_to_plain, json_to_kind, kind_of_code, set_val}
use rellaf.Json.Reading.{Reading, done, thrown, broken, out_of_fuel, ◌>>=◌, reading}
use rellaf.Json.Shape.{SamePlain, NotDouble}

-- The read returns a result with the property, or throws an exception.
abbrev pub Ends {ℓ} : {A : Type ℓ} → (A → Type 0) → Reading A → Type 0
Ends P (done a) = P a
Ends P thrown = Unit {0}
Ends P broken = ⊥
Ends P out_of_fuel = ⊥

pub Ends-bind {ℓ κ} :
    {A : Type ℓ} {B : Type κ} (P : A → Type 0) (Q : B → Type 0) (r : Reading A) (f : A → Reading B)
    → Ends P r
    → ((a : A) → P a → Ends Q (f a))
    → Ends Q (r >>= f)
Ends-bind P Q (done a) f h g = g a h
Ends-bind P Q thrown f h g = tt
Ends-bind P Q broken f h g = absurd h
Ends-bind P Q out_of_fuel f h g = absurd h

pub Ends-mono {ℓ} :
    {A : Type ℓ} (P Q : A → Type 0) (r : Reading A) → ((a : A) → P a → Q a) → Ends P r → Ends Q r
Ends-mono P Q (done a) f h = f a h
Ends-mono P Q thrown f h = tt
Ends-mono P Q broken f h = h
Ends-mono P Q out_of_fuel f h = h

pub Ends-if {ℓ} :
    {A : Type ℓ} (P : A → Type 0) (b : Bool) (r s : Reading A)
    → (b ≡ true → Ends P r)
    → (b ≡ false → Ends P s)
    → Ends P (if b then r else s)
Ends-if P true r s h g = h refl
Ends-if P false r s h g = g refl

module _ {ℓ} {J : Type ℓ} (api : JsonCpp J) where
  set_val-Ends : (p : Plain) (v : Option Val) → Ends (SamePlain p) (reading (set_val api p v))
  set_val-Ends p none = tt
  set_val-Ends p (some v) = refl

  guarded :
      (b : Bool) (p : Plain) (v : Option Val)
      → Ends (SamePlain p) (reading (if b then set_val api p v else returned p))
  guarded true p v = set_val-Ends p v
  guarded false p v = refl

  kind-Ends :
      (k : Kind) (json : J) (p : Plain)
      → k ≢ double
      → Ends (SamePlain p) (reading (json_to_kind api k json p))
  unfolding json_to_kind
  kind-Ends char json p h = guarded _ p _
  kind-Ends int16 json p h = guarded _ p _
  kind-Ends int json p h = guarded _ p _
  kind-Ends int64 json p h = guarded _ p _
  kind-Ends uint16 json p h = guarded _ p _
  kind-Ends uint32 json p h = guarded _ p _
  kind-Ends uint64 json p h = guarded _ p _
  kind-Ends bool json p h = guarded _ p _
  kind-Ends float json p h = guarded _ p _
  kind-Ends str json p h = guarded _ p _
  kind-Ends double json p h = absurd (h refl)

  pub plain-Ends :
      (json : J) (p : Plain) → NotDouble p → Ends (SamePlain p) (reading (json_to_plain api json p))
  unfolding json_to_plain
  plain-Ends json p h = go (api.is_null json) (kind_of_code p.type.code) h
    where
      go :
          (b : Bool) (k : Option Kind)
          → k ≢ some double
          → Ends (SamePlain p) (
              reading (
                if b
                then returned p
                else elim k [ none ↦ returned p | some k ↦ json_to_kind api k json p ]))
      go true k n = refl
      go false none n = refl
      go false (some k) n = kind-Ends k json p (λ e. n (rw e))
