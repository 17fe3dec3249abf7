-- ===== src/Errors/Refines.antt =====
-- One computation answers whenever another does, with the image of its value.
use scitt_payload_binding.Common.{◌≡◌, refl, ap, Bool, true, false, if◌then◌else◌}
use scitt_payload_binding.Errors.{Error, Result, ok, err, out_of_fuel, ◌>>=◌, ◌>>◌, raise_if}

abbrev pub Refines {ℓ ρ} : {A : Type ℓ} {B : Type ρ} → (A → B) → Result A → Result B → Type (ℓ ⊔ ρ)
Refines {A} image first second = (a : A) → first ≡ ok a → second ≡ ok (image a)

module _ {ℓ ρ} {A : Type ℓ} {B : Type ρ} (image : A → B) where
  pub Refines-ok : (a : A) → Refines image (ok a) (ok (image a))
  Refines-ok a x h = let same : a ≡ x = cc h in ap (λ y. ok (image y)) same

  pub Refines-err : (e : Error) (second : Result B) → Refines image (err e) second
  Refines-err e second x h = cc

  pub Refines-if :
      (b : Bool) {first first' : Result A} {second second' : Result B}
      → Refines image first second
      → Refines image first' second'
      → Refines image (if b then first else first') (if b then second else second')
  Refines-if true r r' = r
  Refines-if false r r' = r'

  -- a guard written as a conditional, and as a raise
  pub Refines-raise :
      (b : Bool) (e e' : Error) {first : Result A} {second : Result B}
      → Refines image first second
      → Refines image (if b then err e else first) (raise_if b e' >> second)
  Refines-raise true e e' r x h = cc
  Refines-raise false e e' r x h = r x h

  pub Refines-guard :
      (b : Bool) (e e' : Error) {first : Result A} {second : Result B}
      → Refines image first second
      → Refines image (raise_if b e >> first) (raise_if b e' >> second)
  Refines-guard true e e' r x h = cc
  Refines-guard false e e' r x h = r x h

module _ {ℓ ρ} {A : Type ℓ} {B : Type ρ} {A' : Type ℓ} {B' : Type ρ} (image : A → B)
    (image' : A' → B') where
  pub Refines->>= :
      (first : Result A) {second : Result B} (k : A → Result A') (k' : B → Result B')
      → Refines image first second
      → ((a : A) → Refines image' (k a) (k' (image a)))
      → Refines image' (first >>= k) (second >>= k')
  Refines->>= (ok a) k k' r rk x h = rw (r a refl) (rk a x h)
  Refines->>= (err e) k k' r rk x h = cc
  Refines->>= out_of_fuel k k' r rk x h = cc
