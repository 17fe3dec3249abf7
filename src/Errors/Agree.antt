-- ===== src/Errors/Agree.antt =====
-- Two computations that give the same value, or both refuse.
use scitt_payload_binding.Common.{◌≡◌, refl, sym, ap, ◌∙◌, subst, Bool, true, false}
use scitt_payload_binding.Errors.{Error, Result, ok, err, out_of_fuel, ◌>>=◌, raise_if}

-- the same value, or an error each
abbrev pub Agree : {A : Type 0} → Result A → Result A → Type 0
Agree (ok a) (ok b) = a ≡ b
Agree (err e) (err e') = Unit
Agree out_of_fuel out_of_fuel = Unit
Agree _ _ = ⊥

pub Agree-refl : {A : Type 0} (r : Result A) → Agree r r
Agree-refl (ok a) = refl
Agree-refl (err e) = tt
Agree-refl out_of_fuel = tt

pub Agree->>= :
    {A B : Type 0} (r r' : Result A) (k k' : A → Result B)
    → Agree r r'
    → ((a : A) → Agree (k a) (k' a))
    → Agree (r >>= k) (r' >>= k')
Agree->>= (ok a) (ok b) k k' h hk = subst (λ c. Agree (k a) (k' c)) h (hk a)
Agree->>= (err e) (err e') k k' h hk = tt
Agree->>= out_of_fuel out_of_fuel k k' h hk = tt
Agree->>= (ok a) (err e) k k' h hk = absurd h
Agree->>= (ok a) out_of_fuel k k' h hk = absurd h
Agree->>= (err e) (ok b) k k' h hk = absurd h
Agree->>= (err e) out_of_fuel k k' h hk = absurd h
Agree->>= out_of_fuel (ok b) k k' h hk = absurd h
Agree->>= out_of_fuel (err e) k k' h hk = absurd h

pub Agree-raise : (b : Bool) (e e' : Error) → Agree (raise_if b e) (raise_if b e')
Agree-raise true e e' = tt
Agree-raise false e e' = refl

-- What one returns, the other returns.
pub Agree-ok : {A : Type 0} (r r' : Result A) (a : A) → Agree r r' → r ≡ ok a → r' ≡ ok a
Agree-ok (ok b) (ok c) a h e = ap ok (sym h) ∙ e
Agree-ok (ok b) (err d) a h e = absurd h
Agree-ok (ok b) out_of_fuel a h e = absurd h
Agree-ok (err b) r' a h e = cc
Agree-ok out_of_fuel r' a h e = cc

pub Agree-swap : {A : Type 0} (r r' : Result A) → Agree r r' → Agree r' r
Agree-swap (ok a) (ok b) h = sym h
Agree-swap (err e) (err e') h = tt
Agree-swap out_of_fuel out_of_fuel h = tt
Agree-swap (ok a) (err e) h = absurd h
Agree-swap (ok a) out_of_fuel h = absurd h
Agree-swap (err e) (ok b) h = absurd h
Agree-swap (err e) out_of_fuel h = absurd h
Agree-swap out_of_fuel (ok b) h = absurd h
Agree-swap out_of_fuel (err e) h = absurd h
