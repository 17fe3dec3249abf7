-- ===== src/Errors/Termination.antt =====
-- Chains and conditionals of computations that return.
use scitt_payload_binding.Common.{ℕ, ◌<◌, ◌≤◌, Bool, true, false, if◌then◌else◌, arith}
use scitt_payload_binding.Errors.{Error, Result, ok, err, out_of_fuel, ◌>>=◌, raise_if, Terminates}

pub >>=-Terminates {ℓ ρ} :
    {X : Type ℓ} {Y : Type ρ} (r : Result X) (k : X → Result Y)
    → Terminates r
    → ((x : X) → Terminates (k x))
    → Terminates (r >>= k)
>>=-Terminates (ok x) k h hk = hk x
>>=-Terminates (err e) k h hk = tt
>>=-Terminates out_of_fuel k h hk = absurd h

pub if-Terminates {ℓ} :
    {X : Type ℓ} (b : Bool) (x y : Result X)
    → Terminates x
    → Terminates y
    → Terminates (if b then x else y)
if-Terminates true x y hx hy = hx
if-Terminates false x y hx hy = hy

pub raise_if-Terminates : (b : Bool) (e : Error) → Terminates (raise_if b e)
raise_if-Terminates true e = tt
raise_if-Terminates false e = tt

-- It returns, and a value that it returns has a size below the bound.
abbrev pub Within : {A : Type 0} → (A → ℕ) → ℕ → Result A → Type 0
Within size m (ok a) = size a < m
Within size m (err e) = Unit
Within size m out_of_fuel = ⊥

pub Within->>= :
    {A B : Type 0} (size : A → ℕ) (size' : B → ℕ) (n m : ℕ) (r : Result A) (k : A → Result B)
    → Within size n r
    → ((x : A) → size x < n → Within size' m (k x))
    → Within size' m (r >>= k)
Within->>= size size' n m (ok x) k h hk = hk x h
Within->>= size size' n m (err e) k h hk = tt
Within->>= size size' n m out_of_fuel k h hk = absurd h

pub Within-then :
    {A B : Type 0} (size : B → ℕ) (m : ℕ) (r : Result A) (k : A → Result B)
    → Terminates r
    → ((x : A) → Within size m (k x))
    → Within size m (r >>= k)
Within-then size m (ok x) k h hk = hk x
Within-then size m (err e) k h hk = tt
Within-then size m out_of_fuel k h hk = absurd h

pub Within-if :
    {A : Type 0} (size : A → ℕ) (m : ℕ) (b : Bool) (r s : Result A)
    → Within size m r
    → Within size m s
    → Within size m (if b then r else s)
Within-if size m true r s h k = h
Within-if size m false r s h k = k

pub Within-weaker :
    {A : Type 0} (size : A → ℕ) (n m : ℕ) (r : Result A) → n ≤ m → Within size n r → Within size m r
Within-weaker size n m (ok x) le h = omega arith
Within-weaker size n m (err e) le h = tt
Within-weaker size n m out_of_fuel le h = absurd h

pub Within-Terminates :
    {A B : Type 0} (size : A → ℕ) (n : ℕ) (r : Result A) (k : A → Result B)
    → Within size n r
    → ((x : A) → size x < n → Terminates (k x))
    → Terminates (r >>= k)
Within-Terminates size n (ok x) k h hk = hk x h
Within-Terminates size n (err e) k h hk = tt
Within-Terminates size n out_of_fuel k h hk = absurd h
