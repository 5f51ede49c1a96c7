-- ===== src/Base/Outcome.antt =====
-- What a kernel function yields: a value, or the message that it panics with. A loop that has no
-- bound of its own takes fuel, and says when that has run out.
use Prim.Native.String.{String}
use mathlib.Core.Path.{◌≡◌, refl}
use mathlib.Core.Bool.{Bool, true, false}

pub data Result {ℓ} (A : Type ℓ) : Type ℓ where
  panic : String → Result A
  out_of_fuel : Result A
  ok : A → Result A

module _ {ℓ κ} {A : Type ℓ} {B : Type κ} where
  infixl 5 ◌>>=◌
  -- The first failure is the failure of the whole.
  abbrev pub ◌>>=◌ : Result A → (A → Result B) → Result B
  panic message >>= next = panic message
  out_of_fuel >>= next = out_of_fuel
  ok value >>= next = next value

  -- A bind that succeeds has a first part that succeeds.
  pub >>=-eq-ok :
      (first : Result A) (next : A → Result B) {y : B}
      → (first >>= next) ≡ ok y
      → (x : A) × (first ≡ ok x) × (next x ≡ ok y)
  >>=-eq-ok (panic message) next e = cc
  >>=-eq-ok out_of_fuel next e = cc
  >>=-eq-ok (ok value) next e = (value, refl, e)

-- `if(bad) panic(msg)`.
abbrev pub panic_if : Bool → String → Result (Unit {0})
panic_if false message = ok tt
panic_if true message = panic message

infixl 5 ◌>>◌
abbrev pub ◌>>◌ {κ} : {B : Type κ} → Result (Unit {0}) → Result B → Result B
check >> next = check >>= (λ done. next)

pub >>=-ok {ℓ} : {A : Type ℓ} (r : Result A) → (r >>= λ x. ok x) ≡ r
>>=-ok (panic message) = refl
>>=-ok out_of_fuel = refl
>>=-ok (ok value) = refl

pub ok-injective {ℓ} : {A : Type ℓ} (x y : A) → ok x ≡ ok y → x ≡ y
ok-injective x y e = cc

-- A chain whose first two steps give `y` goes on from `y`.
pub >>=-chain {ℓ κ μ} :
    {A : Type ℓ} {B : Type κ} {C : Type μ} (m : Result A) (f : A → Result B) (g : B → Result C)
    (y : B)
    → (m >>= f) ≡ ok y
    → (m >>= λ x. f x >>= g) ≡ g y
>>=-chain (panic message) f g y e = cc
>>=-chain out_of_fuel f g y e = cc
>>=-chain (ok value) f g y e = rw e refl
