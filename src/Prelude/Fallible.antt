-- ===== src/Prelude/Fallible.antt =====
-- Fallible code. A panic is kept apart from an error that is returned.
use mathlib.Core.Path.{◌≡◌, refl, ap, ◌∙◌}
use mathlib.Core.Logic.{◌⊎◌, inl, inr}
use mathlib.Core.Bool.{Bool, true, false}
use mathlib.Core.Option.{Option, none, some}

pub data Result {ℓ κ} (E : Type ℓ) (A : Type κ) : Type (ℓ ⊔ κ) where
  ok : A → Result E A
  err : E → Result E A
  panic : Result E A

infixl 5 ◌>>=◌ ◌>>◌
abbrev pub ◌>>=◌ {ℓ κ μ} :
    {E : Type ℓ} {A : Type κ} {B : Type μ} → Result E A → (A → Result E B) → Result E B
ok a >>= f = f a
err e >>= f = err e
panic >>= f = panic

abbrev pub ◌>>◌ {ℓ κ} : {E : Type ℓ} {B : Type κ} → Result E (Unit {0}) → Result E B → Result E B
m >> k = m >>= λ _. k

-- `ok_or`
abbrev pub ok_or {ℓ κ} : {E : Type ℓ} {A : Type κ} → Option A → E → Result E A
ok_or none e = err e
ok_or (some a) e = ok a

-- `bail!` unless the test holds
abbrev pub guard {ℓ} : {E : Type ℓ} → Bool → E → Result E (Unit {0})
guard true e = ok tt
guard false e = err e

-- `map_err`
abbrev pub map_err {ℓ κ μ} :
    {E : Type ℓ} {F : Type κ} {A : Type μ} → (E → F) → Result E A → Result F A
map_err f (ok a) = ok a
map_err f (err e) = err (f e)
map_err f panic = panic

-- `.ok()`
abbrev pub accepted {ℓ κ} : {E : Type ℓ} {A : Type κ} → Result E A → Option A
accepted (ok a) = some a
accepted (err e) = none
accepted panic = none

pub accepted-ok {ℓ κ} :
    {E : Type ℓ} {A : Type κ} (r : Result E A) {a : A} → accepted r ≡ some a → r ≡ ok a
accepted-ok (ok a) h = cc
accepted-ok (err e) h = cc
accepted-ok panic h = cc

pub map_err-ok {ℓ κ μ} :
    {E : Type ℓ} {F : Type κ} {A : Type μ} (f : E → F) (r : Result E A) {a : A}
    → map_err f r ≡ ok a
    → r ≡ ok a
map_err-ok f (ok a) h = cc
map_err-ok f (err e) h = cc
map_err-ok f panic h = cc

-- what a chain that succeeded says of its first step
pub >>=-eq-ok {ℓ κ μ} :
    {E : Type ℓ} {A : Type κ} {B : Type μ} (first : Result E A) (next : A → Result E B) {last : B}
    → (first >>= next) ≡ ok last
    → (a : A) × (first ≡ ok a) × (next a ≡ ok last)
>>=-eq-ok panic next h = cc
>>=-eq-ok (err e) next h = cc
>>=-eq-ok (ok a) next h = (a, refl, h)

pub Result-cases {ℓ κ} :
    {E : Type ℓ} {A : Type κ} (r : Result E A)
    → ((a : A) × (r ≡ ok a)) ⊎ (((e : E) × (r ≡ err e)) ⊎ (r ≡ panic))
Result-cases (ok a) = inl (a, refl)
Result-cases (err e) = inr (inl (e, refl))
Result-cases panic = inr (inr refl)

module _ {ℓ κ} {E : Type ℓ} {A : Type κ} where
  pub >>=-ok : (m : Result E A) → (m >>= λ a. ok a) ≡ m
  >>=-ok (ok a) = refl
  >>=-ok (err e) = refl
  >>=-ok panic = refl

module _ {ℓ κ μ} {E : Type ℓ} {A : Type κ} {B : Type μ} where
  pub >>=-ext :
      (m : Result E A) (f g : A → Result E B) → ((a : A) → f a ≡ g a) → (m >>= f) ≡ (m >>= g)
  >>=-ext (ok a) f g same = same a
  >>=-ext (err e) f g same = refl
  >>=-ext panic f g same = refl

  -- a first step that succeeds
  pub >>=-step :
      {m : Result E A} {a : A} (f : A → Result E B) {r : Result E B}
      → m ≡ ok a
      → f a ≡ r
      → (m >>= f) ≡ r
  >>=-step f e h = ap (λ t. t >>= f) e ∙ h

  -- equal first steps and equal continuations
  pub >>=-cong :
      {m n : Result E A} {f g : A → Result E B}
      → m ≡ n
      → ((a : A) → f a ≡ g a)
      → (m >>= f) ≡ (n >>= g)
  >>=-cong {m} {n} {f} {g} e same = ap (λ t. t >>= f) e ∙ >>=-ext n f g same

module _ {ℓ κ μ ν} {E : Type ℓ} {A : Type κ} {B : Type μ} {C : Type ν} where
  pub >>=-assoc :
      (m : Result E A) (f : A → Result E B) (g : B → Result E C)
      → ((m >>= f) >>= g) ≡ (m >>= λ a. f a >>= g)
  >>=-assoc (ok a) f g = refl
  >>=-assoc (err e) f g = refl
  >>=-assoc panic f g = refl
