-- ===== src/Prelude/Slices.antt =====
-- Slices of bytes: what Rust's indexing returns or panics on, and little-endian numbers.
use Prim.Native.Nat.{ℕ, zero, suc, ◌+◌, ◌-◌, ◌*◌, ◌≤◌, ◌<◌}
use mathlib.Core.Path.{◌≡◌, refl, sym, ap, ◌∙◌}
use mathlib.Core.Logic.{◌↔◌, ◌≢◌, inl, inr}
use mathlib.Core.Bool.{Bool, true, false}
use mathlib.Core.Option.{Option, none, some}
use mathlib.Core.List.{List, [], ◌∷◌, ◌++◌}
use native.Mathlib.Omega.{arith}
use trustmee_artifact.Prelude.Tests.{leb, ◌==◌, if◌then◌else◌, leb→le, ==_iff, Bool-cases}
use trustmee_artifact.Prelude.Lists.{
  Bytes, length, take, drop, get_elem?, length-append, length-drop,
}
use trustmee_artifact.Prelude.Fallible.{Result, ok, err, panic, ok_or, guard, ◌>>=◌}

-- `bytes.get(start..end)`
unfoldable pub slice : Bytes → ℕ → ℕ → Option Bytes
slice bytes start end =
    if leb end (length bytes)
    then (if leb start end then some (take (end - start) (drop start bytes)) else none)
    else none

-- `from_le_bytes`
abbrev pub from_le_bytes : Bytes → ℕ
from_le_bytes [] = 0
from_le_bytes (b ∷ bytes) = b + 256 * from_le_bytes bytes

-- `==` of byte slices
unfoldable pub same_bytes : Bytes → Bytes → Bool
same_bytes [] [] = true
same_bytes (a ∷ xs) (b ∷ ys) = if a == b then same_bytes xs ys else false
same_bytes [] (b ∷ ys) = false
same_bytes (a ∷ xs) [] = false

-- two lists are the same bytes exactly when they are equal
pub same_bytes_iff : (xs ys : Bytes) → (same_bytes xs ys ≡ true) ↔ (xs ≡ ys)
unfolding same_bytes
same_bytes_iff [] [] = (λ h. refl, λ e. refl)
same_bytes_iff [] (b ∷ ys) = (λ h. cc, λ e. cc)
same_bytes_iff (a ∷ xs) [] = (λ h. cc, λ e. cc)
same_bytes_iff (a ∷ xs) (b ∷ ys) = elim (Bool-cases (a == b)) [
  | inl hit ↦ (
    λ h. cc (
      (==_iff a b).0 hit,
      (same_bytes_iff xs ys).0 (sym (ap (λ t. if t then same_bytes xs ys else false) hit) ∙ h),
    ),
    λ e. ap (λ t. if t then same_bytes xs ys else false) hit ∙ (same_bytes_iff xs ys).1 cc,
  )
  | inr miss ↦ (λ h. cc (miss, h), λ e. cc ((==_iff a b).1 cc, miss))
]

module _ {ℓ κ} {E : Type ℓ} {A : Type κ} where
  -- `bytes[i]` and `bytes[start..end]`, which panic out of range
  abbrev pub or_panic : Option A → Result E A
  or_panic none = panic
  or_panic (some a) = ok a

  pub or_panic-ok : (o : Option A) {a : A} → or_panic o ≡ ok a → o ≡ some a
  or_panic-ok none h = cc
  or_panic-ok (some a) h = cc

  pub ok_or-ok : (o : Option A) (e : E) {a : A} → ok_or o e ≡ ok a → o ≡ some a
  ok_or-ok none e h = cc
  ok_or-ok (some a) e h = cc

  pub ok_inj : {a b : A} → ◌≡◌ {A = Result E A} (ok a) (ok b) → a ≡ b
  ok_inj h = cc

  pub or_panic-ne-panic : (o : Option A) → o ≢ none → or_panic o ≢ panic
  or_panic-ne-panic none there h = there refl
  or_panic-ne-panic (some a) there h = cc

  pub ok_or-ne-panic : (o : Option A) (e : E) → ok_or o e ≢ panic
  ok_or-ne-panic none e h = cc
  ok_or-ne-panic (some a) e h = cc

pub guard-ne-panic {ℓ} : {E : Type ℓ} (b : Bool) (e : E) → guard b e ≢ panic
guard-ne-panic true e h = cc
guard-ne-panic false e h = cc

pub guard-ok {ℓ} : {E : Type ℓ} (b : Bool) (e : E) {u : Unit {0}} → guard b e ≡ ok u → b ≡ true
guard-ok true e h = refl
guard-ok false e h = cc

-- a chain panics only where a step does, given what the step before it returned
pub >>=-ne-panic {ℓ κ μ} :
    {E : Type ℓ} {A : Type κ} {B : Type μ} (m : Result E A) (f : A → Result E B)
    → m ≢ panic
    → ((a : A) → m ≡ ok a → f a ≢ panic)
    → (m >>= f) ≢ panic
>>=-ne-panic (ok a) f start step h = step a refl h
>>=-ne-panic (err e) f start step h = cc
>>=-ne-panic panic f start step h = start refl

module _ {ℓ} {A : Type ℓ} where
  pub get_elem?-ne-none : (xs : List A) (i : ℕ) → i < length xs → get_elem? xs i ≢ none
  get_elem?-ne-none [] i inside h = ground arith
  get_elem?-ne-none (x ∷ xs) zero inside h = cc
  get_elem?-ne-none (x ∷ xs) (suc i) inside h = get_elem?-ne-none xs i (omega (arith, inside)) h

pub slice-ne-none : (bytes : Bytes) (i j : ℕ) → i ≤ j → j ≤ length bytes → slice bytes i j ≢ none
unfolding slice
slice-ne-none bytes i j order inside h = ground arith

pub slice-end :
    (bytes : Bytes) (i j : ℕ) {part : Bytes} → slice bytes i j ≡ some part → j ≤ length bytes
unfolding slice
slice-end bytes i j h = elim (Bool-cases (leb j (length bytes))) [
  | inl fits ↦ leb→le j (length bytes) fits
  | inr over ↦ cc (h, over)
]

pub slice-part :
    (bytes : Bytes) (i j width : ℕ)
    → j ≡ i + width
    → j ≤ length bytes
    → slice bytes i j ≡ some (take width (drop i bytes))
unfolding slice
slice-part bytes i j width e inside = ground (arith, e, inside)

-- the bytes of a slice that is inside of the data
pub slice-eq :
    (bytes : Bytes) (i j width : ℕ) {part : Bytes}
    → j ≡ i + width
    → slice bytes i j ≡ some part
    → part ≡ take width (drop i bytes)
slice-eq bytes i j width e h = cc (h, slice-part bytes i j width e (slice-end bytes i j h))

pub take-length : (xs ys : Bytes) → take (length xs) (xs ++ ys) ≡ xs
take-length [] ys = refl
take-length (x ∷ xs) ys = ap (λ t. x ∷ t) (take-length xs ys)

pub drop-length : (xs ys : Bytes) → drop (length xs) (xs ++ ys) ≡ ys
drop-length [] ys = refl
drop-length (x ∷ xs) ys = drop-length xs ys

-- the bytes between two others
pub slice-append :
    (front mid back : Bytes)
    → slice (front ++ (mid ++ back)) (length front) (length front + length mid) ≡ some mid
unfolding slice
slice-append front mid back = ground (
  arith,
  length-append front (mid ++ back),
  length-append mid back,
  drop-length front (mid ++ back),
  take-length mid back,
)

zero_plus : (n : ℕ) → 0 + n ≡ n
zero_plus n = omega arith

suc_plus : (n m : ℕ) → suc n + m ≡ suc (n + m)
suc_plus n m = omega arith

-- positions behind a prefix
pub get_elem?-shift :
    (front rest : Bytes) (k : ℕ) → get_elem? (front ++ rest) (length front + k) ≡ get_elem? rest k
get_elem?-shift [] rest k = ap (get_elem? rest) (zero_plus k)
get_elem?-shift (b ∷ front) rest k =
    ap (get_elem? (b ∷ (front ++ rest))) (suc_plus (length front) k) ∙ get_elem?-shift front rest k

drop-shift : (front rest : Bytes) (k : ℕ) → drop (length front + k) (front ++ rest) ≡ drop k rest
drop-shift [] rest k = ap (λ n. drop n rest) (zero_plus k)
drop-shift (b ∷ front) rest k =
    ap (λ n. drop n (b ∷ (front ++ rest))) (suc_plus (length front) k) ∙ drop-shift front rest k

pub leb-shift : (n j k : ℕ) → leb (n + j) (n + k) ≡ leb j k
leb-shift n j k = ground arith

pub slice-shift :
    (front rest : Bytes) (i j : ℕ)
    → slice (front ++ rest) (length front + i) (length front + j) ≡ slice rest i j
unfolding slice
slice-shift front rest i j = cc (
  length-append front rest,
  leb-shift (length front) j (length rest),
  leb-shift (length front) i j,
  drop-shift front rest i,
  minus_shift (length front) i j,
)
  where
    minus_shift : (n i j : ℕ) → (n + j) - (n + i) ≡ j - i
    minus_shift n i j = omega arith

append-nil : (bytes : Bytes) → bytes ++ [] ≡ bytes
append-nil [] = refl
append-nil (b ∷ bytes) = ap (λ t. b ∷ t) (append-nil bytes)

-- everything behind a prefix
pub slice-rest :
    (front rest : Bytes)
    → slice (front ++ rest) (length front) (length front + length rest) ≡ some rest
slice-rest front rest =
    ap (λ t. slice (front ++ t) (length front) (length front + length rest)) (sym (append-nil rest))
    ∙ slice-append front rest []

pub take-inside : (n : ℕ) (xs ys : Bytes) → n ≤ length xs → take n (xs ++ ys) ≡ take n xs
take-inside zero xs ys h = refl
take-inside (suc n) [] ys h = absurd (omega (arith, h))
take-inside (suc n) (x ∷ xs) ys h = ap (λ t. x ∷ t) (take-inside n xs ys (omega (arith, h)))

drop-inside : (n : ℕ) (xs ys : Bytes) → n ≤ length xs → drop n (xs ++ ys) ≡ drop n xs ++ ys
drop-inside zero xs ys h = refl
drop-inside (suc n) [] ys h = absurd (omega (arith, h))
drop-inside (suc n) (x ∷ xs) ys h = drop-inside n xs ys (omega (arith, h))

pub take-drop : (n : ℕ) (xs : Bytes) → take n xs ++ drop n xs ≡ xs
take-drop zero xs = refl
take-drop (suc n) [] = refl
take-drop (suc n) (x ∷ xs) = ap (λ t. x ∷ t) (take-drop n xs)

-- a slice that ends in a prefix
pub slice-prefix :
    (front rest : Bytes) (i j : ℕ)
    → i ≤ j
    → j ≤ length front
    → slice (front ++ rest) i j ≡ slice front i j
unfolding slice
slice-prefix front rest i j order inside = cc (
  drop-inside i front rest (omega (arith, order, inside)),
  take-inside (j - i) (drop i front) rest (omega (arith, order, inside, length-drop i front)),
  fits j (length front) inside,
  fits j (length (front ++ rest)) (omega (arith, inside, length-append front rest)),
  fits i j order,
)
  where
    fits : (a b : ℕ) → a ≤ b → leb a b ≡ true
    fits a b h = ground (arith, h)
