-- ===== src/Prelude/Fallible.antt =====
-- Fallible code: a value, an error that the caller sees, or a panic (an index or a slice out of
-- range). `◌>>=◌` is the `?` operator.
use Prim.Native.Nat.{ℕ, ◌-◌, ◌≤◌, ◌<◌}
use mathlib.Core.Bool.{Bool}
use mathlib.Core.List.{List}
use mathlib.Core.Logic.{◌≢◌, ◌⊎◌, inl, inr}
use mathlib.Core.Option.{Option, none, some}
use mathlib.Core.Path.{◌≡◌, refl}
use neon_core_atlas.Prelude.Lists.{length, get_elem?, get_or, take, drop, get_elem?-get_or}
use neon_core_atlas.Prelude.Tests.{leb, le→leb, if◌then◌else◌}

pub data Outcome {ℓ κ} (E : Type κ) (A : Type ℓ) : Type (ℓ ⊔ κ) where
  ok : A → Outcome E A
  err : E → Outcome E A
  panic : Outcome E A

infixl 5 ◌>>=◌ ◌>>◌
abbrev pub ◌>>=◌ {ℓ ℓ' κ} :
    {E : Type κ} {A : Type ℓ} {B : Type ℓ'} → Outcome E A → (A → Outcome E B) → Outcome E B
panic >>= f = panic
err e >>= f = err e
ok a >>= f = f a

-- `Option::ok_or`
abbrev pub ok_or {ℓ κ} : {E : Type κ} {A : Type ℓ} → Option A → E → Outcome E A
ok_or none e = err e
ok_or (some a) e = ok a

-- A step whose value is not used, such as a guard.
abbrev pub ◌>>◌ {ℓ κ} : {E : Type κ} {A : Type ℓ} → Outcome E (Unit {0}) → Outcome E A → Outcome E A
first >> second = first >>= λ done. second

-- `if failed { return Err(error) }`
abbrev pub fail_if {κ} : {E : Type κ} → Bool → E → Outcome E (Unit {0})
fail_if failed error = if failed then err error else ok tt

-- `Result::map`
abbrev pub map_ok {ℓ ℓ' κ} :
    {E : Type κ} {A : Type ℓ} {B : Type ℓ'} → (A → B) → Outcome E A → Outcome E B
map_ok f m = m >>= λ a. ok (f a)

abbrev pub or_panic {ℓ κ} : {E : Type κ} {A : Type ℓ} → Option A → Outcome E A
or_panic none = panic
or_panic (some a) = ok a

-- `xs[i]`
abbrev pub index {ℓ κ} : {E : Type κ} {A : Type ℓ} → List A → ℕ → Outcome E A
index xs i = or_panic (get_elem? xs i)

-- `&xs[a..b]`
abbrev pub slice {ℓ κ} : {E : Type κ} {A : Type ℓ} → List A → ℕ → ℕ → Outcome E (List A)
slice xs a b =
    if leb a b then (if leb b (length xs) then ok (take (b - a) (drop a xs)) else panic) else panic

-- `&xs[a..]`
abbrev pub slice_from {ℓ κ} : {E : Type κ} {A : Type ℓ} → List A → ℕ → Outcome E (List A)
slice_from xs a = if leb a (length xs) then ok (drop a xs) else panic

module _ {ℓ κ} {E : Type κ} {A : Type ℓ} where
  pub index_lem :
      (xs : List A) (i : ℕ) (d : A) → i < length xs → index {E = E} xs i ≡ ok (get_or xs i d)
  index_lem xs i d h = rw (get_elem?-get_or xs i d h)

  pub slice_lem :
      (xs : List A) (a b : ℕ)
      → a ≤ b
      → b ≤ length xs
      → slice {E = E} xs a b ≡ ok (take (b - a) (drop a xs))
  slice_lem xs a b h k = rw (le→leb a b h, le→leb b (length xs) k)

  pub slice_from_lem :
      (xs : List A) (a : ℕ) → a ≤ length xs → slice_from {E = E} xs a ≡ ok (drop a xs)
  slice_from_lem xs a h = rw (le→leb a (length xs) h)

-- Inversion of a successful bind.
pub >>=-ok {ℓ ℓ' κ} :
    {E : Type κ} {A : Type ℓ} {B : Type ℓ'} (step : Outcome E A) (rest : A → Outcome E B) {r : B}
    → step >>= rest ≡ ok r
    → (value : A) × (step ≡ ok value) × (rest value ≡ ok r)
>>=-ok panic rest e = cc
>>=-ok (err failure) rest e = cc
>>=-ok (ok value) rest e = (value, refl, e)

pub >>=-ne-panic {ℓ ℓ' κ} :
    {E : Type κ} {A : Type ℓ} {B : Type ℓ'} (m : Outcome E A) (f : A → Outcome E B)
    → m ≢ panic
    → ((a : A) → m ≡ ok a → f a ≢ panic)
    → (m >>= f) ≢ panic
>>=-ne-panic (ok a) f h k = k a refl
>>=-ne-panic (err e) f h k = λ p. cc
>>=-ne-panic panic f h k = λ p. h refl

pub Outcome-cases {ℓ κ} :
    {E : Type κ} {A : Type ℓ} (m : Outcome E A)
    → ((a : A) × (m ≡ ok a)) ⊎ (((e : E) × (m ≡ err e)) ⊎ (m ≡ panic))
Outcome-cases (ok a) = inl (a, refl)
Outcome-cases (err e) = inr (inl (e, refl))
Outcome-cases panic = inr (inr refl)

module _ {ℓ κ} {E : Type κ} {A : Type ℓ} where
  pub ok-injective : {a b : A} → ◌≡◌ {A = Outcome E A} (ok a) (ok b) → a ≡ b
  ok-injective e = cc

  pub ok_or-eq-ok : (o : Option A) (e : E) (a : A) → ok_or o e ≡ ok a → o ≡ some a
  ok_or-eq-ok none e a h = cc
  ok_or-eq-ok (some b) e a h = cc
