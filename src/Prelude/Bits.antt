-- ===== src/Prelude/Bits.antt =====
-- Laws of the masks that the code applies, from the digit recursion of the native operation.
use Prim.Native.Nat.{
  ℕ, zero, suc, ◌+◌, ◌-◌, ◌*◌, ◌/◌, ◌%◌, ◌^◌, ◌≤◌, ◌<◌, min, max, bit_and, bit_or, bit_xor, digits,
  differ, bit_and-bitwise, bit_or-bitwise, bit_xor-bitwise,
}
use mathlib.Core.Path.{◌≡◌, refl, sym, ap, ◌∙◌}
use native.Mathlib.Nat.{
  pow-suc, pow-succ', one-le-pow, pow-le-pow_right, mul-add-mod_self_right, mul-add-mod_self_left,
  mod-eq_of_lt, mod-lt, div-add-mod', div-div-eq-div-mul, mul-div_cancel,
}
use native.Mathlib.Omega.{arith}
use neon_core_atlas.Prelude.{ap₂}

abbrev and_digits : ℕ → ℕ → ℕ → ℕ
and_digits n a b = digits (λ b. zero) min n a b

-- Any fuel that covers the first number gives the same digits.
and_digits-eq : (n m a b : ℕ) → a ≤ n → a ≤ m → and_digits n a b ≡ and_digits m a b
and_digits-eq zero zero a b p q = refl
and_digits-eq zero (suc m) zero b p q = refl
and_digits-eq zero (suc m) (suc a) b p q = absurd (omega arith)
and_digits-eq (suc n) zero zero b p q = refl
and_digits-eq (suc n) zero (suc a) b p q = absurd (omega arith)
and_digits-eq (suc n) (suc m) zero b p q = refl
and_digits-eq (suc n) (suc m) (suc a) b p q =
    omega (arith, and_digits-eq n m (suc a / 2) (b / 2) (omega arith) (omega arith))

pub zero-bit_and : (b : ℕ) → bit_and 0 b ≡ 0
zero-bit_and b = bit_and-bitwise 0 b

pub bit_and_halves : (a b : ℕ) → bit_and a b ≡ bit_and (a / 2) (b / 2) * 2 + min (a % 2) (b % 2)
bit_and_halves zero b = omega (arith, zero-bit_and b, zero-bit_and (b / 2))
bit_and_halves (suc a) b = omega (
  arith,
  bit_and-bitwise (suc a) b,
  bit_and-bitwise (suc a / 2) (b / 2),
  and_digits-eq a (suc a / 2) (suc a / 2) (b / 2) (omega arith) (omega arith),
)

bit_and-zero_below : (n a : ℕ) → a ≤ n → bit_and a 0 ≡ 0
bit_and-zero_below n zero h = zero-bit_and 0
bit_and-zero_below zero (suc a) h = absurd (omega arith)
bit_and-zero_below (suc n) (suc a) h =
    omega (arith, bit_and_halves (suc a) 0, bit_and-zero_below n (suc a / 2) (omega arith))

pub bit_and-zero : (a : ℕ) → bit_and a 0 ≡ 0
bit_and-zero a = bit_and-zero_below a a (omega arith)

pub mod_unique : (n q r : ℕ) {a : ℕ} → a ≡ q * n + r → r < n → a % n ≡ r
mod_unique n q r e h = ap (λ (t : ℕ). t % n) e ∙ mul-add-mod_self_right q n r ∙ mod-eq_of_lt h

pow-pos : (k : ℕ) → 0 < 2 ^ k
pow-pos k = one-le-pow k 2 (omega arith)

mod-pow-suc : (k a : ℕ) → a % 2 ^ suc k ≡ a / 2 % 2 ^ k * 2 + a % 2
mod-pow-suc k a =
    mod_unique (2 ^ suc k) (a / 2 / 2 ^ k) (a / 2 % 2 ^ k * 2 + a % 2)
      (omega (arith, div-add-mod' (a / 2) (2 ^ k), ap (λ (t : ℕ). a / 2 / 2 ^ k * t) (pow-suc 2 k)))
      (omega (arith, mod-lt (a / 2) (pow-pos k), pow-suc 2 k))

-- A mask of `k` ones keeps the remainder.
pub bit_and_ones : (k a : ℕ) → bit_and a (2 ^ k - 1) ≡ a % 2 ^ k
bit_and_ones zero a = omega (arith, bit_and-zero a)
bit_and_ones (suc k) a = omega (
  arith,
  bit_and_halves a (2 ^ suc k - 1),
  ap (bit_and (a / 2)) half ∙ bit_and_ones k (a / 2),
  pow-suc 2 k,
  pow-pos k,
  mod-pow-suc k a,
)
  where
    half : (2 ^ suc k - 1) / 2 ≡ 2 ^ k - 1
    half = omega (arith, pow-suc 2 k, pow-pos k)

div-pow-suc : (k x : ℕ) → x / 2 ^ suc k ≡ x / 2 / 2 ^ k
div-pow-suc k x = ap (λ (t : ℕ). x / t) (pow-succ' 2 k) ∙ sym (div-div-eq-div-mul x 2 (2 ^ k))

-- The mask of a network prefix clears the `k` low bits of a word of `w` bits.
pub bit_and_prefix : (k w x : ℕ) → k ≤ w → x < 2 ^ w → bit_and x (2 ^ w - 2 ^ k) ≡ x / 2 ^ k * 2 ^ k
bit_and_prefix zero w x h lt = omega (arith, bit_and_ones w x, mod-eq_of_lt lt)
bit_and_prefix (suc k) zero x h lt = absurd (omega arith)
bit_and_prefix (suc k) (suc w) x h lt = omega (
  arith,
  bit_and_halves x (2 ^ suc w - 2 ^ suc k),
  ap (bit_and (x / 2)) half ∙ bit_and_prefix k w (x / 2) (omega arith) (omega (arith, pow-suc 2 w)),
  pow-suc 2 k,
  pow-suc 2 w,
  ap (λ (t : ℕ). t * 2 ^ suc k) (div-pow-suc k x),
  ap (λ (t : ℕ). x / 2 / 2 ^ k * t) (pow-suc 2 k),
)
  where
    half : (2 ^ suc w - 2 ^ suc k) / 2 ≡ 2 ^ w - 2 ^ k
    half = omega (arith, pow-suc 2 k, pow-suc 2 w)

-- A mask of one bit.
pub bit_and-pow : (k x : ℕ) → bit_and x (2 ^ k) ≡ x / 2 ^ k % 2 * 2 ^ k
bit_and-pow zero x = omega (arith, bit_and_halves x 1, bit_and-zero (x / 2))
bit_and-pow (suc k) x = omega (
  arith,
  bit_and_halves x (2 ^ suc k),
  ap (bit_and (x / 2)) half ∙ bit_and-pow k (x / 2),
  pow-suc 2 k,
  ap (λ (t : ℕ). t % 2 * 2 ^ suc k) (div-pow-suc k x),
  ap (λ (t : ℕ). x / 2 / 2 ^ k % 2 * t) (pow-suc 2 k),
)
  where
    half : 2 ^ suc k / 2 ≡ 2 ^ k
    half = omega (arith, pow-suc 2 k)

succ_sub : (a : ℕ) → suc a - 1 ≡ a
succ_sub a = omega arith

mul_pred : (a b : ℕ) → 0 < b → b ≤ a → (a - 1) * b ≡ a * (b - 1) + (a - b)
mul_pred zero b h k = absurd (omega arith)
mul_pred (suc a) zero h k = absurd (omega arith)
mul_pred (suc a) (suc b) h k = grind (arith, succ_sub a, succ_sub b)

-- `u32::MAX << k` and the like: shifting all ones left within a word of `w` bits.
pub shl_ones : (k w : ℕ) → k ≤ w → (2 ^ w - 1) * 2 ^ k % 2 ^ w ≡ (2 ^ w - 2 ^ k) % 2 ^ w
shl_ones k w h =
    ap (λ (t : ℕ). t % 2 ^ w) split ∙ mul-add-mod_self_left (2 ^ w) (2 ^ k - 1) (2 ^ w - 2 ^ k)
  where
    split : (2 ^ w - 1) * 2 ^ k ≡ 2 ^ w * (2 ^ k - 1) + (2 ^ w - 2 ^ k)
    split = mul_pred (2 ^ w) (2 ^ k) (pow-pos k) (pow-le-pow_right (omega arith) h)

pub mul_cancel : (k : ℕ) {a b : ℕ} → 0 < k → a * k ≡ b * k → a ≡ b
mul_cancel k {a} {b} h e = sym (mul-div_cancel a h) ∙ ap (λ (t : ℕ). t / k) e ∙ mul-div_cancel b h

-- The digit recursion of any of the operations, without its fuel.
module _ (z : ℕ → ℕ) (f : ℕ → ℕ → ℕ) where
  digits-enough : (n m a b : ℕ) → a ≤ n → a ≤ m → digits z f n a b ≡ digits z f m a b
  digits-enough zero zero a b p q = refl
  digits-enough zero (suc m) zero b p q = refl
  digits-enough zero (suc m) (suc a) b p q = absurd (omega arith)
  digits-enough (suc n) zero zero b p q = refl
  digits-enough (suc n) zero (suc a) b p q = absurd (omega arith)
  digits-enough (suc n) (suc m) zero b p q = refl
  digits-enough (suc n) (suc m) (suc a) b p q =
      omega (arith, digits-enough n m (suc a / 2) (b / 2) (omega arith) (omega arith))

bit_or_halves : (a b : ℕ) → bit_or a b ≡ bit_or (a / 2) (b / 2) * 2 + max (a % 2) (b % 2)
bit_or_halves zero b = omega (arith, bit_or-bitwise 0 b, bit_or-bitwise 0 (b / 2))
bit_or_halves (suc a) b = omega (
  arith,
  bit_or-bitwise (suc a) b,
  bit_or-bitwise (suc a / 2) (b / 2),
  digits-enough (λ y. y) max a (suc a / 2) (suc a / 2) (b / 2) (omega arith) (omega arith),
)

-- A tag above the digits of a number is added to it.
pub bit_or-tag : (k c a : ℕ) → a < 2 ^ k → bit_or a (c * 2 ^ k) ≡ c * 2 ^ k + a
bit_or-tag zero c zero h = omega (arith, bit_or-bitwise 0 (c * 2 ^ 0))
bit_or-tag zero c (suc a) h = absurd (omega arith)
bit_or-tag (suc k) c a h = omega (
  arith,
  bit_or_halves a (c * 2 ^ suc k),
  ap (bit_or (a / 2)) half ∙ bit_or-tag k c (a / 2) (omega (arith, pow-suc 2 k)),
  even,
)
  where
    even : c * 2 ^ suc k ≡ c * 2 ^ k * 2
    even = omega (arith, ap (λ (t : ℕ). c * t) (pow-succ' 2 k))

    half : c * 2 ^ suc k / 2 ≡ c * 2 ^ k
    half = omega (arith, even)

bit_xor_halves : (a b : ℕ) → bit_xor a b ≡ bit_xor (a / 2) (b / 2) * 2 + differ (a % 2) (b % 2)
bit_xor_halves zero b = omega (arith, bit_xor-bitwise 0 b, bit_xor-bitwise 0 (b / 2))
bit_xor_halves (suc a) b = omega (
  arith,
  bit_xor-bitwise (suc a) b,
  bit_xor-bitwise (suc a / 2) (b / 2),
  digits-enough (λ y. y) differ a (suc a / 2) (suc a / 2) (b / 2) (omega arith) (omega arith),
)

differ-twice : (a b : ℕ) → a < 2 → b < 2 → (differ (differ a b) b ≡ a) × (differ a b < 2)
differ-twice zero zero h k = (refl, omega arith)
differ-twice zero (suc zero) h k = (refl, omega arith)
differ-twice (suc zero) zero h k = (refl, omega arith)
differ-twice (suc zero) (suc zero) h k = (refl, omega arith)
differ-twice (suc (suc a)) b h k = absurd (omega arith)
differ-twice a (suc (suc b)) h k = absurd (omega arith)

bit_xor-twice_below : (n a b : ℕ) → a ≤ n → b ≤ n → bit_xor (bit_xor a b) b ≡ a
bit_xor-twice_below zero zero zero h k = refl
bit_xor-twice_below zero zero (suc b) h k = absurd (omega arith)
bit_xor-twice_below zero (suc a) b h k = absurd (omega arith)
bit_xor-twice_below (suc n) a b h k =
    bit_xor_halves (bit_xor a b) b
    ∙ ap₂ (λ (s t : ℕ). s * 2 + t)
        (ap (λ (t : ℕ). bit_xor t (b / 2)) upper
          ∙ bit_xor-twice_below n (a / 2) (b / 2) (omega arith) (omega arith))
        (ap (λ (t : ℕ). differ t (b % 2)) lower ∙ digit.0)
    ∙ omega arith
  where
    digit : (differ (differ (a % 2) (b % 2)) (b % 2) ≡ a % 2) × (differ (a % 2) (b % 2) < 2)
    digit = differ-twice (a % 2) (b % 2) (omega arith) (omega arith)

    upper : bit_xor a b / 2 ≡ bit_xor (a / 2) (b / 2)
    upper = omega (arith, bit_xor_halves a b, digit.1)

    lower : bit_xor a b % 2 ≡ differ (a % 2) (b % 2)
    lower = omega (arith, bit_xor_halves a b, digit.1)

-- The same key undoes an exclusive or.
pub bit_xor-twice : (a b : ℕ) → bit_xor (bit_xor a b) b ≡ a
bit_xor-twice a b = bit_xor-twice_below (a + b) a b (omega arith) (omega arith)
