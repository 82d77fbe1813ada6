-- ===== src/Base/Words.antt =====
-- Masks by a power of two, and bytes of machine words.
use Prim.Native.Nat.{
  ℕ, zero, suc, ◌+◌, ◌-◌, ◌*◌, ◌/◌, ◌%◌, ◌^◌, ◌≤◌, ◌<◌, min, bit_and, digits, bit_and-bitwise,
}
use mathlib.Core.Path.{◌≡◌, refl, ap, sym, ◌∙◌}
use native.Mathlib.Omega.{arith}
use native.Mathlib.Nat.{pow-suc, one-le-pow}

-- `digits` recurs on fuel: any fuel that covers the first number gives one answer.
common_bits :
    (f g a b : ℕ) → a ≤ f → a ≤ g → digits (λ r. zero) min f a b ≡ digits (λ r. zero) min g a b
common_bits zero zero a b p q = refl
common_bits zero (suc g) zero b p q = refl
common_bits (suc f) zero zero b p q = refl
common_bits (suc f) (suc g) zero b p q = refl
common_bits zero (suc g) (suc a) b p q = absurd (omega arith)
common_bits (suc f) zero (suc a) b p q = absurd (omega arith)
common_bits (suc f) (suc g) (suc a) b p q =
    let smaller = common_bits f g (suc a / 2) (b / 2) (omega arith) (omega arith) in
    omega (arith, smaller)

bit_and_low : (a b : ℕ) → bit_and a b ≡ bit_and (a / 2) (b / 2) * 2 + min (a % 2) (b % 2)
bit_and_low zero b =
    let whole : bit_and 0 b ≡ 0 = bit_and-bitwise 0 b in
    let half : bit_and 0 (b / 2) ≡ 0 = bit_and-bitwise 0 (b / 2) in omega (arith, whole, half)
bit_and_low (suc a) b =
    let fuel = common_bits a (suc a / 2) (suc a / 2) (b / 2) (omega arith) (omega arith) in
    omega (arith, fuel, bit_and-bitwise (suc a) b, bit_and-bitwise (suc a / 2) (b / 2))

bit_and_none : (f a : ℕ) → a ≤ f → bit_and a 0 ≡ 0
bit_and_none f zero h = refl
bit_and_none zero (suc a) h = absurd (omega arith)
bit_and_none (suc f) (suc a) h =
    omega (arith, bit_and_low (suc a) 0, bit_and_none f (suc a / 2) (omega arith))

double_rem : (a p : ℕ) → 0 < p → a % (p * 2) ≡ a / 2 % p * 2 + a % 2
double_rem a p h = grind arith

-- `a & (cap - 1)` is the remainder by `cap`, when `cap` is a power of two.
pub bit_and_pow_mask : (k a : ℕ) → bit_and a (2 ^ k - 1) ≡ a % 2 ^ k
bit_and_pow_mask zero a = omega (arith, bit_and_none a a (omega arith))
bit_and_pow_mask (suc k) a =
    let mask : (2 ^ suc k - 1) / 2 ≡ 2 ^ k - 1 = omega (arith, pow-suc 2 k, one-le-pow k 2) in
    let step = bit_and_low a (2 ^ suc k - 1) in
    let low : bit_and a (2 ^ suc k - 1) ≡ a / 2 % 2 ^ k * 2 + a % 2 = omega (
      arith,
      step,
      ap (λ (t : ℕ). bit_and (a / 2) t) mask,
      bit_and_pow_mask k (a / 2),
      pow-suc 2 k,
      one-le-pow k 2,
    ) in
    low
    ∙ sym (double_rem a (2 ^ k) (one-le-pow k 2 (omega arith)))
    ∙ ap (λ (t : ℕ). a % t) (sym (pow-suc 2 k))
