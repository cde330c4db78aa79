-- ===== src/Prelude/Bits.antt =====
-- `|` and `&` on fields, as arithmetic, at every width.
use Prim.Native.Nat.{
  ℕ, zero, suc, ◌+◌, ◌-◌, ◌*◌, ◌/◌, ◌%◌, ◌^◌, ◌≤◌, ◌<◌, min, max, bit_and, bit_or, digits,
  bit_and-bitwise, bit_or-bitwise,
}
use mathlib.Core.Path.{◌≡◌, refl, ap}
use native.Mathlib.Nat.{pow-suc, add-zero, add-suc, one-le-pow, pow-succ', pow-zero}
use native.Mathlib.Omega.{arith}

pub pow-add : (b m n : ℕ) → b ^ (m + n) ≡ b ^ m * b ^ n
pow-add b m zero = rw (add-zero, pow-zero) (omega arith)
pow-add b m (suc n) = rw (add-suc, pow-suc, pow-add b m n, pow-suc) (omega arith)

-- The meaning of a native bit operation depends on its fuel only while that is too small.
module _ (tail : ℕ → ℕ) (op : ℕ → ℕ → ℕ) where
  enough_digits : (j k x y : ℕ) → x ≤ j → x ≤ k → digits tail op j x y ≡ digits tail op k x y
  enough_digits zero zero x y p q = refl
  enough_digits zero (suc k) zero y p q = refl
  enough_digits zero (suc k) (suc x) y p q = absurd (omega arith)
  enough_digits (suc j) zero zero y p q = refl
  enough_digits (suc j) zero (suc x) y p q = absurd (omega arith)
  enough_digits (suc j) (suc k) zero y p q = refl
  enough_digits (suc j) (suc k) (suc x) y p q =
      omega (arith, enough_digits j k (suc x / 2) (y / 2) (omega arith) (omega arith))

-- One binary digit at a time.
bit_or-halves : (x y : ℕ) → bit_or x y ≡ bit_or (x / 2) (y / 2) * 2 + max (x % 2) (y % 2)
bit_or-halves zero y = omega (arith, bit_or-bitwise 0 y, bit_or-bitwise 0 (y / 2))
bit_or-halves (suc x) y = omega (
  arith,
  bit_or-bitwise (suc x) y,
  bit_or-bitwise (suc x / 2) (y / 2),
  enough_digits (λ t. t) max x (suc x / 2) (suc x / 2) (y / 2) (omega arith) (omega arith),
)

bit_and-halves : (x y : ℕ) → bit_and x y ≡ bit_and (x / 2) (y / 2) * 2 + min (x % 2) (y % 2)
bit_and-halves zero y = omega (arith, bit_and-bitwise 0 y, bit_and-bitwise 0 (y / 2))
bit_and-halves (suc x) y = omega (
  arith,
  bit_and-bitwise (suc x) y,
  bit_and-bitwise (suc x / 2) (y / 2),
  enough_digits (λ t. 0) min x (suc x / 2) (suc x / 2) (y / 2) (omega arith) (omega arith),
)

bit_or-zero_below : (n x : ℕ) → x ≤ n → bit_or x 0 ≡ x
bit_or-zero_below n zero h = refl
bit_or-zero_below zero (suc x) h = absurd (omega arith)
bit_or-zero_below (suc n) (suc x) h =
    omega (arith, bit_or-halves (suc x) 0, bit_or-zero_below n (suc x / 2) (omega arith))

bit_and-zero_below : (n x : ℕ) → x ≤ n → bit_and x 0 ≡ 0
bit_and-zero_below n zero h = refl
bit_and-zero_below zero (suc x) h = absurd (omega arith)
bit_and-zero_below (suc n) (suc x) h =
    omega (arith, bit_and-halves (suc x) 0, bit_and-zero_below n (suc x / 2) (omega arith))

-- `(q << k) | r` is a sum where `r` has at most `k` bits.
pub bit_or-shifted : (k q r : ℕ) → r < 2 ^ k → bit_or (q * 2 ^ k) r ≡ q * 2 ^ k + r
bit_or-shifted zero q r h = ground (arith, bit_or-zero_below q q (omega arith))
bit_or-shifted (suc k) q r h = ground (
  arith,
  bit_or-halves (q * 2 ^ suc k) r,
  ap (λ (t : ℕ). q * t) (pow-suc 2 k),
  bit_or-shifted k q (r / 2) (omega (arith, pow-suc 2 k)),
)

pub mod_double : (m x : ℕ) → 0 < m → x % (2 * m) ≡ x / 2 % m * 2 + x % 2
mod_double m x h = grind arith

mask_half : (m : ℕ) → 0 < m → ((2 * m - 1) / 2 ≡ m - 1) × ((2 * m - 1) % 2 ≡ 1)
mask_half m h = omega arith

-- `x & (2 ^ k - 1)` is the remainder by `2 ^ k`.
pub bit_and-mask : (k x : ℕ) → bit_and x (2 ^ k - 1) ≡ x % 2 ^ k
bit_and-mask zero x = omega (arith, bit_and-zero_below x x (omega arith))
bit_and-mask (suc k) x = rw pow-succ' (
    omega (
      arith,
      bit_and-halves x (2 * 2 ^ k - 1),
      ap (bit_and (x / 2)) (mask_half (2 ^ k) (one-le-pow k 2 (omega arith))).0,
      mask_half (2 ^ k) (one-le-pow k 2 (omega arith)),
      mod_double (2 ^ k) x (one-le-pow k 2 (omega arith)),
      bit_and-mask k (x / 2),
    ))
