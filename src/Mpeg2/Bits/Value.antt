-- ===== src/Mpeg2/Bits/Value.antt =====
-- What a bit reader reads: the buffer as a sequence of bits, and the number that a run of them
-- stands for. Nothing here mentions the reader's loop.
use native.Mathlib.Nat.{
  div-div-eq-div-mul, add-suc, add-zero, add_assoc, pow-suc, pow-succ', one-le-pow,
}
use haiku_vaio_vpceb3k1e.Prelude.{
  ℕ, zero, suc, ◌+◌, ◌-◌, ◌*◌, ◌/◌, ◌%◌, ◌^◌, ◌≤◌, ◌<◌, ◌≡◌, ap, ◌∙◌, List, get_or, arith,
}
use haiku_vaio_vpceb3k1e.Prelude.Bits.{mod_double}

-- Bit `i` of the buffer, counted from the top bit of byte 0.
abbrev pub bit : List ℕ → ℕ → ℕ
bit bytes i = get_or bytes (i / 8) 0 / 2 ^ (7 - i % 8) % 2

-- The number written by the `n` bits from bit `p` on.
unfoldable pub value : List ℕ → ℕ → ℕ → ℕ
value bytes p zero = 0
value bytes p (suc n) = value bytes p n * 2 + bit bytes (p + n)

pub value-lt : (bytes : List ℕ) (p n : ℕ) → value bytes p n < 2 ^ n
unfolding value
value-lt bytes p zero = omega arith
value-lt bytes p (suc n) = omega (arith, value-lt bytes p n, pow-suc 2 n)

-- A run of `a + b` bits is the run of the first `a`, shifted, with the run of the next `b`.
pub value-add :
    (bytes : List ℕ) (p a b : ℕ)
    → value bytes p (a + b) ≡ value bytes p a * 2 ^ b + value bytes (p + a) b
unfolding value
value-add bytes p a zero = rw add-zero (omega arith)
value-add bytes p a (suc b) =
    rw (add-suc, ← add_assoc, pow-suc 2 b)
      (omega (arith, value-add bytes p a b, ap (λ (t : ℕ). t * 2) (value-add bytes p a b)))

div-pow-suc : (d m : ℕ) → d / 2 ^ suc m ≡ d / 2 ^ m / 2
div-pow-suc d m = rw (div-div-eq-div-mul, pow-suc 2 m)

-- Within one byte a run of bits is a shift and a mask.
pub value_within_byte :
    (bytes : List ℕ) (i q k : ℕ)
    → q + k ≤ 8
    → value bytes (i * 8 + q) k ≡ get_or bytes i 0 / 2 ^ (8 - q - k) % 2 ^ k
unfolding value
value_within_byte bytes i q zero h = omega arith
value_within_byte bytes i q (suc k) h =
    rw (pow-succ' 2 k, low)
      (omega (
        arith,
        value_within_byte bytes i q k (omega arith),
        ap (λ (t : ℕ). t % 2 ^ k) top,
        step,
        ap (λ (t : ℕ). d / 2 ^ t % 2) e,
      ))
  where
    d : ℕ
    d = get_or bytes i 0

    low : (i * 8 + q + k) / 8 ≡ i
    low = omega arith

    e : (8 - q - suc k) ≡ 7 - (i * 8 + q + k) % 8
    e = omega arith

    next : 8 - q - k ≡ suc (8 - q - suc k)
    next = omega arith

    top : d / 2 ^ (8 - q - k) ≡ d / 2 ^ (8 - q - suc k) / 2
    top = ap (λ (t : ℕ). d / 2 ^ t) next ∙ div-pow-suc d (8 - q - suc k)

    step :
        d / 2 ^ (8 - q - suc k) % (2 * 2 ^ k)
        ≡ d / 2 ^ (8 - q - suc k) / 2 % 2 ^ k * 2 + d / 2 ^ (8 - q - suc k) % 2
    step = mod_double (2 ^ k) _ (one-le-pow k 2 (omega arith))
