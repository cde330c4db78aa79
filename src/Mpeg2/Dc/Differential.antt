-- ===== src/Mpeg2/Dc/Differential.antt =====
-- The DC differentials and the bits that write them.
use native.Mathlib.Nat.{pow-succ'}
use haiku_vaio_vpceb3k1e.Prelude.{ℕ, suc, ◌+◌, ◌-◌, ◌*◌, ◌^◌, ◌≤◌, ◌<◌, ◌≡◌, ap, arith, ==-ne}
use haiku_vaio_vpceb3k1e.Prelude.Int.{ℤ, pos, negsuc, pos_part, neg_part}
use haiku_vaio_vpceb3k1e.Mpeg2.Bits.{Bits, skip}
use haiku_vaio_vpceb3k1e.Mpeg2.Bits.Value.{value}
use haiku_vaio_vpceb3k1e.Mpeg2.Bits.Read.{position, total}
use haiku_vaio_vpceb3k1e.Mpeg2.Bits.Laws.{IsInside, read-value}
use haiku_vaio_vpceb3k1e.Mpeg2.Dc.{differential, decode_dc_differential}

-- The bits that write a differential of the given size: a negative one is written with all of its
-- bits turned over.
abbrev pub differential_bits : ℕ → ℤ → ℕ
differential_bits size (pos n) = n
differential_bits size (negsuc n) = 2 ^ size - 1 - suc n

-- A differential has the size `s` if its magnitude takes `s` bits.
abbrev pub magnitude : ℤ → ℕ
magnitude d = pos_part d + neg_part d

abbrev pub HasSize : ℕ → ℤ → Type 0
HasSize s d = (2 ^ (s - 1) ≤ magnitude d) × (magnitude d < 2 ^ s)

half-eq : (s : ℕ) → (2 ^ (suc s - 1) ≡ 2 ^ s) × (2 ^ suc s ≡ 2 * 2 ^ s)
half-eq s = (ap (λ (t : ℕ). 2 ^ t) (omega arith), pow-succ' 2 s)

differential-bits :
    (s : ℕ) (d : ℤ) → HasSize (suc s) d → differential (suc s) (differential_bits (suc s) d) ≡ d
unfolding differential
differential-bits s (pos n) (lo, hi) = ground (arith, half-eq s)
differential-bits s (negsuc n) (lo, hi) = ground (arith, half-eq s)

-- The bits that write a differential of a size from 1 to 11 are decoded to it by
-- `decode_dc_differential`, which takes exactly these bits.
pub decode_dc_differential_lem :
    (bs : Bits) (s : ℕ) (d : ℤ)
    → IsInside bs
    → s < 11
    → position bs + suc s ≤ total bs
    → HasSize (suc s) d
    → value bs.bytes (position bs) (suc s) ≡ differential_bits (suc s) d
    → decode_dc_differential bs (suc s) ≡ (d, skip bs (suc s))
unfolding decode_dc_differential
decode_dc_differential_lem bs s d v small room size here =
    rw (read-value bs (suc s) v (omega arith) room, here, ==-ne (suc s) 0 (omega arith))
      (ap (λ (t : ℤ). (t, skip bs (suc s))) (differential-bits s d size))
