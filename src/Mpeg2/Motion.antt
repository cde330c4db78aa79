-- ===== src/Mpeg2/Motion.antt =====
-- The motion vectors of mpeg2_parser.cpp: decode_motion_code and decode_motion_vector.
pub mod Range
use haiku_vaio_vpceb3k1e.Prelude.{
  ℕ, zero, suc, ◌+◌, ◌-◌, ◌*◌, ◌/◌, ◌^◌, Bool, true, false, not, ◌&&◌, Option, none, some, List, [],
  ◌∷◌, if◌then◌else◌, ltb, ◌==◌,
}
use haiku_vaio_vpceb3k1e.Prelude.Int.{ℤ, pos, negsuc, ◌+ℤ◌, ◌-ℤ◌, ltb_ℤ, to_word, of_word}
use haiku_vaio_vpceb3k1e.Mpeg2.Ac.{is_zero_ℤ}
use haiku_vaio_vpceb3k1e.Mpeg2.Bits.{Bits, read, peek, skip}

-- The tests of `decode_motion_code` behind the first, in their order: the length of the code, the
-- code and the magnitude.
abbrev pub motion_codes : List (ℕ × ℕ × ℕ)
motion_codes =
    (2, 0b01, 1)
    ∷ (3, 0b001, 2)
    ∷ (4, 0b0001, 3)
    ∷ (5, 0b00011, 4)
    ∷ (5, 0b00010, 5)
    ∷ (6, 0b000011, 6)
    ∷ (6, 0b000010, 7)
    ∷ (7, 0b0000011, 8)
    ∷ (7, 0b0000010, 9)
    ∷ (8, 0b00000011, 10)
    ∷ (8, 0b00000010, 11)
    ∷ (9, 0b000000011, 12)
    ∷ (9, 0b000000010, 13)
    ∷ (10, 0b0000000011, 14)
    ∷ (10, 0b0000000010, 15)
    ∷ (11, 0b00000000010, 16)
    ∷ []

-- The first test that a window of 12 bits passes: its length and magnitude.
unfoldable pub first_code : ℕ → List (ℕ × ℕ × ℕ) → Option (ℕ × ℕ)
first_code window [] = none
first_code window ((len, code, mc) ∷ rest) =
    if window / 2 ^ (12 - len) == code then some (len, mc) else first_code window rest

-- The sign bit behind a code.
abbrev pub signed_code : ℕ → ℕ → ℤ
signed_code sign mc = if sign == 0 then pos mc else negsuc (mc - 1)

-- `none` is the result -999.
unfoldable pub take_motion_code : Bits → Option (ℕ × ℕ) → Option ℤ × Bits
unfolding read skip
take_motion_code bs none = (none, bs)
take_motion_code bs (some (len, mc)) =
    let (sign, next) = read (skip bs len) 1 in (some (signed_code sign mc), next)

unfoldable pub decode_motion_code : Bits → Option ℤ × Bits
unfolding peek skip take_motion_code first_code
decode_motion_code bs =
    if peek bs 1 == 1
    then (some (pos 0), skip bs 1)
    else take_motion_code bs (first_code (peek bs 12) motion_codes)

-- `delta`, from the motion code and its residual.
unfoldable pub motion_delta : ℤ → ℕ → ℕ → ℤ
motion_delta (pos zero) residual r_size = pos 0
motion_delta (pos (suc n)) residual r_size = pos (n * 2 ^ r_size + residual + 1)
motion_delta (negsuc n) residual r_size = negsuc (n * 2 ^ r_size + residual)

-- The two wraps of `pred` into the range from `-range` to `range - 1`, one after the other.
unfoldable pub wrap_once : ℕ → ℤ → ℤ
unfolding ◌-ℤ◌ ◌+ℤ◌
wrap_once range p =
    let down = if ltb_ℤ p (pos range) then p else p -ℤ pos (2 * range) in
    if ltb_ℤ down (pos 0 -ℤ pos range) then down +ℤ pos (2 * range) else down

-- `decode_motion_vector` behind the motion code, for an f_code of 1 at least.
unfoldable pub move_vector : Option ℤ × Bits → ℤ → ℕ → ℤ × Bits
unfolding read motion_delta wrap_once ◌+ℤ◌
move_vector (none, bs) mv_pred f_code = (mv_pred, bs)
move_vector (some mc, bs) mv_pred f_code =
    let r_size = f_code - 1 in
    let (residual, next) = if ltb 0 r_size && not (is_zero_ℤ mc) then read bs r_size else (0, bs) in
    (
      of_word 16
          (to_word 16 (wrap_once (2 ^ (r_size + 4)) (mv_pred +ℤ motion_delta mc residual r_size))),
      next,
    )

unfoldable pub decode_motion_vector : Bits → ℤ → ℕ → ℤ × Bits
unfolding decode_motion_code move_vector
decode_motion_vector bs mv_pred f_code = move_vector (decode_motion_code bs) mv_pred f_code
