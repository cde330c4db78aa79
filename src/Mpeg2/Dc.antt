-- ===== src/Mpeg2/Dc.antt =====
-- The DC coefficient decoders of mpeg2_parser.cpp: `decode_dc_size_luminance`,
-- `decode_dc_size_chrominance` and `decode_dc_differential`.
pub mod Sizes
pub mod Differential
use haiku_vaio_vpceb3k1e.Prelude.{
  ℕ, ◌-◌, ◌*◌, ◌/◌, ◌^◌, Bool, Option, none, some, if◌then◌else◌, ltb, ◌==◌,
}
use haiku_vaio_vpceb3k1e.Prelude.Int.{ℤ, pos, sub_ℕ}
use haiku_vaio_vpceb3k1e.Mpeg2.Bits.{Bits, read, peek, skip}

-- The ladders of tests on the next bits: the size that is returned and the bits that are skipped.
abbrev pub Choice : Type 0
Choice = Option (ℕ × ℕ)

unfoldable pub luminance_ladder : ℕ → Choice
luminance_ladder code =
    if code / 2 ^ 7 == 0b00
    then some (1, 2)
    else if code / 2 ^ 7 == 0b01
    then some (2, 2)
    else if code / 2 ^ 6 == 0b100
    then some (0, 3)
    else if code / 2 ^ 6 == 0b101
    then some (3, 3)
    else if code / 2 ^ 6 == 0b110
    then some (4, 3)
    else if code / 2 ^ 5 == 0b1110
    then some (5, 4)
    else if code / 2 ^ 4 == 0b11110
    then some (6, 5)
    else if code / 2 ^ 3 == 0b111110
    then some (7, 6)
    else if code / 2 ^ 2 == 0b1111110
    then some (8, 7)
    else if code / 2 == 0b11111110
    then some (9, 8)
    else if code == 0b111111110
    then some (10, 9)
    else if code == 0b111111111
    then some (11, 9)
    else none

unfoldable pub chrominance_ladder : ℕ → Choice
chrominance_ladder code =
    if code / 2 ^ 8 == 0b00
    then some (0, 2)
    else if code / 2 ^ 8 == 0b01
    then some (1, 2)
    else if code / 2 ^ 8 == 0b10
    then some (2, 2)
    else if code / 2 ^ 7 == 0b110
    then some (3, 3)
    else if code / 2 ^ 6 == 0b1110
    then some (4, 4)
    else if code / 2 ^ 5 == 0b11110
    then some (5, 5)
    else if code / 2 ^ 4 == 0b111110
    then some (6, 6)
    else if code / 2 ^ 3 == 0b1111110
    then some (7, 7)
    else if code / 2 ^ 2 == 0b11111110
    then some (8, 8)
    else if code / 2 == 0b111111110
    then some (9, 9)
    else if code == 0b1111111110
    then some (10, 10)
    else if code == 0b1111111111
    then some (11, 10)
    else none

abbrev pub take_choice : Bits → Choice → Option ℕ × Bits
take_choice bs none = (none, bs)
take_choice bs (some (size, len)) = (some size, skip bs len)

-- `none` is the result -1.
unfoldable pub decode_dc_size_luminance : Bits → Option ℕ × Bits
unfolding luminance_ladder peek skip
decode_dc_size_luminance bs = take_choice bs (luminance_ladder (peek bs 9))

unfoldable pub decode_dc_size_chrominance : Bits → Option ℕ × Bits
unfolding chrominance_ladder peek skip
decode_dc_size_chrominance bs = take_choice bs (chrominance_ladder (peek bs 10))

-- The number that `size` bits stand for: below half of the range they mean a negative one.
unfoldable pub differential : ℕ → ℕ → ℤ
differential size val =
    if ltb val (2 ^ (size - 1)) then sub_ℕ val (2 * 2 ^ (size - 1) - 1) else pos val

unfoldable pub decode_dc_differential : Bits → ℕ → ℤ × Bits
unfolding read
decode_dc_differential bs size =
    let (val, next) = read bs size in
    if size == 0 then (pos 0, bs) else (differential size val, next)
