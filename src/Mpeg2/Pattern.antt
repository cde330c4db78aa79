-- ===== src/Mpeg2/Pattern.antt =====
-- The codes before a macroblock's blocks in mpeg2_parser.cpp: decode_coded_block_pattern and the
-- types of macroblocks in I, P and B pictures.
pub mod Codes
use haiku_vaio_vpceb3k1e.Prelude.{
  ℕ, ◌+◌, ◌-◌, ◌*◌, ◌/◌, ◌^◌, Bool, true, false, ◌&&◌, Option, none, some, List, [], ◌∷◌,
  if◌then◌else◌, ◌==◌,
}
use haiku_vaio_vpceb3k1e.Mpeg2.Bits.{Bits, peek, skip}
use haiku_vaio_vpceb3k1e.Mpeg2.Vlc.Code.{Entry, entry, search}
use haiku_vaio_vpceb3k1e.Mpeg2.Vlc.Cbp.{cbp_table}

abbrev pub take_entry : Bits → Option (Entry ℕ) → Option ℕ × Bits
take_entry bs none = (none, bs)
take_entry bs (some (entry code len s)) = (some s, skip bs len)

abbrev pub every_pattern : ℕ → Bool
every_pattern s = false

-- `none` is the result -1.
unfoldable pub decode_coded_block_pattern : Bits → Option ℕ × Bits
unfolding peek skip search
decode_coded_block_pattern bs = take_entry bs (search every_pattern 9 (peek bs 9) cbp_table)

-- The flag says whether a quantiser scale follows.
unfoldable pub decode_macroblock_type_i : Bits → Option Bool × Bits
unfolding peek skip
decode_macroblock_type_i bs =
    if peek bs 1 == 1
    then (some false, skip bs 1)
    else if peek bs 2 == 0b01
    then (some true, skip bs 2)
    else (none, bs)

abbrev pub mb_quant : ℕ
mb_quant = 0x01

abbrev pub mb_motion_forward : ℕ
mb_motion_forward = 0x02

abbrev pub mb_motion_backward : ℕ
mb_motion_backward = 0x04

abbrev pub mb_pattern : ℕ
mb_pattern = 0x08

abbrev pub mb_intra : ℕ
mb_intra = 0x10

-- The tests of `decode_macroblock_type_p` in their order: the code, its length and the flags.
abbrev pub p_types : List (Entry ℕ)
p_types =
    entry 1 1 (mb_motion_forward + mb_pattern)
    ∷ entry 1 2 mb_motion_forward
    ∷ entry 1 3 mb_motion_forward
    ∷ entry 3 5 mb_intra
    ∷ entry 2 5 (mb_quant + mb_motion_forward + mb_pattern)
    ∷ entry 1 5 (mb_quant + mb_motion_forward)
    ∷ entry 1 6 (mb_quant + mb_intra)
    ∷ []

unfoldable pub decode_macroblock_type_p : Bits → Option ℕ × Bits
unfolding peek skip search
decode_macroblock_type_p bs = take_entry bs (search every_pattern 6 (peek bs 6) p_types)

-- Likewise for `decode_macroblock_type_b`.
abbrev pub b_types : List (Entry ℕ)
b_types =
    entry 2 2 (mb_motion_forward + mb_motion_backward)
    ∷ entry 3 2 (mb_motion_forward + mb_motion_backward + mb_pattern)
    ∷ entry 2 3 mb_motion_backward
    ∷ entry 3 3 (mb_motion_backward + mb_pattern)
    ∷ entry 2 4 mb_motion_forward
    ∷ entry 3 4 (mb_motion_forward + mb_pattern)
    ∷ entry 3 5 mb_intra
    ∷ entry 2 5 (mb_quant + mb_motion_forward + mb_motion_backward + mb_pattern)
    ∷ entry 3 6 (mb_quant + mb_motion_backward + mb_pattern)
    ∷ entry 2 6 (mb_quant + mb_motion_forward + mb_pattern)
    ∷ entry 1 6 (mb_quant + mb_intra)
    ∷ []

unfoldable pub decode_macroblock_type_b : Bits → Option ℕ × Bits
unfolding peek skip search
decode_macroblock_type_b bs = take_entry bs (search every_pattern 6 (peek bs 6) b_types)
