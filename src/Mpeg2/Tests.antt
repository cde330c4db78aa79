-- ===== src/Mpeg2/Tests.antt =====
-- The MPEG-2 reader and decoders of mpeg2_parser.cpp on short buffers.
use haiku_vaio_vpceb3k1e.Prelude.{
  List, replicate, ℕ, ◌≡◌, ◌⊎◌, refl, [], ◌∷◌, true, false, some, arith,
}
use haiku_vaio_vpceb3k1e.Prelude.Int.{ℤ, negsuc}
use haiku_vaio_vpceb3k1e.Mpeg2.Bits.{Bits, gather, step_over, read_loop, read, skip, align}
use haiku_vaio_vpceb3k1e.Mpeg2.Bits.Value.{value}
use haiku_vaio_vpceb3k1e.Mpeg2.Bits.Read.{Reads, read-Reads}
use haiku_vaio_vpceb3k1e.Mpeg2.Bits.Laws.{IsInside}
use haiku_vaio_vpceb3k1e.Mpeg2.StartCode.{find_start_code}
use haiku_vaio_vpceb3k1e.Mpeg2.StartCode.Scan.{Found, NotFound, find_start_code_lem}
use haiku_vaio_vpceb3k1e.Mpeg2.Ac.{run_level, signed, decode_ac_coeff_b14, decode_ac_coeff_b15}
use haiku_vaio_vpceb3k1e.Mpeg2.Ac.Symbols.{escaped}
use haiku_vaio_vpceb3k1e.Mpeg2.Ac.Coefficients.{
  decode_ac_coeff_b14-coefficient, decode_ac_coeff_b15-coefficient, decode_ac_coeff-escape,
}
use haiku_vaio_vpceb3k1e.Mpeg2.Dc.{decode_dc_differential}
use haiku_vaio_vpceb3k1e.Mpeg2.Dc.Differential.{decode_dc_differential_lem}
use haiku_vaio_vpceb3k1e.Prelude.Int.{odd_ℤ}
use haiku_vaio_vpceb3k1e.Mpeg2.ScanOrder.{default_intra_matrix}
use haiku_vaio_vpceb3k1e.Mpeg2.Headers.{SequenceHeader}
use haiku_vaio_vpceb3k1e.Mpeg2.Block.{Decoder, sum, decode_intra_block, reset_dc_prediction}
use haiku_vaio_vpceb3k1e.Mpeg2.Block.Parity.{decode_non_intra_block-odd}
use haiku_vaio_vpceb3k1e.Mpeg2.Block.{decode_non_intra_block}
use haiku_vaio_vpceb3k1e.Mpeg2.Block.Intra.{decode_intra_block-odd}

-- A reader at the start of four bytes, the first of which is given.
abbrev at_start : ℕ → Bits
at_start b = record { bytes = b ∷ 0x10 ∷ 0x05 ∷ 0 ∷ []; size = 4; byte_pos = 0; bit_pos = 0 }

at_start-IsInside : (b : ℕ) → IsInside (at_start b)
at_start-IsInside b = record { aligned = omega arith; within = omega arith; small = omega arith }

-- Five bits into the first byte.
abbrev inside_byte : Bits
inside_byte = record (at_start 0x70) { bit_pos = 5 }

read-Reads_example : Reads inside_byte 13 0 (read inside_byte 13)
read-Reads_example = read-Reads inside_byte 13 (omega arith) (omega arith)

read_across : (read inside_byte 13).0 ≡ 0b000_00010000_00
unfolding read read_loop gather step_over
read_across = refl

-- A sequence header code behind one byte, and a slice's code behind it.
abbrev two_codes : Bits
two_codes = record {
  bytes = 0xFF ∷ 0 ∷ 0 ∷ 1 ∷ 0xB3 ∷ 0 ∷ 0 ∷ 1 ∷ 0x05 ∷ 0x20 ∷ [];
  size = 10;
  byte_pos = 0;
  bit_pos = 3;
}

find_start_code_example :
    Found two_codes.bytes 10 (align two_codes).byte_pos (find_start_code two_codes)
    ⊎ NotFound two_codes.bytes 10 (align two_codes).byte_pos (find_start_code two_codes)
find_start_code_example = find_start_code_lem two_codes (omega arith) (omega arith) (omega arith)

-- 011, run 1 and level 1, with the sign bit 1.
starts_011 : value (at_start 0x70).bytes 0 3 ≡ 0b011
unfolding value
starts_011 = refl

decode_ac_coeff_b14-coefficient_example :
    decode_ac_coeff_b14 (at_start 0x70) true
    ≡ (run_level 1 (signed (value (at_start 0x70).bytes 3 1) 1), skip (at_start 0x70) 4)
decode_ac_coeff_b14-coefficient_example =
    decode_ac_coeff_b14-coefficient (at_start 0x70) true 2 0b011 3 1 1 (at_start-IsInside 0x70)
      (omega arith) (omega arith) refl refl (omega arith) starts_011

-- 010, run 1 and level 1 in table B-15.
starts_010 : value (at_start 0x40).bytes 0 3 ≡ 0b010
unfolding value
starts_010 = refl

decode_ac_coeff_b15-coefficient_example :
    decode_ac_coeff_b15 (at_start 0x40)
    ≡ (run_level 1 (signed (value (at_start 0x40).bytes 3 1) 1), skip (at_start 0x40) 4)
decode_ac_coeff_b15-coefficient_example =
    decode_ac_coeff_b15-coefficient (at_start 0x40) 3 0b010 3 1 1 (at_start-IsInside 0x40)
      (omega arith) (omega arith) (omega arith) (omega arith) refl (omega arith) starts_010

starts_0111011 : value (at_start 0x76).bytes 0 7 ≡ 0b0111011
unfolding value
starts_0111011 = refl

starts_000001 : value (at_start 0x04).bytes 0 6 ≡ 1
unfolding value
starts_000001 = refl

decode_ac_coeff-escape_example :
    (decode_ac_coeff_b14 (at_start 0x04) false ≡ (
      escaped (value (at_start 0x04).bytes 6 6) (value (at_start 0x04).bytes 12 12),
      skip (at_start 0x04) 24,
    ))
    × (decode_ac_coeff_b15 (at_start 0x04) ≡ (
      escaped (value (at_start 0x04).bytes 6 6) (value (at_start 0x04).bytes 12 12),
      skip (at_start 0x04) 24,
    ))
decode_ac_coeff-escape_example =
    decode_ac_coeff-escape (at_start 0x04) false (at_start-IsInside 0x04) (omega arith)
      starts_000001

starts_101 : value (at_start 0xA0).bytes 0 3 ≡ 0b101
unfolding value
starts_101 = refl

starts_10 : value (at_start 0xA0).bytes 0 2 ≡ 0b10
unfolding value
starts_10 = refl

-- 010 is 2 - 7, the differential -5.
starts_010_differential : value (at_start 0x40).bytes 0 3 ≡ 2
unfolding value
starts_010_differential = refl

decode_dc_differential_example :
    decode_dc_differential (at_start 0x40) 3 ≡ (negsuc 4, skip (at_start 0x40) 3)
decode_dc_differential_example =
    decode_dc_differential_lem (at_start 0x40) 2 (negsuc 4) (at_start-IsInside 0x40) (omega arith)
      (omega arith) (omega arith, omega arith) starts_010_differential

abbrev decoder : Decoder
decoder = record {
  intra_quantiser_matrix = default_intra_matrix;
  non_intra_quantiser_matrix = replicate 64 16;
  alternate = false;
  intra_vlc_format = true;
  quantiser_scale = 10;
  intra_dc_mult = 8;
}

decode_non_intra_block-odd_example :
    odd_ℤ (sum (decode_non_intra_block (at_start 0x70) decoder).1) ≡ 1
decode_non_intra_block-odd_example = decode_non_intra_block-odd (at_start 0x70) decoder

decode_intra_block-odd_example :
    (block : List ℤ) × ((decode_intra_block (at_start 0x40) decoder (reset_dc_prediction 0) 0).2
      ≡ some block)
    × (odd_ℤ (sum block) ≡ 1)
decode_intra_block-odd_example =
    decode_intra_block-odd (at_start 0x40) decoder (reset_dc_prediction 0) 0 (omega arith)

-- 01011, the code of pattern 1.
starts_01011 : value (at_start 0x58).bytes 0 5 ≡ 0b01011
unfolding value
starts_01011 = refl

-- 00010, a quantiser scale, a forward vector and a pattern.
starts_00010 : value (at_start 0x10).bytes 0 5 ≡ 0b00010
unfolding value
starts_00010 = refl

-- 0011, a forward vector and a pattern.
starts_0011 : value (at_start 0x30).bytes 0 4 ≡ 0b0011
unfolding value
starts_0011 = refl

-- A sequence header of 720 by 576 without matrices of its own.
abbrev header_bytes : Bits
header_bytes = record {
  bytes = 0x2D ∷ 0x02 ∷ 0x40 ∷ 0x33 ∷ 0xFF ∷ 0xFF ∷ 0xE0 ∷ 0x18 ∷ 0x00 ∷ [];
  size = 9;
  byte_pos = 0;
  bit_pos = 0;
}

abbrev no_header : SequenceHeader
no_header = record {
  width = 0;
  height = 0;
  aspect_ratio_info = 0;
  frame_rate_code = 0;
  bit_rate = 0;
  vbv_buffer_size = 0;
  load_intra_quantiser_matrix = false;
  load_non_intra_quantiser_matrix = false;
  intra_matrix = replicate 64 0;
  non_intra_matrix = replicate 64 0;
}

abbrev pal : SequenceHeader
pal = record no_header { width = 720; height = 576 }
