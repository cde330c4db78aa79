-- ===== src/Mpeg2/Macroblock/Tests.antt =====
-- The address increments, picture headers and macroblocks of mpeg2_parser.cpp on short buffers.
use haiku_vaio_vpceb3k1e.Prelude.{
  ℕ, ◌*◌, true, false, ◌≡◌, ◌≢◌, refl, true, false, some, List, [], ◌∷◌, replicate, arith,
}
use haiku_vaio_vpceb3k1e.Prelude.Int.{pos}
use haiku_vaio_vpceb3k1e.Mpeg2.Bits.{Bits, skip, offset}
use haiku_vaio_vpceb3k1e.Mpeg2.Bits.Value.{value}
use haiku_vaio_vpceb3k1e.Mpeg2.Bits.Laws.{IsInside}
use haiku_vaio_vpceb3k1e.Mpeg2.ScanOrder.{default_intra_matrix}
use haiku_vaio_vpceb3k1e.Mpeg2.Block.{empty_block}
use haiku_vaio_vpceb3k1e.Mpeg2.Pattern.{mb_motion_forward, mb_quant, decode_macroblock_type_p}
use haiku_vaio_vpceb3k1e.Mpeg2.Picture.{
  extra_loop, parse_picture_coding_extension, parse_picture_header,
}
use haiku_vaio_vpceb3k1e.Mpeg2.Picture.Extra.{Ended, extra_loop-ends}
use haiku_vaio_vpceb3k1e.Mpeg2.Picture.Fields.{
  field, flag, parse_picture_coding_extension_lem, parse_picture_header-intra,
}
use haiku_vaio_vpceb3k1e.Mpeg2.Address.{by, decode_address_increment}
use haiku_vaio_vpceb3k1e.Mpeg2.Address.Escapes.{AtCode, decode_address_increment-miscounts}
use haiku_vaio_vpceb3k1e.Mpeg2.Macroblock.{ok, State, has}
use haiku_vaio_vpceb3k1e.Mpeg2.Macroblock.Decoders.{
  resync_type, at_bit, any_room, decode_intra_macroblock, decode_p_macroblock, decode_b_macroblock,
}
use haiku_vaio_vpceb3k1e.Mpeg2.Macroblock.Outcome.{IsJudged, IsScaled}
use haiku_vaio_vpceb3k1e.Mpeg2.Macroblock.Inter.{
  decode_macroblock-IsJudged, decode_macroblock-scale,
}
use haiku_vaio_vpceb3k1e.Mpeg2.Macroblock.Vectors.{InVectors}
use haiku_vaio_vpceb3k1e.Mpeg2.Macroblock.Predictors.{decode_macroblock-InVectors}

abbrev over : List ℕ → Bits
over bytes = record { bytes = bytes; size = 5; byte_pos = 0; bit_pos = 0 }

over-IsInside : (bytes : List ℕ) → IsInside (over bytes)
over-IsInside bytes = record { aligned = omega arith; within = omega arith; small = omega arith }

-- An escape, 00000001000, and the code 011 of 2.
abbrev escape_bytes : Bits
escape_bytes = over (0x01 ∷ 0x0C ∷ 0x00 ∷ 0x10 ∷ 0x00 ∷ [])

-- The code of 16, which is decoded to 19.
abbrev sixteen : Bits
sixteen = over (0x05 ∷ 0xC0 ∷ 0x00 ∷ 0x10 ∷ 0x00 ∷ [])

at_sixteen : AtCode sixteen 10 16
unfolding value
at_sixteen = record {
  inside = over-IsInside _;
  room = omega arith;
  row = 15;
  code = 0b0000010111;
  listed = omega arith;
  tabled = refl;
  here = refl;
}

decode_address_increment-miscounts_example :
    (m : ℕ) × ((decode_address_increment sixteen).0 ≡ by m) × (m ≢ 16)
decode_address_increment-miscounts_example =
    decode_address_increment-miscounts sixteen 10 16 (omega arith) (omega arith) at_sixteen

decoded_sixteen : (decode_address_increment sixteen).0 ≡ by 19
unfolding decode_address_increment
decoded_sixteen = refl

-- Two rounds of extra information.
abbrev extra_bytes : Bits
extra_bytes = over (0x80 ∷ 0x40 ∷ 0x00 ∷ 0x10 ∷ 0x00 ∷ [])

extra_loop-ends_example : Ended extra_bytes (extra_loop (extra_bytes.size * 8) extra_bytes)
extra_loop-ends_example = extra_loop-ends extra_bytes (omega arith) (omega arith)

-- The increment 1, and the P type of a forward vector, at bit 0; nothing that is a type at bit 4.
abbrev lost : Bits
lost = record (over (0xA0 ∷ 0x00 ∷ 0x00 ∷ 0x10 ∷ 0x00 ∷ [])) { bit_pos = 4 }

found_type :
    resync_type decode_macroblock_type_p any_room 11 lost 4 (offset lost)
    ≡ some (skip (at_bit lost 0) 1, mb_motion_forward)
unfolding resync_type decode_macroblock_type_p offset
found_type = refl

-- The increment 1, a P macroblock with a new quantiser code of 31, two zero vectors and a pattern of 60: its
-- blocks follow.
abbrev p_bytes : Bits
p_bytes = over (0x8B ∷ 0xFF ∷ 0xAA ∷ 0xAA ∷ 0x80 ∷ [])

abbrev start : State
start = record {
  bits = p_bytes;
  dec = record {
    blocks_decoder = record {
      intra_quantiser_matrix = default_intra_matrix;
      non_intra_quantiser_matrix = replicate 64 16;
      alternate = false;
      intra_vlc_format = false;
      quantiser_scale = 10;
      intra_dc_mult = 8;
    };
    q_scale_type = false;
    intra_dc_precision = 0;
    f_code = 1 ∷ 1 ∷ 1 ∷ 1 ∷ [];
    mv_pred_h = pos 3;
    mv_pred_v = pos 0;
    mv_backward_pred_h = pos 0;
    mv_backward_pred_v = pos 0;
    dc_pred = replicate 3 (pos 128);
  };
  mb = record {
    blocks = replicate 6 empty_block;
    quantiser_scale_code = 5;
    address_increment = 0;
    mb_type = 0;
    motion_h = pos 0;
    motion_v = pos 0;
    motion_backward_h = pos 0;
    motion_backward_v = pos 0;
    coded_block_pattern = 0;
    valid = false;
  };
}

-- The code is read, and the scale of the blocks stays 10.
quantiser_lost :
    ((decode_p_macroblock start).0 ≡ ok)
    × ((decode_p_macroblock start).1.mb.quantiser_scale_code ≡ 31)
    × ((decode_p_macroblock start).1.dec.blocks_decoder.quantiser_scale ≡ 10)
unfolding decode_p_macroblock
quantiser_lost = (refl, refl, refl)

decode_macroblock-IsJudged_example :
    IsJudged (decode_intra_macroblock start)
    × IsJudged (decode_p_macroblock start)
    × IsJudged (decode_b_macroblock start)
decode_macroblock-IsJudged_example = decode_macroblock-IsJudged start

decode_macroblock-scale_example :
    ((decode_intra_macroblock start).0 ≡ ok → IsScaled (decode_intra_macroblock start).1)
    × ((decode_b_macroblock start).0 ≡ ok
        → has (decode_b_macroblock start).1.mb.mb_type mb_quant ≡ true
        → IsScaled (decode_b_macroblock start).1)
    × ((decode_b_macroblock start).0 ≡ ok
        → has (decode_b_macroblock start).1.mb.mb_type mb_quant ≡ false
        → (decode_b_macroblock start).1.dec.blocks_decoder ≡ start.dec.blocks_decoder)
    × ((decode_p_macroblock start).1.dec.blocks_decoder ≡ start.dec.blocks_decoder)
decode_macroblock-scale_example = decode_macroblock-scale start

-- A P picture's backward f_codes are 15.
abbrev p_start : State
p_start = record start { dec = record start.dec { f_code = 1 ∷ 1 ∷ 15 ∷ 15 ∷ [] } }

decode_macroblock-InVectors_example :
    InVectors false (decode_p_macroblock p_start).1.dec
    × InVectors true (decode_b_macroblock start).1.dec
decode_macroblock-InVectors_example =
    decode_macroblock-InVectors p_start start (omega arith)
      (record {
        h = (omega arith, omega arith);
        v = (omega arith, omega arith);
        small_h = omega arith;
        small_v = omega arith;
        backward_h = λ t. absurd (cc t);
        backward_v = λ t. absurd (cc t);
        small_backward_h = λ t. absurd (cc t);
        small_backward_v = λ t. absurd (cc t);
      })
      (omega arith)
      (record {
        h = (omega arith, omega arith);
        v = (omega arith, omega arith);
        small_h = omega arith;
        small_v = omega arith;
        backward_h = λ t. (omega arith, omega arith);
        backward_v = λ t. (omega arith, omega arith);
        small_backward_h = λ t. omega arith;
        small_backward_v = λ t. omega arith;
      })

-- The header of an I picture with temporal reference 0.
abbrev picture_bytes : Bits
picture_bytes = over (0x00 ∷ 0x0F ∷ 0xFF ∷ 0xF8 ∷ 0x00 ∷ [])

picture_type : (field picture_bytes 10 3 ≡ 1) × (field picture_bytes 29 1 ≡ 0)
unfolding value
picture_type = (refl, refl)

parse_picture_header-intra_example : parse_picture_header picture_bytes ≡ (
  some (record {
    temporal_reference = field picture_bytes 0 10;
    picture_coding_type = 1;
    vbv_delay = field picture_bytes 13 16;
  }),
  skip picture_bytes 30,
)
parse_picture_header-intra_example =
    parse_picture_header-intra picture_bytes (over-IsInside _) (omega arith) picture_type.0
      picture_type.1

-- A picture coding extension with f_codes of 1, a frame picture.
abbrev extension_bytes : Bits
extension_bytes = over (0x11 ∷ 0x11 ∷ 0x34 ∷ 0x00 ∷ 0x00 ∷ [])

parse_picture_coding_extension_example : parse_picture_coding_extension extension_bytes ≡ (
  some (record {
    forward_h = field extension_bytes 0 4;
    forward_v = field extension_bytes 4 4;
    backward_h = field extension_bytes 8 4;
    backward_v = field extension_bytes 12 4;
    intra_dc_precision = field extension_bytes 16 2;
    picture_structure = field extension_bytes 18 2;
    top_field_first = flag extension_bytes 20;
    frame_pred_frame_dct = flag extension_bytes 21;
    concealment_motion_vectors = flag extension_bytes 22;
    q_scale_type = flag extension_bytes 23;
    intra_vlc_format = flag extension_bytes 24;
    alternate_scan = flag extension_bytes 25;
    progressive_frame = false;
  }),
  skip extension_bytes 26,
)
parse_picture_coding_extension_example =
    parse_picture_coding_extension_lem extension_bytes (over-IsInside _) (omega arith)
