-- ===== src/Mpeg2/Macroblock.antt =====
-- The macroblocks of mpeg2_parser.cpp: what the decoders keep and the parts that they share. The
-- three decoders are in Macroblock/Decoders.antt. `dc_pred`, which is static in the source, is part
-- of the decoder here.
pub mod Decoders
pub mod Frame
pub mod Outcome
pub mod Inter
pub mod Resync
pub mod Vectors
pub mod Predictors
pub mod Tests
use haiku_vaio_vpceb3k1e.Prelude.{
  ℕ, zero, suc, ◌+◌, ◌-◌, ◌*◌, ◌/◌, ◌%◌, ◌^◌, Bool, true, false, not, ◌&&◌, Option, none, some,
  List, [], ◌∷◌, if◌then◌else◌, ltb, ◌==◌, set, get_or, replicate,
}
use haiku_vaio_vpceb3k1e.Prelude.Int.{ℤ, pos}
use haiku_vaio_vpceb3k1e.Mpeg2.Bits.{Bits, read, available, peek}
use haiku_vaio_vpceb3k1e.Mpeg2.Headers.{compute_quantiser_scale, compute_intra_dc_mult}
use haiku_vaio_vpceb3k1e.Mpeg2.Block.{
  Decoder, empty_block, decode_intra_block, decode_non_intra_block, reset_dc_prediction,
}
use haiku_vaio_vpceb3k1e.Mpeg2.Motion.{decode_motion_vector}
use haiku_vaio_vpceb3k1e.Mpeg2.Pattern.{
  mb_quant, mb_motion_forward, mb_motion_backward, mb_pattern, mb_intra, decode_coded_block_pattern,
}
use haiku_vaio_vpceb3k1e.Mpeg2.Address.{slice_ends}

-- B_OK, B_ENTRY_NOT_FOUND and B_BAD_DATA.
pub data Status : Type 0 where
  ok : Status
  entry_not_found : Status
  bad_data : Status

-- What the macroblock decoders use of `mpeg2_decoder`: what the blocks use, and the state of the
-- predictions. `f_code` has the four numbers in the order of the array in the source.
pub record MacroblockDecoder : Type 0 where
  pub blocks_decoder : Decoder
  pub q_scale_type : Bool
  pub intra_dc_precision : ℕ
  pub f_code : List ℕ
  pub mv_pred_h : ℤ
  pub mv_pred_v : ℤ
  pub mv_backward_pred_h : ℤ
  pub mv_backward_pred_v : ℤ
  pub dc_pred : List ℤ

-- `mpeg2_macroblock`.
pub record Macroblock : Type 0 where
  pub blocks : List (List ℤ)
  pub quantiser_scale_code : ℕ
  pub address_increment : ℕ
  pub mb_type : ℕ
  pub motion_h : ℤ
  pub motion_v : ℤ
  pub motion_backward_h : ℤ
  pub motion_backward_v : ℤ
  pub coded_block_pattern : ℕ
  pub valid : Bool

-- The reader, the decoder and the macroblock, which a decoder changes.
pub record State : Type 0 where
  pub bits : Bits
  pub dec : MacroblockDecoder
  pub mb : Macroblock

abbrev pub has : ℕ → ℕ → Bool
has flags flag = flags / flag % 2 == 1

-- Component of block `b`: 0, 0, 0, 0, 1, 2.
abbrev pub component : ℕ → ℕ
component b = if ltb b 4 then 0 else b - 3

abbrev pub put_block : Macroblock → ℕ → List ℤ → Macroblock
put_block mb b block = record mb { blocks = set mb.blocks b block }

-- What decode_intra_block has done to block `b`, with whether it has succeeded; a failure leaves
-- the block at zeros.
abbrev pub put_intra : ℕ → State → Bits × List ℤ × Option (List ℤ) → Bool × State
put_intra b s (next, preds, none) = (
  false,
  record { bits = next; dec = record s.dec { dc_pred = preds }; mb = put_block s.mb b empty_block },
)
put_intra b s (next, preds, some block) = (
  true,
  record { bits = next; dec = record s.dec { dc_pred = preds }; mb = put_block s.mb b block },
)

unfoldable pub intra_step : ℕ → State → Bool × State
unfolding decode_intra_block
intra_step b s =
    put_intra b s (decode_intra_block s.bits s.dec.blocks_decoder s.dec.dc_pred (component b))

-- Going on where a block was decoded.
abbrev pub after_block : (State → Bool × State) → Bool × State → Bool × State
after_block go (true, s) = go s
after_block go (false, s) = (false, s)

-- The last `left` of the six blocks of an intra macroblock, with whether all were decoded.
unfoldable pub intra_blocks : ℕ → State → Bool × State
unfolding intra_step
intra_blocks zero s = (true, s)
intra_blocks (suc left) s = after_block (intra_blocks left) (intra_step (5 - left) s)

unfoldable pub reset_dc : State → State
unfolding reset_dc_prediction
reset_dc s = record s {
  dec = record s.dec { dc_pred = reset_dc_prediction s.dec.intra_dc_precision };
}

-- Block `b` of an inter macroblock: the bit of the pattern says whether it is coded.
unfoldable pub non_intra_step : ℕ → State → State
unfolding decode_non_intra_block
non_intra_step b s =
    if has s.mb.coded_block_pattern (2 ^ (5 - b))
    then (let (next, block) = decode_non_intra_block s.bits s.dec.blocks_decoder in
        record s { bits = next; mb = put_block s.mb b block })
    else s

unfoldable pub non_intra_blocks : ℕ → State → State
unfolding non_intra_step
non_intra_blocks zero s = s
non_intra_blocks (suc left) s = non_intra_blocks left (non_intra_step (5 - left) s)

-- `quantiser_scale_code` read from the bits.
unfoldable pub read_quantiser : State → State
unfolding read
read_quantiser s =
    let (code, next) = read s.bits 5 in
    record s { bits = next; mb = record s.mb { quantiser_scale_code = code } }

unfoldable pub set_quantiser_scale : State → State
unfolding compute_quantiser_scale
set_quantiser_scale s =
    let scale = compute_quantiser_scale s.mb.quantiser_scale_code s.dec.q_scale_type in
    record s {
      dec = record s.dec {
        blocks_decoder = record s.dec.blocks_decoder { quantiser_scale = scale };
      };
    }

-- An f_code of 0 counts as 1.
abbrev pub f_code_of : MacroblockDecoder → ℕ → ℕ
f_code_of dec i = let f = get_or dec.f_code i 0 in if f == 0 then 1 else f

unfoldable pub forward_vectors : State → State
unfolding decode_motion_vector
forward_vectors s =
    let (h, bs) = decode_motion_vector s.bits s.dec.mv_pred_h (f_code_of s.dec 0) in
    let (v, bs') = decode_motion_vector bs s.dec.mv_pred_v (f_code_of s.dec 1) in
    record {
      bits = bs';
      dec = record s.dec { mv_pred_h = h; mv_pred_v = v };
      mb = record s.mb { motion_h = h; motion_v = v };
    }

unfoldable pub backward_vectors : State → State
unfolding decode_motion_vector
backward_vectors s =
    let (h, bs) = decode_motion_vector s.bits s.dec.mv_backward_pred_h (f_code_of s.dec 2) in
    let (v, bs') = decode_motion_vector bs s.dec.mv_backward_pred_v (f_code_of s.dec 3) in
    record {
      bits = bs';
      dec = record s.dec { mv_backward_pred_h = h; mv_backward_pred_v = v };
      mb = record s.mb { motion_backward_h = h; motion_backward_v = v };
    }

-- A pattern that is not found counts as 0.
abbrev pub or_zero : Option ℕ → ℕ
or_zero none = 0
or_zero (some n) = n

unfoldable pub take_pattern : State → State
unfolding decode_coded_block_pattern
take_pattern s =
    if has s.mb.mb_type mb_pattern
    then (let (cbp, next) = decode_coded_block_pattern s.bits in
        record s { bits = next; mb = record s.mb { coded_block_pattern = or_zero cbp % 2 ^ 8 } })
    else if has s.mb.mb_type mb_intra
    then record s { mb = record s.mb { coded_block_pattern = 0x3F } }
    else s

-- The end of a macroblock: valid where all went well.
abbrev pub finish : Bool × State → Status × State
finish (true, s) = (ok, record s { mb = record s.mb { valid = true } })
finish (false, s) = (bad_data, s)

-- `mpeg2_decoder_init`, but for the numbers of macroblocks.
unfoldable pub decoder_init : MacroblockDecoder → MacroblockDecoder
unfolding compute_intra_dc_mult
decoder_init dec = record dec {
  blocks_decoder = record dec.blocks_decoder {
    quantiser_scale = 1;
    intra_dc_mult = compute_intra_dc_mult dec.intra_dc_precision;
  };
}
