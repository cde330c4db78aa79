-- ===== src/Mpeg2/Block.antt =====
-- The blocks of mpeg2_parser.cpp: decode_intra_block and decode_non_intra_block, with the inverse
-- quantisation and the mismatch control. A coefficient is a 16-bit integer; of the 32-bit number
-- `mismatch` only the bit that is looked at is kept.
pub mod Parity
pub mod Intra
use haiku_vaio_vpceb3k1e.Prelude.{
  ℕ, zero, suc, ◌+◌, ◌-◌, ◌*◌, ◌/◌, ◌%◌, ◌^◌, Bool, true, false, not, ◌&&◌, ◌||◌, List, [], ◌∷◌,
  Option, none, some, if◌then◌else◌, ltb, leb, ◌==◌, set, get_or, replicate,
}
use haiku_vaio_vpceb3k1e.Prelude.Int.{
  ℤ, pos, negsuc, ◌+ℤ◌, to_word, of_word, odd_ℤ, pos_part, neg_part, ltb_ℤ,
}
use haiku_vaio_vpceb3k1e.Mpeg2.Bits.{Bits}
use haiku_vaio_vpceb3k1e.Mpeg2.ScanOrder.{zigzag_scan, alternate_scan}
use haiku_vaio_vpceb3k1e.Mpeg2.Ac.{
  RunLevel, eob, bad, run_level, decode_ac_coeff_b14, decode_ac_coeff_b15,
}
use haiku_vaio_vpceb3k1e.Mpeg2.Dc.{
  decode_dc_size_luminance, decode_dc_size_chrominance, decode_dc_differential,
}

-- What the block decoders read of `mpeg2_decoder`.
pub record Decoder : Type 0 where
  pub intra_quantiser_matrix : List ℕ
  pub non_intra_quantiser_matrix : List ℕ
  pub alternate : Bool
  pub intra_vlc_format : Bool
  pub quantiser_scale : ℕ
  pub intra_dc_mult : ℕ

-- The conversion to int16.
abbrev pub int16 : ℤ → ℤ
int16 x = of_word 16 (to_word 16 x)

abbrev pub scan : Decoder → List ℕ
scan dec = if dec.alternate then alternate_scan else zigzag_scan

abbrev pub magnitude : ℤ → ℕ
magnitude x = pos_part x + neg_part x

-- `iq`, the sign of the level given to a number.
abbrev pub with_sign : ℤ → ℕ → ℤ
with_sign level n =
    if ltb_ℤ level (pos 0) then (if n == 0 then pos 0 else negsuc (n - 1)) else pos n

unfoldable pub intra_iq : Decoder → ℕ → ℤ → ℤ
intra_iq dec j level =
    with_sign level
      (magnitude level * dec.quantiser_scale * get_or dec.intra_quantiser_matrix j 0 / 2 ^ 4)

unfoldable pub non_intra_iq : Decoder → ℕ → ℤ → ℤ
non_intra_iq dec j level = with_sign level (
    (2 * magnitude level + 1)
    * dec.quantiser_scale
    * get_or dec.non_intra_quantiser_matrix j 0
    / 2 ^ 5)

-- `block[63] ^= 1`.
abbrev pub flip_last : List ℤ → List ℤ
flip_last block =
    let last = get_or block 63 (pos 0) in
    set block 63 (if odd_ℤ last == 0 then last +ℤ pos 1 else last +ℤ negsuc 0)

abbrev pub sum : List ℤ → ℤ
sum [] = pos 0
sum (x ∷ xs) = x +ℤ sum xs

-- The mismatch control of the non-intra block; the sum is of 64 numbers of 16 bits.
unfoldable pub control_mismatch : List ℤ → List ℤ
unfolding ◌+ℤ◌
control_mismatch block = if odd_ℤ (sum block) == 0 then flip_last block else block

-- The loop over the coefficients from index `idx` on. Each round moves the index by one at least.
unfoldable pub non_intra_loop : ℕ → Decoder → ℕ → Bits → List ℤ → ℕ × Bits × List ℤ
unfolding decode_ac_coeff_b14 non_intra_iq
non_intra_loop zero dec idx bs block = (idx, bs, block)
non_intra_loop (suc fuel) dec idx bs block = elim (leb 64 idx) [
  | true ↦ (idx, bs, block)
  | false ↦
      let (rl, next) = decode_ac_coeff_b14 bs (idx == 0) in
      elim rl [
        | eob ↦ (idx, next, block)
        | bad ↦ (idx, next, block)
        | run_level run level ↦ elim (leb 64 (idx + run)) [
          | true ↦ (idx + run, next, block)
          | false ↦
              let j = get_or (scan dec) (idx + run) 0 in
              non_intra_loop fuel dec (idx + run + 1) next
                (set block j (int16 (non_intra_iq dec j level)))
        ]
      ]
]

abbrev pub empty_block : List ℤ
empty_block = replicate 64 (pos 0)

-- The status is always B_OK.
unfoldable pub decode_non_intra_block : Bits → Decoder → Bits × List ℤ
unfolding non_intra_loop decode_ac_coeff_b14 control_mismatch
decode_non_intra_block bs dec =
    let (idx, next, block) = non_intra_loop 64 dec 0 bs empty_block in
    (if leb 64 idx then (decode_ac_coeff_b14 next false).1 else next, control_mismatch block)

abbrev pub decode_intra_coeff : Decoder → Bits → RunLevel × Bits
decode_intra_coeff dec bs =
    if dec.intra_vlc_format then decode_ac_coeff_b15 bs else decode_ac_coeff_b14 bs false

-- Likewise for an intra block; the second number is the low bit of `mismatch`.
unfoldable pub intra_loop : ℕ → Decoder → ℕ → ℕ → Bits → List ℤ → ℕ × ℕ × Bits × List ℤ
unfolding decode_ac_coeff_b14 decode_ac_coeff_b15 intra_iq
intra_loop zero dec idx mismatch bs block = (idx, mismatch, bs, block)
intra_loop (suc fuel) dec idx mismatch bs block = elim (leb 64 idx) [
  | true ↦ (idx, mismatch, bs, block)
  | false ↦
      let (rl, next) = decode_intra_coeff dec bs in
      elim rl [
        | eob ↦ (idx, mismatch, next, block)
        | bad ↦ (idx, mismatch, next, block)
        | run_level run level ↦ elim (leb 64 (idx + run)) [
          | true ↦ (idx + run, mismatch, next, block)
          | false ↦
              let j = get_or (scan dec) (idx + run) 0 in
              intra_loop fuel dec (idx + run + 1) ((mismatch + odd_ℤ (intra_iq dec j level)) % 2)
                next (set block j (int16 (intra_iq dec j level)))
        ]
      ]
]

-- An intra block behind its DC coefficient.
unfoldable pub finish_intra : Decoder → Bits → ℤ → Bits × List ℤ
unfolding intra_loop decode_ac_coeff_b14 decode_ac_coeff_b15 ◌+ℤ◌
finish_intra dec bs dc =
    let (idx, mismatch, next, block) = intra_loop 64 dec 1 (odd_ℤ dc) bs (set empty_block 0 dc) in
    (
      if leb 64 idx then (decode_intra_coeff dec next).1 else next,
      if mismatch == 0 then flip_last block else block,
    )

-- `dc_pred[cc] += dc_diff`.
unfoldable pub predict : List ℤ → ℕ → ℤ → List ℤ
unfolding ◌+ℤ◌
predict dc_pred cc dc_diff = set dc_pred cc (int16 (get_or dc_pred cc (pos 0) +ℤ dc_diff))

abbrev pub times : ℤ → ℕ → ℤ
times (pos n) m = pos (n * m)
times (negsuc n) m = with_sign (negsuc n) (suc n * m)

-- An intra block behind the size of its DC differential; `none` is B_BAD_DATA, and the second
-- component is `dc_pred`.
unfoldable pub from_dc_size :
    Decoder → List ℤ → ℕ → Option ℕ × Bits → Bits × List ℤ × Option (List ℤ)
unfolding decode_dc_differential predict finish_intra
from_dc_size dec dc_pred cc (none, bs) = (bs, dc_pred, none)
from_dc_size dec dc_pred cc (some s, bs) =
    let (dc_diff, bs') = decode_dc_differential bs s in
    let preds = predict dc_pred cc dc_diff in
    let (next, block) =
      finish_intra dec bs' (int16 (times (get_or preds cc (pos 0)) dec.intra_dc_mult)) in
    (next, preds, some block)

unfoldable pub decode_intra_block : Bits → Decoder → List ℤ → ℕ → Bits × List ℤ × Option (List ℤ)
unfolding decode_dc_size_luminance decode_dc_size_chrominance from_dc_size
decode_intra_block bs dec dc_pred cc =
    from_dc_size dec dc_pred cc
      (if cc == 0 then decode_dc_size_luminance bs else decode_dc_size_chrominance bs)

unfoldable pub reset_dc_prediction : ℕ → List ℤ
reset_dc_prediction intra_dc_precision = replicate 3 (int16 (pos (2 ^ (7 + intra_dc_precision))))
