-- ===== src/Mpeg2/Macroblock/Outcome.antt =====
-- The status of the macroblock decoders of mpeg2_parser.cpp, and the quantiser scale behind them.
use haiku_vaio_vpceb3k1e.Prelude.{
  ℕ, ◌%◌, ◌^◌, ◌≡◌, refl, sym, ◌∙◌, Bool, true, false, Option, none, some, if◌then◌else◌,
}
use haiku_vaio_vpceb3k1e.Mpeg2.Bits.{Bits, offset, skip}
use haiku_vaio_vpceb3k1e.Mpeg2.Headers.{compute_quantiser_scale}
use haiku_vaio_vpceb3k1e.Mpeg2.Pattern.{decode_macroblock_type_i}
use haiku_vaio_vpceb3k1e.Mpeg2.Address.{Increment, end_of_slice, bad, by, decode_address_increment}
use haiku_vaio_vpceb3k1e.Mpeg2.Macroblock.{
  Status, ok, entry_not_found, bad_data, State, read_quantiser, set_quantiser_scale, finish,
}
use haiku_vaio_vpceb3k1e.Mpeg2.Macroblock.Decoders.{
  resync_increment, resync_type, picture_blocks, finish_intra_picture, search_intra_type,
  intra_type, typed_intra, incremented_intra, search_intra_increment, decode_intra_macroblock,
  room_for_type, with_increment, unset_valid,
}
use haiku_vaio_vpceb3k1e.Mpeg2.Macroblock.Frame.{IsFramed, picture_blocks-IsFramed}

abbrev pub is_ok : Status → Bool
is_ok ok = true
is_ok entry_not_found = false
is_ok bad_data = false

-- The macroblock is marked as valid just where the status is B_OK.
abbrev pub IsJudged : Status × State → Type 0
IsJudged (st, s) = s.mb.valid ≡ is_ok st

-- The quantiser scale is the one of the macroblock's code.
abbrev pub IsScaled : State → Type 0
IsScaled s =
    s.dec.blocks_decoder.quantiser_scale
    ≡ compute_quantiser_scale s.mb.quantiser_scale_code s.dec.q_scale_type

pub finish-IsJudged : (r : Bool × State) → r.1.mb.valid ≡ false → IsJudged (finish r)
finish-IsJudged (true, s) v = refl
finish-IsJudged (false, s) v = v

pub finish-decoder : (r : Bool × State) → (finish r).1.dec ≡ r.1.dec
finish-decoder (true, s) = refl
finish-decoder (false, s) = refl

pub finish-IsScaled : (r : Bool × State) → IsScaled r.1 → IsScaled (finish r).1
finish-IsScaled (true, s) h = h
finish-IsScaled (false, s) h = h

pub IsScaled-framed : (s t : State) → IsFramed s t → IsScaled s → IsScaled t
IsScaled-framed s t f h = rw (f.blocks_decoder, f.q_scale_type, f.quantiser_scale_code) h

-- What the I decoder returns.
pub record IntraResult (r : Status × State) : Type 0 where
  pub judged : IsJudged r
  pub scaled : r.0 ≡ ok → IsScaled r.1

fails : (st : Status) (s : State) → is_ok st ≡ false → s.mb.valid ≡ false → IntraResult (st, s)
fails st s e v = record { judged = v ∙ sym e; scaled = λ h. absurd (not_ok h) }
  where
    not_ok : st ≡ ok → ⊥
    not_ok h = cc

finish_intra_picture-result :
    (has_quant : Bool) (s : State)
    → s.mb.valid ≡ false
    → IntraResult (finish_intra_picture has_quant s)
unfolding finish_intra_picture set_quantiser_scale read_quantiser
finish_intra_picture-result has_quant s v = record {
  judged = finish-IsJudged (picture_blocks 6 start) (f.valid ∙ unset has_quant);
  scaled = λ h. finish-IsScaled (picture_blocks 6 start) (IsScaled-framed start _ f refl);
}
  where
    start : State
    start = set_quantiser_scale (if has_quant then read_quantiser s else s)

    f : IsFramed start (picture_blocks 6 start).1
    f = picture_blocks-IsFramed 6 start

    unset : (b : Bool) → (set_quantiser_scale (if b then read_quantiser s else s)).mb.valid ≡ false
    unset true = v
    unset false = v

search_intra_type-result :
    (s : State) (o : Option (Bits × Bool))
    → s.mb.valid ≡ false
    → IntraResult (search_intra_type s o)
unfolding search_intra_type
search_intra_type-result s none v = fails bad_data s refl v
search_intra_type-result s (some (bs, has_quant)) v =
    finish_intra_picture-result has_quant (with_increment 1 (record s { bits = bs })) v

typed_intra-result :
    (saved : Bits) (s : State) (r : Option Bool × Bits)
    → s.mb.valid ≡ false
    → IntraResult (typed_intra saved s r)
unfolding typed_intra
typed_intra-result saved s (some has_quant, next) v =
    finish_intra_picture-result has_quant (record s { bits = next }) v
typed_intra-result saved s (none, next) v =
    search_intra_type-result (record s { bits = next })
      (resync_type decode_macroblock_type_i room_for_type 17 saved 6 (offset saved)) v

search_intra_increment-result :
    (s : State) (o : Option ℕ) → s.mb.valid ≡ false → IntraResult (search_intra_increment s o)
unfolding search_intra_increment intra_type
search_intra_increment-result s none v = fails bad_data s refl v
search_intra_increment-result s (some n) v =
    typed_intra-result s.bits (with_increment 1 (record s { bits = skip s.bits n }))
      (decode_macroblock_type_i (skip s.bits n)) v

incremented_intra-result :
    (s : State) (r : Increment × Bits) → s.mb.valid ≡ false → IntraResult (incremented_intra s r)
unfolding incremented_intra intra_type
incremented_intra-result s (end_of_slice, next) v =
    fails entry_not_found (record s { bits = next }) refl v
incremented_intra-result s (bad, next) v =
    search_intra_increment-result s (resync_increment 9 s.bits 0) v
incremented_intra-result s (by n, next) v =
    typed_intra-result s.bits (with_increment (n % 2 ^ 8) (record s { bits = next }))
      (decode_macroblock_type_i next) v

-- The decoder of I macroblocks returns the quantiser scale of the macroblock's code.
pub intra-result : (s : State) → IntraResult (decode_intra_macroblock s)
unfolding decode_intra_macroblock
intra-result s = incremented_intra-result (unset_valid s) (decode_address_increment s.bits) refl
