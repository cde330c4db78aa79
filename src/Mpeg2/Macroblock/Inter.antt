-- ===== src/Mpeg2/Macroblock/Inter.antt =====
-- The status of the P and B decoders of mpeg2_parser.cpp, and the quantiser scale behind all three.
use haiku_vaio_vpceb3k1e.Prelude.{
  ℕ, ◌%◌, ◌^◌, ◌≡◌, refl, sym, ◌∙◌, Bool, true, false, Option, none, some, ap,
}
use haiku_vaio_vpceb3k1e.Mpeg2.Bits.{Bits, offset}
use haiku_vaio_vpceb3k1e.Mpeg2.Pattern.{
  mb_quant, mb_motion_forward, mb_motion_backward, decode_macroblock_type_p,
  decode_macroblock_type_b,
}
use haiku_vaio_vpceb3k1e.Mpeg2.Address.{Increment, end_of_slice, bad, by, decode_address_increment}
use haiku_vaio_vpceb3k1e.Mpeg2.Macroblock.{
  Status, ok, entry_not_found, bad_data, MacroblockDecoder, State, has, read_quantiser,
  set_quantiser_scale, forward_vectors, backward_vectors, take_pattern, finish,
}
use haiku_vaio_vpceb3k1e.Mpeg2.Macroblock.Decoders.{
  resync_type, decode_intra_macroblock, inter_blocks, reset_forward, reset_both, finish_p,
  search_p_type, typed_p, incremented_p, step_if, decode_p_macroblock, finish_b, typed_b,
  incremented_b, decode_b_macroblock, any_room, with_increment, with_type, clear_forward,
  clear_both,
}
use haiku_vaio_vpceb3k1e.Mpeg2.Macroblock.Outcome.{
  is_ok, IsJudged, IsScaled, finish-IsJudged, finish-decoder, finish-IsScaled, IsScaled-framed,
  intra-result,
}
use haiku_vaio_vpceb3k1e.Mpeg2.Macroblock.Frame.{
  IsFramed, framed, IsFramed-trans, forward_vectors-IsFramed, backward_vectors-IsFramed,
  take_pattern-IsFramed, KeepsFrame, resets-KeepsFrame, inter_blocks-IsFramed,
}

-- What the P decoder returns from a state: the quantiser scale of that state is kept.
pub record PResult (s : State) (r : Status × State) : Type 0 where
  pub judged : IsJudged r
  pub kept : r.1.dec.blocks_decoder ≡ s.dec.blocks_decoder

step_if-IsFramed :
    (b : Bool) (f : State → State) (s : State)
    → ((t : State) → IsFramed t (f t))
    → IsFramed s (step_if b f s)
step_if-IsFramed true f s h = h s
step_if-IsFramed false f s h = framed s

-- The blocks of a P or B macroblock, from a state that they keep the frame of.
record InterResult (start : State) (r : Status × State) : Type 0 where
  judged : IsJudged r
  kept : r.1.dec.blocks_decoder ≡ start.dec.blocks_decoder
  scaled : IsScaled start → IsScaled r.1
  typed : r.1.mb.mb_type ≡ start.mb.mb_type

finish-mb_type : (r : Bool × State) → (finish r).1.mb.mb_type ≡ r.1.mb.mb_type
finish-mb_type (true, s) = refl
finish-mb_type (false, s) = refl

inter-result :
    (reset : MacroblockDecoder → MacroblockDecoder) (start moved : State)
    → KeepsFrame reset
    → IsFramed start moved
    → start.mb.valid ≡ false
    → InterResult start (finish (inter_blocks reset (take_pattern moved)))
inter-result reset start moved keeps g v = record {
  judged = finish-IsJudged blocks (f.valid ∙ v);
  kept = ap (λ d. d.blocks_decoder) (finish-decoder blocks) ∙ f.blocks_decoder;
  scaled = λ h. finish-IsScaled blocks (IsScaled-framed start blocks.1 f h);
  typed = finish-mb_type blocks ∙ f.mb_type;
}
  where
    blocks : Bool × State
    blocks = inter_blocks reset (take_pattern moved)

    f : IsFramed start blocks.1
    f = IsFramed-trans start moved _ g (
        IsFramed-trans moved (take_pattern moved) _ (take_pattern-IsFramed moved)
          (inter_blocks-IsFramed reset (take_pattern moved) keeps))

finish_p-result :
    (s t : State)
    → t.dec.blocks_decoder ≡ s.dec.blocks_decoder
    → t.mb.valid ≡ false
    → PResult s (finish_p t)
unfolding finish_p read_quantiser
finish_p-result s t k v = record {
  judged = r.judged;
  kept = r.kept ∙ same (has t.mb.mb_type mb_quant) ∙ k;
}
  where
    start : State
    start = step_if (has t.mb.mb_type mb_quant) read_quantiser t

    same : (b : Bool) → (step_if b read_quantiser t).dec.blocks_decoder ≡ t.dec.blocks_decoder
    same true = refl
    same false = refl

    unset : (b : Bool) → (step_if b read_quantiser t).mb.valid ≡ t.mb.valid
    unset true = refl
    unset false = refl

    r : InterResult start (finish_p t)
    r =
        inter-result reset_forward start
          (step_if (has start.mb.mb_type mb_motion_forward) forward_vectors start)
          resets-KeepsFrame.0 (step_if-IsFramed _ forward_vectors start forward_vectors-IsFramed)
          (unset (has t.mb.mb_type mb_quant) ∙ v)

p_fails :
    (st : Status) (s t : State)
    → is_ok st ≡ false
    → t.mb.valid ≡ false
    → t.dec.blocks_decoder ≡ s.dec.blocks_decoder
    → PResult s (st, t)
p_fails st s t e v k = record { judged = v ∙ sym e; kept = k }

search_p_type-result :
    (s t : State) (o : Option (Bits × ℕ))
    → t.dec.blocks_decoder ≡ s.dec.blocks_decoder
    → t.mb.valid ≡ false
    → PResult s (search_p_type t o)
unfolding search_p_type
search_p_type-result s t none k v = p_fails bad_data s t refl v k
search_p_type-result s t (some (bs, flags)) k v =
    finish_p-result s (with_type flags (with_increment 1 (record t { bits = bs }))) k v

typed_p-result :
    (s t : State) (r : Option ℕ × Bits)
    → t.dec.blocks_decoder ≡ s.dec.blocks_decoder
    → t.mb.valid ≡ false
    → PResult s (typed_p t r)
unfolding typed_p
typed_p-result s t (some flags, next) k v =
    finish_p-result s (with_type flags (record t { bits = next })) k v
typed_p-result s t (none, next) k v =
    search_p_type-result s (record t { bits = next })
      (resync_type decode_macroblock_type_p any_room 11 next 4 (offset next)) k v

incremented_p-result :
    (s t : State) (r : Increment × Bits)
    → t.dec.blocks_decoder ≡ s.dec.blocks_decoder
    → t.mb.valid ≡ false
    → PResult s (incremented_p t r)
unfolding incremented_p
incremented_p-result s t (end_of_slice, next) k v =
    p_fails entry_not_found s (record t { bits = next }) refl v k
incremented_p-result s t (bad, next) k v = p_fails bad_data s (record t { bits = next }) refl v k
incremented_p-result s t (by n, next) k v =
    typed_p-result s (with_increment (n % 2 ^ 8) (record t { bits = next }))
      (decode_macroblock_type_p next) k v

pub p-result : (s : State) → PResult s (decode_p_macroblock s)
unfolding decode_p_macroblock
p-result s = incremented_p-result s (clear_forward s) (decode_address_increment s.bits) refl refl

-- What the B decoder returns from a state.
pub record BResult (s : State) (r : Status × State) : Type 0 where
  pub judged : IsJudged r
  pub scaled : r.0 ≡ ok → has r.1.mb.mb_type mb_quant ≡ true → IsScaled r.1
  pub kept :
      r.0 ≡ ok → has r.1.mb.mb_type mb_quant ≡ false → r.1.dec.blocks_decoder ≡ s.dec.blocks_decoder

b_fails : (s t : State) → t.mb.valid ≡ false → BResult s (bad_data, t)
b_fails s t v = record {
  judged = v;
  scaled = λ h. absurd (not_ok h);
  kept = λ h. absurd (not_ok h);
}
  where
    not_ok : bad_data ≡ ok → ⊥
    not_ok h = cc

abbrev rescale : State → State
rescale t = set_quantiser_scale (read_quantiser t)

-- The state behind the quantiser, which is read where the flag is set.
record IsQuantised (quant : Bool) (t u : State) : Type 0 where
  valid : u.mb.valid ≡ t.mb.valid
  typed : u.mb.mb_type ≡ t.mb.mb_type
  scaled : quant ≡ true → IsScaled u
  kept : quant ≡ false → u.dec.blocks_decoder ≡ t.dec.blocks_decoder

rescaled-IsQuantised : (quant : Bool) (t : State) → IsQuantised quant t (step_if quant rescale t)
unfolding read_quantiser set_quantiser_scale
rescaled-IsQuantised true t = record {
  valid = refl;
  typed = refl;
  scaled = λ h. refl;
  kept = λ h. absurd (cc h);
}
rescaled-IsQuantised false t = record {
  valid = refl;
  typed = refl;
  scaled = λ h. absurd (cc h);
  kept = λ h. refl;
}

finish_b-result :
    (s t : State)
    → t.dec.blocks_decoder ≡ s.dec.blocks_decoder
    → t.mb.valid ≡ false
    → BResult s (finish_b t)
unfolding finish_b
finish_b-result s t k v = record {
  judged = r.judged;
  scaled = λ h q. r.scaled (e.scaled (sym same_quant ∙ q));
  kept = λ h q. r.kept ∙ e.kept (sym same_quant ∙ q) ∙ k;
}
  where
    quant : Bool
    quant = has t.mb.mb_type mb_quant

    start : State
    start = step_if quant rescale t

    e : IsQuantised quant t start
    e = rescaled-IsQuantised quant t

    forward : State
    forward = step_if (has start.mb.mb_type mb_motion_forward) forward_vectors start

    backward : State
    backward = step_if (has forward.mb.mb_type mb_motion_backward) backward_vectors forward

    g : IsFramed start backward
    g =
        IsFramed-trans start forward backward
          (step_if-IsFramed (has start.mb.mb_type mb_motion_forward) forward_vectors start
            forward_vectors-IsFramed)
          (step_if-IsFramed (has forward.mb.mb_type mb_motion_backward) backward_vectors forward
            backward_vectors-IsFramed)

    r : InterResult start (finish_b t)
    r = inter-result reset_both start backward resets-KeepsFrame.1 g (e.valid ∙ v)

    same_quant : has (finish_b t).1.mb.mb_type mb_quant ≡ quant
    same_quant = ap (λ flags. has flags mb_quant) (r.typed ∙ e.typed)

typed_b-result :
    (s t : State) (r : Option ℕ × Bits)
    → t.dec.blocks_decoder ≡ s.dec.blocks_decoder
    → t.mb.valid ≡ false
    → BResult s (typed_b t r)
unfolding typed_b
typed_b-result s t (some flags, next) k v =
    finish_b-result s (with_type flags (record t { bits = next })) k v
typed_b-result s t (none, next) k v = b_fails s (record t { bits = next }) v

incremented_b-result :
    (s t : State) (r : Increment × Bits)
    → t.dec.blocks_decoder ≡ s.dec.blocks_decoder
    → t.mb.valid ≡ false
    → BResult s (incremented_b t r)
unfolding incremented_b
incremented_b-result s t (end_of_slice, next) k v = b_fails s (record t { bits = next }) v
incremented_b-result s t (bad, next) k v = b_fails s (record t { bits = next }) v
incremented_b-result s t (by n, next) k v =
    typed_b-result s (with_increment (n % 2 ^ 8) (record t { bits = next }))
      (decode_macroblock_type_b next) k v

pub b-result : (s : State) → BResult s (decode_b_macroblock s)
unfolding decode_b_macroblock
b-result s = incremented_b-result s (clear_both s) (decode_address_increment s.bits) refl refl

-- Each of the three macroblock decoders marks the macroblock as valid just where it returns B_OK,
-- whatever the bits and the macroblock hold before.
pub decode_macroblock-IsJudged :
    (s : State)
    → IsJudged (decode_intra_macroblock s)
      × IsJudged (decode_p_macroblock s)
      × IsJudged (decode_b_macroblock s)
decode_macroblock-IsJudged s = ((intra-result s).judged, (p-result s).judged, (b-result s).judged)

-- Behind an I macroblock that returns B_OK, the quantiser scale is the one of the macroblock's code;
-- so it is behind such a B macroblock whose type has the quantiser flag, and one without it leaves
-- the scale. A P macroblock never changes the scale that its blocks are decoded with, also where its
-- type has the flag and the new code was read.
pub decode_macroblock-scale :
    (s : State)
    → ((decode_intra_macroblock s).0 ≡ ok → IsScaled (decode_intra_macroblock s).1)
      × ((decode_b_macroblock s).0 ≡ ok
          → has (decode_b_macroblock s).1.mb.mb_type mb_quant ≡ true
          → IsScaled (decode_b_macroblock s).1)
      × ((decode_b_macroblock s).0 ≡ ok
          → has (decode_b_macroblock s).1.mb.mb_type mb_quant ≡ false
          → (decode_b_macroblock s).1.dec.blocks_decoder ≡ s.dec.blocks_decoder)
      × ((decode_p_macroblock s).1.dec.blocks_decoder ≡ s.dec.blocks_decoder)
decode_macroblock-scale s =
    let b = b-result s in ((intra-result s).scaled, b.scaled, b.kept, (p-result s).kept)
