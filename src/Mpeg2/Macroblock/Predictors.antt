-- ===== src/Mpeg2/Macroblock/Predictors.antt =====
-- The whole P and B decoders of mpeg2_parser.cpp keep the predictors of the motion vectors in range.
use haiku_vaio_vpceb3k1e.Prelude.{
  ℕ, true, false, Bool, zero, suc, ◌+◌, ◌*◌, ◌%◌, ◌^◌, ◌<◌, Option, none, some, arith, Bool-cases,
  Option-cases, inl, inr,
}
use haiku_vaio_vpceb3k1e.Mpeg2.Bits.{Bits, skip, peek, offset}
use haiku_vaio_vpceb3k1e.Mpeg2.Pattern.{
  mb_quant, mb_motion_forward, mb_motion_backward, take_entry, every_pattern, p_types, b_types,
  decode_macroblock_type_p, decode_macroblock_type_b,
}
use haiku_vaio_vpceb3k1e.Mpeg2.Vlc.Code.{Entry, entry, search}
use haiku_vaio_vpceb3k1e.Mpeg2.Address.{
  Increment, end_of_slice, bad, by, Found, number, escape, stuffing, nothing, address_tests,
  take_found, slice_ends, address_loop, decode_address_increment,
}
use haiku_vaio_vpceb3k1e.Mpeg2.Macroblock.{
  State, has, read_quantiser, set_quantiser_scale, forward_vectors, backward_vectors,
}
use haiku_vaio_vpceb3k1e.Mpeg2.Macroblock.Decoders.{
  resync_type, reset_forward, reset_both, step_if, finish_p, search_p_type, typed_p, incremented_p,
  decode_p_macroblock, finish_b, typed_b, incremented_b, decode_b_macroblock, any_room,
  with_increment, with_type, clear_forward, clear_both,
}
use haiku_vaio_vpceb3k1e.Mpeg2.Macroblock.Resync.{resync_type-found}
use haiku_vaio_vpceb3k1e.Mpeg2.Macroblock.Vectors.{
  InVectors, IsSteady, step_if-IsSteady, forward_vectors-IsSteady, backward_vectors-IsSteady,
  read_quantiser-IsSteady, rescale-IsSteady, reset_forward-KeepsVectors, reset_both-KeepsVectors,
  rest-InVectors,
}

skip-aligned : (bs : Bits) (n : ℕ) → (skip bs n).bit_pos < 8
unfolding skip
skip-aligned bs n = omega arith

take_found-aligned :
    (f : Found) (bs : Bits) (again : Bits → Increment × Bits)
    → bs.bit_pos < 8
    → ((next : Bits) → next.bit_pos < 8 → (again next).1.bit_pos < 8)
    → (take_found again bs f).1.bit_pos < 8
take_found-aligned (number n len) bs again b h = skip-aligned bs len
take_found-aligned escape bs again b h = h (skip bs 11) (skip-aligned bs 11)
take_found-aligned stuffing bs again b h = h (skip bs 11) (skip-aligned bs 11)
take_found-aligned nothing bs again b h = b

address_loop-aligned :
    (fuel : ℕ) (bs : Bits) → bs.bit_pos < 8 → (address_loop fuel bs).1.bit_pos < 8
unfolding address_loop
address_loop-aligned zero bs b = b
address_loop-aligned (suc fuel) bs b = elim (Bool-cases (slice_ends bs)) [
  | inl ends ↦ rw ends b
  | inr more ↦ rw more (
      take_found-aligned (address_tests (peek bs)) bs (address_loop fuel) b
        (λ next c. address_loop-aligned fuel next c))
]

decode_address_increment-aligned :
    (bs : Bits) → bs.bit_pos < 8 → (decode_address_increment bs).1.bit_pos < 8
unfolding decode_address_increment
decode_address_increment-aligned bs b = address_loop-aligned (bs.size * 8 + 1) bs b

take_entry-aligned :
    (bs : Bits) (o : Option (Entry ℕ)) → bs.bit_pos < 8 → (take_entry bs o).1.bit_pos < 8
take_entry-aligned bs none b = b
take_entry-aligned bs (some (entry code len s)) b = skip-aligned bs len

decode_macroblock_type-aligned :
    (bs : Bits)
    → bs.bit_pos < 8
    → ((decode_macroblock_type_p bs).1.bit_pos < 8) × ((decode_macroblock_type_b bs).1.bit_pos < 8)
unfolding decode_macroblock_type_p decode_macroblock_type_b
decode_macroblock_type-aligned bs b = (
  take_entry-aligned bs (search every_pattern 6 (peek bs 6) p_types) b,
  take_entry-aligned bs (search every_pattern 6 (peek bs 6) b_types) b,
)

finish_p-InVectors : {both : Bool} (s : State) → IsSteady both s → InVectors both (finish_p s).1.dec
unfolding finish_p
finish_p-InVectors {both = both} s st =
    rest-InVectors reset_forward
      (step_if (has start.mb.mb_type mb_motion_forward) forward_vectors start)
      reset_forward-KeepsVectors
      (step_if-IsSteady (has start.mb.mb_type mb_motion_forward) forward_vectors start
        forward_vectors-IsSteady steady).vectors
  where
    start : State
    start = step_if (has s.mb.mb_type mb_quant) read_quantiser s

    steady : IsSteady both start
    steady =
        step_if-IsSteady (has s.mb.mb_type mb_quant) read_quantiser s read_quantiser-IsSteady st

finish_b-InVectors : (s : State) → IsSteady true s → InVectors true (finish_b s).1.dec
unfolding finish_b
finish_b-InVectors s st =
    rest-InVectors reset_both
      (step_if (has forward.mb.mb_type mb_motion_backward) backward_vectors forward)
      reset_both-KeepsVectors
      (step_if-IsSteady (has forward.mb.mb_type mb_motion_backward) backward_vectors forward
        backward_vectors-IsSteady
        (step_if-IsSteady (has start.mb.mb_type mb_motion_forward) forward_vectors start
          forward_vectors-IsSteady steady)).vectors
  where
    start : State
    start = step_if (has s.mb.mb_type mb_quant) (λ t. set_quantiser_scale (read_quantiser t)) s

    steady : IsSteady true start
    steady = step_if-IsSteady (has s.mb.mb_type mb_quant) _ s rescale-IsSteady st

    forward : State
    forward = step_if (has start.mb.mb_type mb_motion_forward) forward_vectors start

typed_p-InVectors :
    {both : Bool} (s : State) (r : Option ℕ × Bits)
    → r.1.bit_pos < 8
    → InVectors both s.dec
    → InVectors both (typed_p s r).1.dec
unfolding typed_p search_p_type
typed_p-InVectors s (some flags, next) b v =
    finish_p-InVectors (with_type flags (record s { bits = next }))
      (record { aligned = b; vectors = v })
typed_p-InVectors s (none, next) b v =
    elim (Option-cases (resync_type decode_macroblock_type_p any_room 11 next 4 (offset next))) [
      | inl lost ↦ rw lost (v)
      | inr (found, e) ↦ rw e (
          finish_p-InVectors (with_type found.1 (with_increment 1 (record s { bits = found.0 })))
            (record {
              aligned =
                  (resync_type-found decode_macroblock_type_p any_room 11 next 4 (offset next)
                    found.0 found.1 e).1;
              vectors = v;
            }))
    ]

incremented_p-InVectors :
    {both : Bool} (s : State) (r : Increment × Bits)
    → r.1.bit_pos < 8
    → InVectors both s.dec
    → InVectors both (incremented_p s r).1.dec
unfolding incremented_p
incremented_p-InVectors s (end_of_slice, next) b v = v
incremented_p-InVectors s (bad, next) b v = v
incremented_p-InVectors s (by n, next) b v =
    typed_p-InVectors (with_increment (n % 2 ^ 8) (record s { bits = next }))
      (decode_macroblock_type_p next) (decode_macroblock_type-aligned next b).0 v

typed_b-InVectors :
    (s : State) (r : Option ℕ × Bits)
    → r.1.bit_pos < 8
    → InVectors true s.dec
    → InVectors true (typed_b s r).1.dec
unfolding typed_b
typed_b-InVectors s (some flags, next) b v =
    finish_b-InVectors (with_type flags (record s { bits = next }))
      (record { aligned = b; vectors = v })
typed_b-InVectors s (none, next) b v = v

incremented_b-InVectors :
    (s : State) (r : Increment × Bits)
    → r.1.bit_pos < 8
    → InVectors true s.dec
    → InVectors true (incremented_b s r).1.dec
unfolding incremented_b
incremented_b-InVectors s (end_of_slice, next) b v = v
incremented_b-InVectors s (bad, next) b v = v
incremented_b-InVectors s (by n, next) b v =
    typed_b-InVectors (with_increment (n % 2 ^ 8) (record s { bits = next }))
      (decode_macroblock_type_b next) (decode_macroblock_type-aligned next b).1 v

-- From a reader inside a byte, a P macroblock leaves the two forward predictors in the range of the
-- forward f_codes, where they were before and these are at most 12, whatever the backward ones are; a B
-- macroblock leaves all four in range, where they were before and all four f_codes are at most 12;
-- whatever bits they decode and whether they succeed.
pub decode_macroblock-InVectors :
    (s t : State)
    → s.bits.bit_pos < 8
    → InVectors false s.dec
    → t.bits.bit_pos < 8
    → InVectors true t.dec
    → InVectors false (decode_p_macroblock s).1.dec × InVectors true (decode_b_macroblock t).1.dec
unfolding decode_p_macroblock decode_b_macroblock
decode_macroblock-InVectors s t b v c w = (
  incremented_p-InVectors (clear_forward s) (decode_address_increment s.bits)
      (decode_address_increment-aligned s.bits b) v,
  incremented_b-InVectors (clear_both t) (decode_address_increment t.bits)
      (decode_address_increment-aligned t.bits c) w,
)
