-- ===== src/Mpeg2/Macroblock/Decoders.antt =====
-- The three decoders of macroblocks of mpeg2_parser.cpp, mpeg2_decode_intra_macroblock,
-- mpeg2_decode_p_macroblock and mpeg2_decode_b_macroblock, with the searches for the next code
-- that the first two make. Bit offsets are below 2 ^ 31.
use haiku_vaio_vpceb3k1e.Prelude.{
  ℕ, zero, suc, ◌+◌, ◌-◌, ◌/◌, ◌%◌, ◌^◌, Bool, true, false, not, ◌&&◌, Option, none, some,
  if◌then◌else◌, leb, ◌==◌, replicate,
}
use haiku_vaio_vpceb3k1e.Prelude.Int.{pos}
use haiku_vaio_vpceb3k1e.Mpeg2.Bits.{Bits, available, peek, skip, offset}
use haiku_vaio_vpceb3k1e.Mpeg2.Block.{empty_block}
use haiku_vaio_vpceb3k1e.Mpeg2.Pattern.{
  mb_quant, mb_motion_forward, mb_motion_backward, mb_intra, decode_macroblock_type_i,
  decode_macroblock_type_p, decode_macroblock_type_b,
}
use haiku_vaio_vpceb3k1e.Mpeg2.Address.{
  Increment, end_of_slice, bad, by, slice_ends, decode_address_increment,
}
use haiku_vaio_vpceb3k1e.Mpeg2.Macroblock.{
  Status, entry_not_found, bad_data, MacroblockDecoder, Macroblock, State, has, put_block,
  intra_step, intra_blocks, reset_dc, non_intra_blocks, read_quantiser, set_quantiser_scale,
  forward_vectors, backward_vectors, take_pattern, after_block, finish,
}

-- The reader set to bit `target`.
abbrev pub at_bit : Bits → ℕ → Bits
at_bit bs target = record bs { byte_pos = target / 8; bit_pos = target % 8 }

-- Whether the increment 1 and a type that `type` takes begin at the reader.
abbrev pub starts {ℓ} : {A : Type ℓ} → (Bits → Option A × Bits) → Bits → Option A
starts type bs = if peek bs 1 == 1 then (type (skip bs 1)).0 else none

-- The search of the I decoder for an increment: the bits `d` to 8 behind the saved reader. Found is
-- the number of bits to skip.
unfoldable pub resync_increment : ℕ → Bits → ℕ → Option ℕ
unfolding available peek skip decode_macroblock_type_i
resync_increment zero saved d = none
resync_increment (suc left) saved d =
    if not (available saved 3)
    then none
    else (elim (starts decode_macroblock_type_i (skip saved d)) [
      | some quant ↦ some (d + 1)
      | none ↦ resync_increment left saved (d + 1)
    ])

abbrev pub found_or {ℓ} : {A : Type ℓ} → Bits → Option A → Option (Bits × A) → Option (Bits × A)
found_or next (some t) rest = some (next, t)
found_or next none rest = rest

-- The search for a type at the bits from `shifted - back` on; those before bit 0 are passed over.
-- Found are the reader behind the increment and the type.
unfoldable pub resync_type {ℓ} :
    {A : Type ℓ} → (Bits → Option A × Bits) → (Bits → Bool) → ℕ → Bits → ℕ → ℕ → Option (Bits × A)
unfolding peek skip
resync_type type room zero bs back shifted = none
resync_type type room (suc left) bs back shifted =
    let there = at_bit bs (shifted - back) in
    found_or (skip there 1) (if leb back shifted && room there then starts type there else none)
      (resync_type type room left bs back (shifted + 1))

-- The blocks of an I macroblock: zeros from where the slice ends.
unfoldable pub clear_blocks : ℕ → Macroblock → Macroblock
clear_blocks zero mb = mb
clear_blocks (suc left) mb = clear_blocks left (put_block mb (5 - left) empty_block)

unfoldable pub picture_blocks : ℕ → State → Bool × State
unfolding clear_blocks intra_step available peek
picture_blocks zero s = (true, s)
picture_blocks (suc left) s =
    if slice_ends s.bits
    then (true, record s { mb = clear_blocks (suc left) s.mb })
    else after_block (picture_blocks left) (intra_step (5 - left) s)

-- The I decoder behind the type; the flag is `has_quant`.
unfoldable pub finish_intra_picture : Bool → State → Status × State
unfolding read_quantiser set_quantiser_scale picture_blocks
finish_intra_picture has_quant s =
    finish (picture_blocks 6 (set_quantiser_scale (if has_quant then read_quantiser s else s)))

abbrev pub with_increment : ℕ → State → State
with_increment n s = record s { mb = record s.mb { address_increment = n } }

-- The I decoder where no type is found behind the increment.
unfoldable pub search_intra_type : State → Option (Bits × Bool) → Status × State
unfolding finish_intra_picture
search_intra_type s none = (bad_data, s)
search_intra_type s (some (bs, has_quant)) =
    finish_intra_picture has_quant (with_increment 1 (record s { bits = bs }))

abbrev pub room_for_type : Bits → Bool
room_for_type bs = available bs 3

-- The I decoder at the type that is read; `saved` is the reader before the increment.
unfoldable pub typed_intra : Bits → State → Option Bool × Bits → Status × State
unfolding decode_macroblock_type_i available finish_intra_picture resync_type search_intra_type
    offset
typed_intra saved s (some has_quant, next) =
    finish_intra_picture has_quant (record s { bits = next })
typed_intra saved s (none, next) =
    search_intra_type (record s { bits = next })
      (resync_type decode_macroblock_type_i room_for_type 17 saved 6 (offset saved))

unfoldable pub intra_type : Bits → State → Status × State
unfolding decode_macroblock_type_i typed_intra
intra_type saved s = typed_intra saved s (decode_macroblock_type_i s.bits)

unfoldable pub search_intra_increment : State → Option ℕ → Status × State
unfolding intra_type skip
search_intra_increment s none = (bad_data, s)
search_intra_increment s (some n) =
    intra_type s.bits (with_increment 1 (record s { bits = skip s.bits n }))

abbrev pub unset_valid : State → State
unset_valid s = record s { mb = record s.mb { valid = false } }

-- The I decoder at the increment that is read.
unfoldable pub incremented_intra : State → Increment × Bits → Status × State
unfolding resync_increment search_intra_increment intra_type
incremented_intra s (end_of_slice, next) = (entry_not_found, record s { bits = next })
incremented_intra s (bad, next) = search_intra_increment s (resync_increment 9 s.bits 0)
incremented_intra s (by n, next) =
    intra_type s.bits (with_increment (n % 2 ^ 8) (record s { bits = next }))

unfoldable pub decode_intra_macroblock : State → Status × State
unfolding decode_address_increment incremented_intra
decode_intra_macroblock s = incremented_intra (unset_valid s) (decode_address_increment s.bits)

-- The six blocks of a P or B macroblock; `reset_vectors` is what an intra one does to the vectors.
unfoldable pub inter_blocks : (MacroblockDecoder → MacroblockDecoder) → State → Bool × State
unfolding intra_blocks reset_dc non_intra_blocks
inter_blocks reset_vectors s =
    if has s.mb.mb_type mb_intra
    then (let (decoded, next) = intra_blocks 6 s in
        (decoded, if decoded then record next { dec = reset_vectors next.dec } else next))
    else (true, non_intra_blocks 6 (reset_dc s))

abbrev pub reset_forward : MacroblockDecoder → MacroblockDecoder
reset_forward dec = record dec { mv_pred_h = pos 0; mv_pred_v = pos 0 }

abbrev pub reset_both : MacroblockDecoder → MacroblockDecoder
reset_both dec = record (reset_forward dec) {
  mv_backward_pred_h = pos 0;
  mv_backward_pred_v = pos 0;
}

abbrev pub with_type : ℕ → State → State
with_type flags s = record s { mb = record s.mb { mb_type = flags } }

-- A step that the type of the macroblock asks for.
abbrev pub step_if : Bool → (State → State) → State → State
step_if true f s = f s
step_if false f s = s

-- The P decoder behind the type.
unfoldable pub finish_p : State → Status × State
unfolding read_quantiser forward_vectors take_pattern inter_blocks
finish_p s0 =
    let s1 = step_if (has s0.mb.mb_type mb_quant) read_quantiser s0 in
    let s2 = step_if (has s1.mb.mb_type mb_motion_forward) forward_vectors s1 in
    finish (inter_blocks reset_forward (take_pattern s2))

unfoldable pub search_p_type : State → Option (Bits × ℕ) → Status × State
unfolding finish_p
search_p_type s none = (bad_data, s)
search_p_type s (some (bs, flags)) =
    finish_p (with_type flags (with_increment 1 (record s { bits = bs })))

abbrev pub any_room : Bits → Bool
any_room bs = true

-- The P decoder at the type that is read.
unfoldable pub typed_p : State → Option ℕ × Bits → Status × State
unfolding decode_macroblock_type_p resync_type search_p_type finish_p offset
typed_p s (some flags, next) = finish_p (with_type flags (record s { bits = next }))
typed_p s (none, next) =
    search_p_type (record s { bits = next })
      (resync_type decode_macroblock_type_p any_room 11 next 4 (offset next))

-- The fields that the P decoder clears first; the B decoder clears the backward vector too.
abbrev pub clear_forward : State → State
clear_forward s = record s {
  mb = record s.mb {
    valid = false;
    blocks = replicate 6 empty_block;
    motion_h = pos 0;
    motion_v = pos 0;
    coded_block_pattern = 0;
  };
}

abbrev pub clear_both : State → State
clear_both s =
    let c = clear_forward s in
    record c { mb = record c.mb { motion_backward_h = pos 0; motion_backward_v = pos 0 } }

unfoldable pub incremented_p : State → Increment × Bits → Status × State
unfolding decode_macroblock_type_p typed_p
incremented_p s (end_of_slice, next) = (entry_not_found, record s { bits = next })
incremented_p s (bad, next) = (bad_data, record s { bits = next })
incremented_p s (by n, next) =
    typed_p (with_increment (n % 2 ^ 8) (record s { bits = next })) (decode_macroblock_type_p next)

unfoldable pub decode_p_macroblock : State → Status × State
unfolding decode_address_increment incremented_p
decode_p_macroblock s = incremented_p (clear_forward s) (decode_address_increment s.bits)

-- The B decoder behind the type.
unfoldable pub finish_b : State → Status × State
unfolding read_quantiser set_quantiser_scale forward_vectors backward_vectors take_pattern
    inter_blocks
finish_b s0 =
    let s1 =
      step_if (has s0.mb.mb_type mb_quant) (λ s. set_quantiser_scale (read_quantiser s)) s0 in
    let s2 = step_if (has s1.mb.mb_type mb_motion_forward) forward_vectors s1 in
    let s3 = step_if (has s2.mb.mb_type mb_motion_backward) backward_vectors s2 in
    finish (inter_blocks reset_both (take_pattern s3))

-- The B decoder at the type that is read.
unfoldable pub typed_b : State → Option ℕ × Bits → Status × State
unfolding finish_b
typed_b s (some flags, next) = finish_b (with_type flags (record s { bits = next }))
typed_b s (none, next) = (bad_data, record s { bits = next })

-- An end of the slice is an error here.
unfoldable pub incremented_b : State → Increment × Bits → Status × State
unfolding decode_macroblock_type_b typed_b
incremented_b s (end_of_slice, next) = (bad_data, record s { bits = next })
incremented_b s (bad, next) = (bad_data, record s { bits = next })
incremented_b s (by n, next) =
    typed_b (with_increment (n % 2 ^ 8) (record s { bits = next })) (decode_macroblock_type_b next)

unfoldable pub decode_b_macroblock : State → Status × State
unfolding decode_address_increment incremented_b
decode_b_macroblock s = incremented_b (clear_both s) (decode_address_increment s.bits)
