-- ===== src/Mpeg2/Macroblock/Vectors.antt =====
-- The predictors of the motion vectors through the P and B decoders of mpeg2_parser.cpp.
use haiku_vaio_vpceb3k1e.Prelude.{
  ℕ, zero, suc, ◌+◌, ◌-◌, ◌^◌, ◌≤◌, ◌<◌, ◌≡◌, refl, ◌∙◌, Bool, true, false, Option, none, some,
  List, Bool-cases, inl, inr, get_or, arith,
}
use native.Mathlib.Nat.{one-le-pow}
use haiku_vaio_vpceb3k1e.Prelude.Int.{ℤ, pos}
use haiku_vaio_vpceb3k1e.Mpeg2.Bits.{Bits}
use haiku_vaio_vpceb3k1e.Mpeg2.Bits.Read.{read-Reads}
use haiku_vaio_vpceb3k1e.Mpeg2.Block.{decode_intra_block}
use haiku_vaio_vpceb3k1e.Mpeg2.Motion.{decode_motion_vector}
use haiku_vaio_vpceb3k1e.Mpeg2.Motion.Range.{
  InRange, decode_motion_vector-InRange, decode_motion_vector-aligned,
}
use haiku_vaio_vpceb3k1e.Mpeg2.Pattern.{mb_pattern, mb_intra}
use haiku_vaio_vpceb3k1e.Mpeg2.Macroblock.{
  MacroblockDecoder, State, has, component, put_intra, intra_step, after_block, intra_blocks,
  reset_dc, non_intra_step, non_intra_blocks, read_quantiser, set_quantiser_scale, f_code_of,
  forward_vectors, backward_vectors, take_pattern, finish,
}
use haiku_vaio_vpceb3k1e.Mpeg2.Macroblock.Decoders.{
  inter_blocks, reset_forward, reset_both, step_if,
}

-- The forward predictors are in the range of their f_codes, which are at most 12; with `both` so are the
-- backward ones.
pub record InVectors (both : Bool) (dec : MacroblockDecoder) : Type 0 where
  pub h : InRange (2 ^ (f_code_of dec 0 - 1 + 4)) dec.mv_pred_h
  pub v : InRange (2 ^ (f_code_of dec 1 - 1 + 4)) dec.mv_pred_v
  pub small_h : get_or dec.f_code 0 0 ≤ 12
  pub small_v : get_or dec.f_code 1 0 ≤ 12
  pub backward_h : both ≡ true → InRange (2 ^ (f_code_of dec 2 - 1 + 4)) dec.mv_backward_pred_h
  pub backward_v : both ≡ true → InRange (2 ^ (f_code_of dec 3 - 1 + 4)) dec.mv_backward_pred_v
  pub small_backward_h : both ≡ true → get_or dec.f_code 2 0 ≤ 12
  pub small_backward_v : both ≡ true → get_or dec.f_code 3 0 ≤ 12

-- The predictors and f_codes of `s` and `t` are the same.
record IsStill (s t : MacroblockDecoder) : Type 0 where
  h : t.mv_pred_h ≡ s.mv_pred_h
  v : t.mv_pred_v ≡ s.mv_pred_v
  backward_h : t.mv_backward_pred_h ≡ s.mv_backward_pred_h
  backward_v : t.mv_backward_pred_v ≡ s.mv_backward_pred_v
  f_code : t.f_code ≡ s.f_code

IsStill-as :
    {s t : MacroblockDecoder}
    → t.mv_pred_h ≡ s.mv_pred_h
    → t.mv_pred_v ≡ s.mv_pred_v
    → t.mv_backward_pred_h ≡ s.mv_backward_pred_h
    → t.mv_backward_pred_v ≡ s.mv_backward_pred_v
    → t.f_code ≡ s.f_code
    → IsStill s t
IsStill-as h v bh bv f = record { h = h; v = v; backward_h = bh; backward_v = bv; f_code = f }

still : (s : MacroblockDecoder) → IsStill s s
still s = IsStill-as refl refl refl refl refl

IsStill-trans : {s t u : MacroblockDecoder} → IsStill s t → IsStill t u → IsStill s u
IsStill-trans f g =
    IsStill-as (g.h ∙ f.h) (g.v ∙ f.v) (g.backward_h ∙ f.backward_h) (g.backward_v ∙ f.backward_v)
      (g.f_code ∙ f.f_code)

InVectors-still :
    {both : Bool} (s t : MacroblockDecoder) → IsStill s t → InVectors both s → InVectors both t
InVectors-still s t e v = record {
  h = rw (e.f_code, e.h) v.h;
  v = rw (e.f_code, e.v) v.v;
  small_h = rw e.f_code v.small_h;
  small_v = rw e.f_code v.small_v;
  backward_h = λ t. rw (e.f_code, e.backward_h) (v.backward_h t);
  backward_v = λ t. rw (e.f_code, e.backward_v) (v.backward_v t);
  small_backward_h = λ t. rw e.f_code (v.small_backward_h t);
  small_backward_v = λ t. rw e.f_code (v.small_backward_v t);
}

f_code_of-bounds :
    (dec : MacroblockDecoder) (i : ℕ)
    → get_or dec.f_code i 0 ≤ 12
    → (1 ≤ f_code_of dec i) × (f_code_of dec i ≤ 12)
f_code_of-bounds dec i small = ground arith

-- An aligned reader with the vectors in range.
pub record IsSteady (both : Bool) (s : State) : Type 0 where
  pub aligned : s.bits.bit_pos < 8
  pub vectors : InVectors both s.dec

pub forward_vectors-IsSteady :
    {both : Bool} (s : State) → IsSteady both s → IsSteady both (forward_vectors s)
unfolding forward_vectors
forward_vectors-IsSteady s st = record {
  aligned = decode_motion_vector-aligned first.1 s.dec.mv_pred_v (f_code_of s.dec 1) after b1.1;
  vectors = record {
    h =
        decode_motion_vector-InRange s.bits s.dec.mv_pred_h (f_code_of s.dec 0) st.aligned b0.0 b0.1
          st.vectors.h;
    v =
        decode_motion_vector-InRange first.1 s.dec.mv_pred_v (f_code_of s.dec 1) after b1.0 b1.1
          st.vectors.v;
    backward_h = st.vectors.backward_h;
    backward_v = st.vectors.backward_v;
    small_h = st.vectors.small_h;
    small_v = st.vectors.small_v;
    small_backward_h = st.vectors.small_backward_h;
    small_backward_v = st.vectors.small_backward_v;
  };
}
  where
    first : ℤ × Bits
    first = decode_motion_vector s.bits s.dec.mv_pred_h (f_code_of s.dec 0)

    b0 : (1 ≤ f_code_of s.dec 0) × (f_code_of s.dec 0 ≤ 12)
    b0 = f_code_of-bounds s.dec 0 st.vectors.small_h

    b1 : (1 ≤ f_code_of s.dec 1) × (f_code_of s.dec 1 ≤ 12)
    b1 = f_code_of-bounds s.dec 1 st.vectors.small_v

    after : first.1.bit_pos < 8
    after = decode_motion_vector-aligned s.bits s.dec.mv_pred_h (f_code_of s.dec 0) st.aligned b0.1

pub backward_vectors-IsSteady : (s : State) → IsSteady true s → IsSteady true (backward_vectors s)
unfolding backward_vectors
backward_vectors-IsSteady s st = record {
  aligned =
      decode_motion_vector-aligned first.1 s.dec.mv_backward_pred_v (f_code_of s.dec 3) after b3.1;
  vectors = record {
    h = st.vectors.h;
    v = st.vectors.v;
    backward_h = λ t.
        decode_motion_vector-InRange s.bits s.dec.mv_backward_pred_h (f_code_of s.dec 2) st.aligned
          b2.0 b2.1 (st.vectors.backward_h refl);
    backward_v = λ t.
        decode_motion_vector-InRange first.1 s.dec.mv_backward_pred_v (f_code_of s.dec 3) after b3.0
          b3.1 (st.vectors.backward_v refl);
    small_h = st.vectors.small_h;
    small_v = st.vectors.small_v;
    small_backward_h = st.vectors.small_backward_h;
    small_backward_v = st.vectors.small_backward_v;
  };
}
  where
    first : ℤ × Bits
    first = decode_motion_vector s.bits s.dec.mv_backward_pred_h (f_code_of s.dec 2)

    b2 : (1 ≤ f_code_of s.dec 2) × (f_code_of s.dec 2 ≤ 12)
    b2 = f_code_of-bounds s.dec 2 (st.vectors.small_backward_h refl)

    b3 : (1 ≤ f_code_of s.dec 3) × (f_code_of s.dec 3 ≤ 12)
    b3 = f_code_of-bounds s.dec 3 (st.vectors.small_backward_v refl)

    after : first.1.bit_pos < 8
    after =
        decode_motion_vector-aligned s.bits s.dec.mv_backward_pred_h (f_code_of s.dec 2) st.aligned
          b2.1

pub step_if-IsSteady :
    {both : Bool} (b : Bool) (f : State → State) (s : State)
    → ((t : State) → IsSteady both t → IsSteady both (f t))
    → IsSteady both s
    → IsSteady both (step_if b f s)
step_if-IsSteady true f s h st = h s st
step_if-IsSteady false f s h st = st

pub read_quantiser-IsSteady :
    {both : Bool} (s : State) → IsSteady both s → IsSteady both (read_quantiser s)
unfolding read_quantiser
read_quantiser-IsSteady s st = record {
  aligned = (read-Reads s.bits 5 (omega arith) st.aligned).aligned;
  vectors = InVectors-still s.dec s.dec (still s.dec) st.vectors;
}

pub rescale-IsSteady :
    {both : Bool} (s : State)
    → IsSteady both s
    → IsSteady both (set_quantiser_scale (read_quantiser s))
unfolding read_quantiser set_quantiser_scale
rescale-IsSteady s st = record {
  aligned = (read-Reads s.bits 5 (omega arith) st.aligned).aligned;
  vectors = InVectors-still s.dec _ (IsStill-as refl refl refl refl refl) st.vectors;
}

-- The blocks and the pattern do not touch the vectors.
put_intra-IsStill :
    (b : ℕ) (s : State) (r : Bits × List ℤ × Option (List ℤ))
    → IsStill s.dec (put_intra b s r).1.dec
put_intra-IsStill b s (next, preds, none) = IsStill-as refl refl refl refl refl
put_intra-IsStill b s (next, preds, some block) = IsStill-as refl refl refl refl refl

after_block-IsStill :
    (s : State) (go : State → Bool × State) (r : Bool × State)
    → ((t : State) → IsStill t.dec (go t).1.dec)
    → IsStill s.dec r.1.dec
    → IsStill s.dec (after_block go r).1.dec
after_block-IsStill s go (true, t) h f = IsStill-trans f (h t)
after_block-IsStill s go (false, t) h f = f

intra_blocks-IsStill : (left : ℕ) (s : State) → IsStill s.dec (intra_blocks left s).1.dec
unfolding intra_blocks intra_step
intra_blocks-IsStill zero s = still s.dec
intra_blocks-IsStill (suc left) s =
    after_block-IsStill s (intra_blocks left) (intra_step (5 - left) s) (intra_blocks-IsStill left)
      (put_intra-IsStill (5 - left) s
        (decode_intra_block s.bits s.dec.blocks_decoder s.dec.dc_pred (component (5 - left))))

non_intra_step-dec : (b : ℕ) (s : State) → (non_intra_step b s).dec ≡ s.dec
unfolding non_intra_step
non_intra_step-dec b s = elim (Bool-cases (has s.mb.coded_block_pattern (2 ^ (5 - b)))) [
  | inl coded ↦ rw coded refl
  | inr clear ↦ rw clear refl
]

-- The decoder of a whole inter macroblock's blocks is the one before them.
non_intra_blocks-dec : (left : ℕ) (s : State) → (non_intra_blocks left s).dec ≡ s.dec
unfolding non_intra_blocks
non_intra_blocks-dec zero s = refl
non_intra_blocks-dec (suc left) s =
    non_intra_blocks-dec left (non_intra_step (5 - left) s) ∙ non_intra_step-dec (5 - left) s

take_pattern-dec : (s : State) → (take_pattern s).dec ≡ s.dec
unfolding take_pattern
take_pattern-dec s = elim (Bool-cases (has s.mb.mb_type mb_pattern)) [
  | inl patterned ↦ rw patterned refl
  | inr plain ↦ rw plain (elim (Bool-cases (has s.mb.mb_type mb_intra)) [
    | inl intra ↦ rw intra refl
    | inr inter ↦ rw inter refl
  ])
]

-- A change of the decoder that keeps the vectors in range.
abbrev pub KeepsVectors : Bool → (MacroblockDecoder → MacroblockDecoder) → Type 0
KeepsVectors both reset =
    (dec : MacroblockDecoder) → InVectors both dec → InVectors both (reset dec)

zero-InRange : (f : ℕ) → InRange (2 ^ (f - 1 + 4)) (pos 0)
zero-InRange f = omega (arith, one-le-pow (f - 1 + 4) 2 (omega arith))

pub reset_forward-KeepsVectors : {both : Bool} → KeepsVectors both reset_forward
reset_forward-KeepsVectors dec v = record {
  h = zero-InRange (f_code_of dec 0);
  v = zero-InRange (f_code_of dec 1);
  small_h = v.small_h;
  small_v = v.small_v;
  backward_h = v.backward_h;
  backward_v = v.backward_v;
  small_backward_h = v.small_backward_h;
  small_backward_v = v.small_backward_v;
}

pub reset_both-KeepsVectors : {both : Bool} → KeepsVectors both reset_both
reset_both-KeepsVectors dec v = record {
  h = zero-InRange (f_code_of dec 0);
  v = zero-InRange (f_code_of dec 1);
  small_h = v.small_h;
  small_v = v.small_v;
  backward_h = λ t. zero-InRange (f_code_of dec 2);
  backward_v = λ t. zero-InRange (f_code_of dec 3);
  small_backward_h = v.small_backward_h;
  small_backward_v = v.small_backward_v;
}

inter_blocks-InVectors :
    {both : Bool} (reset : MacroblockDecoder → MacroblockDecoder) (s : State)
    → KeepsVectors both reset
    → InVectors both s.dec
    → InVectors both (inter_blocks reset s).1.dec
unfolding inter_blocks reset_dc
inter_blocks-InVectors reset s keeps v = elim (Bool-cases (has s.mb.mb_type mb_intra)) [
  | inl intra ↦ rw intra (elim (Bool-cases (intra_blocks 6 s).0) [
    | inl decoded ↦ rw decoded (keeps _ (InVectors-still s.dec _ (intra_blocks-IsStill 6 s) v))
    | inr failed ↦ rw failed (InVectors-still s.dec _ (intra_blocks-IsStill 6 s) v)
  ])
  | inr inter ↦
      rw (inter, non_intra_blocks-dec 6 (reset_dc s))
        (InVectors-still s.dec _ (IsStill-as refl refl refl refl refl) v)
]

finish-InVectors :
    {both : Bool} (r : Bool × State) → InVectors both r.1.dec → InVectors both (finish r).1.dec
finish-InVectors (true, s) v = v
finish-InVectors (false, s) v = v

-- Behind the vectors, the pattern and the blocks.
pub rest-InVectors :
    {both : Bool} (reset : MacroblockDecoder → MacroblockDecoder) (s : State)
    → KeepsVectors both reset
    → InVectors both s.dec
    → InVectors both (finish (inter_blocks reset (take_pattern s))).1.dec
rest-InVectors reset s keeps v =
    finish-InVectors (inter_blocks reset (take_pattern s))
      (inter_blocks-InVectors reset (take_pattern s) keeps (rw take_pattern-dec v))
