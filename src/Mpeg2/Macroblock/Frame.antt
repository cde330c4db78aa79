-- ===== src/Mpeg2/Macroblock/Frame.antt =====
-- What the parts of the macroblock decoders of mpeg2_parser.cpp leave alone.
use haiku_vaio_vpceb3k1e.Prelude.{
  ℕ, zero, suc, ◌-◌, ◌^◌, ◌≡◌, refl, ◌∙◌, Bool, true, false, Option, none, some, List, Bool-cases,
  inl, inr,
}
use haiku_vaio_vpceb3k1e.Prelude.Int.{ℤ}
use haiku_vaio_vpceb3k1e.Mpeg2.Bits.{Bits}
use haiku_vaio_vpceb3k1e.Mpeg2.Block.{empty_block, decode_intra_block}
use haiku_vaio_vpceb3k1e.Mpeg2.Pattern.{mb_pattern, mb_intra}
use haiku_vaio_vpceb3k1e.Mpeg2.Address.{slice_ends}
use haiku_vaio_vpceb3k1e.Mpeg2.Macroblock.{
  MacroblockDecoder, Macroblock, State, has, component, put_block, put_intra, intra_step,
  after_block, intra_blocks, reset_dc, non_intra_step, non_intra_blocks, forward_vectors,
  backward_vectors, take_pattern,
}
use haiku_vaio_vpceb3k1e.Mpeg2.Macroblock.Decoders.{
  clear_blocks, picture_blocks, inter_blocks, reset_forward, reset_both,
}

-- What no step but those for the quantiser and the type changes.
pub record IsFramed (s t : State) : Type 0 where
  pub valid : t.mb.valid ≡ s.mb.valid
  pub blocks_decoder : t.dec.blocks_decoder ≡ s.dec.blocks_decoder
  pub q_scale_type : t.dec.q_scale_type ≡ s.dec.q_scale_type
  pub f_code : t.dec.f_code ≡ s.dec.f_code
  pub mb_type : t.mb.mb_type ≡ s.mb.mb_type
  pub quantiser_scale_code : t.mb.quantiser_scale_code ≡ s.mb.quantiser_scale_code

frame :
    {s t : State}
    → t.mb.valid ≡ s.mb.valid
    → t.dec.blocks_decoder ≡ s.dec.blocks_decoder
    → t.dec.q_scale_type ≡ s.dec.q_scale_type
    → t.dec.f_code ≡ s.dec.f_code
    → t.mb.mb_type ≡ s.mb.mb_type
    → t.mb.quantiser_scale_code ≡ s.mb.quantiser_scale_code
    → IsFramed s t
frame v b q f m c = record {
  valid = v;
  blocks_decoder = b;
  q_scale_type = q;
  f_code = f;
  mb_type = m;
  quantiser_scale_code = c;
}

pub framed : (s : State) → IsFramed s s
framed s = frame refl refl refl refl refl refl

pub IsFramed-trans : (s t u : State) → IsFramed s t → IsFramed t u → IsFramed s u
IsFramed-trans s t u f g = record {
  valid = g.valid ∙ f.valid;
  blocks_decoder = g.blocks_decoder ∙ f.blocks_decoder;
  q_scale_type = g.q_scale_type ∙ f.q_scale_type;
  f_code = g.f_code ∙ f.f_code;
  mb_type = g.mb_type ∙ f.mb_type;
  quantiser_scale_code = g.quantiser_scale_code ∙ f.quantiser_scale_code;
}

put_intra-IsFramed :
    (b : ℕ) (s : State) (r : Bits × List ℤ × Option (List ℤ)) → IsFramed s (put_intra b s r).1
put_intra-IsFramed b s (next, preds, none) = frame refl refl refl refl refl refl
put_intra-IsFramed b s (next, preds, some block) = frame refl refl refl refl refl refl

pub intra_step-IsFramed : (b : ℕ) (s : State) → IsFramed s (intra_step b s).1
unfolding intra_step
intra_step-IsFramed b s =
    put_intra-IsFramed b s
      (decode_intra_block s.bits s.dec.blocks_decoder s.dec.dc_pred (component b))

after_block-IsFramed :
    (s : State) (go : State → Bool × State) (r : Bool × State)
    → ((t : State) → IsFramed t (go t).1)
    → IsFramed s r.1
    → IsFramed s (after_block go r).1
after_block-IsFramed s go (true, t) h f = IsFramed-trans s t _ f (h t)
after_block-IsFramed s go (false, t) h f = f

pub intra_blocks-IsFramed : (left : ℕ) (s : State) → IsFramed s (intra_blocks left s).1
unfolding intra_blocks
intra_blocks-IsFramed zero s = framed s
intra_blocks-IsFramed (suc left) s =
    after_block-IsFramed s (intra_blocks left) _ (intra_blocks-IsFramed left)
      (intra_step-IsFramed (5 - left) s)

non_intra_step-IsFramed : (b : ℕ) (s : State) → IsFramed s (non_intra_step b s)
unfolding non_intra_step
non_intra_step-IsFramed b s = elim (Bool-cases (has s.mb.coded_block_pattern (2 ^ (5 - b)))) [
  | inl coded ↦ rw coded (frame refl refl refl refl refl refl)
  | inr clear ↦ rw clear (framed s)
]

pub non_intra_blocks-IsFramed : (left : ℕ) (s : State) → IsFramed s (non_intra_blocks left s)
unfolding non_intra_blocks
non_intra_blocks-IsFramed zero s = framed s
non_intra_blocks-IsFramed (suc left) s =
    IsFramed-trans s (non_intra_step (5 - left) s) _ (non_intra_step-IsFramed (5 - left) s)
      (non_intra_blocks-IsFramed left (non_intra_step (5 - left) s))

clear_blocks-IsFramed :
    (s : State) (left : ℕ) (mb : Macroblock)
    → IsFramed s (record s { mb = mb })
    → IsFramed s (record s { mb = clear_blocks left mb })
unfolding clear_blocks
clear_blocks-IsFramed s zero mb f = f
clear_blocks-IsFramed s (suc left) mb f =
    clear_blocks-IsFramed s left (put_block mb (5 - left) empty_block)
      (frame f.valid f.blocks_decoder f.q_scale_type f.f_code f.mb_type f.quantiser_scale_code)

pub picture_blocks-IsFramed : (left : ℕ) (s : State) → IsFramed s (picture_blocks left s).1
unfolding picture_blocks
picture_blocks-IsFramed zero s = framed s
picture_blocks-IsFramed (suc left) s = elim (Bool-cases (slice_ends s.bits)) [
  | inl ends ↦ rw ends (clear_blocks-IsFramed s (suc left) s.mb (framed s))
  | inr more ↦ rw more (
      after_block-IsFramed s (picture_blocks left) _ (picture_blocks-IsFramed left)
        (intra_step-IsFramed (5 - left) s))
]

pub forward_vectors-IsFramed : (s : State) → IsFramed s (forward_vectors s)
unfolding forward_vectors
forward_vectors-IsFramed s = frame refl refl refl refl refl refl

pub backward_vectors-IsFramed : (s : State) → IsFramed s (backward_vectors s)
unfolding backward_vectors
backward_vectors-IsFramed s = frame refl refl refl refl refl refl

pub take_pattern-IsFramed : (s : State) → IsFramed s (take_pattern s)
unfolding take_pattern
take_pattern-IsFramed s = elim (Bool-cases (has s.mb.mb_type mb_pattern)) [
  | inl patterned ↦ rw patterned (frame refl refl refl refl refl refl)
  | inr plain ↦ rw plain (elim (Bool-cases (has s.mb.mb_type mb_intra)) [
    | inl intra ↦ rw intra (frame refl refl refl refl refl refl)
    | inr inter ↦ rw inter (framed s)
  ])
]

-- A change of the decoder that keeps what the frame names.
abbrev pub KeepsFrame : (MacroblockDecoder → MacroblockDecoder) → Type 0
KeepsFrame reset = (s : State) → IsFramed s (record s { dec = reset s.dec })

pub resets-KeepsFrame : KeepsFrame reset_forward × KeepsFrame reset_both
resets-KeepsFrame =
    (λ s. frame refl refl refl refl refl refl, λ s. frame refl refl refl refl refl refl)

pub inter_blocks-IsFramed :
    (reset : MacroblockDecoder → MacroblockDecoder) (s : State)
    → KeepsFrame reset
    → IsFramed s (inter_blocks reset s).1
unfolding inter_blocks reset_dc
inter_blocks-IsFramed reset s keeps = elim (Bool-cases (has s.mb.mb_type mb_intra)) [
  | inl intra ↦ rw intra (elim (Bool-cases (intra_blocks 6 s).0) [
    | inl decoded ↦ rw decoded (
        IsFramed-trans s (intra_blocks 6 s).1 _ (intra_blocks-IsFramed 6 s)
          (keeps (intra_blocks 6 s).1))
    | inr failed ↦ rw failed (intra_blocks-IsFramed 6 s)
  ])
  | inr inter ↦ rw inter (
      IsFramed-trans s (reset_dc s) _ (frame refl refl refl refl refl refl)
        (non_intra_blocks-IsFramed 6 (reset_dc s)))
]
