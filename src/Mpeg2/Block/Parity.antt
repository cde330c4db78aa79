-- ===== src/Mpeg2/Block/Parity.antt =====
-- The mismatch control of the blocks of mpeg2_parser.cpp: the sum of the coefficients is odd.
use haiku_vaio_vpceb3k1e.Prelude.{
  ℕ, zero, suc, ◌+◌, ◌-◌, ◌%◌, ◌<◌, ◌≡◌, refl, ◌∙◌, Bool, true, false, List, [], ◌∷◌, if◌then◌else◌,
  arith, leb, ◌==◌, set, get_or, length, length-set, Bool-cases, inl, inr,
}
use haiku_vaio_vpceb3k1e.Prelude.Int.{ℤ, pos, negsuc, sub_ℕ, ◌+ℤ◌, odd_ℤ, pos_part, neg_part}
use haiku_vaio_vpceb3k1e.Mpeg2.Bits.{Bits}
use haiku_vaio_vpceb3k1e.Mpeg2.Ac.{RunLevel, eob, bad, run_level, decode_ac_coeff_b14}
use haiku_vaio_vpceb3k1e.Mpeg2.Block.{
  Decoder, scan, int16, sum, flip_last, empty_block, non_intra_iq, control_mismatch, non_intra_loop,
  decode_non_intra_block,
}

odd-sub_ℕ : (a b : ℕ) → odd_ℤ (sub_ℕ a b) ≡ (a + b) % 2
odd-sub_ℕ a b = ground arith

pub odd-parts : (a : ℤ) → odd_ℤ a ≡ (pos_part a + neg_part a) % 2
odd-parts (pos n) = omega arith
odd-parts (negsuc n) = omega arith

pub odd-+ℤ : (a b : ℤ) → odd_ℤ (a +ℤ b) ≡ (odd_ℤ a + odd_ℤ b) % 2
unfolding ◌+ℤ◌
odd-+ℤ a b =
    odd-sub_ℕ (pos_part a + pos_part b) (neg_part a + neg_part b)
    ∙ omega (arith, odd-parts a, odd-parts b)

-- Another number in one place changes the parity by its own and that of the old one.
pub odd-sum-set :
    (xs : List ℤ) (i : ℕ) (v : ℤ)
    → i < length xs
    → odd_ℤ (sum (set xs i v)) ≡ (odd_ℤ (sum xs) + odd_ℤ v + odd_ℤ (get_or xs i (pos 0))) % 2
odd-sum-set [] i v lt = absurd (omega arith)
odd-sum-set (x ∷ xs) zero v lt = omega (arith, odd-+ℤ v (sum xs), odd-+ℤ x (sum xs))
odd-sum-set (x ∷ xs) (suc i) v lt =
    omega (arith, odd-+ℤ x (sum (set xs i v)), odd-+ℤ x (sum xs), odd-sum-set xs i v (omega arith))

odd-flip : (x : ℤ) → odd_ℤ (if odd_ℤ x == 0 then x +ℤ pos 1 else x +ℤ negsuc 0) ≡ 1 - odd_ℤ x
odd-flip x = elim (Bool-cases (odd_ℤ x == 0)) [
  | inl even ↦ rw even (ground (arith, odd-+ℤ x (pos 1)))
  | inr odd ↦ rw odd (ground (arith, odd-+ℤ x (negsuc 0), odd-parts x))
]

pub odd-flip_last :
    (block : List ℤ) → length block ≡ 64 → odd_ℤ (sum (flip_last block)) ≡ 1 - odd_ℤ (sum block)
odd-flip_last block full =
    odd-sum-set block 63 _ (omega arith)
    ∙ omega (
      arith,
      odd-flip (get_or block 63 (pos 0)),
      odd-parts (get_or block 63 (pos 0)),
      odd-parts (sum block),
    )

odd-control_mismatch :
    (block : List ℤ) → length block ≡ 64 → odd_ℤ (sum (control_mismatch block)) ≡ 1
unfolding control_mismatch
odd-control_mismatch block full = elim (Bool-cases (odd_ℤ (sum block) == 0)) [
  | inl even ↦ rw even (ground (arith, odd-flip_last block full))
  | inr odd ↦ rw odd (ground (arith, odd-parts (sum block)))
]

abbrev State : Type 0
State = ℕ × Bits × List ℤ

-- The length of the block, through the tests of the loop.
length-test :
    (b : Bool) (x y : State) (n : ℕ)
    → length x.2 ≡ n
    → length y.2 ≡ n
    → length (elim b as (λ _. State) [ true ↦ x | false ↦ y ]).2 ≡ n
length-test true x y n hx hy = hx
length-test false x y n hx hy = hy

length-coefficient :
    (rl : RunLevel) (x : State) (f : ℕ → ℤ → State) (n : ℕ)
    → length x.2 ≡ n
    → ((run : ℕ) (level : ℤ) → length (f run level).2 ≡ n)
    → length (elim rl as (λ _. State) [ eob ↦ x | bad ↦ x | run_level run level ↦ f run level ]).2
      ≡ n
length-coefficient eob x f n hx hf = hx
length-coefficient bad x f n hx hf = hx
length-coefficient (run_level run level) x f n hx hf = hf run level

-- The loop keeps the block at its 64 coefficients.
length-non_intra_loop :
    (fuel : ℕ) (dec : Decoder) (idx : ℕ) (bs : Bits) (block : List ℤ)
    → length (non_intra_loop fuel dec idx bs block).2 ≡ length block
unfolding non_intra_loop
length-non_intra_loop zero dec idx bs block = refl
length-non_intra_loop (suc fuel) dec idx bs block =
    length-test (leb 64 idx) _ _ (length block) refl (
      length-coefficient (decode_ac_coeff_b14 bs (idx == 0)).0 _ _ (length block) refl (λ run level.
        length-test (leb 64 (idx + run)) _ _ (length block) refl (
          length-non_intra_loop fuel dec (idx + run + 1) _ _
          ∙ length-set block (get_or (scan dec) (idx + run) 0) (int16 (non_intra_iq dec _ level)))))

-- Whatever bits are decoded, the coefficients of a block that decode_non_intra_block returns have an
-- odd sum, as the mismatch control asks.
pub decode_non_intra_block-odd :
    (bs : Bits) (dec : Decoder) → odd_ℤ (sum (decode_non_intra_block bs dec).1) ≡ 1
unfolding decode_non_intra_block
decode_non_intra_block-odd bs dec =
    odd-control_mismatch (non_intra_loop 64 dec 0 bs empty_block).2
      (length-non_intra_loop 64 dec 0 bs empty_block)
