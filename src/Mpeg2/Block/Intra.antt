-- ===== src/Mpeg2/Block/Intra.antt =====
-- The mismatch control of the intra blocks of mpeg2_parser.cpp, which follows the sum bit by bit
-- while the coefficients are written.
use haiku_vaio_vpceb3k1e.Prelude.{
  ℕ, zero, suc, ◌+◌, ◌*◌, ◌/◌, ◌%◌, ◌≤◌, ◌<◌, ◌≡◌, ◌≢◌, refl, ap, ◌∙◌, subst, Bool, true, false,
  not, ◌&&◌, ◌||◌, List, if◌then◌else◌, arith, ltb, leb, ◌==◌, set, get_or, get_or-set_ne, length,
  length-set, replicate, Bool-cases, inl, inr, all_below, all_below_sound, Option, none, some,
  ℕ_discrete,
}
use haiku_vaio_vpceb3k1e.Prelude.Int.{ℤ, pos, negsuc, ◌+ℤ◌, odd_ℤ}
use haiku_vaio_vpceb3k1e.Mpeg2.Bits.{Bits}
use haiku_vaio_vpceb3k1e.Mpeg2.ScanOrder.{zigzag_scan, alternate_scan}
use haiku_vaio_vpceb3k1e.Mpeg2.Ac.{RunLevel, eob, bad, run_level}
use haiku_vaio_vpceb3k1e.Mpeg2.Dc.{
  decode_dc_size_luminance, decode_dc_size_chrominance, decode_dc_differential,
}
use haiku_vaio_vpceb3k1e.Mpeg2.Dc.Sizes.{decode_dc_size_total}
use haiku_vaio_vpceb3k1e.Mpeg2.Block.{
  Decoder, scan, int16, sum, flip_last, empty_block, intra_iq, decode_intra_coeff, intra_loop,
  finish_intra, from_dc_size, decode_intra_block, predict, times,
}
use haiku_vaio_vpceb3k1e.Mpeg2.Block.Parity.{odd-parts, odd-sum-set, odd-flip_last}

odd-int16 : (x : ℤ) → odd_ℤ (int16 x) ≡ odd_ℤ x
odd-int16 (pos n) = ground arith
odd-int16 (negsuc n) = ground arith

-- The scan orders are permutations of the 64 places.
abbrev places : Decoder → ℕ → ℕ
places dec k = get_or (scan dec) k 0

abbrev separate : List ℕ → ℕ → Bool
separate order k =
    ltb (get_or order (k / 64) 0) 64
    && (k / 64 == k % 64 || not (get_or order (k / 64) 0 == get_or order (k % 64) 0))

scans :
    (all_below 4096 (separate zigzag_scan) ≡ true)
    × (all_below 4096 (separate alternate_scan) ≡ true)
unfolding all_below
scans = (refl, refl)

scan-separate : (dec : Decoder) (k : ℕ) → k < 4096 → separate (scan dec) k ≡ true
scan-separate dec k lt = elim (Bool-cases dec.alternate) [
  | inl e ↦ rw e (all_below_sound 4096 (separate alternate_scan) k scans.1 lt)
  | inr e ↦ rw e (all_below_sound 4096 (separate zigzag_scan) k scans.0 lt)
]

scan-inj :
    (dec : Decoder) (i j : ℕ)
    → i < 64
    → j < 64
    → i ≢ j
    → (places dec i < 64) × (places dec i ≢ places dec j)
scan-inj dec i j hi hj ne = at (
    subst (λ b. P i b) {x = (i * 64 + j) % 64} (omega arith)
      (subst (λ a. P a ((i * 64 + j) % 64)) {x = (i * 64 + j) / 64} (omega arith)
        (scan-separate dec (i * 64 + j) (omega arith))))
  where
    P : ℕ → ℕ → Type 0
    P a b = (ltb (places dec a) 64 && (a == b || not (places dec a == places dec b))) ≡ true

    at : P i j → (places dec i < 64) × (places dec i ≢ places dec j)
    at h = ground arith

-- What the loop keeps: the low bit of `mismatch` is that of the sum, and the places from `idx` on in
-- the scan order hold zero.
record IsTracked (dec : Decoder) (idx mismatch : ℕ) (block : List ℤ) : Type 0 where
  full : length block ≡ 64
  parity : odd_ℤ (sum block) ≡ mismatch
  clear : (k : ℕ) → idx ≤ k → k < 64 → get_or block (places dec k) (pos 0) ≡ pos 0

-- A coefficient written `run` places on is tracked.
IsTracked-next :
    (dec : Decoder) (idx run mismatch : ℕ) (block : List ℤ) (x : ℤ)
    → IsTracked dec idx mismatch block
    → idx + run < 64
    → IsTracked dec
        (idx + run + 1)
        ((mismatch + odd_ℤ x) % 2)
        (set block (places dec (idx + run)) (int16 x))
IsTracked-next dec idx run mismatch block x t lt = record {
  full = length-set block _ _ ∙ t.full;
  parity =
      odd-sum-set block (places dec (idx + run)) (int16 x) (omega (arith, inside, t.full))
      ∙ omega (arith, t.parity, odd-int16 x, ap odd_ℤ (t.clear (idx + run) (omega arith) lt));
  clear = λ k lo hi.
      get_or-set_ne block (places dec (idx + run)) (places dec k) (int16 x) (pos 0)
        (scan-inj dec (idx + run) k lt hi (omega arith)).1
      ∙ t.clear k (omega arith) hi;
}
  where
    inside : places dec (idx + run) < 64
    inside = elim (ℕ_discrete (idx + run) 0) [
      | yes e ↦ (scan-inj dec (idx + run) 1 lt (omega arith) (omega arith)).0
      | no e ↦ (scan-inj dec (idx + run) 0 lt (omega arith) e).0
    ]

abbrev State : Type 0
State = ℕ × ℕ × Bits × List ℤ

abbrev Even : State → Type 0
Even s = (length s.3 ≡ 64) × (odd_ℤ (sum s.3) ≡ s.1)

Even-test :
    (b : Bool) (x y : State)
    → Even x
    → (b ≡ false → Even y)
    → Even (elim b as (λ _. State) [ true ↦ x | false ↦ y ])
Even-test true x y hx hy = hx
Even-test false x y hx hy = hy refl

Even-coefficient :
    (rl : RunLevel) (x : State) (f : ℕ → ℤ → State)
    → Even x
    → ((run : ℕ) (level : ℤ) → Even (f run level))
    → Even (elim rl as (λ _. State) [ eob ↦ x | bad ↦ x | run_level run level ↦ f run level ])
Even-coefficient eob x f hx hf = hx
Even-coefficient bad x f hx hf = hx
Even-coefficient (run_level run level) x f hx hf = hf run level

intra_loop-Even :
    (fuel : ℕ) (dec : Decoder) (idx mismatch : ℕ) (bs : Bits) (block : List ℤ)
    → IsTracked dec idx mismatch block
    → Even (intra_loop fuel dec idx mismatch bs block)
unfolding intra_loop
intra_loop-Even zero dec idx mismatch bs block t = (t.full, t.parity)
intra_loop-Even (suc fuel) dec idx mismatch bs block t =
    Even-test (leb 64 idx) _ _ (t.full, t.parity)
      (λ _.
        Even-coefficient (decode_intra_coeff dec bs).0 _ _ (t.full, t.parity)
          (λ run level.
            Even-test (leb 64 (idx + run)) _ _ (t.full, t.parity)
              (λ h. intra_loop-Even fuel dec (idx + run + 1) _ _ _ (
                IsTracked-next dec idx run mismatch block (intra_iq dec _ level) t
                  (ground arith)))))

zero_sum : odd_ℤ (sum empty_block) ≡ 0
unfolding ◌+ℤ◌
zero_sum = refl

zeros : (n p : ℕ) → get_or (replicate n (pos 0)) p (pos 0) ≡ pos 0
zeros zero p = refl
zeros (suc n) zero = refl
zeros (suc n) (suc p) = zeros n p

first_place : (dec : Decoder) → places dec 0 ≡ 0
first_place dec = elim (Bool-cases dec.alternate) [ inl e ↦ rw e refl | inr e ↦ rw e refl ]

start-IsTracked : (dec : Decoder) (dc : ℤ) → IsTracked dec 1 (odd_ℤ dc) (set empty_block 0 dc)
start-IsTracked dec dc = record {
  full = refl;
  parity =
      odd-sum-set empty_block 0 dc (omega arith)
      ∙ omega (arith, zero_sum, odd-parts dc, ap odd_ℤ (zeros 64 0));
  clear = λ k lo hi.
      get_or-set_ne empty_block 0 (places dec k) dc (pos 0)
        (λ e. (scan-inj dec 0 k (omega arith) hi (omega arith)).1 (first_place dec ∙ e))
      ∙ zeros 64 (places dec k);
}

finish_intra-odd : (dec : Decoder) (bs : Bits) (dc : ℤ) → odd_ℤ (sum (finish_intra dec bs dc).1) ≡ 1
unfolding finish_intra
finish_intra-odd dec bs dc =
    flipped (intra_loop 64 dec 1 (odd_ℤ dc) bs (set empty_block 0 dc))
      (intra_loop-Even 64 dec 1 (odd_ℤ dc) bs (set empty_block 0 dc) (start-IsTracked dec dc))
  where
    flipped : (s : State) → Even s → odd_ℤ (sum (if s.1 == 0 then flip_last s.3 else s.3)) ≡ 1
    flipped s e = elim (Bool-cases (s.1 == 0)) [
      | inl even ↦ rw even (ground (arith, odd-flip_last s.3 e.0, e.1))
      | inr odd ↦ rw odd (ground (arith, e.1, odd-parts (sum s.3)))
    ]

from_dc_size-odd :
    (dec : Decoder) (dc_pred : List ℤ) (c : ℕ) (p : Option ℕ × Bits) (s : ℕ)
    → p.0 ≡ some s
    → (block : List ℤ) × ((from_dc_size dec dc_pred c p).2 ≡ some block) × (odd_ℤ (sum block) ≡ 1)
unfolding from_dc_size
from_dc_size-odd dec dc_pred c (none, bs) s e = absurd (cc e)
from_dc_size-odd dec dc_pred c (some s', bs) s e = (
  _,
  refl,
  finish_intra-odd dec (decode_dc_differential bs s').1 (
      int16 (
        times (get_or (predict dc_pred c (decode_dc_differential bs s').0) c (pos 0))
          dec.intra_dc_mult)),
)

-- Whatever bits are decoded, decode_intra_block returns a block, and its coefficients have an odd
-- sum: the mismatch control, which sees only the levels as they come, is right about the block.
pub decode_intra_block-odd :
    (bs : Bits) (dec : Decoder) (dc_pred : List ℤ) (c : ℕ)
    → bs.bit_pos < 8
    → (block : List ℤ) × ((decode_intra_block bs dec dc_pred c).2 ≡ some block)
      × (odd_ℤ (sum block) ≡ 1)
unfolding decode_intra_block
decode_intra_block-odd bs dec dc_pred c b = elim (Bool-cases (c == 0)) [
  | inl luma ↦
      let t = (decode_dc_size_total bs b).0 in
      rw luma (from_dc_size-odd dec dc_pred c (decode_dc_size_luminance bs) t.0 t.1)
  | inr chroma ↦
      let t = (decode_dc_size_total bs b).1 in
      rw chroma (from_dc_size-odd dec dc_pred c (decode_dc_size_chrominance bs) t.0 t.1)
]
