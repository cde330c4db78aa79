-- ===== src/Mpeg2/Motion/Range.antt =====
-- The motion vectors of mpeg2_parser.cpp stay in the range that their f_code sets.
use native.Mathlib.Nat.{pow-le-pow_right, one-le-pow}
use haiku_vaio_vpceb3k1e.Prelude.{
  ℕ, zero, suc, ◌+◌, ◌-◌, ◌*◌, ◌/◌, ◌^◌, ◌≤◌, ◌<◌, ◌≡◌, refl, sym, subst, Bool, true, false, not,
  ◌&&◌, Option, none, some, List, [], ◌∷◌, if◌then◌else◌, arith, ltb, leb, ◌==◌, Bool-cases, inl,
  inr,
}
use haiku_vaio_vpceb3k1e.Prelude.Bits.{pow-add}
use haiku_vaio_vpceb3k1e.Prelude.Int.{
  ℤ, pos, negsuc, pos_part, neg_part, ◌+ℤ◌, ◌-ℤ◌, to_word, of_word,
}
use haiku_vaio_vpceb3k1e.Mpeg2.Bits.{Bits, read, peek, skip}
use haiku_vaio_vpceb3k1e.Mpeg2.Ac.{is_zero_ℤ}
use haiku_vaio_vpceb3k1e.Mpeg2.Bits.Read.{read-Reads}
use haiku_vaio_vpceb3k1e.Mpeg2.Bits.Laws.{peek-lt}
use haiku_vaio_vpceb3k1e.Mpeg2.Motion.{
  motion_codes, first_code, signed_code, take_motion_code, decode_motion_code, motion_delta,
  wrap_once, move_vector, decode_motion_vector,
}

-- From -range to range - 1.
abbrev pub InRange : ℕ → ℤ → Type 0
InRange range x = (pos_part x < range) × (neg_part x ≤ range)

abbrev Near : ℕ → ℤ → Type 0
Near m x = (pos_part x ≤ m) × (neg_part x ≤ m)

wrap_once-InRange :
    (range : ℕ) (q : ℤ)
    → 0 < range
    → pos_part q < 2 * range
    → neg_part q ≤ 2 * range
    → InRange range (wrap_once range q)
unfolding wrap_once ◌+ℤ◌ ◌-ℤ◌
wrap_once-InRange range (pos n) big hp hn = ground arith
wrap_once-InRange range (negsuc n) big hp hn = ground arith

sum-Near :
    (range : ℕ) (p d : ℤ)
    → InRange range p
    → Near range d
    → (pos_part (p +ℤ d) < 2 * range) × (neg_part (p +ℤ d) ≤ 2 * range)
unfolding ◌+ℤ◌
sum-Near range p d hp hd = ground arith

cast-InRange :
    (range : ℕ) (x : ℤ) → range ≤ 2 ^ 15 → InRange range x → of_word 16 (to_word 16 x) ≡ x
cast-InRange range (pos n) le h = ground arith
cast-InRange range (negsuc n) le h = ground arith

times_le : (n m k : ℕ) → n ≤ m → n * k ≤ m * k
times_le n m k h = grind arith

motion_delta-Near :
    (mc : ℤ) (residual r_size : ℕ)
    → Near 16 mc
    → residual < 2 ^ r_size
    → Near (2 ^ r_size * 16) (motion_delta mc residual r_size)
unfolding motion_delta
motion_delta-Near (pos zero) residual r_size h lt = omega arith
motion_delta-Near (pos (suc n)) residual r_size h lt = grind (arith, times_le n 15 (2 ^ r_size))
motion_delta-Near (negsuc n) residual r_size h lt = grind (arith, times_le n 15 (2 ^ r_size))

abbrev all_small : List (ℕ × ℕ × ℕ) → Bool
all_small [] = true
all_small ((len, code, mc) ∷ rest) = leb 1 mc && leb mc 16 && all_small rest

abbrev SmallCode : Option (ℕ × ℕ) → Type 0
SmallCode none = Unit {0}
SmallCode (some (len, mc)) = (1 ≤ mc) × (mc ≤ 16)

abbrev SmallMotion : Option ℤ → Type 0
SmallMotion none = Unit {0}
SmallMotion (some mc) = Near 16 mc

-- Every magnitude in the tests is from 1 to 16.
first_code-SmallCode :
    (window : ℕ) (codes : List (ℕ × ℕ × ℕ))
    → all_small codes ≡ true
    → SmallCode (first_code window codes)
unfolding first_code
first_code-SmallCode window [] small = tt
first_code-SmallCode window ((l, code, m) ∷ rest) small =
    elim (Bool-cases (window / 2 ^ (12 - l) == code)) [
      | inl hit ↦ rw hit (ground arith)
      | inr miss ↦ rw miss (first_code-SmallCode window rest (ground arith))
    ]

aligned-skip : (bs : Bits) (n : ℕ) → (skip bs n).bit_pos < 8
unfolding skip
aligned-skip bs n = omega arith

signed_code-Near : (sign mc : ℕ) → 1 ≤ mc → mc ≤ 16 → Near 16 (signed_code sign mc)
signed_code-Near sign mc lo hi = ground arith

take_motion_code-small :
    (bs : Bits) (o : Option (ℕ × ℕ))
    → bs.bit_pos < 8
    → SmallCode o
    → SmallMotion (take_motion_code bs o).0 × ((take_motion_code bs o).1.bit_pos < 8)
unfolding take_motion_code
take_motion_code-small bs none b small = (tt, b)
take_motion_code-small bs (some (len, mc)) b small = (
  signed_code-Near _ mc small.0 small.1,
  (read-Reads (skip bs len) 1 (omega arith) (aligned-skip bs len)).aligned,
)

decode_motion_code-small :
    (bs : Bits)
    → bs.bit_pos < 8
    → SmallMotion (decode_motion_code bs).0 × ((decode_motion_code bs).1.bit_pos < 8)
unfolding decode_motion_code
decode_motion_code-small bs b = elim (Bool-cases (peek bs 1 == 1)) [
  | inl zero_code ↦ rw zero_code ((omega arith, omega arith), aligned-skip bs 1)
  | inr other ↦
      rw other (take_motion_code-small bs _ b (first_code-SmallCode (peek bs 12) motion_codes refl))
]

-- The residual has at most `r_size` bits.
residual-lt :
    (bs : Bits) (r_size : ℕ) (reads : Bool)
    → bs.bit_pos < 8
    → r_size ≤ 32
    → (if reads then read bs r_size else (0, bs)).0 < 2 ^ r_size
unfolding peek
residual-lt bs r_size true b small = peek-lt bs r_size b small
residual-lt bs r_size false b small = one-le-pow r_size 2 (omega arith)

move_vector-InRange :
    (p : Option ℤ × Bits) (mv_pred : ℤ) (f_code : ℕ)
    → SmallMotion p.0
    → p.1.bit_pos < 8
    → f_code ≤ 12
    → InRange (2 ^ (f_code - 1 + 4)) mv_pred
    → InRange (2 ^ (f_code - 1 + 4)) (move_vector p mv_pred f_code).0
unfolding move_vector
move_vector-InRange (none, bs) mv_pred f_code small b le h = h
move_vector-InRange (some mc, bs) mv_pred f_code small b le h =
    subst (InRange range) (sym (cast-InRange range _ fits wrapped)) wrapped
  where
    range : ℕ
    range = 2 ^ (f_code - 1 + 4)

    fits : range ≤ 2 ^ 15
    fits = pow-le-pow_right {n = 2} (omega arith) {j = 15} (omega arith)

    residual : ℕ
    residual =
        (if ltb 0 (f_code - 1) && not (is_zero_ℤ mc) then read bs (f_code - 1) else (0, bs)).0

    delta : ℤ
    delta = motion_delta mc residual (f_code - 1)

    near : Near range delta
    near =
        subst (λ k. Near k delta) (sym (pow-add 2 (f_code - 1) 4))
          (motion_delta-Near mc residual (f_code - 1) small
            (residual-lt bs (f_code - 1) _ b (omega arith)))

    sums : (pos_part (mv_pred +ℤ delta) < 2 * range) × (neg_part (mv_pred +ℤ delta) ≤ 2 * range)
    sums = sum-Near range mv_pred delta h near

    wrapped : InRange range (wrap_once range (mv_pred +ℤ delta))
    wrapped =
        wrap_once-InRange range (mv_pred +ℤ delta) (one-le-pow (f_code - 1 + 4) 2 (omega arith))
          sums.0 sums.1

-- For an f_code from 1 to 12, decode_motion_vector keeps the predictor in the range of that f_code,
-- from -16 * 2 ^ (f_code - 1) to one below the opposite, whatever bits it decodes: the sum is wrapped
-- once and the conversion to 16 bits changes nothing.
pub decode_motion_vector-InRange :
    (bs : Bits) (mv_pred : ℤ) (f_code : ℕ)
    → bs.bit_pos < 8
    → 1 ≤ f_code
    → f_code ≤ 12
    → InRange (2 ^ (f_code - 1 + 4)) mv_pred
    → InRange (2 ^ (f_code - 1 + 4)) (decode_motion_vector bs mv_pred f_code).0
unfolding decode_motion_vector
decode_motion_vector-InRange bs mv_pred f_code b lo le h =
    let c = decode_motion_code-small bs b in
    move_vector-InRange (decode_motion_code bs) mv_pred f_code c.0 c.1 le h

move_vector-aligned :
    (p : Option ℤ × Bits) (mv_pred : ℤ) (f_code : ℕ)
    → p.1.bit_pos < 8
    → f_code ≤ 12
    → (move_vector p mv_pred f_code).1.bit_pos < 8
unfolding move_vector
move_vector-aligned (none, bs) mv_pred f_code b le = b
move_vector-aligned (some mc, bs) mv_pred f_code b le =
    reads (ltb 0 (f_code - 1) && not (is_zero_ℤ mc))
  where
    reads : (c : Bool) → (if c then read bs (f_code - 1) else (0, bs)).1.bit_pos < 8
    reads true = (read-Reads bs (f_code - 1) (omega arith) b).aligned
    reads false = b

-- The reader stays aligned.
pub decode_motion_vector-aligned :
    (bs : Bits) (mv_pred : ℤ) (f_code : ℕ)
    → bs.bit_pos < 8
    → f_code ≤ 12
    → (decode_motion_vector bs mv_pred f_code).1.bit_pos < 8
unfolding decode_motion_vector
decode_motion_vector-aligned bs mv_pred f_code b le =
    move_vector-aligned (decode_motion_code bs) mv_pred f_code (decode_motion_code-small bs b).1 le
