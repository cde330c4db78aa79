-- ===== src/Mpeg2/Headers/Sizes.antt =====
-- What the sequence header fixes: the numbers of macroblocks, and the scale of a macroblock.
use native.Mathlib.Nat.{mod-eq_of_lt, mul-le-mul}
use haiku_vaio_vpceb3k1e.Prelude.{
  ℕ, zero, suc, ◌+◌, ◌*◌, ◌/◌, ◌%◌, ◌^◌, ◌≤◌, ◌<◌, ◌≡◌, refl, ◌∙◌, Bool, true, false, ◌&&◌, some,
  List, arith, if◌then◌else◌, leb, ◌==◌, length, length-set, get_or, replicate, le→leb, Bool-cases,
  inl, inr, all_below, all_below_sound,
}
use haiku_vaio_vpceb3k1e.Mpeg2.Bits.{Bits, read, peek, available}
use haiku_vaio_vpceb3k1e.Mpeg2.Bits.Read.{position, total, read-Reads}
use haiku_vaio_vpceb3k1e.Mpeg2.Bits.Laws.{IsInside, peek-lt, available_lem}
use haiku_vaio_vpceb3k1e.Mpeg2.ScanOrder.{zigzag_scan, default_intra_matrix}
use haiku_vaio_vpceb3k1e.Mpeg2.Headers.{
  SequenceHeader, read_matrix, load_matrix, parse_sequence_header, compute_quantiser_scale,
  macroblocks,
}

scales :
    (all_below 32
        (λ c. leb 1 (compute_quantiser_scale c true) && leb (compute_quantiser_scale c true) 112)
      ≡ true)
    × (all_below 32
          (λ c. leb 1 (compute_quantiser_scale c false) && leb (compute_quantiser_scale c false) 62)
        ≡ true)
unfolding all_below compute_quantiser_scale
scales = (refl, refl)

-- For every 5-bit code the quantiser scale is positive, at most 62 on the linear scale and at most
-- 112 on the other.
pub compute_quantiser_scale-bounds :
    (code : ℕ) (q_scale_type : Bool)
    → code < 32
    → (1 ≤ compute_quantiser_scale code q_scale_type)
      × (compute_quantiser_scale code q_scale_type ≤ (if q_scale_type then 112 else 62))
compute_quantiser_scale-bounds code true lt = ground (arith, all_below_sound 32 _ code scales.0 lt)
compute_quantiser_scale-bounds code false lt = ground (arith, all_below_sound 32 _ code scales.1 lt)

length-read_matrix :
    (n i : ℕ) (bs : Bits) (matrix : List ℕ) → length (read_matrix n i bs matrix).0 ≡ length matrix
unfolding read_matrix
length-read_matrix zero i bs matrix = refl
length-read_matrix (suc n) i bs matrix =
    length-read_matrix n (i + 1) _ _ ∙ length-set matrix (get_or zigzag_scan i 0) (read bs 8).0

length-load_matrix :
    (old default : List ℕ) (bs : Bits)
    → length old ≡ 64
    → length default ≡ 64
    → length (load_matrix old default bs).1 ≡ 64
unfolding load_matrix
length-load_matrix old default bs ho hd = elim (Bool-cases ((read bs 1).0 == 1)) [
  | inl loaded ↦ rw loaded (length-read_matrix 64 0 (read bs 1).1 old ∙ ho)
  | inr kept ↦ rw kept hd
]

read-lt : (bs : Bits) (n : ℕ) → bs.bit_pos < 8 → n ≤ 32 → (read bs n).0 < 2 ^ n
unfolding peek
read-lt bs n b small = peek-lt bs n b small

-- A header as the parser leaves it: sizes of 12 bits and two matrices of 64 numbers.
pub record IsSized (seq : SequenceHeader) : Type 0 where
  pub width : seq.width < 2 ^ 12
  pub height : seq.height < 2 ^ 12
  pub intra : length seq.intra_matrix ≡ 64
  pub non_intra : length seq.non_intra_matrix ≡ 64

-- With 64 bits in the buffer, mpeg2_parse_sequence_header succeeds, whatever they are and whether or
-- not the matrices they announce are there: the sizes have 12 bits and both matrices 64 numbers.
pub parse_sequence_header-IsSized :
    (bs : Bits) (old : SequenceHeader)
    → IsInside bs
    → position bs + 64 ≤ total bs
    → length old.intra_matrix ≡ 64
    → length old.non_intra_matrix ≡ 64
    → (seq : SequenceHeader) × ((parse_sequence_header bs old).0 ≡ some seq) × IsSized seq
unfolding parse_sequence_header
parse_sequence_header-IsSized bs old v room hi hn =
    rw (parse_sequence_header, enough)
      (
        _,
        refl,
        record {
          width = read-lt bs 12 v.aligned (omega arith);
          height =
              read-lt (read bs 12).1 12 (read-Reads bs 12 (omega arith) v.aligned).aligned
                (omega arith);
          intra = length-load_matrix old.intra_matrix default_intra_matrix _ hi refl;
          non_intra = length-load_matrix old.non_intra_matrix (replicate 64 16) _ hn refl;
        },
      )
  where
    enough : available bs 64 ≡ true
    enough = available_lem bs 64 v ∙ le→leb 64 _ (omega arith)

product_le : (w h : ℕ) → w ≤ 256 → h ≤ 256 → w * h ≤ 256 * 256
product_le w h hw hh = mul-le-mul hw hh

small_count : (w h : ℕ) → w ≤ 256 → h ≤ 256 → w * h % 2 ^ 32 ≡ w * h
small_count w h hw hh = mod-eq_of_lt {n = w * h} {m = 2 ^ 32} (grind (arith, product_le w h hw hh))

-- The macroblocks of a parsed header cover the picture, with less than one to spare in each
-- direction, and their count does not go round.
pub macroblocks-cover :
    (seq : SequenceHeader)
    → IsSized seq
    → let (w, h, count) = macroblocks seq in
      (seq.width ≤ 16 * w)
      × (16 * w < seq.width + 16)
      × (seq.height ≤ 16 * h)
      × (16 * h < seq.height + 16)
      × (count ≡ w * h)
unfolding macroblocks
macroblocks-cover seq v = (
  omega (arith, v.width),
  omega (arith, v.width),
  omega (arith, v.height),
  omega (arith, v.height),
  small_count ((seq.width + 15) % 2 ^ 32 / 16) ((seq.height + 15) % 2 ^ 32 / 16)
      (omega (arith, v.width)) (omega (arith, v.height)),
)
