-- ===== src/Mpeg2/Headers.antt =====
-- The header parsers of mpeg2_parser.cpp and what follows from the headers: the quantiser scale, the
-- multiplier of DC coefficients and the size of the picture in macroblocks.
pub mod Sizes
use haiku_vaio_vpceb3k1e.Prelude.{
  ℕ, zero, suc, ◌+◌, ◌-◌, ◌*◌, ◌/◌, ◌%◌, ◌^◌, bit_and, Bool, true, false, not, ◌&&◌, ◌||◌, Option,
  none, some, List, [], ◌∷◌, if◌then◌else◌, ◌==◌, set, get_or, replicate,
}
use haiku_vaio_vpceb3k1e.Mpeg2.Bits.{Bits, read, peek, skip, available}
use haiku_vaio_vpceb3k1e.Mpeg2.ScanOrder.{zigzag_scan, default_intra_matrix, non_linear_scale}

-- `mpeg2_sequence_header`.
pub record SequenceHeader : Type 0 where
  pub width : ℕ
  pub height : ℕ
  pub aspect_ratio_info : ℕ
  pub frame_rate_code : ℕ
  pub bit_rate : ℕ
  pub vbv_buffer_size : ℕ
  pub load_intra_quantiser_matrix : Bool
  pub load_non_intra_quantiser_matrix : Bool
  pub intra_matrix : List ℕ
  pub non_intra_matrix : List ℕ

-- The loop that reads a matrix in zigzag order: `n` bytes from index `i` on.
unfoldable pub read_matrix : ℕ → ℕ → Bits → List ℕ → List ℕ × Bits
unfolding read
read_matrix zero i bs matrix = (matrix, bs)
read_matrix (suc n) i bs matrix =
    let (v, next) = read bs 8 in read_matrix n (i + 1) next (set matrix (get_or zigzag_scan i 0) v)

-- A flag, and the matrix that it announces over the old one, or the default.
unfoldable pub load_matrix : List ℕ → List ℕ → Bits → Bool × List ℕ × Bits
unfolding read read_matrix
load_matrix old default bs =
    let (flag, next) = read bs 1 in
    let (matrix, behind) = read_matrix 64 0 next old in
    if flag == 1 then (true, matrix, behind) else (false, default, next)

-- `none` is B_BAD_DATA; the header given is the one that is written over.
unfoldable pub parse_sequence_header : Bits → SequenceHeader → Option SequenceHeader × Bits
unfolding available read skip load_matrix
parse_sequence_header bs seq =
    if available bs 64
    then (let (width, b1) = read bs 12 in
        let (height, b2) = read b1 12 in
        let (aspect_ratio_info, b3) = read b2 4 in
        let (frame_rate_code, b4) = read b3 4 in
        let (bit_rate, b5) = read b4 18 in
        let (vbv_buffer_size, b6) = read (skip b5 1) 10 in
        let (load_intra, intra, b7) =
          load_matrix seq.intra_matrix default_intra_matrix (skip b6 1) in
        let (load_non_intra, non_intra, b8) =
          load_matrix seq.non_intra_matrix (replicate 64 16) b7 in
        (
          some (record {
            width = width;
            height = height;
            aspect_ratio_info = aspect_ratio_info;
            frame_rate_code = frame_rate_code;
            bit_rate = bit_rate;
            vbv_buffer_size = vbv_buffer_size;
            load_intra_quantiser_matrix = load_intra;
            load_non_intra_quantiser_matrix = load_non_intra;
            intra_matrix = intra;
            non_intra_matrix = non_intra;
          }),
          b8,
        ))
    else (none, bs)

unfoldable pub compute_quantiser_scale : ℕ → Bool → ℕ
compute_quantiser_scale q_scale_code q_scale_type =
    if q_scale_code == 0
    then 1
    else if not q_scale_type
    then q_scale_code * 2
    else get_or non_linear_scale q_scale_code 0

unfoldable pub compute_intra_dc_mult : ℕ → ℕ
compute_intra_dc_mult intra_dc_precision = 8 / 2 ^ intra_dc_precision

-- `mb_width`, `mb_height` and `mb_count` as `mpeg2_decoder_init` sets them, in 32 bits.
unfoldable pub macroblocks : SequenceHeader → ℕ × ℕ × ℕ
macroblocks seq =
    let w = (seq.width + 15) % 2 ^ 32 / 16 in
    let h = (seq.height + 15) % 2 ^ 32 / 16 in (w, h, w * h % 2 ^ 32)
