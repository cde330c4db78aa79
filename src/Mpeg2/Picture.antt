-- ===== src/Mpeg2/Picture.antt =====
-- The headers of a picture and of a slice in mpeg2_parser.cpp: mpeg2_parse_picture_header,
-- mpeg2_parse_picture_coding_extension and mpeg2_parse_slice_header.
pub mod Extra
pub mod Fields
use haiku_vaio_vpceb3k1e.Prelude.{
  ℕ, zero, suc, ◌+◌, ◌*◌, bit_and, Bool, true, false, ◌&&◌, ◌||◌, Option, none, some, if◌then◌else◌,
  ◌==◌,
}
use haiku_vaio_vpceb3k1e.Mpeg2.Bits.{Bits, read, peek, skip, available}

abbrev pub p_picture : ℕ
p_picture = 2

abbrev pub b_picture : ℕ
b_picture = 3

-- `mpeg2_picture_header`.
pub record PictureHeader : Type 0 where
  pub temporal_reference : ℕ
  pub picture_coding_type : ℕ
  pub vbv_delay : ℕ

-- `mpeg2_picture_coding_extension`; an f_code is named by its direction and axis.
pub record PictureCodingExtension : Type 0 where
  pub forward_h : ℕ
  pub forward_v : ℕ
  pub backward_h : ℕ
  pub backward_v : ℕ
  pub intra_dc_precision : ℕ
  pub picture_structure : ℕ
  pub top_field_first : Bool
  pub frame_pred_frame_dct : Bool
  pub concealment_motion_vectors : Bool
  pub q_scale_type : Bool
  pub intra_vlc_format : Bool
  pub alternate_scan : Bool
  pub progressive_frame : Bool

-- `mpeg2_slice_header`.
pub record SliceHeader : Type 0 where
  pub slice_vertical_position : ℕ
  pub quantiser_scale_code : ℕ

-- The test of the loop over the extra information.
abbrev pub more_extra : Bits → Bool
more_extra bs = available bs 1 && peek bs 1 == 1

-- The loop, and behind it the last skip. Each round goes over nine bits.
unfoldable pub extra_loop : ℕ → Bits → Bits
unfolding available peek skip
extra_loop zero bs = bs
extra_loop (suc fuel) bs = elim (more_extra bs) [ true ↦ extra_loop fuel (skip bs 9) | false ↦ bs ]

unfoldable pub skip_extra : Bits → Bits
unfolding extra_loop skip
skip_extra bs = skip (extra_loop (bs.size * 8) bs) 1

-- The full_pel flags and f_codes of P and B pictures, which are passed over.
unfoldable pub skip_vector_codes : ℕ → Bits → Bits
unfolding skip
skip_vector_codes coding_type bs =
    let forward = if coding_type == p_picture || coding_type == b_picture then skip bs 4 else bs in
    if coding_type == b_picture then skip forward 4 else forward

-- `none` is B_BAD_DATA.
unfoldable pub parse_picture_header : Bits → Option PictureHeader × Bits
unfolding available read skip_vector_codes skip_extra
parse_picture_header bs =
    if available bs 29
    then (let (temporal_reference, b1) = read bs 10 in
        let (picture_coding_type, b2) = read b1 3 in
        let (vbv_delay, b3) = read b2 16 in
        (
          some (record {
            temporal_reference = temporal_reference;
            picture_coding_type = picture_coding_type;
            vbv_delay = vbv_delay;
          }),
          skip_extra (skip_vector_codes picture_coding_type b3),
        ))
    else (none, bs)

-- A field of one bit.
abbrev pub read_flag : Bits → Bool × Bits
read_flag bs = let (v, next) = read bs 1 in (v == 1, next)

unfoldable pub parse_picture_coding_extension : Bits → Option PictureCodingExtension × Bits
unfolding available read
parse_picture_coding_extension bs =
    if available bs 30
    then (let (forward_h, b1) = read bs 4 in
        let (forward_v, b2) = read b1 4 in
        let (backward_h, b3) = read b2 4 in
        let (backward_v, b4) = read b3 4 in
        let (intra_dc_precision, b5) = read b4 2 in
        let (picture_structure, b6) = read b5 2 in
        let (top_field_first, b7) = read_flag b6 in
        let (frame_pred_frame_dct, b8) = read_flag b7 in
        let (concealment_motion_vectors, b9) = read_flag b8 in
        let (q_scale_type, b10) = read_flag b9 in
        let (intra_vlc_format, b11) = read_flag b10 in
        let (alternate_scan, b12) = read_flag b11 in
        (
          some (record {
            forward_h = forward_h;
            forward_v = forward_v;
            backward_h = backward_h;
            backward_v = backward_v;
            intra_dc_precision = intra_dc_precision;
            picture_structure = picture_structure;
            top_field_first = top_field_first;
            frame_pred_frame_dct = frame_pred_frame_dct;
            concealment_motion_vectors = concealment_motion_vectors;
            q_scale_type = q_scale_type;
            intra_vlc_format = intra_vlc_format;
            alternate_scan = alternate_scan;
            progressive_frame = false;
          }),
          b12,
        ))
    else (none, bs)

-- The position is set also where too few bits are left; the flag says whether the rest was read.
unfoldable pub parse_slice_header : Bits → ℕ → SliceHeader → Bool × SliceHeader × Bits
unfolding available read skip_extra
parse_slice_header bs slice_code slice =
    let placed = record slice { slice_vertical_position = bit_and slice_code 0xff } in
    if available bs 6
    then (let (code, next) = read bs 5 in
        (true, record placed { quantiser_scale_code = code }, skip_extra next))
    else (false, placed, bs)
