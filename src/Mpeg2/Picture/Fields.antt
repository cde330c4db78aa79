-- ===== src/Mpeg2/Picture/Fields.antt =====
-- The headers that the parsers read, field by field, from the bits of the buffer.
use haiku_vaio_vpceb3k1e.Prelude.{
  ℕ, ◌+◌, ◌≤◌, ◌<◌, ◌≡◌, refl, ap, ◌∙◌, Bool, true, false, some, ◌==◌, le→leb, arith,
}
use haiku_vaio_vpceb3k1e.Mpeg2.Bits.{Bits, read, peek, skip, available}
use haiku_vaio_vpceb3k1e.Mpeg2.Bits.Value.{value}
use haiku_vaio_vpceb3k1e.Mpeg2.Bits.Read.{position, total}
use haiku_vaio_vpceb3k1e.Mpeg2.Bits.Laws.{IsInside, read-value, read-skip, available_lem, skip-skip}
use haiku_vaio_vpceb3k1e.Mpeg2.Picture.Extra.{extra_loop-stop}
use haiku_vaio_vpceb3k1e.Mpeg2.Picture.{
  skip_extra, skip_vector_codes, parse_picture_header, parse_picture_coding_extension,
}

-- The bits of a header as a number: `n` of them from the `o`-th behind the reader on.
abbrev pub field : Bits → ℕ → ℕ → ℕ
field bs o n = value bs.bytes (position bs + o) n

abbrev pub flag : Bits → ℕ → Bool
flag bs o = field bs o 1 == 1

module _ (bs : Bits) (v : IsInside bs) (room : position bs + 30 ≤ total bs) where
  enough : (n : ℕ) → n ≤ 30 → available bs n ≡ true
  enough n le = available_lem bs n v ∙ le→leb n _ (omega arith)

  first : (n : ℕ) → n ≤ 30 → read bs n ≡ (field bs 0 n, skip bs n)
  first n le =
      read-value bs n v (omega arith) (omega arith)
      ∙ ap (λ k. (k, skip bs n)) (ap (λ p. value bs.bytes p n) (omega arith))

  next : (o n : ℕ) → o + n ≤ 30 → read (skip bs o) n ≡ (field bs o n, skip bs (o + n))
  next o n le = read-skip bs o n v (omega arith) (omega arith)

  -- With 30 bits in the buffer, mpeg2_parse_picture_coding_extension succeeds, its fields are the
  -- numbers that the 26 bits from the reader on stand for, in their order, progressive_frame is
  -- false, and the reader goes over these 26 bits.
  pub parse_picture_coding_extension_lem : parse_picture_coding_extension bs ≡ (
    some (record {
      forward_h = field bs 0 4;
      forward_v = field bs 4 4;
      backward_h = field bs 8 4;
      backward_v = field bs 12 4;
      intra_dc_precision = field bs 16 2;
      picture_structure = field bs 18 2;
      top_field_first = flag bs 20;
      frame_pred_frame_dct = flag bs 21;
      concealment_motion_vectors = flag bs 22;
      q_scale_type = flag bs 23;
      intra_vlc_format = flag bs 24;
      alternate_scan = flag bs 25;
      progressive_frame = false;
    }),
    skip bs 26,
  )
  unfolding parse_picture_coding_extension
  parse_picture_coding_extension_lem =
      rw
        (
          enough 30 (omega arith),
          first 4 (omega arith),
          next 4 4 (omega arith),
          next 8 4 (omega arith),
          next 12 4 (omega arith),
          next 16 2 (omega arith),
          next 18 2 (omega arith),
          next 20 1 (omega arith),
          next 21 1 (omega arith),
          next 22 1 (omega arith),
          next 23 1 (omega arith),
          next 24 1 (omega arith),
          next 25 1 (omega arith),
        )
        refl

  -- The extra information is over at a bit of 0.
  skip_extra-none : (o : ℕ) → o < 30 → field bs o 1 ≡ 0 → skip_extra (skip bs o) ≡ skip bs (o + 1)
  unfolding skip_extra peek
  skip_extra-none o lt zero_bit =
      ap (λ (b : Bits). skip b 1) (extra_loop-stop _ (skip bs o) (ground (arith, shown)))
      ∙ skip-skip bs o 1 (omega (arith, v.small))
    where
      shown : peek (skip bs o) 1 ≡ 0
      shown = ap (λ (r : ℕ × Bits). r.0) (next o 1 (omega arith)) ∙ zero_bit

  -- With 30 bits in the buffer, mpeg2_parse_picture_header of an I picture with no extra information
  -- reads the 10, 3 and 16 bits of its fields and goes over these and the bit 0 behind them.
  pub parse_picture_header-intra :
      field bs 10 3 ≡ 1
      → field bs 29 1 ≡ 0
      → parse_picture_header bs ≡ (
        some (record {
          temporal_reference = field bs 0 10;
          picture_coding_type = 1;
          vbv_delay = field bs 13 16;
        }),
        skip bs 30,
      )
  unfolding parse_picture_header skip_vector_codes
  parse_picture_header-intra intra no_extra =
      rw
        (
          enough 29 (omega arith),
          first 10 (omega arith),
          next 10 3 (omega arith),
          next 13 16 (omega arith),
          intra,
        )
        (ap
          (λ (b : Bits). (
            some (record {
              temporal_reference = field bs 0 10;
              picture_coding_type = 1;
              vbv_delay = field bs 13 16;
            }),
            b,
          ))
          (skip_extra-none 29 (omega arith) no_extra))
