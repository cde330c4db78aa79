-- ===== src/Mpeg2/Dc/Sizes.antt =====
-- The ladders of the DC size decoders are tables B-12 and B-13, which are complete.
use haiku_vaio_vpceb3k1e.Prelude.{
  ℕ, ◌+◌, ◌^◌, ◌≤◌, ◌<◌, ◌≡◌, refl, ap, ◌∙◌, Bool, true, false, ◌&&◌, Option, none, some, List, [],
  ◌∷◌, arith, ◌==◌, leb, all_below, all_below_sound, get_elem?,
}
use haiku_vaio_vpceb3k1e.Mpeg2.Bits.{Bits, peek, skip}
use haiku_vaio_vpceb3k1e.Mpeg2.Bits.Value.{value}
use haiku_vaio_vpceb3k1e.Mpeg2.Bits.Read.{position, total}
use haiku_vaio_vpceb3k1e.Mpeg2.Bits.Laws.{peek-lt}
use haiku_vaio_vpceb3k1e.Mpeg2.Vlc.Code.{Entry, entry, search}
use haiku_vaio_vpceb3k1e.Mpeg2.Vlc.Prefix.{search_lem, is_clear, is_clear-fits}
use haiku_vaio_vpceb3k1e.Mpeg2.Ac.Decode.{matches-window}
use haiku_vaio_vpceb3k1e.Mpeg2.Dc.{
  Choice, luminance_ladder, chrominance_ladder, take_choice, decode_dc_size_luminance,
  decode_dc_size_chrominance,
}

-- Table B-12, as the comment above the decoder writes it.
abbrev pub dc_lum_size_tab : List (Entry ℕ)
dc_lum_size_tab =
    entry 0b100 3 0
    ∷ entry 0b00 2 1
    ∷ entry 0b01 2 2
    ∷ entry 0b101 3 3
    ∷ entry 0b110 3 4
    ∷ entry 0b1110 4 5
    ∷ entry 0b11110 5 6
    ∷ entry 0b111110 6 7
    ∷ entry 0b1111110 7 8
    ∷ entry 0b11111110 8 9
    ∷ entry 0b111111110 9 10
    ∷ entry 0b111111111 9 11
    ∷ []

-- Table B-13 of ISO/IEC 13818-2.
abbrev pub dc_chrom_size_tab : List (Entry ℕ)
dc_chrom_size_tab =
    entry 0b00 2 0
    ∷ entry 0b01 2 1
    ∷ entry 0b10 2 2
    ∷ entry 0b110 3 3
    ∷ entry 0b1110 4 4
    ∷ entry 0b11110 5 5
    ∷ entry 0b111110 6 6
    ∷ entry 0b1111110 7 7
    ∷ entry 0b11111110 8 8
    ∷ entry 0b111111110 9 9
    ∷ entry 0b1111111110 10 10
    ∷ entry 0b1111111111 10 11
    ∷ []

abbrev choice_of : Option (Entry ℕ) → Choice
choice_of none = none
choice_of (some (entry c l s)) = some (s, l)

abbrev same_choice : Choice → Choice → Bool
same_choice (some (s, l)) (some (s', l')) = s == s' && l == l'
same_choice _ _ = false

same_choice_sound : (a b : Choice) → same_choice a b ≡ true → a ≡ b
same_choice_sound none b h = cc
same_choice_sound (some (s, l)) none h = cc
same_choice_sound (some (s, l)) (some (s', l')) h = ground arith

abbrev by_table : ℕ → List (Entry ℕ) → ℕ → Choice
by_table w table window = choice_of (search (λ s. false) w window table)

luminance_table :
    all_below 512 (λ c. same_choice (luminance_ladder c) (by_table 9 dc_lum_size_tab c)) ≡ true
unfolding all_below luminance_ladder search
luminance_table = refl

chrominance_table :
    all_below 1024 (λ c. same_choice (chrominance_ladder c) (by_table 10 dc_chrom_size_tab c))
    ≡ true
unfolding all_below chrominance_ladder search
chrominance_table = refl

tables_clear :
    (all_below 12 (is_clear 9 dc_lum_size_tab) ≡ true)
    × (all_below 12 (is_clear 10 dc_chrom_size_tab) ≡ true)
unfolding all_below is_clear
tables_clear = (refl, refl)

choice-at :
    (ladder : ℕ → Choice) (w : ℕ) (table : List (Entry ℕ)) (bs : Bits) (i code len size : ℕ)
    → bs.bit_pos < 8
    → w ≤ 32
    → all_below (2 ^ w) (λ c. same_choice (ladder c) (by_table w table c)) ≡ true
    → is_clear w table i ≡ true
    → position bs + w ≤ total bs
    → get_elem? table i ≡ some (entry code len size)
    → value bs.bytes (position bs) len ≡ code
    → take_choice bs (ladder (peek bs w)) ≡ (some size, skip bs len)
choice-at ladder w table bs i code len size b small same clear room at here = ap (take_choice bs) (
    same_choice_sound _ _ (all_below_sound (2 ^ w) _ (peek bs w) same (peek-lt bs w b small))
    ∙ ap choice_of found)
  where
    fits : len ≤ w
    fits = is_clear-fits w table i (entry code len size) clear at

    found : search (λ s. false) w (peek bs w) table ≡ some (entry code len size)
    found =
        search_lem (λ s. false) w (peek bs w) table i (entry code len size) clear at refl
          (matches-window bs w code len size b small room fits here)

-- Standing at the code of a size in table B-12 with 9 bits in the buffer,
-- `decode_dc_size_luminance` returns that size and goes past the code.
pub decode_dc_size_luminance_lem :
    (bs : Bits) (i code len size : ℕ)
    → bs.bit_pos < 8
    → i < 12
    → position bs + 9 ≤ total bs
    → get_elem? dc_lum_size_tab i ≡ some (entry code len size)
    → value bs.bytes (position bs) len ≡ code
    → decode_dc_size_luminance bs ≡ (some size, skip bs len)
unfolding decode_dc_size_luminance
decode_dc_size_luminance_lem bs i code len size b lt room at here =
    choice-at luminance_ladder 9 dc_lum_size_tab bs i code len size b (omega arith) luminance_table
      (all_below_sound 12 _ i tables_clear.0 lt) room at here

-- Standing at the code of a size in table B-13 with 10 bits in the buffer,
-- `decode_dc_size_chrominance` returns that size and goes past the code.
pub decode_dc_size_chrominance_lem :
    (bs : Bits) (i code len size : ℕ)
    → bs.bit_pos < 8
    → i < 12
    → position bs + 10 ≤ total bs
    → get_elem? dc_chrom_size_tab i ≡ some (entry code len size)
    → value bs.bytes (position bs) len ≡ code
    → decode_dc_size_chrominance bs ≡ (some size, skip bs len)
unfolding decode_dc_size_chrominance
decode_dc_size_chrominance_lem bs i code len size b lt room at here =
    choice-at chrominance_ladder 10 dc_chrom_size_tab bs i code len size b (omega arith)
      chrominance_table (all_below_sound 12 _ i tables_clear.1 lt) room at here

abbrev is_size : Choice → Bool
is_size none = false
is_size (some (size, len)) = leb size 11

ladders_total :
    (all_below 512 (λ c. is_size (luminance_ladder c)) ≡ true)
    × (all_below 1024 (λ c. is_size (chrominance_ladder c)) ≡ true)
unfolding all_below luminance_ladder chrominance_ladder
ladders_total = (refl, refl)

taken-size :
    (bs : Bits) (c : Choice)
    → is_size c ≡ true
    → (s : ℕ) × ((take_choice bs c).0 ≡ some s) × (s ≤ 11)
taken-size bs none h = cc
taken-size bs (some (size, len)) h = (size, refl, ground arith)

-- Whatever stands at the reader, also at the end of the buffer, both decoders return a size of at
-- most 11: their error results are never returned.
pub decode_dc_size_total :
    (bs : Bits)
    → bs.bit_pos < 8
    → ((s : ℕ) × ((decode_dc_size_luminance bs).0 ≡ some s) × (s ≤ 11))
      × ((s : ℕ) × ((decode_dc_size_chrominance bs).0 ≡ some s) × (s ≤ 11))
unfolding decode_dc_size_luminance decode_dc_size_chrominance
decode_dc_size_total bs b = (
  taken-size bs _ (
      all_below_sound 512 (λ c. is_size (luminance_ladder c)) (peek bs 9) ladders_total.0
        (peek-lt bs 9 b (omega arith))),
  taken-size bs _ (
      all_below_sound 1024 (λ c. is_size (chrominance_ladder c)) (peek bs 10) ladders_total.1
        (peek-lt bs 10 b (omega arith))),
)
