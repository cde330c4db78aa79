-- ===== src/Mpeg2/Ac/Decode.antt =====
-- Every code of tables B-14 and B-15 but two is decoded to what the table gives for it.
use haiku_vaio_vpceb3k1e.Prelude.{
  ℕ, ◌+◌, ◌-◌, ◌*◌, ◌/◌, ◌^◌, ◌≤◌, ◌<◌, ◌≡◌, ◌≢◌, refl, ap, ◌∙◌, sym, Bool, true, false, ◌&&◌, ◌||◌,
  Option, none, some, arith, leb, ◌==◌, ==_iff, get_elem?, not, all_below, all_below_sound, subst,
  le→leb, ==-ne,
}
use haiku_vaio_vpceb3k1e.Mpeg2.Bits.{Bits, peek, skip, available}
use haiku_vaio_vpceb3k1e.Mpeg2.Bits.Value.{value, value-lt, value-add}
use haiku_vaio_vpceb3k1e.Mpeg2.Bits.Read.{position, total}
use haiku_vaio_vpceb3k1e.Mpeg2.Bits.Laws.{IsInside, peek-value, available_lem}
use haiku_vaio_vpceb3k1e.Mpeg2.Vlc.Code.{Entry, entry, Symbol, search, matches}
use haiku_vaio_vpceb3k1e.Mpeg2.Vlc.Prefix.{search_lem, is_clear, is_clear-fits}
use haiku_vaio_vpceb3k1e.Mpeg2.Vlc.AcB14.{ac_table_b14}
use haiku_vaio_vpceb3k1e.Mpeg2.Vlc.AcB15.{ac_table_b15}
use haiku_vaio_vpceb3k1e.Mpeg2.Vlc.Tables.{is_clear-b14, is_clear-b15}
use haiku_vaio_vpceb3k1e.Mpeg2.Ac.{
  decode_symbol, skips_eob, skips_nothing, decode_ac_coeff_b14, decode_ac_coeff_b15,
}

div-top : (a r m : ℕ) → r < m → (a * m + r) / m ≡ a
div-top a r m h = grind arith

-- The first bits of a code, which the reader stands at.
pub value-top :
    (bs : Bits) (m len code : ℕ)
    → m ≤ len
    → value bs.bytes (position bs) len ≡ code
    → code / 2 ^ (len - m) ≡ value bs.bytes (position bs) m
value-top bs m len code le e =
    ap (λ (t : ℕ). t / 2 ^ (len - m))
      (sym e
        ∙ ap (value bs.bytes (position bs)) split
        ∙ value-add bs.bytes (position bs) m (len - m))
    ∙ div-top _ _ (2 ^ (len - m)) (value-lt bs.bytes (position bs + m) (len - m))
  where
    split : len ≡ m + (len - m)
    split = omega arith

-- The top of a window of `w` bits is the number that the first bits stand for.
pub matches-window :
    {S : Type 0} (bs : Bits) (w code len : ℕ) (s : S)
    → bs.bit_pos < 8
    → w ≤ 32
    → position bs + w ≤ total bs
    → len ≤ w
    → value bs.bytes (position bs) len ≡ code
    → matches w (peek bs w) (entry code len s) ≡ true
matches-window bs w code len s b small room fits e =
    (==_iff _ _).1 (value-top bs len w (peek bs w) fits (sym (peek-value bs w b small room)) ∙ e)

-- What the tests before the search see of entry `i` of table B-14.
head_test : ℕ → Option (Entry Symbol) → Bool
head_test i none = false
head_test i (some (entry c l s)) =
    leb 2 l
    && leb l 17
    && not (skips_eob s)
    && not (c / 2 ^ (l - 2) == 2)
    && (i == 1 || not (c / 2 ^ (l - 1) == 1))

heads : all_below 113 (λ i. i == 0 || head_test i (get_elem? ac_table_b14 i)) ≡ true
unfolding all_below head_test
heads = refl

record HasHead (i code len : ℕ) (s : Symbol) : Type 0 where
  two_bits : 2 ≤ len
  fits : len ≤ 17
  kept : skips_eob s ≡ false
  not_eob : code / 2 ^ (len - 2) ≢ 2
  not_one : i ≢ 1 → code / 2 ^ (len - 1) ≢ 1

HasHead-of :
    (i code len : ℕ) (s : Symbol)
    → head_test i (some (entry code len s)) ≡ true
    → HasHead i code len s
unfolding head_test
HasHead-of i code len s h = record {
  two_bits = ground arith;
  fits = ground arith;
  kept = ground arith;
  not_eob = ground arith;
  not_one = λ ne. ground arith;
}

has_head :
    (i code len : ℕ) (s : Symbol)
    → i < 113
    → i ≢ 0
    → get_elem? ac_table_b14 i ≡ some (entry code len s)
    → HasHead i code len s
has_head i code len s lt ne at =
    HasHead-of i code len s (subst (λ o. head_test i o ≡ true) at is_head)
  where
    is_head : head_test i (get_elem? ac_table_b14 i) ≡ true
    is_head =
        ground (
          arith,
          all_below_sound 113 (λ j. j == 0 || head_test j (get_elem? ac_table_b14 j)) i heads,
        )

first_test :
    (first : Bool) (i : ℕ) (b : Bool)
    → first && i == 1 ≡ false
    → (i ≢ 1 → b ≡ false)
    → (first && b) ≡ false
first_test true i b h other = other (ground arith)
first_test false i b h other = refl

module _ (bs : Bits) (i code len : ℕ) (s : Symbol) (v : IsInside bs)
    (room : position bs + 17 ≤ total bs) (here : value bs.bytes (position bs) len ≡ code) where
  enough_bits : available bs 2 ≡ true
  enough_bits = available_lem bs 2 v ∙ le→leb _ _ (omega arith)

  -- A peek shows the first bits of the code.
  head : (m : ℕ) → m ≤ len → m ≤ 17 → peek bs m ≡ code / 2 ^ (len - m)
  head m le small =
      peek-value bs m v.aligned (omega arith) (omega arith) ∙ sym (value-top bs m len code le here)

  -- Standing at the code of entry `i` of table B-14 with 17 bits in the buffer,
  -- `decode_ac_coeff_b14` goes past the code and decodes its symbol. Entry 0 is the end of the
  -- block, and a first coefficient has another code for entry 1.
  pub decode_ac_coeff_b14_lem :
      (first : Bool)
      → i < 113
      → i ≢ 0
      → get_elem? ac_table_b14 i ≡ some (entry code len s)
      → first && i == 1 ≡ false
      → decode_ac_coeff_b14 bs first ≡ decode_symbol s (skip bs len)
  unfolding decode_ac_coeff_b14
  decode_ac_coeff_b14_lem first lt ne at not_first = rw (enough_bits, two, one, found)
    where
      h : HasHead i code len s
      h = has_head i code len s lt ne at

      two : (peek bs 2 == 2) ≡ false
      two = ==-ne _ _ (λ e. h.not_eob (sym (head 2 h.two_bits (omega arith)) ∙ e))

      one_bit : i ≢ 1 → (peek bs 1 == 1) ≡ false
      one_bit other =
          ==-ne _ _
            (λ e. h.not_one other (sym (head 1 (omega (arith, h.two_bits)) (omega arith)) ∙ e))

      one : (first && peek bs 1 == 1) ≡ false
      one = first_test first i _ not_first one_bit

      found : search skips_eob 17 (peek bs 17) ac_table_b14 ≡ some (entry code len s)
      found =
          search_lem skips_eob 17 (peek bs 17) ac_table_b14 i (entry code len s) (is_clear-b14 i lt)
            at h.kept (matches-window bs 17 code len s v.aligned (omega arith) room h.fits here)

  -- Table B-15 has no code before the search, and every entry but 13 and 14 is reached.
  pub decode_ac_coeff_b15_lem :
      i < 110
      → i ≢ 13
      → i ≢ 14
      → get_elem? ac_table_b15 i ≡ some (entry code len s)
      → decode_ac_coeff_b15 bs ≡ decode_symbol s (skip bs len)
  unfolding decode_ac_coeff_b15
  decode_ac_coeff_b15_lem lt ne ne' at = rw (enough_bits, found)
    where
      clear : is_clear 17 ac_table_b15 i ≡ true
      clear = is_clear-b15 i lt ne ne'

      fits : len ≤ 17
      fits = is_clear-fits 17 ac_table_b15 i (entry code len s) clear at

      found : search skips_nothing 17 (peek bs 17) ac_table_b15 ≡ some (entry code len s)
      found =
          search_lem skips_nothing 17 (peek bs 17) ac_table_b15 i (entry code len s) clear at refl
            (matches-window bs 17 code len s v.aligned (omega arith) room fits here)
