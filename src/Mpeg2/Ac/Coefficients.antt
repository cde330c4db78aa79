-- ===== src/Mpeg2/Ac/Coefficients.antt =====
-- The AC coefficient decoders, from the bits in the buffer to the run and the level.
use haiku_vaio_vpceb3k1e.Prelude.{
  ℕ, ◌+◌, ◌≤◌, ◌<◌, ◌≡◌, ◌≢◌, refl, subst, ◌∙◌, ◌⊎◌, inl, inr, sym, Bool, false, some, ◌&&◌, arith,
  ◌==◌, get_elem?,
}
use haiku_vaio_vpceb3k1e.Mpeg2.Bits.{Bits, skip}
use haiku_vaio_vpceb3k1e.Mpeg2.Bits.Value.{value}
use haiku_vaio_vpceb3k1e.Mpeg2.Bits.Read.{position, total}
use haiku_vaio_vpceb3k1e.Mpeg2.Bits.Laws.{IsInside}
use haiku_vaio_vpceb3k1e.Mpeg2.Vlc.Code.{entry, escape, coefficient}
use haiku_vaio_vpceb3k1e.Mpeg2.Vlc.AcB14.{ac_table_b14}
use haiku_vaio_vpceb3k1e.Mpeg2.Vlc.AcB15.{ac_table_b15}
use haiku_vaio_vpceb3k1e.Mpeg2.Ac.{run_level, signed, decode_ac_coeff_b14, decode_ac_coeff_b15}
use haiku_vaio_vpceb3k1e.Mpeg2.Ac.Decode.{
  value-top, decode_ac_coeff_b14_lem, decode_ac_coeff_b15_lem,
}
use haiku_vaio_vpceb3k1e.Mpeg2.Ac.Symbols.{escaped, decode_symbol-coefficient, decode_symbol-escape}

coefficient-ne-zero :
    (i code len run level : ℕ)
    → get_elem? ac_table_b14 i ≡ some (entry code len (coefficient run level))
    → i ≢ 0
coefficient-ne-zero i code len run level at e =
    first_entry
      (subst (λ k. get_elem? ac_table_b14 k ≡ some (entry code len (coefficient run level))) e at)
  where
    first_entry : get_elem? ac_table_b14 0 ≡ some (entry code len (coefficient run level)) → ⊥
    first_entry h = cc

-- With 17 bits in the buffer, the bits of a code of table B-14 for a run and a level, and the sign
-- bit behind them, are decoded to that run and that level with the sign, and exactly these bits are
-- taken: 110 and 111 are run 0 and level 1 and -1, where a comment in the source reads them otherwise. A
-- first coefficient is written by another code where run and level are 0 and 1.
pub decode_ac_coeff_b14-coefficient :
    (bs : Bits) (first : Bool) (i code len run level : ℕ)
    → IsInside bs
    → position bs + 17 ≤ total bs
    → i < 113
    → get_elem? ac_table_b14 i ≡ some (entry code len (coefficient run level))
    → first && i == 1 ≡ false
    → position bs + len + 1 ≤ total bs
    → value bs.bytes (position bs) len ≡ code
    → decode_ac_coeff_b14 bs first
      ≡ (run_level run (signed (value bs.bytes (position bs + len) 1) level), skip bs (len + 1))
decode_ac_coeff_b14-coefficient bs first i code len run level v room lt at not_first sign here =
    decode_ac_coeff_b14_lem bs i code len (coefficient run level) v room here first lt
      (coefficient-ne-zero i code len run level at) at not_first
    ∙ decode_symbol-coefficient bs len v run level sign

-- With 17 bits in the buffer, the bits of a code of table B-15 for a run and a level, other than its
-- entries 13 and 14, and the sign bit behind them, are decoded to that run and that level with the
-- sign, and exactly these bits are taken.
pub decode_ac_coeff_b15-coefficient :
    (bs : Bits) (i code len run level : ℕ)
    → IsInside bs
    → position bs + 17 ≤ total bs
    → i < 110
    → i ≢ 13
    → i ≢ 14
    → get_elem? ac_table_b15 i ≡ some (entry code len (coefficient run level))
    → position bs + len + 1 ≤ total bs
    → value bs.bytes (position bs) len ≡ code
    → decode_ac_coeff_b15 bs
      ≡ (run_level run (signed (value bs.bytes (position bs + len) 1) level), skip bs (len + 1))
decode_ac_coeff_b15-coefficient bs i code len run level v room lt ne ne' at sign here =
    decode_ac_coeff_b15_lem bs i code len (coefficient run level) v room here lt ne ne' at
    ∙ decode_symbol-coefficient bs len v run level sign

-- The codes of entries 13 and 14 of table B-15, run 1 with level 3 and run 0 with level 8, are
-- never decoded so: their first four bits are the code of entry 4, run 0 with level 3, and just
-- that is decoded.
pub decode_ac_coeff_b15-shadowed :
    (bs : Bits)
    → IsInside bs
    → position bs + 17 ≤ total bs
    → (value bs.bytes (position bs) 7 ≡ 0b0111011) ⊎ (value bs.bytes (position bs) 7 ≡ 0b0111100)
    → decode_ac_coeff_b15 bs
      ≡ (run_level 0 (signed (value bs.bytes (position bs + 4) 1) 3), skip bs 5)
decode_ac_coeff_b15-shadowed bs v room here =
    decode_ac_coeff_b15-coefficient bs 4 0b0111 4 0 3 v room (omega arith) (omega arith)
      (omega arith) refl (omega arith) (top here)
  where
    top :
        (value bs.bytes (position bs) 7 ≡ 0b0111011) ⊎ (value bs.bytes (position bs) 7 ≡ 0b0111100)
        → value bs.bytes (position bs) 4 ≡ 0b0111
    top (inl e) = sym (value-top bs 4 7 0b0111011 (omega arith) e)
    top (inr e) = sym (value-top bs 4 7 0b0111100 (omega arith) e)

-- An escape, code 000001 in both tables, is decoded to the run in its next 6 bits and the level
-- that the 12 bits after them write in two's complement, or to an error where that level is 0; 24
-- bits are taken.
pub decode_ac_coeff-escape :
    (bs : Bits) (first : Bool)
    → IsInside bs
    → position bs + 24 ≤ total bs
    → value bs.bytes (position bs) 6 ≡ 0b000001
    → (decode_ac_coeff_b14 bs first ≡ (
      escaped (value bs.bytes (position bs + 6) 6) (value bs.bytes (position bs + 12) 12),
      skip bs 24,
    ))
      × (decode_ac_coeff_b15 bs ≡ (
        escaped (value bs.bytes (position bs + 6) 6) (value bs.bytes (position bs + 12) 12),
        skip bs 24,
      ))
decode_ac_coeff-escape bs first v room here = (
  decode_ac_coeff_b14_lem bs 112 1 6 escape v (omega arith) here first (omega arith) (omega arith)
        refl (first_false first)
      ∙ decode_symbol-escape bs 6 v room,
  decode_ac_coeff_b15_lem bs 12 1 6 escape v (omega arith) here (omega arith) (omega arith)
        (omega arith) refl
      ∙ decode_symbol-escape bs 6 v room,
)
  where
    first_false : (b : Bool) → b && 112 == 1 ≡ false
    first_false b = ground arith
