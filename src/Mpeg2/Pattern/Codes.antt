-- ===== src/Mpeg2/Pattern/Codes.antt =====
-- The codes of block patterns and macroblock types are decoded to what their tables give.
use haiku_vaio_vpceb3k1e.Prelude.{
  ℕ, ◌+◌, ◌≤◌, ◌<◌, ◌≡◌, refl, ap, true, some, List, arith, all_below, all_below_sound, get_elem?,
}
use haiku_vaio_vpceb3k1e.Mpeg2.Bits.{Bits, peek, skip}
use haiku_vaio_vpceb3k1e.Mpeg2.Bits.Value.{value}
use haiku_vaio_vpceb3k1e.Mpeg2.Bits.Read.{position, total}
use haiku_vaio_vpceb3k1e.Mpeg2.Vlc.Code.{Entry, entry, search}
use haiku_vaio_vpceb3k1e.Mpeg2.Vlc.Prefix.{search_lem, is_clear, is_clear-fits}
use haiku_vaio_vpceb3k1e.Mpeg2.Vlc.Cbp.{cbp_table}
use haiku_vaio_vpceb3k1e.Mpeg2.Vlc.Tables.{is_clear-cbp}
use haiku_vaio_vpceb3k1e.Mpeg2.Ac.Decode.{matches-window}
use haiku_vaio_vpceb3k1e.Mpeg2.Pattern.{
  take_entry, every_pattern, p_types, b_types, decode_coded_block_pattern, decode_macroblock_type_p,
  decode_macroblock_type_b,
}

-- Standing at the code of an entry that the ones before it leave clear, the search takes it.
take_entry-code :
    (w : ℕ) (table : List (Entry ℕ)) (bs : Bits) (i code len s : ℕ)
    → bs.bit_pos < 8
    → w ≤ 32
    → is_clear w table i ≡ true
    → position bs + w ≤ total bs
    → get_elem? table i ≡ some (entry code len s)
    → value bs.bytes (position bs) len ≡ code
    → take_entry bs (search every_pattern w (peek bs w) table) ≡ (some s, skip bs len)
take_entry-code w table bs i code len s b small clear room at here = ap (take_entry bs) (
    search_lem every_pattern w (peek bs w) table i (entry code len s) clear at refl (
      matches-window bs w code len s b small room
        (is_clear-fits w table i (entry code len s) clear at) here))

-- Standing at the code of any of the 64 block patterns with 9 bits in the buffer,
-- `decode_coded_block_pattern` returns what the table gives for it and goes past the code.
pub decode_coded_block_pattern_lem :
    (bs : Bits) (i code len s : ℕ)
    → bs.bit_pos < 8
    → i < 64
    → position bs + 9 ≤ total bs
    → get_elem? cbp_table i ≡ some (entry code len s)
    → value bs.bytes (position bs) len ≡ code
    → decode_coded_block_pattern bs ≡ (some s, skip bs len)
unfolding decode_coded_block_pattern
decode_coded_block_pattern_lem bs i code len s b lt room at here =
    take_entry-code 9 cbp_table bs i code len s b (omega arith) (is_clear-cbp i lt) room at here

types_clear : (all_below 7 (is_clear 6 p_types) ≡ true) × (all_below 11 (is_clear 6 b_types) ≡ true)
unfolding all_below is_clear
types_clear = (refl, refl)

-- Standing at the code of one of the seven macroblock types of a P picture with 6 bits in the
-- buffer, `decode_macroblock_type_p` returns the flags that its tests give for the code, and goes past it: no test hides a later one.
pub decode_macroblock_type_p_lem :
    (bs : Bits) (i code len flags : ℕ)
    → bs.bit_pos < 8
    → i < 7
    → position bs + 6 ≤ total bs
    → get_elem? p_types i ≡ some (entry code len flags)
    → value bs.bytes (position bs) len ≡ code
    → decode_macroblock_type_p bs ≡ (some flags, skip bs len)
unfolding decode_macroblock_type_p
decode_macroblock_type_p_lem bs i code len flags b lt room at here =
    take_entry-code 6 p_types bs i code len flags b (omega arith)
      (all_below_sound 7 _ i types_clear.0 lt) room at here

-- Standing at the code of one of the eleven macroblock types of a B picture with 6 bits in the
-- buffer, `decode_macroblock_type_b` returns the flags that its tests give for the code, and goes past
-- it: no test hides a later one.
pub decode_macroblock_type_b_lem :
    (bs : Bits) (i code len flags : ℕ)
    → bs.bit_pos < 8
    → i < 11
    → position bs + 6 ≤ total bs
    → get_elem? b_types i ≡ some (entry code len flags)
    → value bs.bytes (position bs) len ≡ code
    → decode_macroblock_type_b bs ≡ (some flags, skip bs len)
unfolding decode_macroblock_type_b
decode_macroblock_type_b_lem bs i code len flags b lt room at here =
    take_entry-code 6 b_types bs i code len flags b (omega arith)
      (all_below_sound 11 _ i types_clear.1 lt) room at here
