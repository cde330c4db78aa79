-- ===== src/Mpeg2/Ac.antt =====
-- The AC coefficient decoders of mpeg2_parser.cpp, `decode_ac_coeff_b14` and
-- `decode_ac_coeff_b15`. The trace output is left out.
pub mod Decode
pub mod Symbols
pub mod Coefficients
use haiku_vaio_vpceb3k1e.Prelude.{
  ℕ, zero, suc, bit_and, bit_or, Bool, true, false, ◌&&◌, ◌||◌, Option, none, some, if◌then◌else◌,
  leb, ◌==◌,
}
use haiku_vaio_vpceb3k1e.Prelude.Int.{ℤ, pos, negsuc, ltb_ℤ, of_word}
use haiku_vaio_vpceb3k1e.Mpeg2.Bits.{Bits, read, peek, skip, available}
use haiku_vaio_vpceb3k1e.Mpeg2.Vlc.Code.{
  Entry, entry, Symbol, end_of_block, escape, coefficient, search,
}
use haiku_vaio_vpceb3k1e.Mpeg2.Vlc.AcB14.{ac_table_b14}
use haiku_vaio_vpceb3k1e.Mpeg2.Vlc.AcB15.{ac_table_b15}

-- `run_level`: run -1 is the end of the block, run -3 an error.
pub data RunLevel : Type 0 where
  eob : RunLevel
  bad : RunLevel
  run_level : ℕ → ℤ → RunLevel

abbrev pub is_zero_ℤ : ℤ → Bool
is_zero_ℤ (pos zero) = true
is_zero_ℤ (pos (suc n)) = false
is_zero_ℤ (negsuc n) = false

-- `level`, a positive number, with the sign that the bit names.
abbrev pub signed : ℕ → ℕ → ℤ
signed zero level = pos level
signed (suc s) zero = pos 0
signed (suc s) (suc n) = negsuc n

-- A level of 12 bits, with its top bit spread over 16.
unfoldable pub extend_level : ℕ → ℤ
extend_level l = of_word 16 (if bit_and l 0x800 == 0 then l else bit_or l 0xF000)

-- The test of an escape's run and level: what cannot stand there is an error.
unfoldable pub check_escape : ℕ → ℤ → RunLevel
check_escape run level =
    if leb 64 run || is_zero_ℤ level || ltb_ℤ (pos 2047) level || ltb_ℤ level (negsuc 2047)
    then bad
    else run_level run level

unfoldable pub decode_escape : Bits → RunLevel × Bits
unfolding read
decode_escape bs =
    let (run, bs1) = read bs 6 in
    let (l, bs2) = read bs1 12 in (check_escape run (extend_level l), bs2)

-- What follows a code that the table has; the reader stands behind the code.
unfoldable pub decode_symbol : Symbol → Bits → RunLevel × Bits
unfolding decode_escape read
decode_symbol end_of_block bs = (eob, bs)
decode_symbol escape bs = decode_escape bs
decode_symbol (coefficient run level) bs =
    let (sign, next) = read bs 1 in (run_level run (signed sign level), next)

-- The end of both decoders. A window of zeros is taken for the end of the block.
unfoldable pub finish : Bits → ℕ → Option (Entry Symbol) → RunLevel × Bits
unfolding decode_symbol skip
finish bs window none = if window == 0 then (eob, bs) else (bad, bs)
finish bs window (some (entry code len symbol)) = decode_symbol symbol (skip bs len)

-- The search of table B-14 passes over the end of the block, which is looked for before it.
abbrev pub skips_eob : Symbol → Bool
skips_eob end_of_block = true
skips_eob escape = false
skips_eob (coefficient run level) = false

abbrev pub skips_nothing : Symbol → Bool
skips_nothing s = false

unfoldable pub decode_ac_coeff_b14 : Bits → Bool → RunLevel × Bits
unfolding finish search peek read skip available
decode_ac_coeff_b14 bs first_coeff =
    if available bs 2
    then (if peek bs 2 == 0b10
        then (eob, skip bs 2)
        else if first_coeff && peek bs 1 == 1
        then (let (sign, next) = read (skip bs 1) 1 in (run_level 0 (signed sign 1), next))
        else finish bs (peek bs 17) (search skips_eob 17 (peek bs 17) ac_table_b14))
    else (bad, bs)

unfoldable pub decode_ac_coeff_b15 : Bits → RunLevel × Bits
unfolding finish search peek available
decode_ac_coeff_b15 bs =
    if available bs 2
    then finish bs (peek bs 17) (search skips_nothing 17 (peek bs 17) ac_table_b15)
    else (bad, bs)
