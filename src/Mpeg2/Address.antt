-- ===== src/Mpeg2/Address.antt =====
-- The macroblock address increment of mpeg2_parser.cpp: decode_macroblock_address_increment, whose
-- calls of itself behind an escape or a stuffing code are recursion on fuel.
pub mod Table
pub mod Escapes
use haiku_vaio_vpceb3k1e.Prelude.{
  ℕ, zero, suc, ◌+◌, ◌-◌, ◌*◌, Bool, true, false, ◌&&◌, Option, none, some, if◌then◌else◌, ltb, leb,
  ◌==◌,
}
use haiku_vaio_vpceb3k1e.Mpeg2.Bits.{Bits, peek, skip, available}

-- The results: -2, -1, and a positive number.
pub data Increment : Type 0 where
  end_of_slice : Increment
  bad : Increment
  by : ℕ → Increment

-- What the tests find: a number with the length of its code, an escape, a stuffing code, or nothing.
pub data Found : Type 0 where
  number : ℕ → ℕ → Found
  escape : Found
  stuffing : Found
  nothing : Found

-- The tests in their order; `p n` is what a peek of `n` bits shows.
unfoldable pub address_tests : (ℕ → ℕ) → Found
address_tests p =
    if p 1 == 1
    then number 1 1
    else if p 3 == 0b011
    then number 2 3
    else if p 3 == 0b010
    then number 3 3
    else if p 4 == 0b0011
    then number 4 4
    else if p 4 == 0b0010
    then number 5 4
    else if p 5 == 0b00011
    then number 6 5
    else if p 5 == 0b00010
    then number 7 5
    else if p 7 == 0b0000111
    then number 8 7
    else if p 7 == 0b0000110
    then number 9 7
    else if p 8 == 0b00001011
    then number 10 8
    else if p 8 == 0b00001010
    then number 11 8
    else if p 8 == 0b00001001
    then number 12 8
    else if p 8 == 0b00001000
    then number 13 8
    else if p 8 == 0b00000111
    then number 14 8
    else if p 8 == 0b00000110
    then number 15 8
    else if leb 0b0000010100 (p 10) && leb (p 10) 0b0000010111
    then number (16 + (p 10 - 0b0000010100)) 10
    else if leb 0b0000010000 (p 10) && leb (p 10) 0b0000010011
    then number (20 + (p 10 - 0b0000010000)) 10
    else if leb 0b00000011000 (p 11) && leb (p 11) 0b00000011111
    then number (24 + (p 11 - 0b00000011000)) 11
    else if p 11 == 0b00000001000
    then escape
    else if p 11 == 0b00000001111
    then stuffing
    else nothing

-- `33 + next` behind an escape.
abbrev pub add_escape : Increment → Increment
add_escape (by n) = if ltb 0 n then by (33 + n) else bad
add_escape end_of_slice = bad
add_escape bad = bad

abbrev pub slice_ends : Bits → Bool
slice_ends bs = available bs 23 && peek bs 23 == 0

-- What a round does with a code, where `fuel` is left for the calls of itself.
abbrev pub take_found : (Bits → Increment × Bits) → Bits → Found → Increment × Bits
take_found again bs (number n len) = (by n, skip bs len)
take_found again bs escape = let (next, behind) = again (skip bs 11) in (add_escape next, behind)
take_found again bs stuffing = again (skip bs 11)
take_found again bs nothing = (bad, bs)

-- Out of fuel is an error; each round takes 11 bits.
unfoldable pub address_loop : ℕ → Bits → Increment × Bits
unfolding available peek skip address_tests
address_loop zero bs = (bad, bs)
address_loop (suc fuel) bs =
    if slice_ends bs
    then (end_of_slice, bs)
    else take_found (address_loop fuel) bs (address_tests (peek bs))

unfoldable pub decode_address_increment : Bits → Increment × Bits
unfolding address_loop
decode_address_increment bs = address_loop (bs.size * 8 + 1) bs
