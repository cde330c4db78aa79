-- ===== src/Mpeg2/Address/Table.antt =====
-- The tests of the address increment against table B-1 of ISO/IEC 13818-2.
use haiku_vaio_vpceb3k1e.Prelude.{
  ℕ, ◌+◌, ◌-◌, ◌/◌, ◌^◌, ◌≤◌, ◌<◌, ◌≡◌, refl, ◌∙◌, sym, Bool, true, false, ◌&&◌, ◌||◌, not, List,
  [], ◌∷◌, get_elem?, Option, none, some, arith, ltb, leb, ◌==◌, all_below, all_below_sound,
}
use haiku_vaio_vpceb3k1e.Mpeg2.Bits.{Bits, peek}
use haiku_vaio_vpceb3k1e.Mpeg2.Bits.Value.{value}
use haiku_vaio_vpceb3k1e.Mpeg2.Bits.Read.{position, total}
use haiku_vaio_vpceb3k1e.Mpeg2.Bits.Laws.{peek-value, peek-lt}
use haiku_vaio_vpceb3k1e.Mpeg2.Ac.Decode.{value-top, matches-window}
use haiku_vaio_vpceb3k1e.Mpeg2.Vlc.Code.{Entry, entry, search}
use haiku_vaio_vpceb3k1e.Mpeg2.Vlc.Prefix.{search_lem, is_clear, is_clear-fits}
use haiku_vaio_vpceb3k1e.Mpeg2.Address.{Found, number, escape, stuffing, nothing, address_tests}

-- Table B-1: the codes of the increments from 1 to 33, then the escape and the stuffing, which
-- MPEG-1 has too; they are named 34 and 35 here.
abbrev pub address_table : List (Entry ℕ)
address_table =
    entry 0b1 1 1
    ∷ entry 0b011 3 2
    ∷ entry 0b010 3 3
    ∷ entry 0b0011 4 4
    ∷ entry 0b0010 4 5
    ∷ entry 0b00011 5 6
    ∷ entry 0b00010 5 7
    ∷ entry 0b0000111 7 8
    ∷ entry 0b0000110 7 9
    ∷ entry 0b00001011 8 10
    ∷ entry 0b00001010 8 11
    ∷ entry 0b00001001 8 12
    ∷ entry 0b00001000 8 13
    ∷ entry 0b00000111 8 14
    ∷ entry 0b00000110 8 15
    ∷ entry 0b0000010111 10 16
    ∷ entry 0b0000010110 10 17
    ∷ entry 0b0000010101 10 18
    ∷ entry 0b0000010100 10 19
    ∷ entry 0b0000010011 10 20
    ∷ entry 0b0000010010 10 21
    ∷ entry 0b00000100011 11 22
    ∷ entry 0b00000100010 11 23
    ∷ entry 0b00000100001 11 24
    ∷ entry 0b00000100000 11 25
    ∷ entry 0b00000011111 11 26
    ∷ entry 0b00000011110 11 27
    ∷ entry 0b00000011101 11 28
    ∷ entry 0b00000011100 11 29
    ∷ entry 0b00000011011 11 30
    ∷ entry 0b00000011010 11 31
    ∷ entry 0b00000011001 11 32
    ∷ entry 0b00000011000 11 33
    ∷ entry 0b00000001000 11 34
    ∷ entry 0b00000001111 11 35
    ∷ []

-- The tests on a window of 11 bits.
abbrev windowed : ℕ → Found
windowed w = address_tests (λ n. w / 2 ^ (11 - n))

-- Whether what the tests find is what the table has for the window: the same up to 15, escape and
-- stuffing as such, and for the increments above 15 a number that is not theirs.
abbrev pub as_tabled : Found → ℕ → ℕ → Bool
as_tabled (number m l) s len =
    (m == s && l == len && leb s 15) || (not (m == s) && ltb 15 s && ltb s 34)
as_tabled escape s len = s == 34
as_tabled stuffing s len = s == 35
as_tabled nothing s len = false

abbrev is_nothing : Found → Bool
is_nothing nothing = true
is_nothing (number m l) = false
is_nothing escape = false
is_nothing stuffing = false

abbrev tabled_by : Found → Option (Entry ℕ) → Bool
tabled_by f none = is_nothing f
tabled_by f (some (entry c len s)) = as_tabled f s len

abbrev agrees : ℕ → Bool
agrees w = tabled_by (windowed w) (search (λ s. false) 11 w address_table)

window_table : all_below 2048 agrees ≡ true
unfolding all_below address_tests search
window_table = refl

table_clear : all_below 35 (is_clear 11 address_table) ≡ true
unfolding all_below is_clear
table_clear = refl

-- A peek is the top of a longer one.
peek-top :
    (bs : Bits) (n : ℕ)
    → bs.bit_pos < 8
    → n ≤ 11
    → position bs + 11 ≤ total bs
    → peek bs n ≡ peek bs 11 / 2 ^ (11 - n)
peek-top bs n b le room =
    peek-value bs n b (omega arith) (omega arith)
    ∙ sym (value-top bs n 11 (peek bs 11) le (sym (peek-value bs 11 b (omega arith) room)))

tests-windowed :
    (bs : Bits)
    → bs.bit_pos < 8
    → position bs + 11 ≤ total bs
    → address_tests (peek bs) ≡ windowed (peek bs 11)
unfolding address_tests
tests-windowed bs b room =
    rw
      (
        peek-top bs 1 b (omega arith) room,
        peek-top bs 3 b (omega arith) room,
        peek-top bs 4 b (omega arith) room,
        peek-top bs 5 b (omega arith) room,
        peek-top bs 7 b (omega arith) room,
        peek-top bs 8 b (omega arith) room,
        peek-top bs 10 b (omega arith) room,
        whole,
      )
      refl
  where
    whole : peek bs 11 / 1 ≡ peek bs 11
    whole = omega arith

-- Standing at the code of entry `i` of the table with 11 bits in the buffer.
pub address_tests-as_tabled :
    (bs : Bits) (i code len s : ℕ)
    → bs.bit_pos < 8
    → i < 35
    → position bs + 11 ≤ total bs
    → get_elem? address_table i ≡ some (entry code len s)
    → value bs.bytes (position bs) len ≡ code
    → as_tabled (address_tests (peek bs)) s len ≡ true
address_tests-as_tabled bs i code len s b lt room at here = rw (tests-windowed bs b room) (
    rw found at
      (all_below_sound 2048 agrees (peek bs 11) window_table (peek-lt bs 11 b (omega arith))))
  where
    clear : is_clear 11 address_table i ≡ true
    clear = all_below_sound 35 _ i table_clear lt

    fits : len ≤ 11
    fits = is_clear-fits 11 address_table i (entry code len s) clear at

    found : search (λ s. false) 11 (peek bs 11) address_table ≡ some (entry code len s)
    found =
        search_lem (λ s. false) 11 (peek bs 11) address_table i (entry code len s) clear at refl
          (matches-window bs 11 code len s b (omega arith) room fits here)
