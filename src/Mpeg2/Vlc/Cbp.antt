-- ===== src/Mpeg2/Vlc/Cbp.antt =====
-- Table B-9 of mpeg2_parser.cpp: the codes of the coded block patterns, indexed by pattern.
use haiku_vaio_vpceb3k1e.Prelude.{ℕ, List, [], ◌∷◌}
use haiku_vaio_vpceb3k1e.Mpeg2.Vlc.Code.{Entry, entry}

abbrev pub cbp_table : List (Entry ℕ)
cbp_table =
    entry 0x01 9 0
    ∷ entry 0x0b 5 1
    ∷ entry 0x09 5 2
    ∷ entry 0x0d 6 3
    ∷ entry 0x0d 4 4
    ∷ entry 0x17 7 5
    ∷ entry 0x13 7 6
    ∷ entry 0x1f 8 7
    ∷ entry 0x0c 4 8
    ∷ entry 0x16 7 9
    ∷ entry 0x12 7 10
    ∷ entry 0x1e 8 11
    ∷ entry 0x13 5 12
    ∷ entry 0x1b 8 13
    ∷ entry 0x17 8 14
    ∷ entry 0x13 8 15
    ∷ entry 0x0b 4 16
    ∷ entry 0x15 7 17
    ∷ entry 0x11 7 18
    ∷ entry 0x1d 8 19
    ∷ entry 0x11 5 20
    ∷ entry 0x19 8 21
    ∷ entry 0x15 8 22
    ∷ entry 0x11 8 23
    ∷ entry 0x0f 6 24
    ∷ entry 0x0f 8 25
    ∷ entry 0x0d 8 26
    ∷ entry 0x03 9 27
    ∷ entry 0x0f 5 28
    ∷ entry 0x0b 8 29
    ∷ entry 0x07 8 30
    ∷ entry 0x07 9 31
    ∷ entry 0x0a 4 32
    ∷ entry 0x14 7 33
    ∷ entry 0x10 7 34
    ∷ entry 0x1c 8 35
    ∷ entry 0x0e 6 36
    ∷ entry 0x0e 8 37
    ∷ entry 0x0c 8 38
    ∷ entry 0x02 9 39
    ∷ entry 0x10 5 40
    ∷ entry 0x18 8 41
    ∷ entry 0x14 8 42
    ∷ entry 0x10 8 43
    ∷ entry 0x0e 5 44
    ∷ entry 0x0a 8 45
    ∷ entry 0x06 8 46
    ∷ entry 0x06 9 47
    ∷ entry 0x12 5 48
    ∷ entry 0x1a 8 49
    ∷ entry 0x16 8 50
    ∷ entry 0x12 8 51
    ∷ entry 0x0d 5 52
    ∷ entry 0x09 8 53
    ∷ entry 0x05 8 54
    ∷ entry 0x05 9 55
    ∷ entry 0x0c 5 56
    ∷ entry 0x08 8 57
    ∷ entry 0x04 8 58
    ∷ entry 0x04 9 59
    ∷ entry 0x07 3 60
    ∷ entry 0x0a 5 61
    ∷ entry 0x08 5 62
    ∷ entry 0x0c 6 63
    ∷ []
