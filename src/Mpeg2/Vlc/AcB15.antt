-- ===== src/Mpeg2/Vlc/AcB15.antt =====
-- Table B-15 of mpeg2_parser.cpp: the codes of the AC coefficients, for blocks of `intra_vlc_format`, in the source's order.
use haiku_vaio_vpceb3k1e.Prelude.{List, [], ◌∷◌}
use haiku_vaio_vpceb3k1e.Mpeg2.Vlc.Code.{Entry, entry, Symbol, end_of_block, escape, coefficient}

abbrev pub ac_table_b15 : List (Entry Symbol)
ac_table_b15 =
    entry 0b0110 4 end_of_block
    ∷ entry 0b10 2 (coefficient 0 1)
    ∷ entry 0b110 3 (coefficient 0 2)
    ∷ entry 0b010 3 (coefficient 1 1)
    ∷ entry 0b0111 4 (coefficient 0 3)
    ∷ entry 0b11100 5 (coefficient 0 4)
    ∷ entry 0b11101 5 (coefficient 0 5)
    ∷ entry 0b00101 5 (coefficient 2 1)
    ∷ entry 0b00110 5 (coefficient 1 2)
    ∷ entry 0b00111 5 (coefficient 3 1)
    ∷ entry 0b000101 6 (coefficient 0 6)
    ∷ entry 0b000100 6 (coefficient 0 7)
    ∷ entry 0b000001 6 escape
    ∷ entry 0b0111011 7 (coefficient 1 3)
    ∷ entry 0b0111100 7 (coefficient 0 8)
    ∷ entry 0b1111000 7 (coefficient 9 1)
    ∷ entry 0b1111010 7 (coefficient 10 1)
    ∷ entry 0b0000111 7 (coefficient 2 2)
    ∷ entry 0b0000110 7 (coefficient 6 1)
    ∷ entry 0b0000100 7 (coefficient 8 1)
    ∷ entry 0b0000101 7 (coefficient 7 1)
    ∷ entry 0b00100011 8 (coefficient 0 9)
    ∷ entry 0b00100010 8 (coefficient 0 10)
    ∷ entry 0b11111010 8 (coefficient 0 11)
    ∷ entry 0b11111011 8 (coefficient 0 12)
    ∷ entry 0b11111110 8 (coefficient 0 13)
    ∷ entry 0b11111111 8 (coefficient 0 14)
    ∷ entry 0b00100111 8 (coefficient 1 4)
    ∷ entry 0b00100000 8 (coefficient 1 5)
    ∷ entry 0b11111100 8 (coefficient 2 3)
    ∷ entry 0b11111101 8 (coefficient 4 1)
    ∷ entry 0b00100110 8 (coefficient 3 2)
    ∷ entry 0b00100001 8 (coefficient 11 1)
    ∷ entry 0b00100101 8 (coefficient 12 1)
    ∷ entry 0b00100100 8 (coefficient 13 1)
    ∷ entry 0b000000100 9 (coefficient 5 1)
    ∷ entry 0b000000101 9 (coefficient 14 1)
    ∷ entry 0b000000111 9 (coefficient 15 1)
    ∷ entry 0b0000001100 10 (coefficient 2 4)
    ∷ entry 0b0000001101 10 (coefficient 16 1)
    ∷ entry 0b000000011100 12 (coefficient 3 3)
    ∷ entry 0b000000010010 12 (coefficient 4 2)
    ∷ entry 0b000000011110 12 (coefficient 6 2)
    ∷ entry 0b000000010101 12 (coefficient 7 2)
    ∷ entry 0b000000010001 12 (coefficient 8 2)
    ∷ entry 0b000000011111 12 (coefficient 17 1)
    ∷ entry 0b000000011010 12 (coefficient 18 1)
    ∷ entry 0b000000011001 12 (coefficient 19 1)
    ∷ entry 0b000000010111 12 (coefficient 20 1)
    ∷ entry 0b000000010110 12 (coefficient 21 1)
    ∷ entry 0b0000000010110 13 (coefficient 1 6)
    ∷ entry 0b0000000010101 13 (coefficient 1 7)
    ∷ entry 0b0000000010100 13 (coefficient 2 5)
    ∷ entry 0b0000000010011 13 (coefficient 3 4)
    ∷ entry 0b0000000010010 13 (coefficient 5 2)
    ∷ entry 0b0000000010001 13 (coefficient 9 2)
    ∷ entry 0b0000000010000 13 (coefficient 10 2)
    ∷ entry 0b0000000011111 13 (coefficient 22 1)
    ∷ entry 0b0000000011110 13 (coefficient 23 1)
    ∷ entry 0b0000000011101 13 (coefficient 24 1)
    ∷ entry 0b0000000011100 13 (coefficient 25 1)
    ∷ entry 0b0000000011011 13 (coefficient 26 1)
    ∷ entry 0b00000000011111 14 (coefficient 0 16)
    ∷ entry 0b00000000011110 14 (coefficient 0 17)
    ∷ entry 0b00000000011101 14 (coefficient 0 18)
    ∷ entry 0b00000000011100 14 (coefficient 0 19)
    ∷ entry 0b00000000011011 14 (coefficient 0 20)
    ∷ entry 0b00000000011010 14 (coefficient 0 21)
    ∷ entry 0b00000000011001 14 (coefficient 0 22)
    ∷ entry 0b00000000011000 14 (coefficient 0 23)
    ∷ entry 0b00000000010111 14 (coefficient 0 24)
    ∷ entry 0b00000000010110 14 (coefficient 0 25)
    ∷ entry 0b00000000010101 14 (coefficient 0 26)
    ∷ entry 0b00000000010100 14 (coefficient 0 27)
    ∷ entry 0b00000000010011 14 (coefficient 0 28)
    ∷ entry 0b00000000010010 14 (coefficient 0 29)
    ∷ entry 0b00000000010001 14 (coefficient 0 30)
    ∷ entry 0b00000000010000 14 (coefficient 0 31)
    ∷ entry 0b000000000011000 15 (coefficient 0 32)
    ∷ entry 0b000000000010111 15 (coefficient 0 33)
    ∷ entry 0b000000000010110 15 (coefficient 0 34)
    ∷ entry 0b000000000010101 15 (coefficient 0 35)
    ∷ entry 0b000000000010100 15 (coefficient 0 36)
    ∷ entry 0b000000000010011 15 (coefficient 0 37)
    ∷ entry 0b000000000010010 15 (coefficient 0 38)
    ∷ entry 0b000000000010001 15 (coefficient 0 39)
    ∷ entry 0b000000000010000 15 (coefficient 0 40)
    ∷ entry 0b000000000011111 15 (coefficient 1 8)
    ∷ entry 0b000000000011110 15 (coefficient 1 9)
    ∷ entry 0b000000000011101 15 (coefficient 1 10)
    ∷ entry 0b000000000011100 15 (coefficient 1 11)
    ∷ entry 0b000000000011011 15 (coefficient 1 12)
    ∷ entry 0b000000000011010 15 (coefficient 1 13)
    ∷ entry 0b000000000011001 15 (coefficient 1 14)
    ∷ entry 0b0000000000010011 16 (coefficient 1 15)
    ∷ entry 0b0000000000010010 16 (coefficient 1 16)
    ∷ entry 0b0000000000010001 16 (coefficient 1 17)
    ∷ entry 0b0000000000010000 16 (coefficient 1 18)
    ∷ entry 0b0000000000010100 16 (coefficient 6 3)
    ∷ entry 0b0000000000011010 16 (coefficient 11 2)
    ∷ entry 0b0000000000011001 16 (coefficient 12 2)
    ∷ entry 0b0000000000011000 16 (coefficient 13 2)
    ∷ entry 0b0000000000010111 16 (coefficient 14 2)
    ∷ entry 0b0000000000010110 16 (coefficient 15 2)
    ∷ entry 0b0000000000010101 16 (coefficient 16 2)
    ∷ entry 0b0000000000011111 16 (coefficient 27 1)
    ∷ entry 0b0000000000011110 16 (coefficient 28 1)
    ∷ entry 0b0000000000011101 16 (coefficient 29 1)
    ∷ entry 0b0000000000011100 16 (coefficient 30 1)
    ∷ entry 0b0000000000011011 16 (coefficient 31 1)
    ∷ []
