-- ===== src/Mpeg2/Bits.antt =====
-- The bit reader of mpeg2_parser.cpp (`mpeg2_bits`), most significant bit first.
-- The buffer is a list of bytes; `size` is the number of them that the reader may touch.
-- A function that moves the reader returns the moved reader beside its result.
pub mod Value
pub mod Read
pub mod Laws
use haiku_vaio_vpceb3k1e.Prelude.{
  ℕ, zero, suc, ◌+◌, ◌-◌, ◌*◌, ◌/◌, ◌%◌, ◌^◌, bit_and, bit_or, Bool, List, if◌then◌else◌, ltb, leb,
  ◌==◌, get_or,
}

pub record Bits : Type 0 where
  pub bytes : List ℕ
  pub size : ℕ
  pub byte_pos : ℕ
  pub bit_pos : ℕ

unfoldable pub init : List ℕ → ℕ → Bits
init bytes size = record { bytes = bytes; size = size; byte_pos = 0; bit_pos = 0 }

-- `bs->data[i]`; every read below is guarded by `i < size`.
abbrev pub byte : Bits → ℕ → ℕ
byte bs i = get_or bs.bytes i 0

-- Bits of the current byte that are still unread, and how many of them one round takes.
abbrev pub bits_left : Bits → ℕ
bits_left bs = 8 - bs.bit_pos

abbrev pub bits_to_read : Bits → ℕ → ℕ
bits_to_read bs n = if ltb n (bits_left bs) then n else bits_left bs

-- `value << k | (byte >> shift & mask)` in 32 bits.
unfoldable pub gather : Bits → ℕ → ℕ → ℕ
gather bs k value =
    bit_or (value * 2 ^ k % 2 ^ 32)
      (bit_and (byte bs bs.byte_pos / 2 ^ (bits_left bs - k)) (2 ^ k - 1))

-- `bit_pos += k`, going on to the next byte at 8.
unfoldable pub step_over : Bits → ℕ → Bits
step_over bs k =
    if leb 8 (bs.bit_pos + k)
    then record bs { byte_pos = bs.byte_pos + 1; bit_pos = 0 }
    else record bs { bit_pos = bs.bit_pos + k }

-- The loop of `mpeg2_bits_read`, which ends at `n == 0` or at the end of the buffer. The fuel is
-- spent one for each round, and a round takes at least one bit.
unfoldable pub read_loop : ℕ → Bits → ℕ → ℕ → ℕ × Bits
read_loop zero bs n value = (value, bs)
read_loop (suc fuel) bs n value =
    let k = bits_to_read bs n in
    let rest = read_loop fuel (step_over bs k) (n - k) (gather bs k value) in
    if n == 0 then (value, bs) else if leb bs.size bs.byte_pos then (value, bs) else rest

unfoldable pub read : Bits → ℕ → ℕ × Bits
unfolding read_loop step_over gather
read bs n = read_loop n bs n 0

unfoldable pub peek : Bits → ℕ → ℕ
unfolding read
peek bs n = (read bs n).0

unfoldable pub skip : Bits → ℕ → Bits
skip bs n = record bs {
  byte_pos = (bs.byte_pos + (bs.bit_pos + n) % 2 ^ 32 / 8) % 2 ^ 32;
  bit_pos = (bs.bit_pos + n) % 2 ^ 32 % 8;
}

-- The subtraction is of `uint32`, and goes round below 0.
unfoldable pub available : Bits → ℕ → Bool
available bs n =
    leb n (((bs.size + 2 ^ 32 - bs.byte_pos) * 8 % 2 ^ 32 + 2 ^ 32 - bs.bit_pos) % 2 ^ 32)

unfoldable pub align : Bits → Bits
align bs =
    if ltb 0 bs.bit_pos
    then record bs { bit_pos = 0; byte_pos = (bs.byte_pos + 1) % 2 ^ 32 }
    else bs

unfoldable pub offset : Bits → ℕ
offset bs = (bs.byte_pos * 8 + bs.bit_pos) % 2 ^ 32
