-- ===== src/Mpeg2/StartCode.antt =====
-- The start code scanner of mpeg2_parser.cpp: `mpeg2_find_start_code` and
-- `mpeg2_resync_to_next_slice`.
pub mod Scan
pub mod Resync
use haiku_vaio_vpceb3k1e.Prelude.{
  ℕ, zero, suc, List, get_or, ◌+◌, ◌%◌, ◌^◌, bit_or, Bool, true, false, ◌&&◌, if◌then◌else◌, ltb,
  leb, ◌==◌,
}
use haiku_vaio_vpceb3k1e.Mpeg2.Bits.{Bits, byte, align}

-- Bytes 00 00 01 at `i`.
abbrev pub is_prefix : List ℕ → ℕ → Bool
is_prefix bytes i =
    get_or bytes i 0 == 0 && get_or bytes (i + 1) 0 == 0 && get_or bytes (i + 2) 0 == 1

-- `byte_pos + 3 < size`, in 32 bits: a start code may still stand at the reader.
abbrev pub has_room : Bits → Bool
has_room bs = ltb ((bs.byte_pos + 3) % 2 ^ 32) bs.size

-- One round of fuel for each byte looked at.
unfoldable pub find_loop : ℕ → Bits → ℕ × Bits
find_loop zero bs = (0, bs)
find_loop (suc fuel) bs =
    let rest = find_loop fuel (record bs { byte_pos = bs.byte_pos + 1 }) in
    if has_room bs
    then (if is_prefix bs.bytes bs.byte_pos
        then (
          bit_or 0x100 (byte bs (bs.byte_pos + 3)),
          record bs { byte_pos = bs.byte_pos + 4; bit_pos = 0 },
        )
        else rest)
    else (0, bs)

unfoldable pub find_start_code : Bits → ℕ × Bits
unfolding find_loop align
find_start_code bs = find_loop bs.size (align bs)

abbrev pub is_slice_id : ℕ → Bool
is_slice_id id = leb 0x01 id && leb id 0xAF

unfoldable pub resync_loop : ℕ → Bits → Bool × Bits
resync_loop zero bs = (false, bs)
resync_loop (suc fuel) bs =
    let past = resync_loop fuel (record bs { byte_pos = bs.byte_pos + 4 }) in
    let rest = resync_loop fuel (record bs { byte_pos = bs.byte_pos + 1 }) in
    if has_room bs
    then (if is_prefix bs.bytes bs.byte_pos
        then (if is_slice_id (byte bs (bs.byte_pos + 3)) then (true, bs) else past)
        else rest)
    else (false, bs)

unfoldable pub resync_to_next_slice : Bits → Bool × Bits
unfolding resync_loop align
resync_to_next_slice bs = resync_loop bs.size (align bs)
