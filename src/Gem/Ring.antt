-- ===== src/Gem/Ring.antt =====
-- The ring of GemManager.cpp: the wait for room that ExecCommands and ExecBatch share, _RingWrite
-- and the words written in a row. The ring memory is the list of its 32-bit words. The values of
-- the HEAD register that the waiting loop reads before its deadline are an argument.
pub mod Write
use haiku_vaio_vpceb3k1e.Prelude.{
  ℕ, ◌+◌, ◌-◌, ◌/◌, ◌%◌, ◌^◌, bit_and, Bool, true, false, List, [], ◌∷◌, if◌then◌else◌, ltb, leb,
  ◌==◌, set,
}

-- `ring_buffer`.
pub record RingBuffer : Type 0 where
  pub base : List ℕ
  pub size : ℕ
  pub position : ℕ
  pub space_left : ℕ

abbrev pub head_mask : ℕ
head_mask = 0x001f_fffc

-- `head - fRing->position`, after the wrap of `head`.
abbrev pub space_from : RingBuffer → ℕ → ℕ
space_from r head_reg =
    let head = bit_and head_reg head_mask in
    let unwrapped = if leb head r.position then head + r.size else head in
    (unwrapped + 2 ^ 32 - r.position) % 2 ^ 32

-- The wait until `needed` bytes are free; `false` is the time-out.
unfoldable pub make_space : ℕ → List ℕ → RingBuffer → Bool × RingBuffer
make_space needed [] r = (leb needed r.space_left, r)
make_space needed (h ∷ hs) r =
    let rest = make_space needed hs (record r { space_left = space_from r h }) in
    if ltb r.space_left needed then rest else (true, r)

unfoldable pub ring_write : ℕ → RingBuffer → RingBuffer
ring_write value r = record r {
  base = set r.base (r.position / 4) value;
  position = bit_and ((r.position + 4) % 2 ^ 32) (r.size - 1);
  space_left = (r.space_left + 2 ^ 32 - 4) % 2 ^ 32;
}

unfoldable pub ring_write_all : List ℕ → RingBuffer → RingBuffer
unfolding ring_write
ring_write_all [] r = r
ring_write_all (w ∷ ws) r = ring_write_all ws (ring_write w r)
