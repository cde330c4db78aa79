-- ===== src/Engine.antt =====
-- The ring of the 2D engine as engine.cpp fills it: the class QueueCommands with its destructor, and
-- the class BatchCommands. The ring's memory is a memory of bytes by offset; sizes and positions are
-- 32-bit numbers. What the GPU shows in its HEAD register while the code waits is a parameter: the
-- list of the values that are read until the second is over.
pub mod Round
pub mod Space
pub mod Trailer
pub mod Draw
pub mod Idle
pub mod Tests
use haiku_vaio_vpceb3k1e.Prelude.{
  ℕ, zero, suc, ◌+◌, ◌-◌, ◌*◌, ◌/◌, ◌%◌, ◌^◌, bit_and, bit_or, Bool, true, false, not, ◌||◌, List,
  [], ◌∷◌, ◌++◌, if◌then◌else◌, ltb, leb, ◌==◌, length,
}
use haiku_vaio_vpceb3k1e.Prelude.Memory.{Memory, write_bytes}
use haiku_vaio_vpceb3k1e.Gem2d.{word_bytes, mi_noop, mi_batch_buffer_end}

-- `ring_buffer`.
pub record RingBuffer : Type 0 where
  pub base : Memory
  pub size : ℕ
  pub position : ℕ
  pub space_left : ℕ

abbrev pub head_mask : ℕ
head_mask = 0x001ffffc

abbrev pub mi_store_dword_index : ℕ
mi_store_dword_index = bit_or (0x21 * 2 ^ 23) 1

abbrev pub command_flush : ℕ
command_flush = 0x04 * 2 ^ 23

abbrev pub mi_batch_buffer_start : ℕ
mi_batch_buffer_start = 0x31 * 2 ^ 23

unfoldable pub setup_ring_buffer : Bool → RingBuffer → RingBuffer
setup_ring_buffer locked ring =
    if locked
    then record ring { position = 0; space_left = ring.size }
    else record ring { size = 0 }

-- `(position + n) & (size - 1)`.
abbrev pub advance : RingBuffer → ℕ → ℕ
advance ring n = bit_and ((ring.position + n) % 2 ^ 32) (ring.size - 1)

unfoldable pub write : RingBuffer → ℕ → RingBuffer
unfolding write_bytes
write ring word = record ring {
  base = write_bytes ring.base ring.position (word_bytes word);
  position = advance ring 4;
}

abbrev pub write_all : RingBuffer → List ℕ → RingBuffer
write_all ring [] = ring
write_all ring (word ∷ rest) = write_all (write ring word) rest

-- The space that HEAD shows.
abbrev pub space_for : RingBuffer → ℕ → ℕ
space_for ring head =
    if leb head ring.position then head + ring.size - ring.position else head - ring.position

-- The loop of `MakeSpace`; at the end of the list the time is over.
unfoldable pub wait_for_space : List ℕ → ℕ → RingBuffer → RingBuffer
wait_for_space [] size ring = ring
wait_for_space (head ∷ heads) size ring =
    if ltb ring.space_left size
    then wait_for_space heads size
        (record ring { space_left = space_for ring (bit_and head head_mask) })
    else ring

-- `size` is in words; the space that is left is taken down also where the wait was in vain.
-- The source asserts that `size` is even, which stops a build with assertions in the debugger and
-- which its own commands of three words do not meet; this is the build without them.
unfoldable pub make_space : List ℕ → ℕ → RingBuffer → RingBuffer
unfolding wait_for_space
make_space heads size ring =
    let bytes = size * 4 % 2 ^ 32 in
    let waited = wait_for_space heads bytes ring in
    record waited { space_left = (waited.space_left + 2 ^ 32 - bytes) % 2 ^ 32 }

-- The words of a command; its bytes are copied at once where they fit before the end of the ring.
abbrev pub words_bytes : List ℕ → List ℕ
words_bytes [] = []
words_bytes (w ∷ ws) = word_bytes w ++ words_bytes ws

unfoldable pub copy_or_write : List ℕ → RingBuffer → RingBuffer
unfolding write write_bytes
copy_or_write command ring =
    if leb (length command * 4) (ring.size - ring.position)
    then record ring {
      base = write_bytes ring.base ring.position (words_bytes command);
      position = advance ring (length command * 4);
    }
    else write_all ring command

unfoldable pub put : List ℕ → List ℕ → RingBuffer → RingBuffer
unfolding make_space copy_or_write
put heads command ring = copy_or_write command (make_space heads (length command) ring)

unfoldable pub put_flush : List ℕ → RingBuffer → RingBuffer
unfolding make_space write
put_flush heads ring = write_all (make_space heads 2 ring) (command_flush ∷ mi_noop ∷ [])

abbrev pub command_wait_for_event : ℕ
command_wait_for_event = 0x03 * 2 ^ 23

unfoldable pub put_wait_for : List ℕ → ℕ → RingBuffer → RingBuffer
unfolding make_space write
put_wait_for heads event ring =
    write_all (make_space heads 2 ring) (bit_or command_wait_for_event event ∷ mi_noop ∷ [])

abbrev pub command_overlay_flip : ℕ
command_overlay_flip = 0x11 * 2 ^ 23

-- `registers` is the address of the overlay's registers that the device takes.
unfoldable pub put_overlay_flip : List ℕ → ℕ → ℕ → Bool → RingBuffer → RingBuffer
unfolding make_space write
put_overlay_flip heads mode registers update_coefficients ring =
    write_all (make_space heads 2 ring) (
      bit_or command_overlay_flip mode
      ∷ bit_or registers (if update_coefficients then 1 else 0)
      ∷ [])

abbrev pub hws_sync_sequence_index : ℕ
hws_sync_sequence_index = 0

-- Every eighth submission stores its number.
abbrev pub store_sequence : List ℕ → ℕ → RingBuffer → RingBuffer
store_sequence heads seq ring =
    if seq % 8 == 0
    then write_all (make_space heads 4 ring)
        (mi_store_dword_index ∷ hws_sync_sequence_index ∷ seq ∷ mi_noop ∷ [])
    else ring

-- A position off a quad word is moved on by a no-op.
abbrev pub align_ring : RingBuffer → RingBuffer
align_ring ring = if ring.position % 8 == 0 then ring else write ring mi_noop

-- The destructor of QueueCommands behind submission `last`: the number of the new submission and the
-- ring, whose position goes to the TAIL register.
unfoldable pub finish_queue : List ℕ → ℕ → RingBuffer → ℕ × RingBuffer
unfolding make_space write
finish_queue heads last ring =
    let seq = (last + 1) % 2 ^ 32 in (seq, align_ring (store_sequence heads seq ring))

-- The batch buffer; `available` is that there is one.
pub record BatchBuffer : Type 0 where
  pub available : Bool
  pub base : Memory
  pub offset : ℕ
  pub size : ℕ
  pub position : ℕ

-- Commands without room for them and 32 bytes are dropped.
unfoldable pub batch_put : List ℕ → BatchBuffer → BatchBuffer
unfolding write_bytes
batch_put bytes batch =
    if ltb batch.size (batch.position + length bytes + 32) then batch else record batch {
      base = write_bytes batch.base batch.position bytes;
      position = batch.position + length bytes;
    }

unfoldable pub write_batch : BatchBuffer → ℕ → BatchBuffer
unfolding write_bytes
write_batch batch word = record batch {
  base = write_bytes batch.base batch.position (word_bytes word);
  position = batch.position + 4;
}

abbrev pub close_batch : ℕ → BatchBuffer → BatchBuffer
close_batch seq batch =
    let stored =
      write_batch
        (write_batch (write_batch (write_batch batch mi_store_dword_index) hws_sync_sequence_index)
          seq)
        mi_noop in
    let ended = write_batch stored mi_batch_buffer_end in
    if ended.position % 8 == 0 then ended else write_batch ended mi_noop

-- The destructor of BatchCommands, with the queue that starts the batch; `heads` is what HEAD shows to
-- its MakeSpace, `later` what it shows to that of the queue's destructor.
unfoldable pub finish_batch :
    List ℕ → List ℕ → ℕ → BatchBuffer → RingBuffer → ℕ × BatchBuffer × RingBuffer
unfolding write_batch make_space write finish_queue
finish_batch heads later last batch ring =
    if not batch.available || batch.position == 0
    then (last, batch, ring)
    else (let seq = (last + 1) % 2 ^ 32 in
        let closed = close_batch seq batch in
        let (sent, started) =
          finish_queue later seq
            (write_all (make_space heads 2 ring) (mi_batch_buffer_start ∷ batch.offset ∷ [])) in
        (sent, closed, started))
