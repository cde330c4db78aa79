-- ===== src/Gem/Tests.antt =====
-- The buffers and the ring of GemManager.cpp on small states.
use haiku_vaio_vpceb3k1e.Prelude.{
  ℕ, ◌+◌, ◌-◌, ◌≡◌, ◌≢◌, refl, [], ◌∷◌, true, some, arith, replicate,
}
use haiku_vaio_vpceb3k1e.Gem.Buffers.{
  Buffer, Gem, ok, fresh, free_slot, find, page_align, clear_memory, create_buffer, map_buffer,
  get_offset, close_buffer,
}
use haiku_vaio_vpceb3k1e.Gem.Buffers.Table.{live}
use haiku_vaio_vpceb3k1e.Gem.Buffers.Handles.{
  IsValid, fresh-IsValid, Created, create_buffer-Created, close-create,
}
use haiku_vaio_vpceb3k1e.Gem.Ring.{RingBuffer, make_space, ring_write, ring_write_all}
use haiku_vaio_vpceb3k1e.Gem.Ring.Write
use haiku_vaio_vpceb3k1e.Gem.Exec.{
  framed, send_commands, exec_commands, load, start_batch, exec_buffer, exec_batch,
  mi_batch_buffer_end,
}
use haiku_vaio_vpceb3k1e.Gem.Exec.Commands.{Sent, exec_commands-Sent}
use haiku_vaio_vpceb3k1e.Gem.Exec.Batch.{Started, exec_batch-Started, exec_batch-overrun}

-- A memory of ones, and the manager at its start with the graphics memory at 0x10000.
abbrev ones : ℕ → ℕ
ones a = 1

abbrev start : Gem
start = fresh 0x10000 ones

abbrev base : ℕ
base = 0x12000

start-IsValid : IsValid start
start-IsValid = fresh-IsValid 0x10000 ones

start_is_empty : (live start.objects ≡ 0) × (start.next_handle ≡ 1)
unfolding fresh
start_is_empty = (refl, refl)

fresh-IsValid_example : IsValid start
fresh-IsValid_example = fresh-IsValid 0x10000 ones

create_buffer-Created_example : Created start 100 base (create_buffer start 100 (some base))
create_buffer-Created_example =
    create_buffer-Created start 100 start-IsValid base (omega (arith, start_is_empty.0))
      (omega (arith, start_is_empty.1))

close-create_example :
    let after = close_buffer (create_buffer start 100 (some base)).2 start.next_handle in
    (after.0 ≡ ok)
    × (after.1 ≡ some base)
    × ((h : ℕ)
        → (map_buffer after.2 h ≡ map_buffer start h) × (get_offset after.2 h ≡ get_offset start h))
close-create_example =
    close-create start 100 base start-IsValid (omega (arith, start_is_empty.0))
      (omega (arith, start_is_empty.1))

-- The manager with one buffer of a page.
abbrev one_buffer : Gem
one_buffer = (create_buffer start 100 (some base)).2

abbrev the_buffer : Buffer
the_buffer = record {
  handle = 1;
  gtt_offset = 0x2000;
  size = 0x1000;
  cpu_addr = base;
  in_use = true;
}

one_buffer_found : find 1 one_buffer.objects ≡ some the_buffer
unfolding fresh create_buffer find free_slot page_align
one_buffer_found = refl

-- A ring of 64 bytes at its byte 56, full as far as is known.
abbrev small_ring : RingBuffer
small_ring = record { base = replicate 16 7; size = 64; position = 56; space_left = 0 }

small_ring-IsValid : Write.IsValid small_ring
small_ring-IsValid = record {
  order = 4;
  size_eq = refl;
  small = omega arith;
  memory = refl;
  whole = refl;
  inside = omega arith;
}

-- HEAD at 60 leaves too little room, HEAD at 40 enough.
commands_sent : (exec_commands 0 1 (60 ∷ 40 ∷ []) (some (5 ∷ 6 ∷ 7 ∷ [])) small_ring).0 ≡ ok
unfolding exec_commands make_space send_commands ring_write_all ring_write
commands_sent = refl

exec_commands-Sent_example :
    Sent
      (60 ∷ 40 ∷ [])
      small_ring
      (framed (5 ∷ 6 ∷ 7 ∷ []))
      28
      (exec_commands 0 1 (60 ∷ 40 ∷ []) (some (5 ∷ 6 ∷ 7 ∷ [])) small_ring)
exec_commands-Sent_example =
    exec_commands-Sent 0 1 (60 ∷ 40 ∷ []) (5 ∷ 6 ∷ 7 ∷ []) small_ring small_ring-IsValid
      (omega arith) commands_sent

commands_late : (exec_commands 0 1 (60 ∷ 60 ∷ []) (some (5 ∷ 6 ∷ 7 ∷ [])) small_ring).0 ≢ ok
unfolding exec_commands make_space send_commands
commands_late e = cc

batch_started : (exec_batch 0 1 (40 ∷ []) 1 0x1000 small_ring one_buffer).0.0 ≡ ok
unfolding exec_batch find fresh create_buffer free_slot page_align exec_buffer make_space
    start_batch ring_write_all ring_write
batch_started = refl

exec_batch-Started_example :
    Started
      (40 ∷ [])
      small_ring
      one_buffer
      the_buffer
      0x1000
      (exec_batch 0 1 (40 ∷ []) 1 0x1000 small_ring one_buffer)
exec_batch-Started_example =
    exec_batch-Started 0 1 (40 ∷ []) 1 0x1000 small_ring one_buffer the_buffer one_buffer_found
      small_ring-IsValid (omega arith) batch_started

unended : load one_buffer.memory (base + (0x1000 - 4)) ≢ mi_batch_buffer_end
unfolding create_buffer clear_memory fresh free_slot page_align
unended e = omega (arith, e)

exec_batch-overrun_example :
    (exec_batch 0 1 (40 ∷ []) 1 0x1000 small_ring one_buffer).1.memory (base + 0x1000 + 3) ≡ 5
exec_batch-overrun_example =
    exec_batch-overrun 0 1 (40 ∷ []) 1 0x1000 small_ring one_buffer the_buffer one_buffer_found
      batch_started refl refl (omega arith) unended
