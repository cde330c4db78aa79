-- ===== src/Gem/Exec.antt =====
-- ExecCommands, ExecBatch and WaitIdle of GemManager.cpp. The registers ESR and CONTROL and the
-- values of HEAD are arguments; the result holds the value written to TAIL, if one is. The lock is
-- taken and released on every path and is not in the state.
pub mod Commands
pub mod Batch
use haiku_vaio_vpceb3k1e.Prelude.{
  ℕ, ◌+◌, ◌-◌, ◌*◌, ◌/◌, ◌%◌, ◌^◌, bit_and, Bool, true, false, not, ◌&&◌, ◌||◌, List, [], ◌∷◌, ◌++◌,
  Option, none, some, if◌then◌else◌, ltb, leb, ◌==◌, length,
}
use haiku_vaio_vpceb3k1e.Gem.Buffers.{
  Status, ok, bad_value, dev_not_ready, not_allowed, timed_out, Buffer, Gem, find,
}
use haiku_vaio_vpceb3k1e.Gem.Ring.{RingBuffer, make_space, ring_write, ring_write_all, head_mask}

abbrev pub mi_flush : ℕ
mi_flush = 0x0200_0000

abbrev pub mi_noop : ℕ
mi_noop = 0

abbrev pub mi_batch_buffer_start : ℕ
mi_batch_buffer_start = 0x31 * 2 ^ 23

abbrev pub mi_batch_buffer_end : ℕ
mi_batch_buffer_end = 0x0A * 2 ^ 23

-- The status, the ring, and the value that TAIL was given.
abbrev pub Outcome : Type 0
Outcome = Status × RingBuffer × Option ℕ

-- The words that ExecCommands puts into the ring.
abbrev pub framed : List ℕ → List ℕ
framed cmds = mi_flush ∷ mi_noop ∷ (cmds ++ (mi_flush ∷ mi_noop ∷ []))

-- `totalDW`.
abbrev pub total_dw : ℕ → ℕ
total_dw count =
    let total = (count + 4) % 2 ^ 32 in if bit_and total 1 == 1 then (total + 1) % 2 ^ 32 else total

-- The writes of ExecCommands, once there is room.
unfoldable pub send_commands : List ℕ → ℕ → Bool × RingBuffer → Outcome
unfolding ring_write ring_write_all
send_commands cmds total (false, r) = (timed_out, r, none)
send_commands cmds total (true, r) =
    let written = ring_write_all (framed cmds) r in
    let padded = if bit_and total 1 == 1 then ring_write 0 written else written in
    (ok, padded, some padded.position)

-- `none` is NULL; a list of commands holds all of its `count` words.
unfoldable pub exec_commands : ℕ → ℕ → List ℕ → Option (List ℕ) → RingBuffer → Outcome
unfolding make_space send_commands
exec_commands esr ring_ctl heads none r = (bad_value, r, none)
exec_commands esr ring_ctl heads (some cmds) r =
    if length cmds == 0
    then (bad_value, r, none)
    else if bit_and esr 1 == 1
    then (dev_not_ready, r, none)
    else if not (bit_and ring_ctl 1 == 1)
    then (dev_not_ready, r, none)
    else send_commands cmds (total_dw (length cmds))
        (make_space (total_dw (length cmds) * 4 % 2 ^ 32) heads r)

-- A little-endian 32-bit word of the memory.
abbrev pub load : (ℕ → ℕ) → ℕ → ℕ
load memory a =
    memory a + memory (a + 1) * 2 ^ 8 + memory (a + 2) * 2 ^ 16 + memory (a + 3) * 2 ^ 24

unfoldable pub store : (ℕ → ℕ) → ℕ → ℕ → ℕ → ℕ
store memory a value i =
    if leb a i && ltb i (a + 4) then value / 2 ^ (8 * (i - a)) % 2 ^ 8 else memory i

-- MI_BATCH_BUFFER_END, and MI_NOOP behind it up to a quad word, where the batch does not end so.
unfoldable pub terminate : Buffer → ℕ → (ℕ → ℕ) → ℕ → ℕ
unfolding store
terminate bo used_bytes memory =
    let last_dw = used_bytes / 4 in
    if ltb 0 last_dw && not (load memory (bo.cpu_addr + 4 * (last_dw - 1)) == mi_batch_buffer_end)
    then (let ended = store memory (bo.cpu_addr + 4 * last_dw) mi_batch_buffer_end in
        if bit_and ((used_bytes + 4) % 2 ^ 32 / 4) 1 == 1
        then store ended (bo.cpu_addr + 4 * (last_dw + 1)) mi_noop
        else ended)
    else memory

abbrev pub batch_words : ℕ → List ℕ
batch_words batch_addr =
    mi_flush ∷ mi_noop ∷ mi_batch_buffer_start ∷ batch_addr ∷ mi_flush ∷ mi_noop ∷ []

-- The writes of ExecBatch, once there is room.
unfoldable pub start_batch : ℕ → Bool × RingBuffer → Outcome
unfolding ring_write_all
start_batch batch_addr (false, r) = (timed_out, r, none)
start_batch batch_addr (true, r) =
    let written = ring_write_all (batch_words batch_addr) r in (ok, written, some written.position)

abbrev refused : Status → RingBuffer → Gem → Outcome × Gem
refused st r g = ((st, r, none), g)

-- ExecBatch from the place where the buffer is found.
unfoldable pub exec_buffer : ℕ → ℕ → List ℕ → Buffer → ℕ → RingBuffer → Gem → Outcome × Gem
unfolding make_space start_batch terminate
exec_buffer esr ring_ctl heads bo used_bytes r g =
    if not (bit_and bo.gtt_offset 7 == 0)
    then refused not_allowed r g
    else if bit_and esr 1 == 1
    then refused dev_not_ready r g
    else if not (bit_and ring_ctl 1 == 1)
    then refused dev_not_ready r g
    else (
      start_batch bo.gtt_offset (make_space 24 heads r),
      record g { memory = terminate bo used_bytes g.memory },
    )

unfoldable pub exec_batch : ℕ → ℕ → List ℕ → ℕ → ℕ → RingBuffer → Gem → Outcome × Gem
unfolding find exec_buffer
exec_batch esr ring_ctl heads h used_bytes r g =
    if used_bytes == 0 then refused bad_value r g else elim (find h g.objects) [
      | none ↦ refused bad_value r g
      | some bo ↦ exec_buffer esr ring_ctl heads bo used_bytes r g
    ]

-- The pairs of HEAD and TAIL that are read before the deadline.
unfoldable pub wait_idle : List (ℕ × ℕ) → Status
wait_idle [] = timed_out
wait_idle ((head_reg, tail_reg) ∷ rest) =
    if bit_and head_reg head_mask == tail_reg then ok else wait_idle rest
