-- ===== src/GpuRing.antt =====
-- intel_extreme/accelerant/gpu_ring.cpp: command submission through the ring buffer.
-- The ring memory is the list `base` of its 32-bit words. The registers that the GPU moves are the
-- environment: a `Poll` holds what one round of a waiting loop reads, and a loop is given the polls
-- that it makes before its deadline. The area handles and the descriptor are not in the state.
pub mod Emit
pub mod Begin
pub mod Outcomes
pub mod Submit
mod Tests
use haiku_vaio_vpceb3k1e.Prelude.{
  ℕ, zero, suc, ◌+◌, ◌-◌, ◌*◌, ◌/◌, ◌%◌, ◌^◌, bit_and, Bool, true, false, not, ◌&&◌, ◌||◌, List, [],
  ◌∷◌, Option, none, some, if◌then◌else◌, ltb, leb, ◌==◌, set,
}

-- The results of `status_t` that the ring functions return.
pub data Status : Type 0 where
  ok bad_value no_memory timed_out error : Status

pub record GpuRing : Type 0 where
  pub base : List ℕ
  pub size : ℕ
  pub pos : ℕ
  pub emit_start : ℕ
  pub emit_count : ℕ
  pub emit_reserved : ℕ

-- `ring_buffer` of the shared info, as far as `gpu_ring_init` reads and writes it.
pub record SharedRing : Type 0 where
  pub base : List ℕ
  pub size : ℕ
  pub position : ℕ
  pub space_left : ℕ

abbrev pub head_mask : ℕ
head_mask = 0x001f_fffc

-- What a waiting loop reads in one round: HEAD, then HEAD and TAIL for `ring_is_idle`.
pub record Poll : Type 0 where
  pub head_reg : ℕ
  pub idle_head_reg : ℕ
  pub idle_tail_reg : ℕ

abbrev pub head : Poll → ℕ
head p = bit_and p.head_reg head_mask

unfoldable pub ring_is_idle : ℕ → Poll → Bool
ring_is_idle size p = bit_and p.idle_head_reg head_mask == bit_and p.idle_tail_reg (size - 1)

-- The arguments say whether the ioctl and the two area clones succeed, and give the TAIL register.
unfoldable pub init : Bool → Bool → Bool → ℕ → SharedRing → Status × Option (GpuRing × SharedRing)
init got_private got_shared got_regs tail_reg hw =
    if not (got_private && got_shared && got_regs) then (error, none) else (
      ok,
      some (
        record {
          base = hw.base;
          size = hw.size;
          pos = bit_and tail_reg (hw.size - 1);
          emit_start = 0;
          emit_count = 0;
          emit_reserved = 0;
        },
        record hw {
          position = bit_and tail_reg (hw.size - 1);
          space_left = (hw.size + 2 ^ 32 - 64) % 2 ^ 32;
        },
      ),
    )

-- Whether one of the polls before the deadline is safe.
unfoldable pub wait_until : (Poll → Bool) → List Poll → Bool
wait_until safe [] = false
wait_until safe (p ∷ ps) = safe p || wait_until safe ps

-- `base[(start + i) % ring_dwords] = 0`, for `n` values of `i`.
unfoldable pub fill_noops : ℕ → ℕ → ℕ → ℕ → List ℕ → List ℕ
fill_noops zero i start ring_dwords base = base
fill_noops (suc n) i start ring_dwords base =
    fill_noops n (i + 1) start ring_dwords (set base ((start + i) % ring_dwords) 0)

abbrev pub bytes_needed : ℕ → ℕ
bytes_needed dwords = (dwords + 2) * 4 % 2 ^ 32

-- `size - 64`, in 32 bits.
abbrev pub usable : GpuRing → ℕ
usable r = (r.size + 2 ^ 32 - 64) % 2 ^ 32

abbrev pub needs_wrap : GpuRing → ℕ → Bool
needs_wrap r dwords = ltb (usable r) ((r.pos + bytes_needed dwords) % 2 ^ 32)

abbrev pub pad_to_end : GpuRing → GpuRing
pad_to_end r = record r {
  base = fill_noops ((r.size - r.pos) / 4) 0 (r.pos / 4) (r.size / 4) r.base;
}

-- In step 2 of the wrap HEAD must be before the words just overwritten, or the GPU idle.
abbrev pub safe_to_wrap : GpuRing → Poll → Bool
safe_to_wrap r p = ring_is_idle r.size p || ltb (head p) r.pos

-- HEAD is outside the words to be written, or the GPU is idle.
abbrev pub safe_to_write : GpuRing → ℕ → Poll → Bool
safe_to_write r dwords p =
    ring_is_idle r.size p
    || (if leb ((r.pos + bytes_needed dwords) % 2 ^ 32) r.size
        then ltb (head p) r.pos || leb ((r.pos + bytes_needed dwords) % 2 ^ 32) (head p)
        else leb ((r.pos + bytes_needed dwords + 2 ^ 32 - r.size) % 2 ^ 32) (head p)
          && ltb (head p) r.pos)

-- The second half of `gpu_ring_begin`, from the place where the words will go.
unfoldable pub reserve : GpuRing → List Poll → ℕ → Status × GpuRing
unfolding wait_until
reserve r polls dwords =
    if wait_until (safe_to_write r dwords) polls
    then (ok, record r { emit_start = r.pos; emit_count = 0; emit_reserved = dwords })
    else (timed_out, r)

unfoldable pub begin : GpuRing → List Poll → List Poll → ℕ → Status × GpuRing
unfolding reserve fill_noops
begin r wrap_polls polls dwords =
    if ltb (usable r) (bytes_needed dwords)
    then (no_memory, r)
    else if needs_wrap r dwords
    then (if wait_until (safe_to_wrap r) wrap_polls
        then reserve (record (pad_to_end r) { pos = 0 }) polls dwords
        else (timed_out, pad_to_end r))
    else reserve r polls dwords

unfoldable pub emit : GpuRing → ℕ → GpuRing
emit r value = record r {
  base = set r.base (bit_and (r.pos / 4) (r.size / 4 - 1)) value;
  pos = bit_and (r.pos + 4) (r.size - 1);
  emit_count = (r.emit_count + 1) % 2 ^ 32;
}

unfoldable pub emit_all : GpuRing → List ℕ → GpuRing
unfolding emit
emit_all r [] = r
emit_all r (w ∷ ws) = emit_all (emit r w) ws

-- The value given to INTEL_RING_WRITE_TAIL is the position of the ring that is returned; the
-- argument says whether the ioctl succeeds.
unfoldable pub advance : GpuRing → Bool → Status × GpuRing
unfolding emit
advance r sent =
    let padded = if bit_and r.pos 0x07 == 0 then r else emit r 0 in
    if sent then (ok, padded) else (error, padded)

-- `gpu_ring_submit` behind its `gpu_ring_begin`.
unfoldable pub fill_reserved : Status × GpuRing → List ℕ → Bool → Status × GpuRing
unfolding emit_all advance
fill_reserved (ok, r) dwords sent = advance (emit_all r dwords) sent
fill_reserved (st, r) dwords sent = (st, r)

-- The list holds the `count` words at `dwords`.
unfoldable pub submit : GpuRing → List Poll → List Poll → List ℕ → ℕ → Bool → Status × GpuRing
unfolding begin fill_reserved
submit r wrap_polls polls dwords count sent =
    fill_reserved (begin r wrap_polls polls count) dwords sent

unfoldable pub wait_idle : GpuRing → List Poll → Bool
unfolding wait_until
wait_idle r polls = wait_until (ring_is_idle r.size) polls
