-- ===== src/GpuBo.antt =====
-- The buffer objects of gpu_bo.cpp. An object is known by its address, 0 is NULL; the table of live
-- objects holds such addresses. The memory that the allocator of the kernel maps is one memory of
-- bytes by 64-bit address. What the allocator answers is a parameter. The name of an object, which is
-- only logged, is left out.
pub mod Live
pub mod Tracked
pub mod Bounds
pub mod Tests
use haiku_vaio_vpceb3k1e.Prelude.{
  ℕ, zero, suc, ◌+◌, ◌-◌, ◌*◌, ◌/◌, ◌%◌, ◌^◌, Bool, true, false, not, ◌||◌, ◌&&◌, Option, none,
  some, List, [], ◌∷◌, if◌then◌else◌, ltb, ◌==◌, length, replicate,
}
use haiku_vaio_vpceb3k1e.Prelude.Memory.{Memory, write_bytes, read_bytes}
use haiku_vaio_vpceb3k1e.Gem2d.{word_bytes}

-- `gpu_bo`.
pub record Bo : Type 0 where
  pub cpu_addr : ℕ
  pub gtt_offset : ℕ
  pub size : ℕ
  pub alignment : ℕ
  pub valid : Bool

abbrev pub no_bo : Bo
no_bo = record { cpu_addr = 0; gtt_offset = 0; size = 0; alignment = 0; valid = false }

abbrev pub max_tracked_bos : ℕ
max_tracked_bos = 32

pub record State : Type 0 where
  pub bos : ℕ → Bo
  pub live_bos : List (Option ℕ)
  pub live_count : ℕ
  pub memory : Memory

abbrev pub set_bo : ℕ → Bo → State → State
set_bo p bo s = record s { bos = λ q. if q == p then bo else s.bos q }

abbrev pub keep_entry : Option ℕ → Option (List (Option ℕ)) → Option (List (Option ℕ))
keep_entry entry none = none
keep_entry entry (some rest) = some (entry ∷ rest)

-- The first free entry of the table is taken; `none` is a full table.
abbrev pub take_entry : ℕ → List (Option ℕ) → Option (List (Option ℕ))
take_entry p [] = none
take_entry p (none ∷ entries) = some (some p ∷ entries)
take_entry p (some q ∷ entries) = keep_entry (some q) (take_entry p entries)

-- The first entry of `p` is cleared; `none` where there is none.
abbrev pub clear_entry : ℕ → List (Option ℕ) → Option (List (Option ℕ))
clear_entry p [] = none
clear_entry p (none ∷ entries) = keep_entry none (clear_entry p entries)
clear_entry p (some q ∷ entries) =
    if q == p then some (none ∷ entries) else keep_entry (some q) (clear_entry p entries)

abbrev pub with_entries : Option (List (Option ℕ)) → ℕ → State → State
with_entries none count s = s
with_entries (some entries) count s = record s { live_bos = entries; live_count = count }

unfoldable pub track_alloc : ℕ → State → State
track_alloc p s = with_entries (take_entry p s.live_bos) ((s.live_count + 1) % 2 ^ 32) s

unfoldable pub track_free : ℕ → State → State
track_free p s = with_entries (clear_entry p s.live_bos) ((s.live_count + 2 ^ 32 - 1) % 2 ^ 32) s

-- B_OK, B_BAD_VALUE, or the error of the allocator.
pub data Status : Type 0 where
  ok : Status
  bad_value : Status
  failed : Status

-- Behind the allocator: `none` is its failure; `aperture` is where the graphics memory is mapped.
unfoldable pub take_memory : ℕ → Option ℕ → ℕ → ℕ → ℕ → State → Status × State
unfolding track_alloc
take_memory aperture none p size alignment s = (failed, s)
take_memory aperture (some base) p size alignment s = (
  ok,
  track_alloc p (
      set_bo p
        (record {
          cpu_addr = base;
          gtt_offset = (base + 2 ^ 64 - aperture) % 2 ^ 32;
          size = size;
          alignment = alignment;
          valid = true;
        })
        s),
)

unfoldable pub gpu_bo_alloc : ℕ → (ℕ → Option ℕ) → ℕ → ℕ → ℕ → State → Status × State
unfolding take_memory
gpu_bo_alloc aperture allocate p size alignment s =
    if p == 0
    then (bad_value, s)
    else if size == 0
    then (bad_value, set_bo p no_bo s)
    else take_memory aperture (allocate size) p size alignment (set_bo p no_bo s)

abbrev pub is_usable : ℕ → State → Bool
is_usable p s = not (p == 0) && (s.bos p).valid

-- The first component is the address that goes back to the allocator.
unfoldable pub gpu_bo_free : ℕ → State → Option ℕ × State
unfolding track_free
gpu_bo_free p s =
    if is_usable p s then (some (s.bos p).cpu_addr, set_bo p no_bo (track_free p s)) else (none, s)

unfoldable pub gpu_bo_clear : ℕ → State → State
unfolding write_bytes
gpu_bo_clear p s =
    if is_usable p s
    then record s { memory = write_bytes s.memory (s.bos p).cpu_addr (replicate (s.bos p).size 0) }
    else s

-- `offset + size > bo->size` in 32 bits.
abbrev pub is_outside : Bo → ℕ → ℕ → Bool
is_outside bo offset size = ltb bo.size ((offset + size) % 2 ^ 32)

-- `data` that is NULL is `none`; a list has all of its `size` bytes.
unfoldable pub gpu_bo_write : ℕ → ℕ → Option (List ℕ) → State → State
unfolding write_bytes
gpu_bo_write p offset none s = s
gpu_bo_write p offset (some bytes) s =
    if not (is_usable p s) || is_outside (s.bos p) offset (length bytes)
    then s
    else record s { memory = write_bytes s.memory ((s.bos p).cpu_addr + offset) bytes }

unfoldable pub gpu_bo_write32 : ℕ → ℕ → ℕ → State → State
unfolding write_bytes
gpu_bo_write32 p offset value s =
    if not (is_usable p s) || is_outside (s.bos p) offset 4
    then s
    else record s { memory = write_bytes s.memory ((s.bos p).cpu_addr + offset) (word_bytes value) }

-- The number that four bytes are.
abbrev pub word_of : List ℕ → ℕ
word_of [] = 0
word_of (b ∷ bs) = b + 2 ^ 8 * word_of bs

unfoldable pub gpu_bo_read32 : ℕ → ℕ → State → ℕ
unfolding read_bytes
gpu_bo_read32 p offset s =
    if not (is_usable p s) || is_outside (s.bos p) offset 4
    then 0
    else word_of (read_bytes s.memory ((s.bos p).cpu_addr + offset) 4)
