-- ===== src/Gem/Buffers.antt =====
-- The buffer objects of GemManager.cpp: CreateBuffer, MapBuffer, GetOffset and CloseBuffer.
-- The kernel's answer to INTEL_ALLOCATE_GRAPHICS_MEMORY is an argument: the address of the memory,
-- or `none` for a failure. The address given to INTEL_FREE_GRAPHICS_MEMORY is a result.
pub mod Table
pub mod Change
pub mod Handles
use haiku_vaio_vpceb3k1e.Prelude.{
  ℕ, zero, suc, ◌+◌, ◌-◌, ◌%◌, ◌^◌, bit_and, Bool, true, false, ◌&&◌, not, List, [], ◌∷◌, Option,
  none, some, if◌then◌else◌, ltb, leb, ◌==◌, set, replicate,
}

pub data Status : Type 0 where
  ok bad_value no_memory not_allowed dev_not_ready timed_out : Status

-- `gem_buffer`.
pub record Buffer : Type 0 where
  pub handle : ℕ
  pub gtt_offset : ℕ
  pub size : ℕ
  pub cpu_addr : ℕ
  pub in_use : Bool

abbrev pub gem_max_objects : ℕ
gem_max_objects = 256

-- The state of `GemManager` that its buffer operations use: `fObjects`, `fNextHandle` and the
-- address of the graphics memory; `memory` is the memory of the machine in bytes.
pub record Gem : Type 0 where
  pub objects : List Buffer
  pub next_handle : ℕ
  pub graphics_memory : ℕ
  pub memory : ℕ → ℕ

abbrev pub unused : Buffer
unused = record { handle = 0; gtt_offset = 0; size = 0; cpu_addr = 0; in_use = false }

-- The constructor, with the shared info of `Init`.
unfoldable pub fresh : ℕ → (ℕ → ℕ) → Gem
fresh graphics_memory memory = record {
  objects = replicate gem_max_objects unused;
  next_handle = 1;
  graphics_memory = graphics_memory;
  memory = memory;
}

-- `(size + 0xFFF) & ~0xFFF`, in 32 bits.
unfoldable pub page_align : ℕ → ℕ
page_align size = bit_and ((size + 0xFFF) % 2 ^ 32) 0xFFFF_F000

-- The first slot that is not in use.
unfoldable pub free_slot : List Buffer → Option ℕ
free_slot [] = none
free_slot (o ∷ os) =
    let rest = free_slot os in
    if not o.in_use then some 0 else elim rest [ none ↦ none | some i ↦ some (suc i) ]

abbrev pub has_handle : ℕ → Buffer → Bool
has_handle h o = o.in_use && o.handle == h

-- The first buffer in use under a handle.
unfoldable pub find : ℕ → List Buffer → Option Buffer
find h [] = none
find h (o ∷ os) = if has_handle h o then some o else find h os

-- `fObjects[i].in_use = false`, for that buffer.
unfoldable pub release : ℕ → List Buffer → List Buffer
release h [] = []
release h (o ∷ os) = if has_handle h o then record o { in_use = false } ∷ os else o ∷ release h os

unfoldable pub clear_memory : ℕ → ℕ → (ℕ → ℕ) → ℕ → ℕ
clear_memory base size memory a = if leb base a && ltb a (base + size) then 0 else memory a

-- The buffer object that CreateBuffer fills in.
abbrev pub new_buffer : Gem → ℕ → ℕ → Buffer
new_buffer g size base = record {
  handle = g.next_handle;
  gtt_offset = (base + 2 ^ 64 - g.graphics_memory) % 2 ^ 64 % 2 ^ 32;
  size = page_align size;
  cpu_addr = base;
  in_use = true;
}

unfoldable pub create_buffer : Gem → ℕ → Option ℕ → Status × Option ℕ × Gem
unfolding free_slot
create_buffer g size alloc = elim (free_slot g.objects) [
  | none ↦ (no_memory, none, g)
  | some slot ↦ elim alloc [
    | none ↦ (no_memory, none, g)
    | some base ↦ (
      ok,
      some g.next_handle,
      record g {
        objects = set g.objects slot (new_buffer g size base);
        next_handle = (g.next_handle + 1) % 2 ^ 32;
        memory = clear_memory base (page_align size) g.memory;
      },
    )
  ]
]

-- `none` is NULL.
unfoldable pub map_buffer : Gem → ℕ → Option ℕ
unfolding find
map_buffer g h = elim (find h g.objects) [ none ↦ none | some o ↦ some o.cpu_addr ]

unfoldable pub get_offset : Gem → ℕ → ℕ
unfolding find
get_offset g h = elim (find h g.objects) [ none ↦ 0 | some o ↦ o.gtt_offset ]

-- The option is the address that is given back to the kernel.
unfoldable pub close_buffer : Gem → ℕ → Status × Option ℕ × Gem
unfolding find release
close_buffer g h = elim (find h g.objects) [
  | none ↦ (bad_value, none, g)
  | some o ↦ (ok, some o.cpu_addr, record g { objects = release h g.objects })
]
