-- ===== src/GpuBo/Tests.antt =====
-- The buffer objects of gpu_bo.cpp with an allocator that always maps the same place.
use haiku_vaio_vpceb3k1e.Prelude.{
  ℕ, ◌+◌, ◌-◌, ◌^◌, ◌≤◌, ◌<◌, ◌≡◌, ◌⊎◌, refl, true, false, Option, some, none, [], ◌∷◌, replicate,
  arith, if◌then◌else◌, ◌==◌,
}
use haiku_vaio_vpceb3k1e.Prelude.Memory.{read_bytes}
use haiku_vaio_vpceb3k1e.Gem2d.{word_bytes}
use haiku_vaio_vpceb3k1e.GpuBo.{
  State, ok, take_memory, no_bo, is_usable, gpu_bo_alloc, gpu_bo_free, gpu_bo_write, gpu_bo_write32,
  gpu_bo_read32,
}
use haiku_vaio_vpceb3k1e.GpuBo.Live.{IsTracked, taken}
use haiku_vaio_vpceb3k1e.GpuBo.Tracked.{IsListed, gpu_bo-IsTracked}
use haiku_vaio_vpceb3k1e.GpuBo.Bounds.{read32-write32, gpu_bo_write-inside, gpu_bo_write32-wraps}

abbrev nothing_live : State
nothing_live = record {
  bos = λ p. no_bo;
  live_bos = replicate 32 none;
  live_count = 0;
  memory = λ a. 0;
}

abbrev allocate : ℕ → Option ℕ
allocate size = some 0x10000

-- Object 5 has 64 bytes.
abbrev one_live : State
one_live = record nothing_live {
  bos = λ p.
      if p == 5
      then record { cpu_addr = 0x10000; gtt_offset = 0; size = 64; alignment = 0; valid = true }
      else no_bo;
  live_bos = some 5 ∷ replicate 31 none;
  live_count = 1;
}

one_live-IsTracked : IsTracked one_live
one_live-IsTracked = record {
  length_table = refl;
  count = refl;
  once = λ p. ground arith;
  live = λ p h. ground arith;
}

-- The live object 5 is freed, and object 6 is allocated.
gpu_bo-IsTracked_example :
    IsTracked (gpu_bo_free 5 one_live).1
    × (is_usable 5 one_live ≡ true → IsListed 5 0 one_live (gpu_bo_free 5 one_live).1)
    × IsTracked (gpu_bo_alloc 0 allocate 6 64 0 one_live).1
    × (taken one_live.live_bos < 32
        → (gpu_bo_alloc 0 allocate 6 64 0 one_live).0 ≡ ok
        → IsListed 6 1 one_live (gpu_bo_alloc 0 allocate 6 64 0 one_live).1)
gpu_bo-IsTracked_example = gpu_bo-IsTracked 0 allocate 5 6 64 0 one_live one_live-IsTracked refl

usable_5 : is_usable 5 one_live ≡ true
usable_5 = refl

allocated_6 : (gpu_bo_alloc 0 allocate 6 64 0 one_live).0 ≡ ok
unfolding gpu_bo_alloc take_memory
allocated_6 = refl

read32-write32_example : gpu_bo_read32 5 60 (gpu_bo_write32 5 60 0x12345678 one_live) ≡ 0x12345678
read32-write32_example =
    read32-write32 5 60 0x12345678 one_live refl (omega arith) (omega arith) (omega arith)

gpu_bo_write-inside_example :
    ((a : ℕ)
      → (a < 0x10000) ⊎ (0x10000 + 64 ≤ a)
      → (gpu_bo_write 5 8 (some (1 ∷ 2 ∷ [])) one_live).memory a ≡ one_live.memory a)
    × (is_usable 5 one_live ≡ true
        → 8 + 2 ≤ 64
        → read_bytes (gpu_bo_write 5 8 (some (1 ∷ 2 ∷ [])) one_live).memory (0x10000 + 8) 2
          ≡ 1 ∷ 2 ∷ [])
    × ((is_usable 5 one_live ≡ false) ⊎ (64 < 8 + 2)
        → gpu_bo_write 5 8 (some (1 ∷ 2 ∷ [])) one_live ≡ one_live)
gpu_bo_write-inside_example = gpu_bo_write-inside 5 8 (1 ∷ 2 ∷ []) one_live (omega arith)

gpu_bo_write32-wraps_example :
    (0x10000 + 64 ≤ 0x10000 + (2 ^ 32 - 2))
    × (read_bytes (gpu_bo_write32 5 (2 ^ 32 - 2) 7 one_live).memory (0x10000 + (2 ^ 32 - 2)) 4
        ≡ word_bytes 7)
gpu_bo_write32-wraps_example =
    gpu_bo_write32-wraps 5 (2 ^ 32 - 2) 7 one_live refl (omega arith) (omega arith) (omega arith)
      (omega arith)
