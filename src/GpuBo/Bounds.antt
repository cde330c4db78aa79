-- ===== src/GpuBo/Bounds.antt =====
-- The accesses of gpu_bo.cpp to the memory of an object.
use haiku_vaio_vpceb3k1e.Prelude.{
  ℕ, ◌+◌, ◌-◌, ◌^◌, ◌≤◌, ◌<◌, ◌≡◌, ◌⊎◌, refl, ap, ap₂, sym, ◌∙◌, Bool, true, false, not, ◌||◌, List,
  some, length, if◌then◌else◌, arith, inl, inr, if_false,
}
use haiku_vaio_vpceb3k1e.Prelude.Memory.{
  write_bytes, read_bytes, read-write, write_bytes-below, write_bytes-above,
}
use haiku_vaio_vpceb3k1e.Gem2d.{word_bytes}
use haiku_vaio_vpceb3k1e.GpuBo.{
  Bo, State, is_usable, is_outside, word_of, gpu_bo_write, gpu_bo_write32, gpu_bo_read32,
}

word_of-word_bytes : (v : ℕ) → v < 2 ^ 32 → word_of (word_bytes v) ≡ v
word_of-word_bytes v h = omega arith

-- An access inside the object, whose end does not go round.
inside :
    (bo : Bo) (offset size : ℕ)
    → offset + size ≤ bo.size
    → offset + size < 2 ^ 32
    → is_outside bo offset size ≡ false
inside bo offset size fits small = ground arith

is_outside-false :
    (bo : Bo) (offset size : ℕ)
    → offset + size < 2 ^ 32
    → is_outside bo offset size ≡ false
    → offset + size ≤ bo.size
is_outside-false bo offset size small e = ground arith

or-right : (a b : Bool) → (a || b) ≡ false → b ≡ false
or-right false b e = e
or-right true b e = absurd (cc e)

different : true ≡ false → ⊥
different e = cc

-- A word written into a live object, at any offset where its four bytes fit, is read back.
pub read32-write32 :
    (p offset value : ℕ) (s : State)
    → is_usable p s ≡ true
    → (s.bos p).size < 2 ^ 32
    → offset + 4 ≤ (s.bos p).size
    → value < 2 ^ 32
    → gpu_bo_read32 p offset (gpu_bo_write32 p offset value s) ≡ value
unfolding gpu_bo_read32 gpu_bo_write32
read32-write32 p offset value s usable small fits word =
    ap (gpu_bo_read32 p offset) (if_false _ _ test)
    ∙ if_false _ _ test
    ∙ ap word_of (read-write s.memory ((s.bos p).cpu_addr + offset) (word_bytes value))
    ∙ word_of-word_bytes value word
  where
    test : (not (is_usable p s) || is_outside (s.bos p) offset 4) ≡ false
    test = ap₂ (λ a b. not a || b) usable (inside (s.bos p) offset 4 fits (omega arith))

outside :
    (bo : Bo) (offset size : ℕ)
    → bo.size < offset + size
    → offset + size < 2 ^ 32
    → is_outside bo offset size ≡ true
outside bo offset size over small = ground arith

or-true_right : (a b : Bool) → b ≡ true → (a || b) ≡ true
or-true_right true b e = refl
or-true_right false b e = e

-- Unless the offset and the length go round in 32 bits, gpu_bo_write of bytes touches no byte outside
-- the object; where they fit into a live object it writes all of them; and where they do not fit, or
-- the object is not live, it changes nothing.
pub gpu_bo_write-inside :
    (p offset : ℕ) (bytes : List ℕ) (s : State)
    → offset + length bytes < 2 ^ 32
    → ((a : ℕ)
        → (a < (s.bos p).cpu_addr) ⊎ ((s.bos p).cpu_addr + (s.bos p).size ≤ a)
        → (gpu_bo_write p offset (some bytes) s).memory a ≡ s.memory a)
      × ((is_usable p s ≡ true)
          → (offset + length bytes ≤ (s.bos p).size)
          → read_bytes
              (gpu_bo_write p offset (some bytes) s).memory
              ((s.bos p).cpu_addr + offset)
              (length bytes)
            ≡ bytes)
      × ((is_usable p s ≡ false) ⊎ ((s.bos p).size < offset + length bytes)
          → gpu_bo_write p offset (some bytes) s ≡ s)
unfolding gpu_bo_write
gpu_bo_write-inside p offset bytes s no_wrap =
    by_test (not (is_usable p s) || is_outside bo offset (length bytes)) refl
  where
    bo : Bo
    bo = s.bos p

    written : State
    written = record s { memory = write_bytes s.memory (bo.cpu_addr + offset) bytes }

    Result : State → Type 0
    Result t =
        ((a : ℕ) → (a < bo.cpu_addr) ⊎ (bo.cpu_addr + bo.size ≤ a) → t.memory a ≡ s.memory a)
        × ((is_usable p s ≡ true)
            → (offset + length bytes ≤ bo.size)
            → read_bytes t.memory (bo.cpu_addr + offset) (length bytes) ≡ bytes)
        × ((is_usable p s ≡ false) ⊎ (bo.size < offset + length bytes) → t ≡ s)

    refused :
        (is_usable p s ≡ false) ⊎ (bo.size < offset + length bytes)
        → (not (is_usable p s) || is_outside bo offset (length bytes)) ≡ true
    refused (inl dead) = ap (λ a. not a || is_outside bo offset (length bytes)) dead
    refused (inr over) =
        or-true_right (not (is_usable p s)) (is_outside bo offset (length bytes))
          (outside bo offset (length bytes) over no_wrap)

    by_test :
        (b : Bool)
        → (not (is_usable p s) || is_outside bo offset (length bytes)) ≡ b
        → Result (if b then s else written)
    by_test true e = (
      λ a out. refl,
      λ usable fits. absurd (
          different (
            sym e ∙ ap₂ (λ a b. not a || b) usable (inside bo offset (length bytes) fits no_wrap))),
      λ over. refl,
    )
    by_test false e = (
      outside_same,
      λ usable fits. read-write s.memory (bo.cpu_addr + offset) bytes,
      λ over. absurd (different (sym (refused over) ∙ e)),
    )
      where
        outside_same :
            (a : ℕ)
            → (a < bo.cpu_addr) ⊎ (bo.cpu_addr + bo.size ≤ a)
            → written.memory a ≡ s.memory a
        outside_same a (inl below) =
            write_bytes-below s.memory (bo.cpu_addr + offset) bytes a (omega arith)
        outside_same a (inr above) = write_bytes-above s.memory (bo.cpu_addr + offset) bytes a (
            omega (
              arith,
              is_outside-false bo offset (length bytes) no_wrap
                  (or-right (not (is_usable p s)) (is_outside bo offset (length bytes)) e),
            ))

-- In an object of 4 bytes at least, gpu_bo_write32 at one of the last four offsets of 32 bits writes
-- its word behind the object: the end of the access goes round to below its size.
pub gpu_bo_write32-wraps :
    (p offset value : ℕ) (s : State)
    → is_usable p s ≡ true
    → 4 ≤ (s.bos p).size
    → (s.bos p).size ≤ 2 ^ 32 - 4
    → 2 ^ 32 - 4 ≤ offset
    → offset < 2 ^ 32
    → ((s.bos p).cpu_addr + (s.bos p).size ≤ (s.bos p).cpu_addr + offset)
      × (read_bytes (gpu_bo_write32 p offset value s).memory ((s.bos p).cpu_addr + offset) 4
          ≡ word_bytes value)
unfolding gpu_bo_write32
gpu_bo_write32-wraps p offset value s usable some_size small high below = (
  omega arith,
  ap (λ (t : State). read_bytes t.memory ((s.bos p).cpu_addr + offset) 4) (if_false _ _ test)
      ∙ read-write s.memory ((s.bos p).cpu_addr + offset) (word_bytes value),
)
  where
    round : is_outside (s.bos p) offset 4 ≡ false
    round = ground arith

    test : (not (is_usable p s) || is_outside (s.bos p) offset 4) ≡ false
    test = ap₂ (λ a b. not a || b) usable round
