-- ===== src/Gem/Buffers/Handles.antt =====
-- What CreateBuffer, MapBuffer, GetOffset and CloseBuffer of GemManager.cpp promise of handles.
use haiku_vaio_vpceb3k1e.Prelude.{
  ℕ, zero, suc, ◌+◌, ◌^◌, ◌≤◌, ◌<◌, ◌≡◌, ◌⊎◌, refl, ap, ◌∙◌, sym, true, false, List, [], ◌∷◌,
  Option, none, some, arith, if◌then◌else◌, ◌==◌, length, length-set, replicate, Bool-cases,
  Option-cases, ==_iff, subst, inl, inr,
}
use native.Mathlib.Nat.{mod-eq_of_lt}
use haiku_vaio_vpceb3k1e.Gem.Buffers.{
  Buffer, Gem, Status, ok, no_memory, unused, fresh, free_slot, find, page_align, clear_memory,
  new_buffer, create_buffer, map_buffer, get_offset, close_buffer,
}
use haiku_vaio_vpceb3k1e.Gem.Buffers.Table.{
  Unused, Distinct, Below, live, Unused-Below, Below-mono, find-Unused, find-set,
}
use haiku_vaio_vpceb3k1e.Gem.Buffers.Change.{
  Distinct-set, Below-set, live-set, Distinct-release, Below-release, length-release, live-release,
  find-release,
}

-- The table has its 256 slots, no two buffers in use share a handle, and the next handle is above
-- all of them.
pub record IsValid (g : Gem) : Type 0 where
  pub slots : length g.objects ≡ 256
  pub distinct : Distinct g.objects
  pub below : Below g.next_handle g.objects

Unused-replicate : (h n : ℕ) → Unused h (replicate n unused)
Unused-replicate h zero = tt
Unused-replicate h (suc n) = (refl, Unused-replicate h n)

Distinct-replicate : (n : ℕ) → Distinct (replicate n unused)
Distinct-replicate zero = tt
Distinct-replicate (suc n) = (λ w. Unused-replicate 0 n, Distinct-replicate n)

Below-replicate : (m n : ℕ) → Below m (replicate n unused)
Below-replicate m zero = tt
Below-replicate m (suc n) = (off, Below-replicate m n)
  where
    off : false ≡ true → 0 < m
    off e = cc

pub fresh-IsValid : (graphics_memory : ℕ) (memory : ℕ → ℕ) → IsValid (fresh graphics_memory memory)
unfolding fresh
fresh-IsValid graphics_memory memory = record {
  slots = refl;
  distinct = Distinct-replicate 256;
  below = Below-replicate 1 256;
}

live-used : (o : Buffer) (os : List Buffer) → o.in_use ≡ true → live (o ∷ os) ≡ suc (live os)
live-used o os used = rw used (omega arith)

live-free : (o : Buffer) (os : List Buffer) → o.in_use ≡ false → live (o ∷ os) ≡ live os
live-free o os free = rw free (omega arith)

live-le : (os : List Buffer) → live os ≤ length os
live-le [] = omega arith
live-le (o ∷ os) = elim (Bool-cases o.in_use) [
  | inl used ↦ omega (arith, live-used o os used, live-le os)
  | inr free ↦ omega (arith, live-free o os free, live-le os)
]

free_slot-live : (os : List Buffer) → live os < length os → (i : ℕ) × (free_slot os ≡ some i)
unfolding free_slot
free_slot-live [] lt = absurd (omega arith)
free_slot-live (o ∷ os) lt = elim (Bool-cases o.in_use) [
  | inl used ↦ let s = free_slot-live os (omega (arith, live-used o os used)) in next used s
  | inr free ↦ (0, rw free refl)
]
  where
    next :
        o.in_use ≡ true
        → ((i : ℕ) × (free_slot os ≡ some i))
        → (i : ℕ) × (free_slot (o ∷ os) ≡ some i)
    next used s = (suc s.0, rw (used, s.1) refl)

free_slot-full : (os : List Buffer) → live os ≡ length os → free_slot os ≡ none
unfolding free_slot
free_slot-full [] e = refl
free_slot-full (o ∷ os) e = elim (Bool-cases o.in_use) [
  | inl used ↦ rw (used, free_slot-full os (omega (arith, live-used o os used))) refl
  | inr free ↦ absurd (omega (arith, live-free o os free, live-le os))
]

-- What a client sees of CreateBuffer when it succeeds with memory at `base`: the next handle, a
-- map that has gained that handle and no other, one more buffer in use, and cleared memory.
pub record Created (g : Gem) (size : ℕ) (base : ℕ) (r : Status × Option ℕ × Gem) : Type 0 where
  pub status : r.0 ≡ ok
  pub handle : r.1 ≡ some g.next_handle
  pub valid : IsValid r.2
  pub table :
      (h : ℕ)
      → find h r.2.objects
        ≡ (if g.next_handle == h then some (new_buffer g size base) else find h g.objects)
  pub grown : live r.2.objects ≡ suc (live g.objects)
  pub cleared : (a : ℕ) → base ≤ a → a < base + page_align size → r.2.memory a ≡ 0

clear_memory-inside :
    (base size : ℕ) (memory : ℕ → ℕ) (a : ℕ)
    → base ≤ a
    → a < base + size
    → clear_memory base size memory a ≡ 0
unfolding clear_memory
clear_memory-inside base size memory a le lt = ground arith

created :
    (g : Gem) (size base i : ℕ)
    → IsValid g
    → g.next_handle + 1 < 2 ^ 32
    → free_slot g.objects ≡ some i
    → Created g size base (create_buffer g size (some base))
unfolding create_buffer
created g size base i v small e =
    rw (create_buffer, e)
      (record {
        status = refl;
        handle = refl;
        valid = record {
          slots = length-set g.objects i (new_buffer g size base) ∙ v.slots;
          distinct =
              Distinct-set (new_buffer g size base) refl g.objects i e v.below unused_next
                v.distinct;
          below = rw (mod-eq_of_lt small) (
              Below-set (new_buffer g size base) refl (g.next_handle + 1) g.objects i e
                (omega arith)
                (Below-mono g.next_handle (g.next_handle + 1) g.objects (omega arith) v.below));
        };
        table = λ h. find-set h (new_buffer g size base) g.objects i e refl unused_next;
        grown = live-set (new_buffer g size base) refl g.objects i e;
        cleared = clear_memory-inside base (page_align size) g.memory;
      })
  where
    unused_next : Unused g.next_handle g.objects
    unused_next = Unused-Below g.next_handle g.objects v.below

module _ (g : Gem) (size : ℕ) (v : IsValid g) where
  -- In a valid state with a free slot, and while handles have not run out of 32 bits, CreateBuffer
  -- succeeds whenever the kernel gives memory: it returns the next handle, the table of buffers gains
  -- exactly that handle with the new buffer, one more buffer is in use, every byte of the page-aligned
  -- buffer is zero, and the state is valid again.
  pub create_buffer-Created :
      (base : ℕ)
      → live g.objects < 256
      → g.next_handle + 1 < 2 ^ 32
      → Created g size base (create_buffer g size (some base))
  create_buffer-Created base room small =
      let s = free_slot-live g.objects (omega (arith, v.slots)) in
      created g size base s.0 v small s.1

  -- When all 256 slots of a valid state are in use, or the kernel has no memory, CreateBuffer
  -- answers no_memory, returns no handle and leaves the state as it was.
  pub create_buffer-fails :
      (alloc : Option ℕ)
      → (live g.objects ≡ 256) ⊎ (alloc ≡ none)
      → create_buffer g size alloc ≡ (no_memory, none, g)
  unfolding create_buffer
  create_buffer-fails alloc (inl full) =
      rw (create_buffer, free_slot-full g.objects (full ∙ sym v.slots)) refl
  create_buffer-fails alloc (inr failed) = elim (Option-cases (free_slot g.objects)) [
    | inl e ↦ rw (create_buffer, e) refl
    | inr s ↦ rw (create_buffer, s.1, failed) refl
  ]

-- What a client sees of CloseBuffer.
pub record Closed (g : Gem) (h : ℕ) (o : Buffer) (r : Status × Option ℕ × Gem) : Type 0 where
  pub status : r.0 ≡ ok
  pub freed : r.1 ≡ some o.cpu_addr
  pub valid : IsValid r.2
  pub table : (k : ℕ) → find k r.2.objects ≡ (if k == h then none else find k g.objects)
  pub shrunk : suc (live r.2.objects) ≡ live g.objects

module _ (g : Gem) (h : ℕ) (v : IsValid g) where
  -- In a valid state, CloseBuffer of a handle in use succeeds: it frees the memory of that buffer
  -- and no other, the table loses exactly that handle, one buffer fewer is in use, and the state is
  -- valid again.
  pub close_buffer-Closed :
      (o : Buffer) → find h g.objects ≡ some o → Closed g h o (close_buffer g h)
  unfolding close_buffer
  close_buffer-Closed o e =
      rw (close_buffer, e)
        (record {
          status = refl;
          freed = refl;
          valid = record {
            slots = length-release h g.objects ∙ v.slots;
            distinct = Distinct-release h g.objects v.distinct;
            below = Below-release g.next_handle h g.objects v.below;
          };
          table = λ k. find-release k h g.objects v.distinct;
          shrunk = live-release h g.objects o e;
        })

==_refl : (n : ℕ) → (n == n) ≡ true
==_refl n = ground arith

-- A handle that the table gains and loses.
gained_lost :
    (n h : ℕ) (x new : Option Buffer)
    → ((n ≡ h) → x ≡ none)
    → (if h == n then none else (if n == h then new else x)) ≡ x
gained_lost n h x new out = elim (Bool-cases (h == n)) [
  | inl e ↦ rw e (sym (out (sym ((==_iff h n).0 e))))
  | inr e ↦ rw (e, ==_swap n h e) refl
]
  where
    ==_swap : (n h : ℕ) → (h == n) ≡ false → (n == h) ≡ false
    ==_swap n h e = ground arith

-- A buffer that is created and closed leaves every lookup by MapBuffer and GetOffset as it was
-- before, and gives back the memory that the kernel had given.
pub close-create :
    (g : Gem) (size base : ℕ)
    → IsValid g
    → live g.objects < 256
    → g.next_handle + 1 < 2 ^ 32
    → let after = close_buffer (create_buffer g size (some base)).2 g.next_handle in
      (after.0 ≡ ok)
      × (after.1 ≡ some base)
      × ((h : ℕ)
          → (map_buffer after.2 h ≡ map_buffer g h) × (get_offset after.2 h ≡ get_offset g h))
unfolding map_buffer get_offset
close-create g size base v room small = (
  k.status,
  k.freed,
  λ h.
      let same =
        k.table h
        ∙ ap (λ x. if h == n then none else x) (c.table h)
        ∙ gained_lost n h (find h g.objects) (some (new_buffer g size base)) (free h) in
      (rw (map_buffer, same) refl, rw (get_offset, same) refl),
)
  where
    n : ℕ
    n = g.next_handle

    c : Created g size base (create_buffer g size (some base))
    c = create_buffer-Created g size v base room small

    k :
        Closed
          (create_buffer g size (some base)).2
          n
          (new_buffer g size base)
          (close_buffer (create_buffer g size (some base)).2 n)
    k =
        close_buffer-Closed (create_buffer g size (some base)).2 n c.valid (new_buffer g size base)
          (c.table n ∙ rw (==_refl n) refl)

    free : (h : ℕ) → n ≡ h → find h g.objects ≡ none
    free h e =
        find-Unused h g.objects
          (subst (λ m. Unused m g.objects) e (Unused-Below n g.objects v.below))
