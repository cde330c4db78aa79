-- ===== src/GpuRing/Begin.antt =====
-- `gpu_ring_begin`: where it reserves room, and what it has made sure of.
use haiku_vaio_vpceb3k1e.Prelude.{
  ℕ, zero, suc, ◌+◌, ◌-◌, ◌/◌, ◌%◌, ◌^◌, ◌≤◌, ◌<◌, ◌≡◌, ◌⊎◌, inl, inr, refl, ap, ◌∙◌, sym, List, [],
  ◌∷◌, true, arith, length, length-set, set, get_or, get_or-set_self, get_or-set_ne, ltb,
  Bool-cases, ℕ_discrete,
}
use native.Mathlib.Nat.{mod-eq_of_lt}
use haiku_vaio_vpceb3k1e.GpuRing.{
  GpuRing, Poll, ok, no_memory, timed_out, head, ring_is_idle, wait_until, fill_noops, bytes_needed,
  usable, needs_wrap, pad_to_end, safe_to_wrap, safe_to_write, reserve, begin,
}
use haiku_vaio_vpceb3k1e.GpuRing.Emit.{IsValid, IsValid-same}

-- The padding of the words from `start + i` to the end of the ring.
length-fill_noops :
    (n i start rd : ℕ) (base : List ℕ) → length (fill_noops n i start rd base) ≡ length base
unfolding fill_noops
length-fill_noops zero i start rd base = refl
length-fill_noops (suc n) i start rd base =
    length-fill_noops n (i + 1) start rd _ ∙ length-set base _ 0

fill_noops-before :
    (n i start rd : ℕ) (base : List ℕ) (k : ℕ)
    → start + i + n ≤ rd
    → k < start + i
    → get_or (fill_noops n i start rd base) k 0 ≡ get_or base k 0
unfolding fill_noops
fill_noops-before zero i start rd base k fits lt = refl
fill_noops-before (suc n) i start rd base k fits lt =
    fill_noops-before n (i + 1) start rd _ k (omega arith) (omega arith)
    ∙ get_or-set_ne base _ k 0 0
        (λ e. omega (arith, e, mod-eq_of_lt {n = start + i} {m = rd} (omega arith)))

-- One of the polls satisfies `P`.
abbrev pub Any : (Poll → Type 0) → List Poll → Type 0
Any P [] = ⊥
Any P (p ∷ ps) = P p ⊎ Any P ps

-- HEAD is not inside the `bytes` from the ring's position on, or the GPU is idle.
abbrev pub IsClear : GpuRing → ℕ → Poll → Type 0
IsClear r bytes p = (ring_is_idle r.size p ≡ true) ⊎ (head p < r.pos) ⊎ (r.pos + bytes ≤ head p)

wait_until-Any :
    (r : GpuRing) (dwords : ℕ) (ps : List Poll)
    → r.pos + bytes_needed dwords ≤ r.size
    → r.size ≤ 2 ^ 21
    → wait_until (safe_to_write r dwords) ps ≡ true
    → Any (IsClear r (bytes_needed dwords)) ps
unfolding wait_until
wait_until-Any r dwords [] room small h = cc
wait_until-Any r dwords (p ∷ ps) room small h = elim (Bool-cases (safe_to_write r dwords p)) [
  | inl e ↦ inl (clear e)
  | inr e ↦ inr (wait_until-Any r dwords ps room small (rw e at h))
]
  where
    clear : safe_to_write r dwords p ≡ true → IsClear r (bytes_needed dwords) p
    clear e = ground arith

-- A successful `gpu_ring_begin`: the words to come are in one piece, 64 bytes short of the end of
-- the ring at least, and at one of the polls before the deadline the GPU was idle or read elsewhere.
-- The words before the old position are as they were.
pub record Reserved (r : GpuRing) (polls : List Poll) (dwords : ℕ) (r' : GpuRing) : Type 0 where
  pub valid : IsValid r'
  pub same_size : r'.size ≡ r.size
  pub place : (r'.pos ≡ r.pos) ⊎ (r'.pos ≡ 0)
  pub room : r'.pos + bytes_needed dwords + 64 ≤ r'.size
  pub started : (r'.emit_start ≡ r'.pos) × (r'.emit_count ≡ 0) × (r'.emit_reserved ≡ dwords)
  pub clear : Any (IsClear r' (bytes_needed dwords)) polls
  pub before : (k : ℕ) → k < r.pos / 4 → get_or r'.base k 0 ≡ get_or r.base k 0

-- The second wait changes neither the memory nor the position.
pub reserve-same :
    (r : GpuRing) (polls : List Poll) (dwords : ℕ)
    → ((reserve r polls dwords).1.base ≡ r.base)
      × ((reserve r polls dwords).1.pos ≡ r.pos)
      × ((reserve r polls dwords).1.size ≡ r.size)
unfolding reserve
reserve-same r polls dwords = ground arith

reserve-ok :
    (r : GpuRing) (polls : List Poll) (dwords : ℕ)
    → IsValid r
    → r.pos + bytes_needed dwords + 64 ≤ r.size
    → (reserve r polls dwords).0 ≡ ok
    → Reserved r polls dwords (reserve r polls dwords).1
unfolding reserve
reserve-ok r polls dwords v room h = elim (Bool-cases (wait_until (safe_to_write r dwords) polls)) [
  | inl e ↦ rw e (record {
    valid = IsValid-same r _ v refl refl v.whole v.inside;
    same_size = refl;
    place = inl refl;
    room = room;
    started = (refl, refl, refl);
    clear = wait_until-Any r dwords polls (omega arith) v.small e;
    before = λ k lt. refl;
  })
  | inr e ↦ absurd (failed (rw e at h))
]
  where
    failed : timed_out ≡ ok → ⊥
    failed x = cc

pub padded-IsValid : (r : GpuRing) → IsValid r → IsValid (pad_to_end r)
padded-IsValid r v =
    IsValid-same r (pad_to_end r) v refl (length-fill_noops _ 0 _ _ r.base) v.whole v.inside

-- The ring of the wrap: padded to its end, with the position back at its start.
abbrev pub wrapped : GpuRing → GpuRing
wrapped r = record (pad_to_end r) { pos = 0 }

pub wrapped-IsValid : (r : GpuRing) → IsValid r → IsValid (wrapped r)
wrapped-IsValid r v =
    IsValid-same r _ v refl (length-fill_noops _ 0 _ _ r.base) (omega arith) (omega (arith, v.big))

pub padded-before :
    (r : GpuRing) (k : ℕ)
    → IsValid r
    → k < r.pos / 4
    → get_or (pad_to_end r).base k 0 ≡ get_or r.base k 0
padded-before r k v lt =
    fill_noops-before ((r.size - r.pos) / 4) 0 (r.pos / 4) (r.size / 4) r.base k
      (omega (arith, v.memory, v.whole, v.inside)) (omega arith)

-- Padding writes zeros from the position to the end of the ring.
fill_noops-zero :
    (n i start rd : ℕ) (base : List ℕ) (k : ℕ)
    → start + i + n ≤ rd
    → rd ≤ length base
    → start + i ≤ k
    → k < start + i + n
    → get_or (fill_noops n i start rd base) k 0 ≡ 0
unfolding fill_noops
fill_noops-zero zero i start rd base k fits mem lo hi = absurd (omega arith)
fill_noops-zero (suc n) i start rd base k fits mem lo hi = elim (ℕ_discrete k (start + i)) [
  | yes e ↦
      fill_noops-before n (i + 1) start rd _ k (omega arith) (omega arith)
      ∙ ap (λ j. get_or (set base j 0) k 0)
          (mod-eq_of_lt {n = start + i} {m = rd} (omega arith) ∙ sym e)
      ∙ get_or-set_self base k 0 0 (omega arith)
  | no ne ↦
      fill_noops-zero n (i + 1) start rd _ k (omega arith)
        (omega (arith, length-set base ((start + i) % rd) 0)) (omega arith) (omega arith)
]

ok-wrap :
    (r : GpuRing) (polls : List Poll) (dwords : ℕ)
    → IsValid r
    → bytes_needed dwords + 64 ≤ r.size
    → (reserve (wrapped r) polls dwords).0 ≡ ok
    → Reserved r polls dwords (reserve (wrapped r) polls dwords).1
ok-wrap r polls dwords v room h = record {
  valid = rest.valid;
  same_size = rest.same_size;
  place = inr (reserve-same (wrapped r) polls dwords).1;
  room = rest.room;
  started = rest.started;
  clear = rest.clear;
  before = λ k lt.
      ap (λ b. get_or b k 0) (reserve-same (wrapped r) polls dwords).0 ∙ padded-before r k v lt;
}
  where
    rest : Reserved (wrapped r) polls dwords (reserve (wrapped r) polls dwords).1
    rest = reserve-ok (wrapped r) polls dwords (wrapped-IsValid r v) (omega arith) h

-- Where `gpu_ring_begin` on a well-formed ring succeeds, the ring is well formed, its position is the
-- old one or the start, the bytes needed and 64 more fit before its end, at one of the polls before
-- the deadline the GPU was idle or read outside of them, and the words before the old position are as
-- they were.
pub begin-Reserved :
    (r : GpuRing) (wrap_polls polls : List Poll) (dwords : ℕ)
    → IsValid r
    → (begin r wrap_polls polls dwords).0 ≡ ok
    → Reserved r polls dwords (begin r wrap_polls polls dwords).1
unfolding begin
begin-Reserved r wrap_polls polls dwords v h =
    elim (Bool-cases (ltb (usable r) (bytes_needed dwords))) [
      | inl big ↦ absurd (not_ok (rw big at h))
      | inr fits ↦ elim (Bool-cases (needs_wrap r dwords)) [
        | inl wraps ↦ elim (Bool-cases (wait_until (safe_to_wrap r) wrap_polls)) [
          | inl safe ↦
              rw (fits, wraps, safe)
                (ok-wrap r polls dwords v (ground (arith, v.big, v.small))
                  (rw (fits, wraps, safe) at h))
          | inr late ↦ absurd (not_ok' (rw (fits, wraps, late) at h))
        ]
        | inr stays ↦
            rw (fits, stays)
              (reserve-ok r polls dwords v (ground (arith, v.big, v.small, v.inside))
                (rw (fits, stays) at h))
      ]
    ]
  where
    not_ok : no_memory ≡ ok → ⊥
    not_ok x = cc

    not_ok' : timed_out ≡ ok → ⊥
    not_ok' x = cc
