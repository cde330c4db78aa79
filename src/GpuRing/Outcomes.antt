-- ===== src/GpuRing/Outcomes.antt =====
-- `gpu_ring_begin` on every branch, and on a count that is too large for its arithmetic.
use haiku_vaio_vpceb3k1e.Prelude.{
  ℕ, ◌+◌, ◌-◌, ◌*◌, ◌/◌, ◌%◌, ◌^◌, ◌≤◌, ◌<◌, ◌≡◌, ◌⊎◌, inl, inr, refl, ap, ◌∙◌, List, ◌∷◌, true,
  false, arith, length, get_or, ltb, Bool-cases,
}
use haiku_vaio_vpceb3k1e.GpuRing.{
  GpuRing, Poll, ok, ring_is_idle, wait_until, bytes_needed, usable, needs_wrap, safe_to_wrap,
  safe_to_write, reserve, begin,
}
use haiku_vaio_vpceb3k1e.GpuRing.Emit.{IsValid, IsValid-same}
use haiku_vaio_vpceb3k1e.GpuRing.Begin.{
  wrapped, reserve-same, padded-IsValid, wrapped-IsValid, padded-before,
}

-- Whatever `gpu_ring_begin` returns, the ring stays well formed, the words before the old position
-- stay as they are, and the position is the old one or the start of the ring.
pub begin-IsValid :
    (r : GpuRing) (wrap_polls polls : List Poll) (dwords : ℕ)
    → IsValid r
    → let r' = (begin r wrap_polls polls dwords).1 in
      IsValid r'
      × ((r'.pos ≡ r.pos) ⊎ (r'.pos ≡ 0))
      × ((k : ℕ) → k < r.pos / 4 → get_or r'.base k 0 ≡ get_or r.base k 0)
unfolding begin
begin-IsValid r wrap_polls polls dwords v =
    elim (Bool-cases (ltb (usable r) (bytes_needed dwords))) [
      | inl big ↦ rw big (v, inl refl, λ k lt. refl)
      | inr fits ↦ elim (Bool-cases (needs_wrap r dwords)) [
        | inl wraps ↦ elim (Bool-cases (wait_until (safe_to_wrap r) wrap_polls)) [
          | inl safe ↦
              rw (fits, wraps, safe)
                (
                  reserve-IsValid (wrapped r) (wrapped-IsValid r v),
                  inr (reserve-same (wrapped r) polls dwords).1,
                  λ k lt.
                      ap (λ b. get_or b k 0) (reserve-same (wrapped r) polls dwords).0
                      ∙ padded-before r k v lt,
                )
          | inr late ↦
              rw (fits, wraps, late) (padded-IsValid r v, inl refl, λ k lt. padded-before r k v lt)
        ]
        | inr stays ↦
            rw (fits, stays)
              (
                reserve-IsValid r v,
                inl (reserve-same r polls dwords).1,
                λ k lt. ap (λ b. get_or b k 0) (reserve-same r polls dwords).0,
              )
      ]
    ]
  where
    reserve-IsValid : (s : GpuRing) → IsValid s → IsValid (reserve s polls dwords).1
    reserve-IsValid s w =
        IsValid-same s _ w (reserve-same s polls dwords).2
          (ap length (reserve-same s polls dwords).0)
          (ap (λ p. p % 4) (reserve-same s polls dwords).1 ∙ w.whole)
          (omega (arith, reserve-same s polls dwords, w.inside))

-- `(dwords + 2) * 4` goes round at 2 ^ 32: a command of 2 ^ 30 - 2 + `m` words is taken for one of
-- `m` words without its padding, and where that one fits and the GPU is idle it is reserved.
pub begin-overflow :
    (r : GpuRing) (wrap_polls : List Poll) (p : Poll) (polls : List Poll) (m : ℕ)
    → IsValid r
    → r.pos + 4 * m + 64 ≤ r.size
    → ring_is_idle r.size p ≡ true
    → begin r wrap_polls (p ∷ polls) (2 ^ 30 - 2 + m)
      ≡ (ok, record r { emit_start = r.pos; emit_count = 0; emit_reserved = 2 ^ 30 - 2 + m })
unfolding begin reserve wait_until
begin-overflow r wrap_polls p polls m v fits idle = rw (small, stays, waits)
  where
    n : ℕ
    n = 2 ^ 30 - 2 + m

    bytes : bytes_needed n ≡ 4 * m
    bytes = omega (arith, v.small)

    small : ltb (usable r) (bytes_needed n) ≡ false
    small = ground (arith, bytes, v.big, v.small)

    stays : needs_wrap r n ≡ false
    stays = ground (arith, bytes, v.big, v.small)

    waits : wait_until (safe_to_write r n) (p ∷ polls) ≡ true
    waits = rw idle

-- `gpu_ring_begin` on a well-formed ring succeeds whenever the bytes needed and 64 more fit into the
-- ring and the first poll of each wait finds the GPU idle.
pub begin-idle :
    (r : GpuRing) (p : Poll) (wrap_polls polls : List Poll) (dwords : ℕ)
    → IsValid r
    → bytes_needed dwords + 64 ≤ r.size
    → ring_is_idle r.size p ≡ true
    → (begin r (p ∷ wrap_polls) (p ∷ polls) dwords).0 ≡ ok
unfolding begin reserve wait_until
begin-idle r p wrap_polls polls dwords v fits idle = elim (Bool-cases (needs_wrap r dwords)) [
  | inl wraps ↦ rw (small, wraps, idle) refl
  | inr stays ↦ rw (small, stays, idle) refl
]
  where
    small : ltb (usable r) (bytes_needed dwords) ≡ false
    small = ground (arith, v.big, v.small)
