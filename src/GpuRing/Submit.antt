-- ===== src/GpuRing/Submit.antt =====
-- `gpu_ring_submit`, from the ring before it to the ring after it.
use haiku_vaio_vpceb3k1e.Prelude.{
  ℕ, ◌+◌, ◌-◌, ◌*◌, ◌/◌, ◌%◌, ◌^◌, ◌≤◌, ◌<◌, bit_and, ◌≡◌, ◌≢◌, ◌⊎◌, inl, inr, refl, ap, ◌∙◌, List,
  Bool, true, false, arith, length, get_or, get_or-set_ne, ◌==◌, Bool-cases,
}
use native.Mathlib.Nat.{mod-eq_of_lt}
use haiku_vaio_vpceb3k1e.Prelude.Bits.{bit_and-mask}
use haiku_vaio_vpceb3k1e.GpuRing.{
  GpuRing, Poll, Status, ok, bad_value, no_memory, timed_out, error, bytes_needed, emit, emit_all,
  advance, fill_reserved, submit,
}
use haiku_vaio_vpceb3k1e.GpuRing.Emit.{IsValid, emit_lem, emit-IsValid, Wrote, emit_all-Wrote}
use haiku_vaio_vpceb3k1e.GpuRing.Begin.{Reserved, begin-Reserved}

-- The command `ws` stands in one piece from byte `start` on, which is the old position or the start
-- of the ring; the tail is the next multiple of 8 behind it, inside the ring; and the words before
-- the old position that are not of the command are as they were.
pub record Submitted (r : GpuRing) (ws : List ℕ) (r' : GpuRing) : Type 0 where
  pub start : ℕ
  pub place : (start ≡ r.pos) ⊎ (start ≡ 0)
  pub valid : IsValid r'
  pub words : (j : ℕ) → j < length ws → get_or r'.base (start / 4 + j) 0 ≡ get_or ws j 0
  pub tail : r'.pos ≡ (start + 4 * length ws + 7) / 8 * 8
  pub others :
      (k : ℕ)
      → k < r.pos / 4
      → (k < start / 4) ⊎ (r'.pos / 4 ≤ k)
      → get_or r'.base k 0 ≡ get_or r.base k 0

-- The padding of `gpu_ring_advance`.
record Padded (r : GpuRing) (r' : GpuRing) : Type 0 where
  valid : IsValid r'
  up : r'.pos ≡ (r.pos + 7) / 8 * 8
  others : (k : ℕ) → (k < r.pos / 4) ⊎ (r'.pos / 4 ≤ k) → get_or r'.base k 0 ≡ get_or r.base k 0

pads : (r : GpuRing) → (bit_and r.pos 7 ≡ r.pos % 8)
pads r = bit_and-mask 3 r.pos

Padded-emit : (r : GpuRing) → IsValid r → r.pos + 4 < r.size → r.pos % 8 ≢ 0 → Padded r (emit r 0)
Padded-emit r v room odd = record {
  valid = emit-IsValid r 0 v;
  up = next ∙ omega (arith, v.whole);
  others = λ k h.
      ap (λ b. get_or b k 0) (emit_lem r 0 v).0
      ∙ get_or-set_ne r.base (r.pos / 4) k 0 0 (λ e. apart k h e);
}
  where
    next : (emit r 0).pos ≡ r.pos + 4
    next = (emit_lem r 0 v).1 ∙ mod-eq_of_lt room

    apart : (k : ℕ) → (k < r.pos / 4) ⊎ ((emit r 0).pos / 4 ≤ k) → r.pos / 4 ≡ k → ⊥
    apart k (inl h) e = omega arith
    apart k (inr h) e = omega (arith, next)

advance-ok :
    (r : GpuRing) (sent : Bool)
    → IsValid r
    → r.pos + 4 < r.size
    → (advance r sent).0 ≡ ok
    → Padded r (advance r sent).1
unfolding advance
advance-ok r false v room h = absurd (sent_no h)
  where
    sent_no : error ≡ ok → ⊥
    sent_no e = cc
advance-ok r true v room h = elim (Bool-cases (bit_and r.pos 7 == 0)) [
  | inl even ↦ rw even (record { valid = v; up = ground (arith, pads r); others = λ k h. refl })
  | inr odd ↦ rw odd (Padded-emit r v room (ground (arith, pads r)))
]

module _ (r : GpuRing) (wrap_polls polls : List Poll) (ws : List ℕ) (v : IsValid r)
    (small : length ws < 2 ^ 30 - 2) where
  filled :
      (sent : Bool) (r' : GpuRing)
      → Reserved r polls (length ws) r'
      → (advance (emit_all r' ws) sent).0 ≡ ok
      → Submitted r ws (advance (emit_all r' ws) sent).1
  filled sent r' b h = record {
    start = r'.pos;
    place = b.place;
    valid = p.valid;
    words = λ j lt. p.others (r'.pos / 4 + j) (inl (omega (arith, w.moved))) ∙ w.words j lt;
    tail = omega (arith, p.up, w.moved);
    others =
        λ k lt out. p.others k (out_padded k out) ∙ w.others k (out_written k out) ∙ b.before k lt;
  }
    where
      need : bytes_needed (length ws) ≡ 4 * length ws + 8
      need = omega arith

      w : Wrote r' ws (emit_all r' ws)
      w = emit_all-Wrote r' ws b.valid (omega (arith, b.room, need))

      p : Padded (emit_all r' ws) (advance (emit_all r' ws) sent).1
      p =
          advance-ok (emit_all r' ws) sent w.valid
            (omega (arith, b.room, need, w.moved, w.same_size)) h

      out_padded :
          (k : ℕ)
          → (k < r'.pos / 4) ⊎ ((advance (emit_all r' ws) sent).1.pos / 4 ≤ k)
          → (k < (emit_all r' ws).pos / 4) ⊎ ((advance (emit_all r' ws) sent).1.pos / 4 ≤ k)
      out_padded k (inl a) = inl (omega (arith, w.moved))
      out_padded k (inr a) = inr a

      out_written :
          (k : ℕ)
          → (k < r'.pos / 4) ⊎ ((advance (emit_all r' ws) sent).1.pos / 4 ≤ k)
          → (k < r'.pos / 4) ⊎ (r'.pos / 4 + length ws ≤ k)
      out_written k (inl a) = inl a
      out_written k (inr a) = inr (omega (arith, w.moved, p.up))

  fill_reserved-ok :
      (sent : Bool) (b : Status × GpuRing)
      → (b.0 ≡ ok → Reserved r polls (length ws) b.1)
      → (fill_reserved b ws sent).0 ≡ ok
      → Submitted r ws (fill_reserved b ws sent).1
  unfolding fill_reserved
  fill_reserved-ok sent (ok, r') b h = filled sent r' (b refl) h
  fill_reserved-ok sent (bad_value, r') b h = absurd (cc h)
  fill_reserved-ok sent (no_memory, r') b h = absurd (cc h)
  fill_reserved-ok sent (timed_out, r') b h = absurd (cc h)
  fill_reserved-ok sent (error, r') b h = absurd (cc h)

  -- Where `gpu_ring_submit` of all of a command's words, fewer than 2 ^ 30 - 2, succeeds on a
  -- well-formed ring, it leaves a well-formed ring with the command in one piece from the old position
  -- or the start of the ring on, the tail at the next multiple of 8 behind it, and the words before
  -- the old position that are not of the command as they were.
  pub submit-Submitted :
      (sent : Bool)
      → (submit r wrap_polls polls ws (length ws) sent).0 ≡ ok
      → Submitted r ws (submit r wrap_polls polls ws (length ws) sent).1
  unfolding submit
  submit-Submitted sent h =
      fill_reserved-ok sent _ (begin-Reserved r wrap_polls polls (length ws) v) h
