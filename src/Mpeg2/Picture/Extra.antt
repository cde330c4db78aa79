-- ===== src/Mpeg2/Picture/Extra.antt =====
-- The loop over the extra information of a header ends, also at the end of the buffer.
use haiku_vaio_vpceb3k1e.Prelude.{
  ℕ, zero, suc, ◌+◌, ◌*◌, ◌^◌, ◌≤◌, ◌<◌, ◌≡◌, refl, ap, ◌∙◌, sym, subst, true, false, arith, dec_lt,
  ◌⊎◌, Bool-cases, inl, inr,
}
use haiku_vaio_vpceb3k1e.Mpeg2.Bits.{Bits, peek, skip}
use haiku_vaio_vpceb3k1e.Mpeg2.Bits.Value.{value}
use haiku_vaio_vpceb3k1e.Mpeg2.Bits.Read.{position, total, taken, read-Reads}
use haiku_vaio_vpceb3k1e.Mpeg2.Bits.Laws.{Skips, skip_lem, peek-value}
use haiku_vaio_vpceb3k1e.Mpeg2.Picture.{more_extra, extra_loop}

-- Behind the end of the buffer a peek shows zero.
pub peek_past_end :
    (bs : Bits) (n : ℕ) → bs.bit_pos < 8 → n ≤ 32 → total bs ≤ position bs → peek bs n ≡ 0
unfolding peek value
peek_past_end bs n b small over = (read-Reads bs n small b).result ∙ rw nothing refl
  where
    nothing : taken bs n ≡ 0
    nothing = omega arith

-- Where the loop goes on, a bit was left.
more_extra-inside : (bs : Bits) → bs.bit_pos < 8 → more_extra bs ≡ true → position bs < total bs
more_extra-inside bs b m = elim (dec_lt (position bs) (total bs)) [
  | yes h ↦ h
  | no h ↦ absurd (ground (arith, peek_past_end bs 1 b (omega arith) (omega arith)))
]

-- What the loop leaves: the reader has gone over `rounds` times nine bits, of which the first is 1
-- each time, and no bit of 1 is next.
pub record Ended (bs : Bits) (out : Bits) : Type 0 where
  pub rounds : ℕ
  pub moved : position out ≡ position bs + 9 * rounds
  pub aligned : out.bit_pos < 8
  pub same_bytes : out.bytes ≡ bs.bytes
  pub same_size : out.size ≡ bs.size
  pub ones :
      (j : ℕ)
      → j < rounds
      → (position bs + 9 * j < total bs) × (value bs.bytes (position bs + 9 * j) 1 ≡ 1)
  pub stopped : more_extra out ≡ false

Ended-round :
    (bs next out : Bits)
    → bs.bit_pos < 8
    → more_extra bs ≡ true
    → Skips bs 9 next
    → Ended next out
    → Ended bs out
Ended-round bs next out b m s e = record {
  rounds = suc e.rounds;
  moved = omega (arith, e.moved, s.0);
  aligned = e.aligned;
  same_bytes = e.same_bytes ∙ s.2;
  same_size = e.same_size ∙ s.3;
  ones = one;
  stopped = e.stopped;
}
  where
    room : position bs < total bs
    room = more_extra-inside bs b m

    one :
        (j : ℕ)
        → j < suc e.rounds
        → (position bs + 9 * j < total bs) × (value bs.bytes (position bs + 9 * j) 1 ≡ 1)
    one zero lt = (
      omega (arith, room),
      ap (λ p. value bs.bytes p 1) {x = position bs + 9 * 0} {y = position bs} (omega arith)
          ∙ sym (peek-value bs 1 b (omega arith) (omega (arith, room)))
          ∙ ground arith,
    )
    one (suc j) lt =
        let o = e.ones j (omega arith) in
        (
          omega (arith, o.0, s.0, s.3),
          subst (λ p. value bs.bytes p 1 ≡ 1) {x = position next + 9 * j} (omega (arith, s.0))
              (subst (λ bytes. value bytes (position next + 9 * j) 1 ≡ 1) s.2 o.1),
        )

extra_loop-Ended :
    (fuel : ℕ) (bs : Bits)
    → bs.bit_pos < 8
    → total bs + 9 < 2 ^ 32
    → total bs ≤ position bs + fuel
    → Ended bs (extra_loop fuel bs)
unfolding extra_loop
extra_loop-Ended zero bs b small enough = record {
  rounds = 0;
  moved = omega arith;
  aligned = b;
  same_bytes = refl;
  same_size = refl;
  ones = λ j lt. absurd (omega arith);
  stopped = past_end (Bool-cases (more_extra bs));
}
  where
    past_end : (more_extra bs ≡ true) ⊎ (more_extra bs ≡ false) → more_extra bs ≡ false
    past_end (inl m) = absurd (omega (arith, more_extra-inside bs b m))
    past_end (inr m) = m
extra_loop-Ended (suc fuel) bs b small enough = elim (Bool-cases (more_extra bs)) [
  | inl m ↦
      let s = skip_lem bs 9 (omega (arith, more_extra-inside bs b m)) in
      rw (extra_loop, m)
        (Ended-round bs (skip bs 9) _ b m s
          (extra_loop-Ended fuel (skip bs 9) s.1 (omega (arith, s.3)) (omega (arith, s.0, s.3))))
  | inr m ↦
      rw (extra_loop, m)
        (record {
          rounds = 0;
          moved = omega arith;
          aligned = b;
          same_bytes = refl;
          same_size = refl;
          ones = λ j lt. absurd (omega arith);
          stopped = m;
        })
]

-- The loop over the extra information ends: in a buffer of less than 512 MB, `size * 8` rounds are
-- enough to reach a place where no bit of 1 follows, wherever the reader stands, and every round
-- before it stood inside the buffer at a bit of 1 and went over nine bits.
pub extra_loop-ends :
    (bs : Bits) → bs.bit_pos < 8 → total bs + 9 < 2 ^ 32 → Ended bs (extra_loop (bs.size * 8) bs)
extra_loop-ends bs b small = extra_loop-Ended (bs.size * 8) bs b small (omega arith)

pub extra_loop-stop : (fuel : ℕ) (bs : Bits) → more_extra bs ≡ false → extra_loop fuel bs ≡ bs
unfolding extra_loop
extra_loop-stop zero bs m = refl
extra_loop-stop (suc fuel) bs m = rw (extra_loop, m) refl
