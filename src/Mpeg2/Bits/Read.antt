-- ===== src/Mpeg2/Bits/Read.antt =====
-- The reader of mpeg2_parser.cpp against the buffer as a sequence of bits.
use native.Mathlib.Nat.{le_trans, pow-le-pow_right, mod-eq_of_lt, mod-lt, one-le-pow}
use haiku_vaio_vpceb3k1e.Prelude.{
  ℕ, zero, suc, ◌+◌, ◌-◌, ◌*◌, ◌/◌, ◌%◌, ◌^◌, ◌≤◌, ◌<◌, min, ◌≡◌, refl, ◌∙◌, inl, inr, Bool-cases,
  get_or, arith, ◌==◌, leb,
}
use haiku_vaio_vpceb3k1e.Prelude.Bits.{pow-add, bit_or-shifted, bit_and-mask}
use haiku_vaio_vpceb3k1e.Mpeg2.Bits.{Bits, bits_to_read, gather, step_over, read_loop, read}
use haiku_vaio_vpceb3k1e.Mpeg2.Bits.Value.{value, value-lt, value-add, value_within_byte}

-- The bit at which the reader stands, and the number of bits in its buffer.
abbrev pub position : Bits → ℕ
position bs = bs.byte_pos * 8 + bs.bit_pos

abbrev pub total : Bits → ℕ
total bs = bs.size * 8

-- The bits that a read of `n` takes: all of them, or what the buffer still holds.
abbrev pub taken : Bits → ℕ → ℕ
taken bs n = min n (total bs - position bs)

-- What a read of `n` bits leaves, begun with `v` in hand.
pub record Reads (bs : Bits) (n v : ℕ) (out : ℕ × Bits) : Type 0 where
  pub result : out.0 ≡ v * 2 ^ taken bs n + value bs.bytes (position bs) (taken bs n)
  pub moved : position out.1 ≡ position bs + taken bs n
  pub aligned : out.1.bit_pos < 8
  pub same_bytes : out.1.bytes ≡ bs.bytes
  pub same_size : out.1.size ≡ bs.size

gather_lem :
    (bs : Bits) (k v : ℕ)
    → bs.bit_pos + k ≤ 8
    → v * 2 ^ k < 2 ^ 32
    → gather bs k v ≡ v * 2 ^ k + value bs.bytes (position bs) k
unfolding gather
gather_lem bs k v h fits =
    rw
      (
        mod-eq_of_lt fits,
        bit_and-mask k rest,
        bit_or-shifted k v (rest % 2 ^ k) (mod-lt rest (one-le-pow k 2 (omega arith))),
      )
      (omega (arith, value_within_byte bs.bytes bs.byte_pos bs.bit_pos k h))
  where
    rest : ℕ
    rest = get_or bs.bytes bs.byte_pos 0 / 2 ^ (8 - bs.bit_pos - k)

position-step_over :
    (bs : Bits) (k : ℕ)
    → bs.bit_pos + k ≤ 8
    → (position (step_over bs k) ≡ position bs + k)
      × ((step_over bs k).bit_pos < 8)
      × ((step_over bs k).bytes ≡ bs.bytes)
      × ((step_over bs k).size ≡ bs.size)
unfolding step_over
position-step_over bs k h = ground arith

Reads-nothing : (bs : Bits) (n v : ℕ) → bs.bit_pos < 8 → taken bs n ≡ 0 → Reads bs n v (v, bs)
unfolding value
Reads-nothing bs n v b e = record {
  result = rw e (omega arith);
  moved = omega arith;
  aligned = b;
  same_bytes = refl;
  same_size = refl;
}

-- A round of `k` bits, and a read of the others from where it ends.
Reads-round :
    (bs next : Bits) (n k v w : ℕ) (out : ℕ × Bits)
    → k ≤ n
    → k + position bs ≤ total bs
    → position next ≡ position bs + k
    → next.bytes ≡ bs.bytes
    → next.size ≡ bs.size
    → w ≡ v * 2 ^ k + value bs.bytes (position bs) k
    → Reads next (n - k) w out
    → Reads bs n v out
Reads-round bs next n k v w out le room at bytes size got r = record {
  result =
      rw (sum, value-add bs.bytes (position bs) k t, pow-add 2 k t)
        (r.result ∙ rw (bytes, at, got) (omega arith));
  moved = omega (arith, r.moved);
  aligned = r.aligned;
  same_bytes = r.same_bytes ∙ bytes;
  same_size = r.same_size ∙ size;
}
  where
    t : ℕ
    t = taken next (n - k)

    sum : taken bs n ≡ k + t
    sum = omega arith

-- No round overflows 32 bits, since the whole read fits.
fits-gather : (v n k : ℕ) → k ≤ n → v * 2 ^ n + 2 ^ n ≤ 2 ^ 32 → v * 2 ^ k < 2 ^ 32
fits-gather v n k le fits = grind (arith, pow-le-pow_right {n = 2} (omega arith) le)

product_mono : (v w K T : ℕ) → w < K → (v * K + w) * T + T ≤ v * (K * T) + K * T
product_mono v w K T h = grind arith

fits-rest :
    (v w n k : ℕ)
    → k ≤ n
    → w < 2 ^ k
    → v * 2 ^ n + 2 ^ n ≤ 2 ^ 32
    → (v * 2 ^ k + w) * 2 ^ (n - k) + 2 ^ (n - k) ≤ 2 ^ 32
fits-rest v w n k le h fits =
    le_trans (product_mono v w (2 ^ k) (2 ^ (n - k)) h) (rw (← pow-add 2 k (n - k), sub) fits)
  where
    sub : k + (n - k) ≡ n
    sub = omega arith

read_loop-Reads :
    (fuel : ℕ) (bs : Bits) (n v : ℕ)
    → n ≤ fuel
    → bs.bit_pos < 8
    → v * 2 ^ n + 2 ^ n ≤ 2 ^ 32
    → Reads bs n v (read_loop fuel bs n v)
unfolding read_loop
read_loop-Reads zero bs n v h b fits = Reads-nothing bs n v b (omega arith)
read_loop-Reads (suc fuel) bs n v h b fits = elim (Bool-cases (n == 0)) [
  | inl e ↦ rw e (Reads-nothing bs n v b (ground arith))
  | inr e ↦ elim (Bool-cases (leb bs.size bs.byte_pos)) [
    | inl over ↦ rw (e, over) (Reads-nothing bs n v b (ground arith))
    | inr inside ↦
        rw (e, inside)
          (Reads-round bs (step_over bs k) n k v (gather bs k v) _ (ground arith) (ground arith)
            stepped.0 stepped.2 stepped.3 gathered
            (read_loop-Reads fuel (step_over bs k) (n - k) (gather bs k v) (ground arith) stepped.1
              fits'))
  ]
]
  where
    k : ℕ
    k = bits_to_read bs n

    within : bs.bit_pos + k ≤ 8
    within = ground arith

    stepped :
        (position (step_over bs k) ≡ position bs + k)
        × ((step_over bs k).bit_pos < 8)
        × ((step_over bs k).bytes ≡ bs.bytes)
        × ((step_over bs k).size ≡ bs.size)
    stepped = position-step_over bs k within

    gathered : gather bs k v ≡ v * 2 ^ k + value bs.bytes (position bs) k
    gathered = gather_lem bs k v within (fits-gather v n k (ground arith) fits)

    fits' : gather bs k v * 2 ^ (n - k) + 2 ^ (n - k) ≤ 2 ^ 32
    fits' = rw gathered (fits-rest v _ n k (ground arith) (value-lt bs.bytes (position bs) k) fits)

-- `mpeg2_bits_read` of at most 32 bits returns the number that the next bits stand for, as many as
-- are asked for and still there, and moves on by just these.
pub read-Reads : (bs : Bits) (n : ℕ) → n ≤ 32 → bs.bit_pos < 8 → Reads bs n 0 (read bs n)
unfolding read
read-Reads bs n h b =
    read_loop-Reads n bs n 0 (omega arith) b
      (omega (arith, pow-le-pow_right {n = 2} (omega arith) h))
