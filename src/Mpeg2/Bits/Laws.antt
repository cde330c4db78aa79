-- ===== src/Mpeg2/Bits/Laws.antt =====
-- `mpeg2_bits_peek`, `mpeg2_bits_skip`, `mpeg2_bits_available` and `mpeg2_bits_offset` against the
-- position of the reader.
use native.Mathlib.Nat.{pow-le-pow_right}
use haiku_vaio_vpceb3k1e.Prelude.{
  ℕ, ◌+◌, ◌-◌, ◌^◌, ◌≤◌, ◌<◌, ◌≡◌, refl, ap, ap₂, ◌∙◌, sym, true, arith, leb, le→leb,
}
use haiku_vaio_vpceb3k1e.Mpeg2.Bits.{Bits, read, peek, skip, available}
use haiku_vaio_vpceb3k1e.Mpeg2.Bits.Value.{value, value-lt}
use haiku_vaio_vpceb3k1e.Mpeg2.Bits.Read.{position, total, taken, Reads, read-Reads}

-- A reader inside a buffer of less than 512 MB, so that no bit count overflows 32 bits.
pub record IsInside (bs : Bits) : Type 0 where
  pub aligned : bs.bit_pos < 8
  pub within : position bs ≤ total bs
  pub small : total bs < 2 ^ 32

-- `next` stands `n` bits behind `bs`, over the same buffer.
abbrev pub Skips : Bits → ℕ → Bits → Type 0
Skips bs n next =
    (position next ≡ position bs + n)
    × (next.bit_pos < 8)
    × (next.bytes ≡ bs.bytes)
    × (next.size ≡ bs.size)

pub skip_lem : (bs : Bits) (n : ℕ) → position bs + n < 2 ^ 32 → Skips bs n (skip bs n)
unfolding skip
skip_lem bs n h = (omega arith, omega arith, refl, refl)

-- The place of a reader is its position.
Bits-eq :
    (a b : Bits)
    → a.bytes ≡ b.bytes
    → a.size ≡ b.size
    → position a ≡ position b
    → a.bit_pos < 8
    → b.bit_pos < 8
    → a ≡ b
Bits-eq a b e f p x y = ground arith

-- Where `n` bits are left, a read of them returns what a peek shows, and goes where a skip goes.
pub read-eq-peek-skip :
    (bs : Bits) (n : ℕ)
    → IsInside bs
    → n ≤ 32
    → position bs + n ≤ total bs
    → read bs n ≡ (peek bs n, skip bs n)
unfolding peek
read-eq-peek-skip bs n v small room =
    ap (λ (next : Bits). ((read bs n).0, next))
      (Bits-eq (read bs n).1 (skip bs n) (r.same_bytes ∙ sym s.2) (r.same_size ∙ sym s.3)
        (omega (arith, r.moved, s.0)) r.aligned s.1)
  where
    r : Reads bs n 0 (read bs n)
    r = read-Reads bs n small v.aligned

    s : Skips bs n (skip bs n)
    s = skip_lem bs n (omega (arith, v.small))

-- A peek of bits that are there shows the number that they stand for.
pub peek-value :
    (bs : Bits) (n : ℕ)
    → bs.bit_pos < 8
    → n ≤ 32
    → position bs + n ≤ total bs
    → peek bs n ≡ value bs.bytes (position bs) n
unfolding peek
peek-value bs n b small room = rw all at (read-Reads bs n small b).result ∙ omega arith
  where
    all : taken bs n ≡ n
    all = omega arith

-- A peek never shows more than `n` bits.
pub peek-lt : (bs : Bits) (n : ℕ) → bs.bit_pos < 8 → n ≤ 32 → peek bs n < 2 ^ n
unfolding peek
peek-lt bs n b small = omega (
  arith,
  (read-Reads bs n small b).result,
  value-lt bs.bytes (position bs) (taken bs n),
  pow-le-pow_right {n = 2} (omega arith) taken-le,
)
  where
    taken-le : taken bs n ≤ n
    taken-le = omega arith

-- `mpeg2_bits_available` answers for a reader inside its buffer by the bits that are left.
pub available_lem :
    (bs : Bits) (n : ℕ) → IsInside bs → available bs n ≡ leb n (total bs - position bs)
unfolding available
available_lem bs n v = ap (leb n) (omega arith)

-- Once a skip has left the buffer behind, `mpeg2_bits_available` answers yes to any reasonable
-- number of bits: the subtraction goes round.
pub available_past_end :
    (bs : Bits) (n : ℕ)
    → bs.bit_pos < 8
    → bs.size < bs.byte_pos
    → bs.byte_pos ≤ bs.size + 2 ^ 28
    → bs.byte_pos < 2 ^ 32
    → n ≤ 2 ^ 30
    → available bs n ≡ true
unfolding available
available_past_end bs n b over near small k = le→leb n _ (omega arith)

pub skip-skip :
    (bs : Bits) (m n : ℕ) → position bs + m + n < 2 ^ 32 → skip (skip bs m) n ≡ skip bs (m + n)
skip-skip bs m n h =
    Bits-eq _ _ (b.2 ∙ a.2 ∙ sym c.2) (b.3 ∙ a.3 ∙ sym c.3) (omega (arith, a.0, b.0, c.0)) b.1 c.1
  where
    a : Skips bs m (skip bs m)
    a = skip_lem bs m (omega arith)

    b : Skips (skip bs m) n (skip (skip bs m) n)
    b = skip_lem (skip bs m) n (omega (arith, a.0))

    c : Skips bs (m + n) (skip bs (m + n))
    c = skip_lem bs (m + n) (omega arith)

pub skip-IsInside :
    (bs : Bits) (n : ℕ) → IsInside bs → position bs + n ≤ total bs → IsInside (skip bs n)
skip-IsInside bs n v room = record {
  aligned = s.1;
  within = omega (arith, s.0, s.3);
  small = omega (arith, s.3, v.small);
}
  where
    s : Skips bs n (skip bs n)
    s = skip_lem bs n (omega (arith, v.small))

-- A read where the bits are there, in terms of the buffer.
pub read-value :
    (bs : Bits) (n : ℕ)
    → IsInside bs
    → n ≤ 32
    → position bs + n ≤ total bs
    → read bs n ≡ (value bs.bytes (position bs) n, skip bs n)
read-value bs n v small room =
    read-eq-peek-skip bs n v small room
    ∙ ap (λ (k : ℕ). (k, skip bs n)) (peek-value bs n v.aligned small room)

-- The same behind a skip.
pub read-skip :
    (bs : Bits) (m n : ℕ)
    → IsInside bs
    → n ≤ 32
    → position bs + m + n ≤ total bs
    → read (skip bs m) n ≡ (value bs.bytes (position bs + m) n, skip bs (m + n))
read-skip bs m n v small room =
    read-value (skip bs m) n (skip-IsInside bs m v (omega arith)) small (omega (arith, s.0, s.3))
    ∙ ap₂ (λ (k : ℕ) (next : Bits). (k, next)) (ap₂ (λ b p. value b p n) s.2 s.0)
        (skip-skip bs m n (omega (arith, v.small)))
  where
    s : Skips bs m (skip bs m)
    s = skip_lem bs m (omega (arith, v.small))
