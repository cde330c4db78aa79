-- ===== src/GpuRing/Emit.antt =====
-- The well-formed ring, and what emitting words does to it.
use native.Mathlib.Nat.{add-zero, mod_self, mod-lt, mod-eq_of_lt, pow-succ'}
use haiku_vaio_vpceb3k1e.Prelude.{
  ℕ, zero, suc, ◌+◌, ◌-◌, ◌*◌, ◌/◌, ◌%◌, ◌^◌, ◌≤◌, ◌<◌, bit_and, ◌≡◌, ◌⊎◌, inl, inr, refl, ap, ◌∙◌,
  List, [], ◌∷◌, arith, length, length-set, dec_lt, set, get_or, get_or-set_self, get_or-set_ne,
}
use haiku_vaio_vpceb3k1e.Prelude.Bits.{bit_and-mask}
use haiku_vaio_vpceb3k1e.GpuRing.{GpuRing, emit, emit_all}

-- The ring size is a power of two from 256 bytes to 2 MB, the memory is of that size, and the
-- write position is that of a word inside it.
pub record IsValid (r : GpuRing) : Type 0 where
  pub order : ℕ
  pub size_eq : r.size ≡ 4 * 2 ^ order
  pub big : 256 ≤ r.size
  pub small : r.size ≤ 2 ^ 21
  pub memory : length r.base * 4 ≡ r.size
  pub whole : r.pos % 4 ≡ 0
  pub inside : r.pos < r.size

-- Validity is of the size, the memory's length and the position.
pub IsValid-same :
    (r r' : GpuRing)
    → IsValid r
    → r'.size ≡ r.size
    → length r'.base ≡ length r.base
    → r'.pos % 4 ≡ 0
    → r'.pos < r'.size
    → IsValid r'
IsValid-same r r' v size len whole inside = record {
  order = v.order;
  size_eq = size ∙ v.size_eq;
  big = omega (arith, v.big);
  small = omega (arith, v.small);
  memory = omega (arith, v.memory);
  whole = whole;
  inside = inside;
}

mask-mod : (n k x : ℕ) → n ≡ 2 ^ k → bit_and x (n - 1) ≡ x % n
mask-mod n k x e = rw e (bit_and-mask k x)

quarter : (n k : ℕ) → n ≡ 4 * 2 ^ k → (n / 4 ≡ 2 ^ k) × (n ≡ 2 ^ suc (suc k))
quarter n k e = (omega arith, e ∙ omega (arith, pow-succ' 2 (suc k), pow-succ' 2 k))

-- The masks of `gpu_ring_emit` are remainders, and the first has no effect.
emit_masks :
    (r : GpuRing)
    → IsValid r
    → (bit_and (r.pos / 4) (r.size / 4 - 1) ≡ r.pos / 4)
      × (bit_and (r.pos + 4) (r.size - 1) ≡ (r.pos + 4) % r.size)
emit_masks r v = (
  mask-mod (r.size / 4) v.order (r.pos / 4) (quarter r.size v.order v.size_eq).0
      ∙ mod-eq_of_lt (omega (arith, v.memory, v.inside, v.whole, v.size_eq)),
  mask-mod r.size (suc (suc v.order)) (r.pos + 4) (quarter r.size v.order v.size_eq).1,
)

pub emit_lem :
    (r : GpuRing) (w : ℕ)
    → IsValid r
    → ((emit r w).base ≡ set r.base (r.pos / 4) w) × ((emit r w).pos ≡ (r.pos + 4) % r.size)
unfolding emit
emit_lem r w v = (ap (λ i. set r.base i w) (emit_masks r v).0, (emit_masks r v).1)

pub size-emit : (r : GpuRing) (w : ℕ) → (emit r w).size ≡ r.size
unfolding emit
size-emit r w = refl

-- A step of one word stays on whole words, also round the end.
step_whole : (p n : ℕ) → p % 4 ≡ 0 → n % 4 ≡ 0 → p < n → (p + 4) % n % 4 ≡ 0
step_whole p n hp hn lt = elim (dec_lt (p + 4) n) [
  | yes h ↦ rw (mod-eq_of_lt h) (omega arith)
  | no h ↦ let e : p + 4 ≡ n = omega arith in rw (e, mod_self n)
]

-- `gpu_ring_emit` keeps the ring well formed.
pub emit-IsValid : (r : GpuRing) (w : ℕ) → IsValid r → IsValid (emit r w)
emit-IsValid r w v = record {
  order = v.order;
  size_eq = size-emit r w ∙ v.size_eq;
  big = omega (arith, size-emit r w, v.big);
  small = omega (arith, size-emit r w, v.small);
  memory = omega (
    arith,
    size-emit r w,
    v.memory,
    ap length (emit_lem r w v).0,
    length-set r.base (r.pos / 4) w,
  );
  whole =
      rw (emit_lem r w v).1 (step_whole r.pos r.size v.whole (omega (arith, v.memory)) v.inside);
  inside = rw (size-emit r w, (emit_lem r w v).1) (mod-lt (r.pos + 4) (omega (arith, v.big)));
}

-- What writing `ws` from the ring's position on leaves, where it does not reach the end.
pub record Wrote (r : GpuRing) (ws : List ℕ) (r' : GpuRing) : Type 0 where
  pub valid : IsValid r'
  pub same_size : r'.size ≡ r.size
  pub moved : r'.pos ≡ r.pos + 4 * length ws
  pub words : (j : ℕ) → j < length ws → get_or r'.base (r.pos / 4 + j) 0 ≡ get_or ws j 0
  pub others :
      (i : ℕ)
      → (i < r.pos / 4) ⊎ (r.pos / 4 + length ws ≤ i)
      → get_or r'.base i 0 ≡ get_or r.base i 0

Wrote-cons :
    (r : GpuRing) (w : ℕ) (ws : List ℕ) (r' : GpuRing)
    → IsValid r
    → r.pos + 4 < r.size
    → Wrote (emit r w) ws r'
    → Wrote r (w ∷ ws) r'
Wrote-cons r w ws r' v room rest = record {
  valid = rest.valid;
  same_size = rest.same_size ∙ size-emit r w;
  moved = omega (arith, rest.moved, next);
  words = word;
  others = λ i h. rest.others i (outside i h) ∙ other i h;
}
  where
    next : (emit r w).pos ≡ r.pos + 4
    next = (emit_lem r w v).1 ∙ mod-eq_of_lt room

    quarter_next : (emit r w).pos / 4 ≡ r.pos / 4 + 1
    quarter_next = omega (arith, next)

    wrote : (i : ℕ) → get_or (emit r w).base i 0 ≡ get_or (set r.base (r.pos / 4) w) i 0
    wrote i = ap (λ b. get_or b i 0) (emit_lem r w v).0

    word : (j : ℕ) → j < suc (length ws) → get_or r'.base (r.pos / 4 + j) 0 ≡ get_or (w ∷ ws) j 0
    word zero h = rw add-zero (
        rest.others (r.pos / 4) (inl (omega (arith, quarter_next)))
        ∙ wrote (r.pos / 4)
        ∙ get_or-set_self r.base (r.pos / 4) w 0 (omega (arith, v.memory, v.inside)))
    word (suc j) h =
        ap (λ i. get_or r'.base i 0) (omega (arith, quarter_next)) ∙ rest.words j (omega arith)

    outside :
        (i : ℕ)
        → (i < r.pos / 4) ⊎ (r.pos / 4 + suc (length ws) ≤ i)
        → (i < (emit r w).pos / 4) ⊎ ((emit r w).pos / 4 + length ws ≤ i)
    outside i (inl h) = inl (omega (arith, quarter_next))
    outside i (inr h) = inr (omega (arith, quarter_next))

    other :
        (i : ℕ)
        → (i < r.pos / 4) ⊎ (r.pos / 4 + suc (length ws) ≤ i)
        → get_or (emit r w).base i 0 ≡ get_or r.base i 0
    other i h = wrote i ∙ get_or-set_ne r.base (r.pos / 4) i w 0 (omega arith)

-- Words written one after the other by `gpu_ring_emit`, short of the end of the ring, are in the
-- ring memory in order, behind the position, and nothing else is changed.
pub emit_all-Wrote :
    (r : GpuRing) (ws : List ℕ)
    → IsValid r
    → r.pos + 4 * length ws < r.size
    → Wrote r ws (emit_all r ws)
unfolding emit_all
emit_all-Wrote r [] v room = record {
  valid = v;
  same_size = refl;
  moved = omega arith;
  words = λ j h. absurd (omega arith);
  others = λ i h. refl;
}
emit_all-Wrote r (w ∷ ws) v room = Wrote-cons r w ws _ v (omega arith) (
    emit_all-Wrote (emit r w) ws (emit-IsValid r w v) (
      omega (
        arith,
        (emit_lem r w v).1,
        mod-eq_of_lt {n = r.pos + 4} {m = r.size} (omega arith),
        size-emit r w,
      )))
