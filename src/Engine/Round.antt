-- ===== src/Engine/Round.antt =====
-- The bytes that engine.cpp writes stand in the ring in order, also round its end.
use native.Mathlib.Nat.{mod-eq_of_lt, mod-eq-sub-mod}
use haiku_vaio_vpceb3k1e.Prelude.{
  ℕ, zero, suc, ◌+◌, ◌-◌, ◌*◌, ◌%◌, ◌^◌, ◌≤◌, ◌<◌, ◌≡◌, refl, ap, ap₂, sym, subst, ◌∙◌, bit_and,
  List, [], ◌∷◌, ◌++◌, if◌then◌else◌, leb, ltb, ◌==◌, length, arith, Bool-cases, inl, inr, if_true,
  if_false,
}
use haiku_vaio_vpceb3k1e.Prelude.Bits.{bit_and-mask}
use haiku_vaio_vpceb3k1e.Prelude.Memory.{Memory, put, write_bytes}
use haiku_vaio_vpceb3k1e.Gem2d.{word_bytes}
use haiku_vaio_vpceb3k1e.Engine.{RingBuffer, write, write_all, words_bytes, advance, copy_or_write}

-- The place behind `p` in a ring of `size` bytes, and how far `o` stands behind `p`.
abbrev next : ℕ → ℕ → ℕ
next size p = if p + 1 == size then 0 else p + 1

abbrev pub behind : ℕ → ℕ → ℕ → ℕ
behind size p o = if leb p o then o - p else o + size - p

-- Bytes round the ring from `p` on.
unfoldable pub write_round : Memory → ℕ → ℕ → List ℕ → Memory
write_round m size p [] = m
write_round m size p (b ∷ bs) = write_round (put m p b) size (next size p) bs

unfoldable pub read_round : Memory → ℕ → ℕ → ℕ → List ℕ
read_round m size p zero = []
read_round m size p (suc n) = m p ∷ read_round m size (next size p) n

behind-next :
    (size p o : ℕ)
    → p < size
    → o < size
    → 1 ≤ behind size p o
    → behind size (next size p) o + 1 ≡ behind size p o
behind-next size p o hp ho far = ground arith

behind_self : (size p : ℕ) → p < size → behind size (next size p) p + 1 ≡ size
behind_self size p hp = ground arith

next-lt : (size p : ℕ) → p < size → next size p < size
next-lt size p h = ground arith

put-other : (m : Memory) (p b o size : ℕ) → 1 ≤ behind size p o → put m p b o ≡ m o
put-other m p b o size far = ground arith

pub write_round-other :
    (m : Memory) (size p : ℕ) (bs : List ℕ) (o : ℕ)
    → p < size
    → o < size
    → length bs ≤ behind size p o
    → write_round m size p bs o ≡ m o
unfolding write_round
write_round-other m size p [] o hp ho far = refl
write_round-other m size p (b ∷ bs) o hp ho far =
    write_round-other (put m p b) size (next size p) bs o (next-lt size p hp) ho
      (omega (arith, behind-next size p o hp ho (omega arith)))
    ∙ put-other m p b o size (omega arith)

put-same : (m : Memory) (p b : ℕ) → put m p b p ≡ b
put-same m p b = ground arith

pub read-write_round :
    (m : Memory) (size p : ℕ) (bs : List ℕ)
    → p < size
    → length bs ≤ size
    → read_round (write_round m size p bs) size p (length bs) ≡ bs
unfolding write_round read_round
read-write_round m size p [] hp fits = refl
read-write_round m size p (b ∷ bs) hp fits =
    ap₂ (λ x xs. x ∷ xs)
      (write_round-other (put m p b) size (next size p) bs p (next-lt size p hp) hp
          (omega (arith, behind_self size p hp))
        ∙ put-same m p b)
      (read-write_round (put m p b) size (next size p) bs (next-lt size p hp) (omega arith))

-- `n` places behind `p`.
abbrev pub around : ℕ → ℕ → ℕ → ℕ
around size p n = if ltb (p + n) size then p + n else p + n - size

pub write_round-append :
    (m : Memory) (size p : ℕ) (xs ys : List ℕ)
    → p < size
    → length xs ≤ size
    → write_round m size p (xs ++ ys)
      ≡ write_round (write_round m size p xs) size (around size p (length xs)) ys
unfolding write_round
write_round-append m size p [] ys hp fits = ap (λ q. write_round m size q ys) (ground arith)
write_round-append m size p (b ∷ bs) ys hp fits =
    write_round-append (put m p b) size (next size p) bs ys (next-lt size p hp) (omega arith)
    ∙ ap (λ q. write_round (write_round (put m p b) size (next size p) bs) size q ys) (ground arith)

-- Bytes that fit before the end of the ring.
write_bytes-round :
    (m : Memory) (size p : ℕ) (bs : List ℕ)
    → p + length bs ≤ size
    → write_bytes m p bs ≡ write_round m size p bs
unfolding write_bytes write_round
write_bytes-round m size p [] fits = refl
write_bytes-round m size p (b ∷ []) fits = refl
write_bytes-round m size p (b ∷ c ∷ bs) fits =
    write_bytes-round (put m p b) size (suc p) (c ∷ bs) (omega arith)
    ∙ ap (λ q. write_round (put m p b) size q (c ∷ bs)) (ground arith)

-- A ring of 2 ^ k bytes with the position on a word in it.
pub record IsAligned (k : ℕ) (ring : RingBuffer) : Type 0 where
  pub power : ring.size ≡ 2 ^ k
  pub words : ring.size % 4 ≡ 0
  pub small : ring.size ≤ 2 ^ 31
  pub inside : ring.position < ring.size
  pub aligned : ring.position % 4 ≡ 0

around-mod : (size p n : ℕ) → p < size → n ≤ size → (p + n) % size ≡ around size p n
around-mod size p n hp hn = elim (Bool-cases (ltb (p + n) size)) [
  | inl e ↦ mod-eq_of_lt {n = p + n} {m = size} (ground arith) ∙ sym (if_true _ _ e)
  | inr e ↦
      mod-eq-sub-mod {n = p + n} {m = size} (ground arith)
      ∙ mod-eq_of_lt {n = p + n - size} {m = size} (ground arith)
      ∙ sym (if_false _ _ e)
]

advance_lem :
    (k : ℕ) (ring : RingBuffer) (n : ℕ)
    → IsAligned k ring
    → n ≤ ring.size
    → advance ring n ≡ around ring.size ring.position n
advance_lem k ring n v fits =
    ap (bit_and ((ring.position + n) % 2 ^ 32)) (ap (λ z. z - 1) v.power)
    ∙ bit_and-mask k ((ring.position + n) % 2 ^ 32)
    ∙ ap (λ z. z % 2 ^ k)
        (mod-eq_of_lt {n = ring.position + n} {m = 2 ^ 32} (omega (arith, v.inside, v.small)))
    ∙ ap (λ z. (ring.position + n) % z) (sym v.power)
    ∙ around-mod ring.size ring.position n v.inside fits

-- What writing words leaves: their bytes round the ring, and the position behind them.
pub record IsWritten (ring : RingBuffer) (bytes : List ℕ) (out : RingBuffer) : Type 0 where
  pub base : out.base ≡ write_round ring.base ring.size ring.position bytes
  pub position : out.position ≡ around ring.size ring.position (length bytes)
  pub size : out.size ≡ ring.size
  pub space_left : out.space_left ≡ ring.space_left

pub write-IsWritten :
    (k : ℕ) (ring : RingBuffer) (word : ℕ)
    → IsAligned k ring
    → IsWritten ring (word_bytes word) (write ring word)
unfolding write
write-IsWritten k ring word v = record {
  base =
      write_bytes-round ring.base ring.size ring.position (word_bytes word)
        (omega (arith, v.inside, v.aligned, v.words));
  position = advance_lem k ring 4 v (omega (arith, v.inside, v.aligned, v.words));
  size = refl;
  space_left = refl;
}

pub around-aligned :
    (size p n : ℕ)
    → size % 4 ≡ 0
    → p % 4 ≡ 0
    → n % 4 ≡ 0
    → p < size
    → n ≤ size
    → (around size p n % 4 ≡ 0) × (around size p n < size)
around-aligned size p n hs hp hn lt le = ground arith

pub IsWritten-IsAligned :
    (k : ℕ) (ring out : RingBuffer) (bytes : List ℕ)
    → IsAligned k ring
    → length bytes % 4 ≡ 0
    → length bytes ≤ ring.size
    → IsWritten ring bytes out
    → IsAligned k out
IsWritten-IsAligned k ring out bytes v whole fits w =
    let a =
      around-aligned ring.size ring.position (length bytes) v.words v.aligned whole v.inside fits in
    record {
      power = w.size ∙ v.power;
      words = omega (arith, w.size, v.words);
      small = omega (arith, w.size, v.small);
      inside = omega (arith, w.size, w.position, a.1);
      aligned = omega (arith, w.position, a.0);
    }

pub around-add :
    (size p a b : ℕ)
    → p < size
    → a + b ≤ size
    → around size (around size p a) b ≡ around size p (a + b)
around-add size p a b lt le = ground arith

pub length-words_bytes : (ws : List ℕ) → length (words_bytes ws) ≡ length ws * 4
length-words_bytes [] = refl
length-words_bytes (w ∷ ws) = omega (arith, length-words_bytes ws)

-- A word written, and the others behind it.
IsWritten-cons :
    (k : ℕ) (ring out end_ring : RingBuffer) (w : ℕ) (ws : List ℕ)
    → IsAligned k ring
    → length (w ∷ ws) * 4 ≤ ring.size
    → IsWritten ring (word_bytes w) out
    → IsWritten out (words_bytes ws) end_ring
    → IsWritten ring (words_bytes (w ∷ ws)) end_ring
IsWritten-cons k ring out end_ring w ws v fits one rest = record {
  base =
      rest.base
      ∙ ap (λ b. write_round b out.size out.position (words_bytes ws)) one.base
      ∙ ap₂
          (λ s q.
            write_round (write_round ring.base ring.size ring.position (word_bytes w)) s q
              (words_bytes ws))
          one.size one.position
      ∙ sym (
          write_round-append ring.base ring.size ring.position (word_bytes w) (words_bytes ws)
            v.inside (omega arith));
  position =
      rest.position
      ∙ ap₂ (λ s q. around s q (length (words_bytes ws))) one.size one.position
      ∙ around-add ring.size ring.position 4 (length (words_bytes ws)) v.inside
          (omega (arith, length-words_bytes ws))
      ∙ ap (around ring.size ring.position) total;
  size = rest.size ∙ one.size;
  space_left = rest.space_left ∙ one.space_left;
}
  where
    total : 4 + length (words_bytes ws) ≡ length (words_bytes (w ∷ ws))
    total = omega arith

pub write_all-IsWritten :
    (k : ℕ) (ring : RingBuffer) (ws : List ℕ)
    → IsAligned k ring
    → length ws * 4 ≤ ring.size
    → IsWritten ring (words_bytes ws) (write_all ring ws)
unfolding write_round
write_all-IsWritten k ring [] v fits = record {
  base = refl;
  position = ground (arith, v.inside);
  size = refl;
  space_left = refl;
}
write_all-IsWritten k ring (w ∷ ws) v fits =
    let one = write-IsWritten k ring w v in
    IsWritten-cons k ring (write ring w) (write_all (write ring w) ws) w ws v fits one (
      write_all-IsWritten k (write ring w) ws
        (IsWritten-IsAligned k ring (write ring w) (word_bytes w) v refl (omega arith) one)
        (omega (arith, one.size)))

pub copy_or_write-IsWritten :
    (k : ℕ) (ring : RingBuffer) (command : List ℕ)
    → IsAligned k ring
    → length command * 4 ≤ ring.size
    → IsWritten ring (words_bytes command) (copy_or_write command ring)
unfolding copy_or_write
copy_or_write-IsWritten k ring command v fits =
    elim (Bool-cases (leb (length command * 4) (ring.size - ring.position))) [
      | inl short ↦ subst (IsWritten ring (words_bytes command)) (sym (if_true _ _ short)) (record {
        base =
            write_bytes-round ring.base ring.size ring.position (words_bytes command)
              (ground (arith, v.inside, length-words_bytes command));
        position =
            advance_lem k ring (length command * 4) v fits
            ∙ ap (around ring.size ring.position) (sym (length-words_bytes command));
        size = refl;
        space_left = refl;
      })
      | inr long ↦
          subst (IsWritten ring (words_bytes command)) (sym (if_false _ _ long))
            (write_all-IsWritten k ring command v fits)
    ]
