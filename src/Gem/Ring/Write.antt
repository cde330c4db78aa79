-- ===== src/Gem/Ring/Write.antt =====
-- The well-formed ring of GemManager.cpp, and the words that _RingWrite puts into it, also round
-- its end.
use native.Mathlib.Nat.{
  add-zero, mod_self, mod-lt, mod-eq_of_lt, mod-add-mod, mod-eq-sub-mod, pow-succ',
}
use haiku_vaio_vpceb3k1e.Prelude.{
  ℕ, zero, suc, ◌+◌, ◌-◌, ◌*◌, ◌/◌, ◌%◌, ◌^◌, ◌≤◌, ◌<◌, ◌≡◌, ◌≢◌, inl, inr, refl, ap, ◌∙◌, sym,
  List, [], ◌∷◌, arith, length, length-set, dec_lt, get_or, get_or-set_self, get_or-set_ne, true,
  Bool-cases, ltb, leb→le,
}
use haiku_vaio_vpceb3k1e.Prelude.Bits.{bit_and-mask}
use haiku_vaio_vpceb3k1e.Gem.Ring.{RingBuffer, make_space, space_from, ring_write, ring_write_all}

-- The ring has a power of two of words, up to 2 MB of them, the memory is as large, and the
-- position is that of a word in it.
pub record IsValid (r : RingBuffer) : Type 0 where
  pub order : ℕ
  pub size_eq : r.size ≡ 4 * 2 ^ order
  pub small : r.size ≤ 2 ^ 21
  pub memory : length r.base * 4 ≡ r.size
  pub whole : r.position % 4 ≡ 0
  pub inside : r.position < r.size

abbrev pub slot : RingBuffer → ℕ
slot r = r.position / 4

abbrev pub slots : RingBuffer → ℕ
slots r = r.size / 4

pub ring_write_lem :
    (w : ℕ) (r : RingBuffer) → IsValid r → (ring_write w r).position ≡ (r.position + 4) % r.size
unfolding ring_write
ring_write_lem w r v =
    rw (mod-eq_of_lt {n = r.position + 4} {m = 2 ^ 32} (omega (arith, v.small, v.inside)))
      (rw full (bit_and-mask (suc (suc v.order)) (r.position + 4)))
  where
    full : r.size ≡ 2 ^ suc (suc v.order)
    full = v.size_eq ∙ omega (arith, pow-succ' 2 (suc v.order), pow-succ' 2 v.order)

-- A step of one word, in words.
step_slot :
    (p n : ℕ)
    → p % 4 ≡ 0
    → n % 4 ≡ 0
    → p < n
    → ((p + 4) % n % 4 ≡ 0) × ((p + 4) % n / 4 ≡ (p / 4 + 1) % (n / 4))
step_slot p n hp hn lt = elim (dec_lt (p + 4) n) [
  | yes h ↦
      rw (mod-eq_of_lt h, mod-eq_of_lt {n = p / 4 + 1} {m = n / 4} (omega arith))
        (omega arith, omega arith)
  | no h ↦
      let e : p + 4 ≡ n = omega arith in
      let e' : p / 4 + 1 ≡ n / 4 = omega arith in
      rw (e, e', mod_self n, mod_self (n / 4)) (refl, refl)
]

pub ring_write-IsValid : (w : ℕ) (r : RingBuffer) → IsValid r → IsValid (ring_write w r)
unfolding ring_write
ring_write-IsValid w r v = record {
  order = v.order;
  size_eq = v.size_eq;
  small = v.small;
  memory = omega (arith, length-set r.base (r.position / 4) w, v.memory);
  whole =
      ap (λ p. p % 4) (ring_write_lem w r v)
      ∙ (step_slot r.position r.size v.whole (omega (arith, v.memory)) v.inside).0;
  inside = rw (ring_write_lem w r v) (mod-lt (r.position + 4) (omega (arith, v.inside)));
}

slot-ring_write :
    (w : ℕ) (r : RingBuffer) → IsValid r → slot (ring_write w r) ≡ (slot r + 1) % slots r
slot-ring_write w r v =
    ap (λ p. p / 4) (ring_write_lem w r v)
    ∙ (step_slot r.position r.size v.whole (omega (arith, v.memory)) v.inside).1

slots-ring_write : (w : ℕ) (r : RingBuffer) → slots (ring_write w r) ≡ slots r
unfolding ring_write
slots-ring_write w r = refl

-- Less than a full turn from a slot is another slot.
no_return : (q m n : ℕ) → q < n → 0 < m → m < n → (q + m) % n ≢ q
no_return q m n hq lo hi e = elim (dec_lt (q + m) n) [
  | yes h ↦ omega (arith, mod-eq_of_lt h)
  | no h ↦ omega (
    arith,
    mod-eq-sub-mod {n = q + m} {m = n} (omega arith),
    mod-eq_of_lt {n = q + m - n} {m = n} (omega arith),
  )
]

-- What a row of words leaves in the ring from its position on, also round the end.
pub record Wrote (r : RingBuffer) (ws : List ℕ) (r' : RingBuffer) : Type 0 where
  pub valid : IsValid r'
  pub same_size : r'.size ≡ r.size
  pub moved : slot r' ≡ (slot r + length ws) % slots r
  pub words : (j : ℕ) → j < length ws → get_or r'.base ((slot r + j) % slots r) 0 ≡ get_or ws j 0
  pub others :
      (k : ℕ)
      → ((j : ℕ) → j < length ws → (slot r + j) % slots r ≢ k)
      → get_or r'.base k 0 ≡ get_or r.base k 0
  pub spent :
      4 * length ws ≤ r.space_left
      → r.space_left < 2 ^ 32
      → r'.space_left ≡ r.space_left - 4 * length ws

module _ (w : ℕ) (ws : List ℕ) (r r' : RingBuffer) (v : IsValid r) where
  inside : slot r < slots r
  inside = omega (arith, v.inside, v.memory)

  next_slot : (j : ℕ) → (slot (ring_write w r) + j) % slots r ≡ (slot r + suc j) % slots r
  next_slot j =
      ap (λ s. (s + j) % slots r) (slot-ring_write w r v)
      ∙ mod-add-mod (slot r + 1) (slots r) j
      ∙ ap (λ s. s % slots r) (omega arith)

  at_once : (k : ℕ) → slot r ≢ k → get_or (ring_write w r).base k 0 ≡ get_or r.base k 0
  unfolding ring_write
  at_once k ne = get_or-set_ne r.base (slot r) k w 0 ne

  Wrote-cons : length ws < slots r → Wrote (ring_write w r) ws r' → Wrote r (w ∷ ws) r'
  unfolding ring_write
  Wrote-cons room rest = record {
    valid = rest.valid;
    same_size = rest.same_size;
    moved = rest.moved ∙ next_slot (length ws);
    words = word;
    others = λ k out.
        rest.others k (λ j lt e. out (suc j) (omega arith) (sym (next_slot j) ∙ e))
        ∙ at_once k (λ e. out 0 (omega arith) (first ∙ e));
    spent = λ enough small. omega (arith, rest.spent (omega arith) (omega arith));
  }
    where
      first : (slot r + 0) % slots r ≡ slot r
      first = rw add-zero (mod-eq_of_lt inside)

      word :
          (j : ℕ)
          → j < suc (length ws)
          → get_or r'.base ((slot r + j) % slots r) 0 ≡ get_or (w ∷ ws) j 0
      word zero lt = rw first (
          rest.others (slot r) (λ j lt' e.
            no_return (slot r) (suc j) (slots r) inside (omega arith) (omega arith)
              (sym (next_slot j) ∙ e))
          ∙ get_or-set_self r.base (slot r) w 0 (omega (arith, v.memory, v.inside)))
      word (suc j) lt = rw (← next_slot j) (rest.words j (omega arith))

-- Words that `_RingWrite` puts one after the other into a well-formed ring, no more of them than the
-- ring has slots, stand in it in order from the position on, round the end if need be; no other word
-- is changed, and the position and the space left are those behind them.
pub ring_write_all-Wrote :
    (ws : List ℕ) (r : RingBuffer)
    → IsValid r
    → length ws ≤ slots r
    → Wrote r ws (ring_write_all ws r)
unfolding ring_write_all
ring_write_all-Wrote [] r v room = record {
  valid = v;
  same_size = refl;
  moved =
      sym
        (rw add-zero (mod-eq_of_lt {n = slot r} {m = slots r} (omega (arith, v.inside, v.memory))));
  words = λ j lt. absurd (omega arith);
  others = λ k out. refl;
  spent = λ enough small. omega arith;
}
ring_write_all-Wrote (w ∷ ws) r v room = Wrote-cons w ws r _ v (omega arith) (
    ring_write_all-Wrote ws (ring_write w r) (ring_write-IsValid w r v)
      (omega (arith, slots-ring_write w r)))

-- Where `make_space` answers that there is room, there is, and only the count of free bytes has
-- changed.
pub make_space_lem :
    (needed : ℕ) (heads : List ℕ) (r : RingBuffer)
    → ((make_space needed heads r).1.base ≡ r.base)
      × ((make_space needed heads r).1.size ≡ r.size)
      × ((make_space needed heads r).1.position ≡ r.position)
      × ((make_space needed heads r).0 ≡ true → needed ≤ (make_space needed heads r).1.space_left)
unfolding make_space
make_space_lem needed [] r = (refl, refl, refl, λ h. leb→le needed r.space_left h)
make_space_lem needed (h ∷ hs) r = elim (Bool-cases (ltb r.space_left needed)) [
  | inl short ↦ rw short (make_space_lem needed hs (record r { space_left = space_from r h }))
  | inr enough ↦ rw enough (refl, refl, refl, λ e. ground arith)
]
