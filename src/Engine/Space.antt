-- ===== src/Engine/Space.antt =====
-- The space of the ring of engine.cpp, and a whole command put into it.
use native.Mathlib.Nat.{mod-eq_of_lt}
use haiku_vaio_vpceb3k1e.Prelude.{
  ℕ, ◌+◌, ◌-◌, ◌*◌, ◌%◌, ◌^◌, ◌≤◌, ◌<◌, ◌≡◌, refl, ap, sym, subst, ◌∙◌, bit_and, Bool, true, false,
  List, [], ◌∷◌, if◌then◌else◌, ltb, ◌==◌, length, arith, Bool-cases, inl, inr, if_true, if_false,
  lt→ltb,
}
use haiku_vaio_vpceb3k1e.Prelude.Memory.{Memory}
use haiku_vaio_vpceb3k1e.Gem2d.{mi_noop}
use haiku_vaio_vpceb3k1e.Engine.{
  RingBuffer, words_bytes, space_for, head_mask, wait_for_space, make_space, put, store_sequence,
  align_ring, finish_queue, mi_store_dword_index, hws_sync_sequence_index,
}
use haiku_vaio_vpceb3k1e.Engine.Round.{
  IsAligned, IsWritten, around, behind, read_round, write_round, write_round-other,
  read-write_round, copy_or_write-IsWritten, IsWritten-IsAligned, length-words_bytes,
  write_all-IsWritten, write-IsWritten,
}

-- Only the space differs.
pub record IsSpaced (ring out : RingBuffer) : Type 0 where
  pub base : out.base ≡ ring.base
  pub size : out.size ≡ ring.size
  pub position : out.position ≡ ring.position

IsSpaced-if :
    (b : Bool) (ring x : RingBuffer) → IsSpaced ring x → IsSpaced ring (if b then x else ring)
IsSpaced-if true ring x s = s
IsSpaced-if false ring x s = record { base = refl; size = refl; position = refl }

wait_for_space-IsSpaced :
    (heads : List ℕ) (size : ℕ) (ring : RingBuffer) → IsSpaced ring (wait_for_space heads size ring)
unfolding wait_for_space
wait_for_space-IsSpaced [] size ring = record { base = refl; size = refl; position = refl }
wait_for_space-IsSpaced (head ∷ heads) size ring =
    let s =
      wait_for_space-IsSpaced heads size
        (record ring { space_left = space_for ring (bit_and head head_mask) }) in
    IsSpaced-if (ltb ring.space_left size) ring _
      (record { base = s.base; size = s.size; position = s.position })

pub make_space-IsSpaced :
    (heads : List ℕ) (size : ℕ) (ring : RingBuffer) → IsSpaced ring (make_space heads size ring)
unfolding make_space
make_space-IsSpaced heads size ring =
    let s = wait_for_space-IsSpaced heads (size * 4 % 2 ^ 32) ring in
    record { base = s.base; size = s.size; position = s.position }

pub IsSpaced-IsAligned :
    (k : ℕ) (ring out : RingBuffer) → IsSpaced ring out → IsAligned k ring → IsAligned k out
IsSpaced-IsAligned k ring out s v = record {
  power = s.size ∙ v.power;
  words = omega (arith, s.size, v.words);
  small = omega (arith, s.size, v.small);
  inside = omega (arith, s.size, s.position, v.inside);
  aligned = omega (arith, s.position, v.aligned);
}

-- The bytes of `out` are those of `ring` but for a run of bytes round the ring from its position on,
-- behind which the position of `out` is.
pub record HasRun (ring : RingBuffer) (bytes : List ℕ) (out : RingBuffer) : Type 0 where
  pub run : read_round out.base ring.size ring.position (length bytes) ≡ bytes
  pub others :
      (o : ℕ)
      → o < ring.size
      → length bytes ≤ behind ring.size ring.position o
      → out.base o ≡ ring.base o
  pub position : out.position ≡ around ring.size ring.position (length bytes)
  pub size : out.size ≡ ring.size

written-HasRun :
    (k : ℕ) (ring waited out : RingBuffer) (bytes : List ℕ)
    → IsAligned k ring
    → length bytes ≤ ring.size
    → IsSpaced ring waited
    → IsWritten waited bytes out
    → HasRun ring bytes out
written-HasRun k ring waited out bytes v fits s w = record {
  run =
      ap (λ m. read_round m ring.size ring.position (length bytes)) same
      ∙ read-write_round ring.base ring.size ring.position bytes v.inside fits;
  others = λ o lt far.
      ap (λ (m : Memory). m o) same
      ∙ write_round-other ring.base ring.size ring.position bytes o v.inside lt far;
  position = w.position ∙ rw (s.size, s.position) refl;
  size = w.size ∙ s.size;
}
  where
    same : out.base ≡ write_round ring.base ring.size ring.position bytes
    same = w.base ∙ rw (s.base, s.size, s.position) refl

-- A command of whole words that is no longer than the ring, put into a ring of 2 ^ k bytes with its
-- position on a word, stands in the ring from the old position on, round its end if need be, the
-- other bytes are as before, and the position goes behind the command, whatever HEAD shows; so it does
-- with an odd number of words, in a build without assertions.
pub put-HasRun :
    (k : ℕ) (heads command : List ℕ) (ring : RingBuffer)
    → IsAligned k ring
    → length command * 4 ≤ ring.size
    → HasRun ring (words_bytes command) (put heads command ring)
unfolding put
put-HasRun k heads command ring v fits =
    let s = make_space-IsSpaced heads (length command) ring in
    written-HasRun k ring (make_space heads (length command) ring) _ (words_bytes command) v
      (omega (arith, length-words_bytes command)) s
      (copy_or_write-IsWritten k _ command (IsSpaced-IsAligned k ring _ s v)
        (omega (arith, s.size)))

-- No value of HEAD shows room for `size` bytes.
abbrev pub AllShort : RingBuffer → ℕ → List ℕ → Type 0
AllShort ring size [] = Unit {0}
AllShort ring size (head ∷ heads) =
    (space_for ring (bit_and head head_mask) < size) × AllShort ring size heads

AllShort-moved :
    (ring : RingBuffer) (n size : ℕ) (heads : List ℕ)
    → AllShort ring size heads
    → AllShort (record ring { space_left = n }) size heads
AllShort-moved ring n size [] short = tt
AllShort-moved ring n size (head ∷ heads) short =
    (short.0, AllShort-moved ring n size heads short.1)

wait_in_vain :
    (heads : List ℕ) (size : ℕ) (ring : RingBuffer)
    → ring.space_left < size
    → AllShort ring size heads
    → (wait_for_space heads size ring).space_left < size
unfolding wait_for_space
wait_in_vain [] size ring less short = less
wait_in_vain (head ∷ heads) size ring less short =
    subst (λ (t : RingBuffer). t.space_left < size)
      (sym (if_true _ _ (lt→ltb ring.space_left size less)))
      (wait_in_vain heads size
        (record ring { space_left = space_for ring (bit_and head head_mask) }) short.0
        (AllShort-moved ring (space_for ring (bit_and head head_mask)) size heads short.1))

-- Where HEAD shows no room for the command until the time is over, MakeSpace takes the space down
-- below 0, and the ring claims to have almost 4 GB left: room for anything that follows.
pub make_space-stall :
    (heads : List ℕ) (size : ℕ) (ring : RingBuffer)
    → size * 4 < 2 ^ 31
    → ring.space_left < size * 4
    → AllShort ring (size * 4) heads
    → (2 ^ 32 - size * 4 ≤ (make_space heads size ring).space_left)
      × ((make_space heads size ring).space_left < 2 ^ 32)
unfolding make_space
make_space-stall heads size ring small less short =
    ap_bytes (size * 4 % 2 ^ 32) (sym (mod-eq_of_lt {n = size * 4} {m = 2 ^ 32} (omega arith)))
  where
    vain : (wait_for_space heads (size * 4) ring).space_left < size * 4
    vain = wait_in_vain heads (size * 4) ring less short

    ap_bytes :
        (bytes : ℕ)
        → size * 4 ≡ bytes
        → (2 ^ 32 - size * 4
            ≤ ((wait_for_space heads bytes ring).space_left + 2 ^ 32 - bytes) % 2 ^ 32)
          × (((wait_for_space heads bytes ring).space_left + 2 ^ 32 - bytes) % 2 ^ 32 < 2 ^ 32)
    ap_bytes bytes e =
        subst
          (λ b.
            (2 ^ 32 - size * 4 ≤ ((wait_for_space heads b ring).space_left + 2 ^ 32 - b) % 2 ^ 32)
            × (((wait_for_space heads b ring).space_left + 2 ^ 32 - b) % 2 ^ 32 < 2 ^ 32))
          e (omega (arith, vain), omega arith)

-- An aligned ring of `size` bytes.
record IsQueued (k size : ℕ) (ring : RingBuffer) : Type 0 where
  aligned : IsAligned k ring
  same_size : ring.size ≡ size

store_sequence-IsQueued :
    (k size : ℕ) (heads : List ℕ) (seq : ℕ) (ring : RingBuffer)
    → 16 ≤ size
    → IsQueued k size ring
    → IsQueued k size (store_sequence heads seq ring)
store_sequence-IsQueued k size heads seq ring roomy q = elim (Bool-cases (seq % 8 == 0)) [
  | inl eighth ↦
      let s = make_space-IsSpaced heads 4 ring in
      let v = IsSpaced-IsAligned k ring (make_space heads 4 ring) s q.aligned in
      let w =
        write_all-IsWritten k (make_space heads 4 ring) words v
          (omega (arith, s.size, q.same_size)) in
      subst (IsQueued k size) (sym (if_true _ _ eighth)) (record {
        aligned =
            IsWritten-IsAligned k (make_space heads 4 ring) _ (words_bytes words) v (omega arith)
              (omega (arith, s.size, q.same_size)) w;
        same_size = w.size ∙ s.size ∙ q.same_size;
      })
  | inr other ↦ subst (IsQueued k size) (sym (if_false _ _ other)) q
]
  where
    words : List ℕ
    words = mi_store_dword_index ∷ hws_sync_sequence_index ∷ seq ∷ mi_noop ∷ []

align_ring-quad :
    (k size : ℕ) (ring : RingBuffer)
    → size % 8 ≡ 0
    → IsQueued k size ring
    → ((align_ring ring).position % 8 ≡ 0) × ((align_ring ring).position < size)
align_ring-quad k size ring quad q = elim (Bool-cases (ring.position % 8 == 0)) [
  | inl even ↦
      subst P (sym (if_true _ _ even)) (ground arith, omega (arith, q.same_size, q.aligned.inside))
  | inr odd ↦
      let w = write-IsWritten k ring mi_noop q.aligned in
      let off = half_way odd in
      subst P (sym (if_false _ _ odd)) (
        rw w.position
            (quad_around ring.size ring.position (rw q.same_size quad) off q.aligned.inside).0,
        rw w.position (
            rw⁻¹ q.same_size
              (quad_around ring.size ring.position (rw q.same_size quad) off q.aligned.inside).1),
      )
]
  where
    P : RingBuffer → Type 0
    P t = (t.position % 8 ≡ 0) × (t.position < size)

    half_way : (ring.position % 8 == 0) ≡ false → ring.position % 8 ≡ 4
    half_way odd = ground (arith, q.aligned.aligned)

    quad_around :
        (n p : ℕ) → n % 8 ≡ 0 → p % 8 ≡ 4 → p < n → (around n p 4 % 8 ≡ 0) × (around n p 4 < n)
    quad_around n p hn hp lt = ground arith

-- In a ring of 2 ^ k bytes, from 16 on, with the position on a word, the position that the destructor of
-- QueueCommands writes to TAIL is on a quad word in the ring, whatever the number of the submission.
pub finish_queue-aligned :
    (k : ℕ) (heads : List ℕ) (last : ℕ) (ring : RingBuffer)
    → IsAligned k ring
    → ring.size % 8 ≡ 0
    → 16 ≤ ring.size
    → ((finish_queue heads last ring).1.position % 8 ≡ 0)
      × ((finish_queue heads last ring).1.position < ring.size)
unfolding finish_queue
finish_queue-aligned k heads last ring v quad roomy =
    align_ring-quad k ring.size (store_sequence heads ((last + 1) % 2 ^ 32) ring) quad (
      store_sequence-IsQueued k ring.size heads ((last + 1) % 2 ^ 32) ring roomy
        (record { aligned = v; same_size = refl }))
