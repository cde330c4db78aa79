-- ===== src/Engine/Draw/OnRing.antt =====
-- The drawing operations of engine.cpp on the ring, where the 2D queue of gem2d.cpp is off.
use haiku_vaio_vpceb3k1e.Gem2d.{word_bytes, mi_noop}
use haiku_vaio_vpceb3k1e.Prelude.{
  suc, ◌+◌, ◌^◌, ◌==◌, if◌then◌else◌, subst, Bool-cases, inl, inr, if_true, if_false, ℕ, ◌*◌, ◌%◌,
  ◌≤◌, ◌<◌, ◌≡◌, refl, ap, ap₂, sym, ◌∙◌, List, [], ◌∷◌, ◌++◌, length, length-append, arith,
}
use haiku_vaio_vpceb3k1e.Prelude.Memory.{Memory}
use haiku_vaio_vpceb3k1e.Engine.{
  RingBuffer, words_bytes, make_space, put, store_sequence, align_ring, mi_store_dword_index,
  hws_sync_sequence_index, finish_queue,
}
use haiku_vaio_vpceb3k1e.Engine.Round.{
  IsAligned, around, around-add, around-aligned, read_round, write_round, write_round-append,
  write_round-other, read-write_round, write_all-IsWritten, write-IsWritten,
  copy_or_write-IsWritten, length-words_bytes,
}
use haiku_vaio_vpceb3k1e.Engine.Space.{
  make_space-IsSpaced, IsSpaced-IsAligned, HasRun, finish_queue-aligned,
}
use haiku_vaio_vpceb3k1e.Engine.Draw.{put_each, draw_on_ring}

-- A run of bytes from the position of `ring` on.
record IsPut (ring : RingBuffer) (bytes : List ℕ) (out : RingBuffer) : Type 0 where
  base : out.base ≡ write_round ring.base ring.size ring.position bytes
  position : out.position ≡ around ring.size ring.position (length bytes)
  size : out.size ≡ ring.size

put-IsPut :
    (k : ℕ) (heads command : List ℕ) (ring : RingBuffer)
    → IsAligned k ring
    → length command * 4 ≤ ring.size
    → IsPut ring (words_bytes command) (put heads command ring)
unfolding put
put-IsPut k heads command ring v fits =
    let s = make_space-IsSpaced heads (length command) ring in
    let w =
      copy_or_write-IsWritten k (make_space heads (length command) ring) command
        (IsSpaced-IsAligned k ring _ s v) (omega (arith, s.size)) in
    record {
      base = w.base ∙ rw (s.base, s.size, s.position) refl;
      position = w.position ∙ rw (s.size, s.position) refl;
      size = w.size ∙ s.size;
    }

IsPut-then :
    (ring mid out : RingBuffer) (xs ys : List ℕ)
    → ring.position < ring.size
    → length (xs ++ ys) ≤ ring.size
    → IsPut ring xs mid
    → IsPut mid ys out
    → IsPut ring (xs ++ ys) out
IsPut-then ring mid out xs ys inside fits one two = record {
  base =
      two.base
      ∙ ap (λ b. write_round b mid.size mid.position ys) one.base
      ∙ ap₂ (λ s q. write_round (write_round ring.base ring.size ring.position xs) s q ys) one.size
          one.position
      ∙ sym (
          write_round-append ring.base ring.size ring.position xs ys inside
            (omega (arith, length-append xs ys)));
  position =
      two.position
      ∙ ap₂ (λ s q. around s q (length ys)) one.size one.position
      ∙ around-add ring.size ring.position (length xs) (length ys) inside
          (omega (arith, length-append xs ys))
      ∙ ap (around ring.size ring.position) (sym (length-append xs ys));
  size = two.size ∙ one.size;
}

IsPut-IsAligned :
    (k : ℕ) (ring out : RingBuffer) (bytes : List ℕ)
    → IsAligned k ring
    → length bytes % 4 ≡ 0
    → length bytes ≤ ring.size
    → IsPut ring bytes out
    → IsAligned k out
IsPut-IsAligned k ring out bytes v whole fits w =
    let a =
      around-aligned ring.size ring.position (length bytes) v.words v.aligned whole v.inside fits in
    record {
      power = w.size ∙ v.power;
      words = omega (arith, w.size, v.words);
      small = omega (arith, w.size, v.small);
      inside = omega (arith, w.size, w.position, a.1);
      aligned = omega (arith, w.position, a.0);
    }

-- The bytes of commands in their order.
abbrev pub command_bytes : List (List ℕ) → List ℕ
command_bytes [] = []
command_bytes (c ∷ cs) = words_bytes c ++ command_bytes cs

put_each-IsPut :
    (k : ℕ) (heads : ℕ → List ℕ) (cs : List (List ℕ)) (ring : RingBuffer)
    → IsAligned k ring
    → length (command_bytes cs) ≤ ring.size
    → IsPut ring (command_bytes cs) (put_each heads cs ring) × IsAligned k (put_each heads cs ring)
unfolding write_round
put_each-IsPut k heads [] ring v fits =
    (record { base = refl; position = ground (arith, v.inside); size = refl }, v)
put_each-IsPut k heads (c ∷ cs) ring v fits =
    let room = length-append (words_bytes c) (command_bytes cs) in
    let one =
      put-IsPut k (heads (suc (length cs))) c ring v (omega (arith, room, length-words_bytes c)) in
    let w =
      IsPut-IsAligned k ring (put (heads (suc (length cs))) c ring) (words_bytes c) v
        (omega (arith, length-words_bytes c)) (omega (arith, room)) one in
    let rest =
      put_each-IsPut k heads cs (put (heads (suc (length cs))) c ring) w
        (omega (arith, room, one.size)) in
    (
      IsPut-then ring (put (heads (suc (length cs))) c ring) _ (words_bytes c) (command_bytes cs)
          v.inside fits one rest.0,
      rest.1,
    )

-- What the destructor writes for a submission, before it aligns the position.
abbrev pub sequence_words : ℕ → List ℕ
sequence_words seq =
    if seq % 8 == 0 then mi_store_dword_index ∷ hws_sync_sequence_index ∷ seq ∷ mi_noop ∷ [] else []

IsPut-none : (ring : RingBuffer) → ring.position < ring.size → IsPut ring [] ring
unfolding write_round
IsPut-none ring inside = record { base = refl; position = ground arith; size = refl }

store_sequence-IsPut :
    (k : ℕ) (heads : List ℕ) (seq : ℕ) (ring : RingBuffer)
    → IsAligned k ring
    → 16 ≤ ring.size
    → IsPut ring (words_bytes (sequence_words seq)) (store_sequence heads seq ring)
store_sequence-IsPut k heads seq ring v roomy = elim (Bool-cases (seq % 8 == 0)) [
  | inl eighth ↦
      let s = make_space-IsSpaced heads 4 ring in
      let w =
        write_all-IsWritten k (make_space heads 4 ring) words (IsSpaced-IsAligned k ring _ s v)
          (omega (arith, s.size)) in
      subst (λ ws. IsPut ring (words_bytes ws) (store_sequence heads seq ring))
        (sym (if_true _ _ eighth))
        (subst (IsPut ring (words_bytes words)) (sym (if_true _ _ eighth)) (record {
          base = w.base ∙ rw (s.base, s.size, s.position) refl;
          position = w.position ∙ rw (s.size, s.position) refl;
          size = w.size ∙ s.size;
        }))
  | inr other ↦
      subst (λ ws. IsPut ring (words_bytes ws) (store_sequence heads seq ring))
        (sym (if_false _ _ other))
        (subst (IsPut ring []) (sym (if_false _ _ other)) (IsPut-none ring v.inside))
]
  where
    words : List ℕ
    words = mi_store_dword_index ∷ hws_sync_sequence_index ∷ seq ∷ mi_noop ∷ []

length-sequence_words :
    (seq : ℕ)
    → (length (words_bytes (sequence_words seq)) ≤ 16)
      × (length (words_bytes (sequence_words seq)) % 4 ≡ 0)
length-sequence_words seq = elim (Bool-cases (seq % 8 == 0)) [
  | inl eighth ↦ subst P (sym (if_true _ _ eighth)) (omega arith, refl)
  | inr other ↦ subst P (sym (if_false _ _ other)) (omega arith, refl)
]
  where
    P : List ℕ → Type 0
    P ws = (length (words_bytes ws) ≤ 16) × (length (words_bytes ws) % 4 ≡ 0)

-- No bytes, or a no-op.
pub data IsPadding : List ℕ → Type 0 where
  none_needed : IsPadding []
  no_op : IsPadding (word_bytes mi_noop)

align_ring-IsPut :
    (k : ℕ) (ring : RingBuffer)
    → IsAligned k ring
    → (padding : List ℕ) × IsPadding padding
      × (length padding ≤ 4)
      × IsPut ring padding (align_ring ring)
align_ring-IsPut k ring v = elim (Bool-cases (ring.position % 8 == 0)) [
  | inl even ↦ (
    [],
    none_needed,
    omega arith,
    subst (IsPut ring []) (sym (if_true _ _ even)) (IsPut-none ring v.inside),
  )
  | inr odd ↦
      let w = write-IsWritten k ring mi_noop v in
      (
        word_bytes mi_noop,
        no_op,
        omega arith,
        subst (IsPut ring (word_bytes mi_noop)) (sym (if_false _ _ odd))
            (record { base = w.base; position = w.position; size = w.size }),
      )
]

-- What a drawing on the ring leaves: from the old position on the commands, the number of the
-- submission where that is stored, and a no-op where one is needed, and nothing else changed; TAIL is
-- on a quad word in the ring.
pub record IsDrawn (last : ℕ) (ring : RingBuffer) (cs : List (List ℕ)) (out : ℕ × RingBuffer)
    : Type 0 where
  pub number : out.0 ≡ (last + 1) % 2 ^ 32
  pub padding : List ℕ
  pub padded : IsPadding padding
  pub commands :
      HasRun ring (command_bytes cs ++ (words_bytes (sequence_words out.0) ++ padding)) out.1
  pub quad : out.1.position % 8 ≡ 0
  pub inside : out.1.position < ring.size

-- In an aligned ring whose size is a multiple of 8, whatever HEAD shows, the commands of a drawing
-- operation that leave 20 bytes of the ring stand in it at the end of the operation one behind the
-- other, round its end if need be, with what the destructor of the queue adds behind them, and the
-- position that goes to TAIL is on a quad word in the ring.
pub draw_on_ring-IsDrawn :
    (k : ℕ) (heads : ℕ → List ℕ) (last : ℕ) (cs : List (List ℕ)) (ring : RingBuffer)
    → IsAligned k ring
    → ring.size % 8 ≡ 0
    → length (command_bytes cs) + 20 ≤ ring.size
    → IsDrawn last ring cs (draw_on_ring heads last cs ring)
unfolding draw_on_ring finish_queue
draw_on_ring-IsDrawn k heads last cs ring v quad fits = record {
  number = refl;
  padding = a.0;
  padded = a.1;
  commands = record {
    run =
        ap (λ m. read_round m ring.size ring.position (length bytes)) whole.base
        ∙ read-write_round ring.base ring.size ring.position bytes v.inside short;
    others = λ o lt far.
        ap (λ (m : Memory). m o) whole.base
        ∙ write_round-other ring.base ring.size ring.position bytes o v.inside lt far;
    position = whole.position;
    size = whole.size;
  };
  quad = t.0;
  inside = omega (arith, t.1, p.0.size);
}
  where
    seq : ℕ
    seq = (last + 1) % 2 ^ 32

    filled : RingBuffer
    filled = put_each heads cs ring

    p : IsPut ring (command_bytes cs) filled × IsAligned k filled
    p = put_each-IsPut k heads cs ring v (omega arith)

    stored : RingBuffer
    stored = store_sequence (heads 0) seq filled

    q : IsPut filled (words_bytes (sequence_words seq)) stored
    q = store_sequence-IsPut k (heads 0) seq filled p.1 (omega (arith, p.0.size))

    stored_aligned : IsAligned k stored
    stored_aligned =
        IsPut-IsAligned k filled stored (words_bytes (sequence_words seq)) p.1
          (length-sequence_words seq).1 (omega (arith, (length-sequence_words seq).0, p.0.size)) q

    a :
        (padding : List ℕ) × IsPadding padding
        × (length padding ≤ 4)
        × IsPut stored padding (align_ring stored)
    a = align_ring-IsPut k stored stored_aligned

    behind_commands : List ℕ
    behind_commands = words_bytes (sequence_words seq) ++ a.0

    bytes : List ℕ
    bytes = command_bytes cs ++ behind_commands

    tail_short : length behind_commands ≤ 20
    tail_short = omega (
      arith,
      length-append (words_bytes (sequence_words seq)) a.0,
      (length-sequence_words seq).0,
      a.2,
    )

    short : length bytes ≤ ring.size
    short = omega (arith, length-append (command_bytes cs) behind_commands, tail_short)

    whole : IsPut ring bytes (align_ring stored)
    whole =
        IsPut-then ring filled (align_ring stored) (command_bytes cs) behind_commands v.inside short
          p.0
          (IsPut-then filled stored (align_ring stored) (words_bytes (sequence_words seq)) a.0
            p.1.inside (omega (arith, tail_short, p.0.size)) q a.3)

    t :
        ((finish_queue (heads 0) last filled).1.position % 8 ≡ 0)
        × ((finish_queue (heads 0) last filled).1.position < filled.size)
    t =
        finish_queue-aligned k (heads 0) last filled p.1 (omega (arith, p.0.size, quad))
          (omega (arith, p.0.size))
