-- ===== src/Engine/Trailer.antt =====
-- The batch of engine.cpp: the commands that are put into it, and the trailer of its destructor.
use haiku_vaio_vpceb3k1e.Prelude.{
  ℕ, ◌+◌, ◌*◌, ◌%◌, ◌^◌, ◌≤◌, ◌<◌, ◌≡◌, refl, ap, ap₂, sym, subst, ◌∙◌, Bool, true, false, not,
  ◌||◌, List, [], ◌∷◌, ◌++◌, append-nil, append_assoc, if◌then◌else◌, ltb, ◌==◌, length,
  length-append, arith, Bool-cases, inl, inr, if_true, if_false,
}
use haiku_vaio_vpceb3k1e.Prelude.Memory.{read_bytes, write_bytes, read-write_behind}
use haiku_vaio_vpceb3k1e.Gem2d.{word_bytes, mi_noop, mi_batch_buffer_end}
use haiku_vaio_vpceb3k1e.Engine.{
  RingBuffer, BatchBuffer, mi_store_dword_index, hws_sync_sequence_index, words_bytes, batch_put,
  write_batch, close_batch, finish_batch,
}

-- A batch that holds `bytes`, whole words, with room for 32 bytes where there are any.
pub record HasBytes (batch : BatchBuffer) (bytes : List ℕ) : Type 0 where
  pub bytes_there : read_bytes batch.base 0 batch.position ≡ bytes
  pub count : length bytes ≡ batch.position
  pub words : batch.position % 4 ≡ 0
  pub room : 0 < batch.position → batch.position + 32 ≤ batch.size

-- The specification: the commands that find room, in their order.
abbrev pub accept : ℕ → List ℕ → List (List ℕ) → List ℕ
accept size bytes [] = bytes
accept size bytes (c ∷ cs) =
    accept size (if ltb size (length bytes + length c + 32) then bytes else bytes ++ c) cs

abbrev pub put_all : List (List ℕ) → BatchBuffer → BatchBuffer
put_all [] batch = batch
put_all (c ∷ cs) batch = put_all cs (batch_put c batch)

-- Every command has whole words.
abbrev pub AllWhole : List (List ℕ) → Type 0
AllWhole [] = Unit {0}
AllWhole (c ∷ cs) = (length c % 4 ≡ 0) × AllWhole cs

batch_put-HasBytes :
    (c bytes : List ℕ) (batch : BatchBuffer)
    → length c % 4 ≡ 0
    → HasBytes batch bytes
    → HasBytes
        (batch_put c batch)
        (if ltb batch.size (length bytes + length c + 32) then bytes else bytes ++ c)
      × ((batch_put c batch).size ≡ batch.size)
unfolding batch_put
batch_put-HasBytes c bytes batch whole h =
    rw h.count (elim (Bool-cases (ltb batch.size (batch.position + length c + 32))) [
      | inl full ↦
          subst P (sym (if_true _ _ full)) (subst (HasBytes batch) (sym (if_true _ _ full)) h, refl)
      | inr free ↦ subst P (sym (if_false _ _ free)) (
        subst (HasBytes filled) (sym (if_false _ _ free)) (record {
          bytes_there = read-write_behind batch.base batch.position bytes c h.bytes_there;
          count = length-append bytes c ∙ ap (λ n. n + length c) h.count;
          words = omega (arith, h.words, whole);
          room = λ more. ground arith;
        }),
        refl,
      )
    ])
  where
    P : BatchBuffer → Type 0
    P t =
        HasBytes t (if ltb batch.size (batch.position + length c + 32) then bytes else bytes ++ c)
        × (t.size ≡ batch.size)

    filled : BatchBuffer
    filled = record batch {
      base = write_bytes batch.base batch.position c;
      position = batch.position + length c;
    }

put_all-HasBytes :
    (cs : List (List ℕ)) (bytes : List ℕ) (batch : BatchBuffer)
    → AllWhole cs
    → HasBytes batch bytes
    → HasBytes (put_all cs batch) (accept batch.size bytes cs)
put_all-HasBytes [] bytes batch whole h = h
put_all-HasBytes (c ∷ cs) bytes batch whole h =
    let s = batch_put-HasBytes c bytes batch whole.0 h in
    subst
      (λ n.
        HasBytes (put_all cs (batch_put c batch)) (
          accept n (if ltb batch.size (length bytes + length c + 32) then bytes else bytes ++ c)
            cs))
      s.1 (put_all-HasBytes cs _ (batch_put c batch) whole.1 s.0)

-- The bytes of a batch while its trailer is written.
record IsEnding (batch : BatchBuffer) (bytes : List ℕ) (end_at most : ℕ) : Type 0 where
  bytes_there : read_bytes batch.base 0 batch.position ≡ bytes
  position : batch.position ≡ end_at
  size : batch.size ≡ most

write_batch-IsEnding :
    (batch : BatchBuffer) (bytes : List ℕ) (end_at most w : ℕ)
    → IsEnding batch bytes end_at most
    → IsEnding (write_batch batch w) (bytes ++ word_bytes w) (end_at + 4) most
unfolding write_batch
write_batch-IsEnding batch bytes end_at most w e = record {
  bytes_there = read-write_behind batch.base batch.position bytes (word_bytes w) e.bytes_there;
  position = ap (λ n. n + 4) e.position;
  size = e.size;
}

abbrev pub write_words : BatchBuffer → List ℕ → BatchBuffer
write_words batch [] = batch
write_words batch (w ∷ ws) = write_words (write_batch batch w) ws

append-nil_bytes : (bytes : List ℕ) → bytes ≡ bytes ++ []
append-nil_bytes bytes = sym (append-nil bytes)

write_words-IsEnding :
    (batch : BatchBuffer) (bytes : List ℕ) (end_at most : ℕ) (ws : List ℕ)
    → IsEnding batch bytes end_at most
    → IsEnding (write_words batch ws) (bytes ++ words_bytes ws) (end_at + length ws * 4) most
write_words-IsEnding batch bytes end_at most [] e = record {
  bytes_there = e.bytes_there ∙ append-nil_bytes bytes;
  position = e.position ∙ omega arith;
  size = e.size;
}
write_words-IsEnding batch bytes end_at most (w ∷ ws) e =
    let r =
      write_words-IsEnding (write_batch batch w) (bytes ++ word_bytes w) (end_at + 4) most ws
        (write_batch-IsEnding batch bytes end_at most w e) in
    record {
      bytes_there = r.bytes_there ∙ append_assoc bytes (word_bytes w) (words_bytes ws);
      position = r.position ∙ omega arith;
      size = r.size;
    }

-- The words behind commands of `n` bytes.
abbrev pub batch_trailer : ℕ → ℕ → List ℕ
batch_trailer seq n =
    if (n + 20) % 8 == 0
    then mi_store_dword_index ∷ hws_sync_sequence_index ∷ seq ∷ mi_noop ∷ mi_batch_buffer_end ∷ []
    else mi_store_dword_index ∷ hws_sync_sequence_index ∷ seq ∷ mi_noop ∷ mi_batch_buffer_end
      ∷ mi_noop ∷ []

-- A batch that is ready for the GPU: it holds the commands and the trailer, ends on a quad word, and
-- nothing of it was written behind the buffer.
pub record IsClosed (batch : BatchBuffer) (bytes : List ℕ) (seq : ℕ) (closed : BatchBuffer)
    : Type 0 where
  pub bytes_there :
      read_bytes closed.base 0 closed.position
      ≡ bytes ++ words_bytes (batch_trailer seq batch.position)
  pub quad : closed.position % 8 ≡ 0
  pub inside : closed.position ≤ batch.size

close_batch-IsClosed :
    (batch : BatchBuffer) (bytes : List ℕ) (seq : ℕ)
    → HasBytes batch bytes
    → 0 < batch.position
    → IsClosed batch bytes seq (close_batch seq batch)
unfolding write_batch
close_batch-IsClosed batch bytes seq h some_bytes =
    elim (Bool-cases ((batch.position + 20) % 8 == 0)) [
      | inl even ↦
          let r = write_words-IsEnding batch bytes batch.position batch.size five start in
          subst (IsClosed batch bytes seq) (sym (if_true _ _ (same_test r.position ∙ even)))
            (record {
              bytes_there =
                  r.bytes_there ∙ ap (λ ws. bytes ++ words_bytes ws) (sym (if_true _ _ even));
              quad = ground (arith, r.position);
              inside = omega (arith, r.position, h.room some_bytes);
            })
      | inr odd ↦
          let r = write_words-IsEnding batch bytes batch.position batch.size six start in
          let r5 = write_words-IsEnding batch bytes batch.position batch.size five start in
          subst (IsClosed batch bytes seq) (sym (if_false _ _ (same_test r5.position ∙ odd)))
            (record {
              bytes_there =
                  r.bytes_there ∙ ap (λ ws. bytes ++ words_bytes ws) (sym (if_false _ _ odd));
              quad = ground (arith, r.position, h.words);
              inside = omega (arith, r.position, h.room some_bytes);
            })
    ]
  where
    five : List ℕ
    five = mi_store_dword_index ∷ hws_sync_sequence_index ∷ seq ∷ mi_noop ∷ mi_batch_buffer_end ∷ []

    six : List ℕ
    six =
        mi_store_dword_index ∷ hws_sync_sequence_index ∷ seq ∷ mi_noop ∷ mi_batch_buffer_end
        ∷ mi_noop ∷ []

    start : IsEnding batch bytes batch.position batch.size
    start = record { bytes_there = h.bytes_there; position = refl; size = refl }

    same_test : {n : ℕ} → n ≡ batch.position + 20 → (n % 8 == 0) ≡ ((batch.position + 20) % 8 == 0)
    same_test e = ap (λ k. k % 8 == 0) e

put_all-available :
    (cs : List (List ℕ)) (batch : BatchBuffer) → (put_all cs batch).available ≡ batch.available
unfolding batch_put
put_all-available [] batch = refl
put_all-available (c ∷ cs) batch =
    put_all-available cs (batch_put c batch) ∙ one (ltb batch.size (batch.position + length c + 32))
  where
    filled : BatchBuffer
    filled = record batch {
      base = write_bytes batch.base batch.position c;
      position = batch.position + length c;
    }

    one : (b : Bool) → (if b then batch else filled).available ≡ batch.available
    one true = refl
    one false = refl

finish_batch-closed :
    (heads later : List ℕ) (last : ℕ) (batch : BatchBuffer) (ring : RingBuffer)
    → batch.available ≡ true
    → 0 < batch.position
    → (finish_batch heads later last batch ring).1 ≡ close_batch ((last + 1) % 2 ^ 32) batch
unfolding finish_batch
finish_batch-closed heads later last batch ring on some_bytes =
    ap (λ (t : ℕ × BatchBuffer × RingBuffer). t.1)
      (if_false _ _ (ap₂ (λ a b. not a || b) on not_empty))
  where
    not_empty : (batch.position == 0) ≡ false
    not_empty = ground arith

empty-HasBytes : (batch : BatchBuffer) → batch.position ≡ 0 → HasBytes batch []
unfolding read_bytes
empty-HasBytes batch e = record {
  bytes_there = ap (read_bytes batch.base 0) e;
  count = sym e;
  words = omega arith;
  room = λ more. absurd (omega arith);
}

-- Any commands of whole words put into an empty batch, some of which find room, are in the batch that
-- the destructor has the GPU start: those that found room, in their order, and behind them the
-- trailer, on a quad word and all inside the buffer.
pub finish_batch-IsClosed :
    (heads later : List ℕ) (last : ℕ) (cs : List (List ℕ)) (batch : BatchBuffer) (ring : RingBuffer)
    → batch.available ≡ true
    → batch.position ≡ 0
    → AllWhole cs
    → 0 < length (accept batch.size [] cs)
    → IsClosed
        (put_all cs batch)
        (accept batch.size [] cs)
        ((last + 1) % 2 ^ 32)
        (finish_batch heads later last (put_all cs batch) ring).1
finish_batch-IsClosed heads later last cs batch ring on empty whole found =
    let h = put_all-HasBytes cs [] batch whole (empty-HasBytes batch empty) in
    let some_bytes = some_of (length (accept batch.size [] cs)) found h.count in
    subst (IsClosed (put_all cs batch) (accept batch.size [] cs) ((last + 1) % 2 ^ 32))
      (sym (
        finish_batch-closed heads later last (put_all cs batch) ring
          (put_all-available cs batch ∙ on) some_bytes))
      (close_batch-IsClosed (put_all cs batch) (accept batch.size [] cs) ((last + 1) % 2 ^ 32) h
        some_bytes)
  where
    some_of : (n : ℕ) {p : ℕ} → 0 < n → n ≡ p → 0 < p
    some_of n lt e = omega arith
