-- ===== src/Gem/Exec/Batch.antt =====
-- ExecBatch of GemManager.cpp: the end of the batch in its buffer, and the words in the ring.
use haiku_vaio_vpceb3k1e.Prelude.{
  ℕ, ◌+◌, ◌-◌, ◌*◌, ◌/◌, ◌%◌, ◌^◌, ◌≤◌, ◌<◌, bit_and, ◌≡◌, ◌≢◌, ◌⊎◌, inl, inr, refl, ap, ◌∙◌, sym,
  subst, List, arith, Bool, true, false, Bool-cases, ltb, leb, ◌==◌, some, ==_iff,
}
use haiku_vaio_vpceb3k1e.Prelude.Bits.{bit_and-mask}
use haiku_vaio_vpceb3k1e.Gem.Buffers.{
  ok, bad_value, dev_not_ready, not_allowed, timed_out, Buffer, Gem, find,
}
use haiku_vaio_vpceb3k1e.Gem.Ring.{RingBuffer, make_space, space_from}
use haiku_vaio_vpceb3k1e.Gem.Ring.Write.{IsValid, slots, ring_write_all-Wrote}
use haiku_vaio_vpceb3k1e.Gem.Exec.{
  Outcome, load, store, terminate, batch_words, mi_batch_buffer_end, mi_noop, start_batch,
  exec_buffer, exec_batch,
}
use haiku_vaio_vpceb3k1e.Gem.Exec.Commands.{Sent, IsRead, Made, with_space, make_space-same}

pub store-outside :
    (memory : ℕ → ℕ) (a value i : ℕ) → (i < a) ⊎ (a + 4 ≤ i) → store memory a value i ≡ memory i
unfolding store
store-outside memory a value i out = ground arith

store-byte :
    (memory : ℕ → ℕ) (a value k : ℕ)
    → k < 4
    → store memory a value (a + k) ≡ value / 2 ^ (8 * k) % 2 ^ 8
unfolding store
store-byte memory a value k lt =
    rw (leb_true, ltb_true) (ap (λ j. value / 2 ^ (8 * j) % 2 ^ 8) (omega arith))
  where
    leb_true : leb a (a + k) ≡ true
    leb_true = ground arith

    ltb_true : ltb (a + k) (a + 4) ≡ true
    ltb_true = ground arith

load-store_end :
    (memory : ℕ → ℕ) (a : ℕ) → load (store memory a mi_batch_buffer_end) a ≡ mi_batch_buffer_end
load-store_end memory a = omega (
  arith,
  subst (λ i. store memory a mi_batch_buffer_end i ≡ 0) {y = a} (omega arith)
      (store-byte memory a mi_batch_buffer_end 0 (omega arith)),
  store-byte memory a mi_batch_buffer_end 1 (omega arith),
  store-byte memory a mi_batch_buffer_end 2 (omega arith),
  store-byte memory a mi_batch_buffer_end 3 (omega arith),
)

load-store_ne :
    (memory : ℕ → ℕ) (a b value : ℕ) → a + 4 ≤ b → load (store memory b value) a ≡ load memory a
load-store_ne memory a b value le = omega (
  arith,
  store-outside memory b value a (inl (omega arith)),
  store-outside memory b value (a + 1) (inl (omega arith)),
  store-outside memory b value (a + 2) (inl (omega arith)),
  store-outside memory b value (a + 3) (inl (omega arith)),
)

-- The word `i` of the batch is MI_BATCH_BUFFER_END.
abbrev pub EndsAt : ℕ → (ℕ → ℕ) → ℕ → Type 0
EndsAt cpu_addr memory i = load memory (cpu_addr + 4 * i) ≡ mi_batch_buffer_end

-- The cases of `terminate`.
terminate-cases :
    (bo : Buffer) (used_bytes : ℕ) (memory : ℕ → ℕ)
    → ((terminate bo used_bytes memory ≡ memory)
        × ((used_bytes / 4 ≡ 0) ⊎ EndsAt bo.cpu_addr memory (used_bytes / 4 - 1)))
      ⊎ ((terminate bo used_bytes memory
            ≡ store memory (bo.cpu_addr + 4 * (used_bytes / 4)) mi_batch_buffer_end)
          ⊎ (terminate bo used_bytes memory
              ≡ store
                  (store memory (bo.cpu_addr + 4 * (used_bytes / 4)) mi_batch_buffer_end)
                  (bo.cpu_addr + 4 * (used_bytes / 4 + 1))
                  mi_noop))
unfolding terminate
terminate-cases bo used_bytes memory = elim (Bool-cases (ltb 0 (used_bytes / 4))) [
  | inr empty ↦ inl (rw empty refl, inl (ground arith))
  | inl long ↦
      elim (Bool-cases
        (load memory (bo.cpu_addr + 4 * (used_bytes / 4 - 1)) == mi_batch_buffer_end)) [
          | inl done ↦ inl (rw (long, done) refl, inr ((==_iff _ _).0 done))
          | inr unended ↦ elim (Bool-cases (bit_and ((used_bytes + 4) % 2 ^ 32 / 4) 1 == 1)) [
            | inl odd ↦ inr (inr (rw (long, unended, odd) refl))
            | inr even ↦ inr (inl (rw (long, unended, even) refl))
          ]
        ]
]

-- Behind `terminate`, a batch of at least one word is closed by MI_BATCH_BUFFER_END in its last word
-- or in the word behind it.
pub terminate-ends :
    (bo : Buffer) (used_bytes : ℕ) (memory : ℕ → ℕ)
    → 4 ≤ used_bytes
    → EndsAt bo.cpu_addr (terminate bo used_bytes memory) (used_bytes / 4 - 1)
      ⊎ EndsAt bo.cpu_addr (terminate bo used_bytes memory) (used_bytes / 4)
terminate-ends bo used_bytes memory big = elim (terminate-cases bo used_bytes memory) [
  | inl (e, inl empty) ↦ absurd (omega arith)
  | inl (e, inr done) ↦ inl (rw e done)
  | inr (inl e) ↦ inr (rw e ended)
  | inr (inr e) ↦ inr (rw e (load-store_ne _ a _ mi_noop (omega arith) ∙ ended))
]
  where
    a : ℕ
    a = bo.cpu_addr + 4 * (used_bytes / 4)

    ended : load (store memory a mi_batch_buffer_end) a ≡ mi_batch_buffer_end
    ended = load-store_end memory a

-- `terminate` writes at most the eight bytes behind the whole words of the batch.
pub terminate-outside :
    (bo : Buffer) (used_bytes : ℕ) (memory : ℕ → ℕ) (i : ℕ)
    → (i < bo.cpu_addr + used_bytes / 4 * 4) ⊎ (bo.cpu_addr + used_bytes / 4 * 4 + 8 ≤ i)
    → terminate bo used_bytes memory i ≡ memory i
terminate-outside bo used_bytes memory i out = elim (terminate-cases bo used_bytes memory) [
  | inl (e, _) ↦ ap (λ m. m i) e
  | inr (inl e) ↦ ap (λ m. m i) e ∙ store-outside memory _ _ i (first out)
  | inr (inr e) ↦
      ap (λ m. m i) e ∙ store-outside _ _ _ i (second out) ∙ store-outside memory _ _ i (first out)
]
  where
    first :
        (i < bo.cpu_addr + used_bytes / 4 * 4) ⊎ (bo.cpu_addr + used_bytes / 4 * 4 + 8 ≤ i)
        → (i < bo.cpu_addr + 4 * (used_bytes / 4)) ⊎ (bo.cpu_addr + 4 * (used_bytes / 4) + 4 ≤ i)
    first h = omega arith

    second :
        (i < bo.cpu_addr + used_bytes / 4 * 4) ⊎ (bo.cpu_addr + used_bytes / 4 * 4 + 8 ≤ i)
        → (i < bo.cpu_addr + 4 * (used_bytes / 4 + 1))
          ⊎ (bo.cpu_addr + 4 * (used_bytes / 4 + 1) + 4 ≤ i)
    second h = omega arith

-- A batch that fills its buffer gets its end behind the buffer: the last byte of the word there.
pub terminate-overrun :
    (bo : Buffer) (used_bytes : ℕ) (memory : ℕ → ℕ)
    → 4 ≤ used_bytes
    → load memory (bo.cpu_addr + 4 * (used_bytes / 4 - 1)) ≢ mi_batch_buffer_end
    → terminate bo used_bytes memory (bo.cpu_addr + 4 * (used_bytes / 4) + 3) ≡ 5
terminate-overrun bo used_bytes memory big unended = elim (terminate-cases bo used_bytes memory) [
  | inl (e, inl empty) ↦ absurd (omega arith)
  | inl (e, inr done) ↦ absurd (unended done)
  | inr (inl e) ↦
      ap (λ m. m (bo.cpu_addr + 4 * (used_bytes / 4) + 3)) e ∙ store-byte memory _ _ 3 (omega arith)
  | inr (inr e) ↦
      ap (λ m. m (bo.cpu_addr + 4 * (used_bytes / 4) + 3)) e
      ∙ store-outside _ _ _ _ (inl (omega arith))
      ∙ store-byte memory _ _ 3 (omega arith)
]

-- A batch without a whole word gets no end.
terminate-short :
    (bo : Buffer) (used_bytes : ℕ) (memory : ℕ → ℕ)
    → used_bytes < 4
    → terminate bo used_bytes memory ≡ memory
unfolding terminate
terminate-short bo used_bytes memory short = rw none_whole refl
  where
    none_whole : ltb 0 (used_bytes / 4) ≡ false
    none_whole = ground arith

start_ok :
    (heads : List ℕ) (r : RingBuffer) (batch_addr needed : ℕ) (b : Bool) (space : ℕ)
    → IsValid r
    → 6 ≤ slots r
    → (b ≡ true → needed ≤ space)
    → (space ≡ r.space_left) ⊎ IsRead (space_from r) space heads
    → (start_batch batch_addr (b, record r { space_left = space })).0 ≡ ok
    → Sent heads r
        (batch_words batch_addr)
        needed
        (start_batch batch_addr (b, record r { space_left = space }))
unfolding start_batch
start_ok heads r batch_addr needed false space v fits room shown h = absurd (late h)
  where
    late : timed_out ≡ ok → ⊥
    late e = cc
start_ok heads r batch_addr needed true space v fits room shown h = record {
  space = space;
  room = room refl;
  shown = shown;
  wrote =
      ring_write_all-Wrote (batch_words batch_addr) (record r { space_left = space })
        (with_space r space v) fits;
  tail = refl;
}

-- What a successful ExecBatch of a buffer has done.
pub record Started (heads : List ℕ) (r : RingBuffer) (g : Gem) (bo : Buffer) (used_bytes : ℕ)
    (out : Outcome × Gem) : Type 0 where
  pub aligned : bo.gtt_offset % 8 ≡ 0
  pub sent : Sent heads r (batch_words bo.gtt_offset) 24 out.0
  pub ended :
      4 ≤ used_bytes
      → EndsAt bo.cpu_addr out.1.memory (used_bytes / 4 - 1)
        ⊎ EndsAt bo.cpu_addr out.1.memory (used_bytes / 4)
  pub too_short : used_bytes < 4 → out.1.memory ≡ g.memory
  pub same_objects : out.1.objects ≡ g.objects
  pub outside :
      used_bytes / 4 * 4 + 8 ≤ bo.size
      → (i : ℕ) → (i < bo.cpu_addr) ⊎ (bo.cpu_addr + bo.size ≤ i)
      → out.1.memory i ≡ g.memory i

module _ (esr ring_ctl : ℕ) (heads : List ℕ) (h used_bytes : ℕ) (r : RingBuffer) (g : Gem)
    (bo : Buffer) (here : find h g.objects ≡ some bo) where
  abbrev started : Outcome × Gem
  started = (
    start_batch bo.gtt_offset (make_space 24 heads r),
    record g { memory = terminate bo used_bytes g.memory },
  )

  exec_batch-cases :
      ((exec_batch esr ring_ctl heads h used_bytes r g).0.0 ≢ ok)
      ⊎ ((exec_batch esr ring_ctl heads h used_bytes r g ≡ started) × (bo.gtt_offset % 8 ≡ 0))
  unfolding exec_batch exec_buffer
  exec_batch-cases = elim (Bool-cases (used_bytes == 0)) [
    | inl empty ↦ inl (rw (exec_batch, empty) bad)
    | inr full ↦ elim (Bool-cases (bit_and bo.gtt_offset 7 == 0)) [
      | inr askew ↦ inl (rw (exec_batch, full, here, exec_buffer, askew) denied)
      | inl even ↦ elim (Bool-cases (bit_and esr 1 == 1)) [
        | inl hung ↦ inl (rw (exec_batch, full, here, exec_buffer, even, hung) dead)
        | inr alive ↦ elim (Bool-cases (bit_and ring_ctl 1 == 1)) [
          | inr off ↦ inl (rw (exec_batch, full, here, exec_buffer, even, alive, off) dead)
          | inl on ↦ inr (
            rw (exec_batch, full, here, exec_buffer, even, alive, on) refl,
            ground (arith, bit_and-mask 3 bo.gtt_offset),
          )
        ]
      ]
    ]
  ]
    where
      bad : bad_value ≢ ok
      bad e = cc

      denied : not_allowed ≢ ok
      denied e = cc

      dead : dev_not_ready ≢ ok
      dead e = cc

  -- Where ExecBatch of a buffer in use succeeds on a well-formed ring of at least six slots, the
  -- buffer's offset is a multiple of 8 and the ring has the flush, the start of the batch at that
  -- offset, and the flush, with TAIL behind them; a batch of at least one word is closed by
  -- MI_BATCH_BUFFER_END, and a shorter one is started as it is; the table of buffers is unchanged; and where the buffer has eight bytes
  -- behind the whole words of the batch, no memory outside of it is changed.
  pub exec_batch-Started :
      IsValid r
      → 6 ≤ slots r
      → (exec_batch esr ring_ctl heads h used_bytes r g).0.0 ≡ ok
      → Started heads r g bo used_bytes (exec_batch esr ring_ctl heads h used_bytes r g)
  exec_batch-Started v fits success = elim exec_batch-cases [
    | inl bad ↦ absurd (bad success)
    | inr (e, aligned) ↦ subst (Started heads r g bo used_bytes) (sym e) (record {
      aligned = aligned;
      sent = rw made.2 (
          start_ok heads r bo.gtt_offset 24 made.0 made.1 v fits made.3 made.4
            (rw (e, made.2) at success));
      ended = terminate-ends bo used_bytes g.memory;
      too_short = terminate-short bo used_bytes g.memory;
      same_objects = refl;
      outside = λ room i out. terminate-outside bo used_bytes g.memory i (omega arith);
    })
  ]
    where
      made : Made 24 heads r
      made = make_space-same 24 heads r

  -- Where ExecBatch succeeds with a batch that fills its buffer to the last whole word and does not
  -- end with MI_BATCH_BUFFER_END, it writes behind the buffer: the byte at offset size + 3 becomes 5.
  pub exec_batch-overrun :
      (exec_batch esr ring_ctl heads h used_bytes r g).0.0 ≡ ok
      → used_bytes ≡ bo.size
      → bo.size % 4 ≡ 0
      → 4 ≤ bo.size
      → load g.memory (bo.cpu_addr + (bo.size - 4)) ≢ mi_batch_buffer_end
      → (exec_batch esr ring_ctl heads h used_bytes r g).1.memory (bo.cpu_addr + bo.size + 3) ≡ 5
  exec_batch-overrun success full words big unended = elim exec_batch-cases [
    | inl bad ↦ absurd (bad success)
    | inr (e, aligned) ↦
        ap (λ (o : Outcome × Gem). o.1.memory (bo.cpu_addr + bo.size + 3)) e
        ∙ ap (terminate bo used_bytes g.memory) (omega (arith, full))
        ∙ terminate-overrun bo used_bytes g.memory (omega (arith, full))
            (subst (λ a. load g.memory a ≢ mi_batch_buffer_end) (omega (arith, full)) unended)
  ]
