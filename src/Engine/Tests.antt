-- ===== src/Engine/Tests.antt =====
-- The ring and the batch of engine.cpp at small sizes.
use haiku_vaio_vpceb3k1e.Prelude.{
  ℕ, ◌+◌, ◌-◌, ◌*◌, ◌%◌, ◌^◌, ◌≤◌, ◌<◌, ◌≡◌, refl, true, List, [], ◌∷◌, replicate, arith,
}
use haiku_vaio_vpceb3k1e.Prelude.Memory.{read_bytes}
use haiku_vaio_vpceb3k1e.Engine.{
  RingBuffer, BatchBuffer, words_bytes, make_space, put, finish_batch,
}
use haiku_vaio_vpceb3k1e.Engine.Round.{IsAligned}
use haiku_vaio_vpceb3k1e.Engine.Space.{HasRun, put-HasRun, make_space-stall}
use haiku_vaio_vpceb3k1e.Engine.Trailer.{accept, put_all, IsClosed, finish_batch-IsClosed}

-- A ring of 64 bytes, of which 16 are thought to be free; the command goes round its end.
abbrev ring : RingBuffer
ring = record { base = λ o. 0; size = 64; position = 52; space_left = 16 }

ring-IsAligned : IsAligned 6 ring
ring-IsAligned = record {
  power = refl;
  words = refl;
  small = omega arith;
  inside = omega arith;
  aligned = refl;
}

abbrev command : List ℕ
command = 0x01020304 ∷ 0x05060708 ∷ 0x090A0B0C ∷ 0x0D0E0F10 ∷ []

put_round : read_bytes (put [] command ring).base 0 4 ≡ 0x10 ∷ 0x0F ∷ 0x0E ∷ 0x0D ∷ []
unfolding put read_bytes
put_round = refl

put-HasRun_example : HasRun ring (words_bytes command) (put [] command ring)
put-HasRun_example = put-HasRun 6 [] command ring ring-IsAligned (omega arith)

-- HEAD stands at 60, so that 8 bytes are free.
make_space-stall_example :
    (2 ^ 32 - 8 * 4 ≤ (make_space (60 ∷ 60 ∷ []) 8 ring).space_left)
    × ((make_space (60 ∷ 60 ∷ []) 8 ring).space_left < 2 ^ 32)
make_space-stall_example =
    make_space-stall (60 ∷ 60 ∷ []) 8 ring (omega arith) (omega arith)
      (omega arith, (omega arith, tt))

-- A batch of 64 bytes: the second command finds no room.
abbrev batch : BatchBuffer
batch = record { available = true; base = λ o. 0; offset = 0; size = 64; position = 0 }

abbrev commands : List (List ℕ)
commands = replicate 8 1 ∷ replicate 28 2 ∷ replicate 4 3 ∷ []

accepted : accept 64 [] commands ≡ 1 ∷ 1 ∷ 1 ∷ 1 ∷ 1 ∷ 1 ∷ 1 ∷ 1 ∷ 3 ∷ 3 ∷ 3 ∷ 3 ∷ []
accepted = refl

finish_batch-IsClosed_example :
    IsClosed
      (put_all commands batch)
      (accept 64 [] commands)
      ((4 + 1) % 2 ^ 32)
      (finish_batch [] [] 4 (put_all commands batch) ring).1
finish_batch-IsClosed_example =
    finish_batch-IsClosed [] [] 4 commands batch ring refl refl (refl, (refl, (refl, tt)))
      (omega arith)
