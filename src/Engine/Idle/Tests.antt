-- ===== src/Engine/Idle/Tests.antt =====
-- The wait of engine.cpp for a ring of 64 bytes whose HEAD comes to its TAIL at the second look.
use haiku_vaio_vpceb3k1e.Prelude.{ℕ, ◌<◌, ◌≡◌, arith, refl, true, false, List, [], ◌∷◌, some, none}
use haiku_vaio_vpceb3k1e.Engine.Idle.{
  passed, idle, locked_up, Engine, poll, wait_batches, wait_engine_idle,
}
use haiku_vaio_vpceb3k1e.Engine.Idle.Ends.{
  IsEnded, drawn, wait_engine_idle-IsEnded, wait_engine_idle-misses,
}

abbrev engine : Engine
engine = record {
  last = 13;
  batches = record {
    available = true;
    handles = 7 ∷ 8 ∷ [];
    areas = none ∷ none ∷ [];
    maps = λ i o. 0;
    current = 0;
    position = 0;
    is_open = false;
    log = [];
  };
  ring = record { base = λ o. 0; size = 64; position = 16; space_left = 40 };
}

abbrev polls : List (ℕ × ℕ)
polls = (8, 24) ∷ (24, 24) ∷ []

at_tail : (wait_engine_idle false true (some 7) [] [] polls engine).0 ≡ idle
unfolding wait_engine_idle poll
at_tail = refl

never : (wait_engine_idle false true none [] [] ((8, 24) ∷ []) engine).0 ≡ locked_up
unfolding wait_engine_idle poll
never = refl

wait_engine_idle-IsEnded_example :
    IsEnded
      (some 7)
      []
      []
      polls
      (wait_batches true engine)
      (wait_engine_idle false true (some 7) [] [] polls engine)
wait_engine_idle-IsEnded_example = wait_engine_idle-IsEnded true (some 7) [] [] polls engine

-- Submission 14, of one command, stays in the ring, and the wait is over.
wait_engine_idle-misses_example :
    (wait_engine_idle false true (some 8) [] [] polls (drawn (λ n. []) ((1 ∷ 2 ∷ []) ∷ []) engine)
      ≡ (passed, wait_batches true (drawn (λ n. []) ((1 ∷ 2 ∷ []) ∷ []) engine)))
    × (8 < (drawn (λ n. []) ((1 ∷ 2 ∷ []) ∷ []) engine).last)
wait_engine_idle-misses_example =
    wait_engine_idle-misses true 8 [] [] polls (λ n. []) ((1 ∷ 2 ∷ []) ∷ []) engine (omega arith)
      (omega arith) (omega arith) refl
