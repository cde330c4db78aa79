-- ===== src/Engine/Idle.antt =====
-- The wait for an idle engine, intel_wait_engine_idle of engine.cpp. What the code reads while it waits
-- is a parameter: `status` is the sequence number in the status page, where there is one, and `polls` are
-- the values of HEAD and TAIL until the second is over.
pub mod Ends
pub mod Tests
use haiku_vaio_vpceb3k1e.Prelude.{
  ℕ, ◌+◌, ◌-◌, ◌*◌, ◌%◌, ◌≤◌, ◌<◌, ◌≡◌, refl, ap, sym, subst, ◌∙◌, bit_and, Bool, true, false, ◌&&◌,
  List, [], ◌∷◌, if◌then◌else◌, leb, ltb, ◌==◌, Option, some, none, Bool-cases, inl, inr, if_true,
  if_false, arith,
}
use haiku_vaio_vpceb3k1e.Gem2d.{State, gem2d_wait_idle}
use haiku_vaio_vpceb3k1e.Engine.{RingBuffer, head_mask, put_flush, finish_queue}

-- How a wait ends: not begun, as the status page tells, with HEAD at TAIL, or given up. The source
-- returns nothing; the name of the exit it takes is the model's own.
pub data Waited : Type 0 where
  skipped : Waited
  passed : Waited
  idle : Waited
  locked_up : Waited

pub record Engine : Type 0 where
  pub last : ℕ
  pub batches : State
  pub ring : RingBuffer

abbrev pub target_of : ℕ → ℕ
target_of last = last - last % 8

abbrev pub is_past : ℕ → Option ℕ → Bool
is_past last none = false
is_past last (some seen) = ltb 0 (target_of last) && leb (target_of last) seen

abbrev pub stands_still : ℕ → ℕ → Bool
stands_still head tail = bit_and head head_mask == bit_and tail head_mask

unfoldable pub poll : List (ℕ × ℕ) → Waited
poll [] = locked_up
poll ((head, tail) ∷ polls) = if stands_still head tail then idle else poll polls

abbrev pub flush_ring : List ℕ → List ℕ → ℕ → RingBuffer → ℕ × RingBuffer
flush_ring heads later last ring = finish_queue later last (put_flush heads ring)

-- Behind the wait for the batches: `past` is whether the status page shows the target.
abbrev pub wait_ring : Bool → List ℕ → List ℕ → List (ℕ × ℕ) → Engine → Waited × Engine
wait_ring true heads later polls e = (passed, e)
wait_ring false heads later polls e = (
  poll polls,
  record e {
    last = (flush_ring heads later e.last e.ring).0;
    ring = (flush_ring heads later e.last e.ring).1;
  },
)

abbrev pub wait_batches : Bool → Engine → Engine
wait_batches true e = record e { batches = gem2d_wait_idle e.batches }
wait_batches false e = e

-- `is_lake` is whether the device is of a family that is left alone, `available` what
-- gem2d_available says.
unfoldable pub wait_engine_idle :
    Bool → Bool → Option ℕ → List ℕ → List ℕ → List (ℕ × ℕ) → Engine → Waited × Engine
wait_engine_idle true available status heads later polls e = (skipped, e)
wait_engine_idle false available status heads later polls e =
    wait_ring (is_past e.last status) heads later polls (wait_batches available e)
