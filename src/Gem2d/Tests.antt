-- ===== src/Gem2d/Tests.antt =====
-- The 2D queue of gem2d.cpp with a kernel that executes every batch, and one that refuses them.
use haiku_vaio_vpceb3k1e.Prelude.{
  ℕ, ◌+◌, ◌≡◌, ◌≢◌, refl, Bool, true, false, some, none, List, [], ◌∷◌, ◌++◌, replicate,
  if◌then◌else◌, ◌==◌, arith,
}
use haiku_vaio_vpceb3k1e.Prelude.Memory.{read_bytes}
use haiku_vaio_vpceb3k1e.Gem2d.{
  create, clone_area, delete_area, close, create_batch, release_batch, gem2d_uninit, State, Kernel,
  gem2d_add, gem2d_init, gem2d_end, gem2d_wait_idle,
}
use haiku_vaio_vpceb3k1e.Gem2d.Requests.{executed}
use haiku_vaio_vpceb3k1e.Gem2d.Refine.{Queue, Refines, stream}
use haiku_vaio_vpceb3k1e.Gem2d.Run.{Op, add, finish, wait_idle, run, run_queue, added, run-Refines}
use haiku_vaio_vpceb3k1e.Gem2d.Overrun.{gem2d_add-overrun}
use haiku_vaio_vpceb3k1e.Gem2d.Init.{IsInitialised, gem2d_init-IsInitialised}

-- The kernel gives buffer `i` the handle 7 + i and an area, clones the first area only, and answers
-- each execbuffer alike.
abbrev answering : Bool → Kernel
answering b = record {
  has_gem = true;
  created = λ i. some (7 + i, 100 + i);
  cloned = λ area. if area == 100 then some 200 else none;
  executes = λ log. b;
}

abbrev at_rest : State
at_rest = record {
  available = true;
  handles = 7 ∷ 8 ∷ [];
  areas = some 200 ∷ some 201 ∷ [];
  maps = λ i o. 0;
  current = 0;
  position = 0;
  is_open = false;
  log = [];
}

abbrev empty_queue : Queue
empty_queue = record { batches = []; pending = [] }

at_rest-Refines : Refines at_rest empty_queue
at_rest-Refines = record {
  on = refl;
  sent = refl;
  filled = λ h. absurd (cc h);
  nothing = λ h. refl;
}

abbrev ops : List Op
ops =
    add (1 ∷ 2 ∷ 3 ∷ 4 ∷ [])
    ∷ add (5 ∷ 6 ∷ 7 ∷ 8 ∷ [])
    ∷ finish
    ∷ wait_idle
    ∷ add (9 ∷ 9 ∷ 9 ∷ 9 ∷ [])
    ∷ finish
    ∷ []

-- Two commands make a batch with a no-op behind its end, one command needs none.
executed-ops :
    executed (run (answering true) ops at_rest).log
    ≡ (1 ∷ 2 ∷ 3 ∷ 4 ∷ 5 ∷ 6 ∷ 7 ∷ 8 ∷ 0 ∷ 0 ∷ 0 ∷ 5 ∷ 0 ∷ 0 ∷ 0 ∷ 0 ∷ [])
      ∷ (9 ∷ 9 ∷ 9 ∷ 9 ∷ 0 ∷ 0 ∷ 0 ∷ 5 ∷ [])
      ∷ []
unfolding gem2d_add gem2d_end gem2d_wait_idle
executed-ops = refl

run-Refines_example :
    Refines (run (answering true) ops at_rest) (run_queue ops empty_queue)
    × (stream (run_queue ops empty_queue) ≡ stream empty_queue ++ added ops)
run-Refines_example =
    run-Refines (answering true) (λ log. refl) ops at_rest empty_queue
      (omega arith, (omega arith, (omega arith, tt))) at_rest-Refines

-- A batch with 32750 bytes, to which 32 are added.
abbrev nearly_full : State
nearly_full = record at_rest { is_open = true; position = 32750 }

abbrev more : List ℕ
more = replicate 32 1

refuses : (gem2d_end (answering false) nearly_full).available ≡ false
unfolding gem2d_end
refuses = refl

gem2d_add-overrun_example :
    ((gem2d_add (answering false) more nearly_full).available ≡ false)
    × ((gem2d_add (answering false) more nearly_full).position ≡ 32750 + 32)
    × (read_bytes ((gem2d_add (answering false) more nearly_full).maps 0) 32750 32 ≡ more)
gem2d_add-overrun_example =
    gem2d_add-overrun (answering false) more nearly_full refl refl (omega arith) (omega arith) refl

abbrev off : State
off = record at_rest { available = false; handles = 0 ∷ 0 ∷ []; areas = none ∷ none ∷ [] }

handles_named : (i h a : ℕ) → (answering true).created i ≡ some (h, a) → h ≢ 0
handles_named i h a e zero_handle = absurd (omega (arith, handle_is))
  where
    handle_is : 7 + i ≡ h
    handle_is = cc

-- The second clone fails.
gem2d_init-IsInitialised_example :
    IsInitialised (answering true) off (gem2d_init (answering true) off)
gem2d_init-IsInitialised_example =
    gem2d_init-IsInitialised (answering true) off handles_named refl refl

taken_back :
    (gem2d_init (answering true) off).1.log
    ≡ create 32768
      ∷ clone_area 100
      ∷ create 32768
      ∷ clone_area 101
      ∷ delete_area 200
      ∷ close 7
      ∷ close 8
      ∷ []
unfolding gem2d_init create_batch gem2d_uninit release_batch
taken_back = refl
