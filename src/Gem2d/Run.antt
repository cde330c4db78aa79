-- ===== src/Gem2d/Run.antt =====
-- Runs of the operations of gem2d.cpp, against the same runs of the specification.
use haiku_vaio_vpceb3k1e.Prelude.{
  ℕ, ◌+◌, ◌≤◌, ◌≡◌, refl, ap, sym, subst, ◌∙◌, Bool, true, false, not, List, [], ◌∷◌, ◌++◌,
  append-nil, append_assoc, if◌then◌else◌, ltb, ◌==◌, length, length-append, arith, Bool-cases, inl,
  inr, if_true, if_false,
}
use haiku_vaio_vpceb3k1e.Prelude.Memory.{read_bytes, read-write_behind}
use haiku_vaio_vpceb3k1e.Gem2d.{
  Request, wait, State, Kernel, batch_size, handle_of, gem2d_begin, gem2d_end, copy_commands,
  make_room, gem2d_add, gem2d_wait_idle, wait_batch,
}
use haiku_vaio_vpceb3k1e.Gem2d.Requests.{executed, executed-append, busy-wait}
use haiku_vaio_vpceb3k1e.Gem2d.Refine.{
  Queue, queue_end, queue_add, concat, stream, IsFilled, Refines, begin-Refines, end-Refines,
  store-current,
}

-- Commands copied where they and the trailer have room.
copy_commands-Refines :
    (s : State) (q : Queue) (commands : List ℕ)
    → Refines s q
    → s.is_open ≡ true
    → s.position + length commands + 16 ≤ batch_size
    → Refines (copy_commands commands s) (record q { pending = q.pending ++ commands })
unfolding copy_commands
copy_commands-Refines s q commands r opened room = record {
  on = r.on;
  sent = r.sent;
  filled = λ h. record {
    size = length-append q.pending commands ∙ ap (λ n. n + length commands) f.size;
    bytes =
        ap (λ m. read_bytes m 0 (s.position + length commands)) (store-current s commands)
        ∙ read-write_behind (s.maps s.current) s.position q.pending commands f.bytes;
    room = room;
    idle = f.idle;
  };
  nothing = λ h. absurd (different (sym h ∙ opened));
}
  where
    f : IsFilled s q.pending
    f = r.filled opened

    different : false ≡ true → ⊥
    different e = cc

-- The operations.
pub data Op : Type 0 where
  add : List ℕ → Op
  begin : Op
  finish : Op
  wait_idle : Op

abbrev pub apply : Kernel → Op → State → State
apply kernel (add commands) s = gem2d_add kernel commands s
apply kernel begin s = gem2d_begin s
apply kernel finish s = gem2d_end kernel s
apply kernel wait_idle s = gem2d_wait_idle s

abbrev pub run : Kernel → List Op → State → State
run kernel [] s = s
run kernel (op ∷ ops) s = run kernel ops (apply kernel op s)

abbrev pub specify : Op → Queue → Queue
specify (add commands) q = queue_add commands q
specify begin q = q
specify finish q = queue_end q
specify wait_idle q = q

abbrev pub run_queue : List Op → Queue → Queue
run_queue [] q = q
run_queue (op ∷ ops) q = run_queue ops (specify op q)

-- The commands that a run adds, in their order.
abbrev pub added : List Op → List ℕ
added [] = []
added (add commands ∷ ops) = commands ++ added ops
added (begin ∷ ops) = added ops
added (finish ∷ ops) = added ops
added (wait_idle ∷ ops) = added ops

-- Every addition leaves room for the trailer in an empty batch.
abbrev pub AllFit : List Op → Type 0
AllFit [] = Unit {0}
AllFit (add commands ∷ ops) = (length commands + 16 ≤ batch_size) × AllFit ops
AllFit (begin ∷ ops) = AllFit ops
AllFit (finish ∷ ops) = AllFit ops
AllFit (wait_idle ∷ ops) = AllFit ops

wait_batch-Refines : (s : State) (q : Queue) (i : ℕ) → Refines s q → Refines (wait_batch s i) q
wait_batch-Refines s q i r = record {
  on = r.on;
  sent = executed-append s.log (wait (handle_of s i) ∷ []) ∙ append-nil (executed s.log) ∙ r.sent;
  filled = λ h.
      let f = r.filled h in
      record {
        size = f.size;
        bytes = f.bytes;
        room = f.room;
        idle = busy-wait false s.log (handle_of s i) (handle_of s s.current) f.idle;
      };
  nothing = r.nothing;
}

wait_idle-Refines : (s : State) (q : Queue) → Refines s q → Refines (gem2d_wait_idle s) q
unfolding gem2d_wait_idle
wait_idle-Refines s q r =
    subst (λ t. Refines t q) (sym (if_false _ _ (ap not r.on)))
      (wait_batch-Refines (wait_batch s 0) q 1 (wait_batch-Refines s q 0 r))

concat-append : (xs ys : List (List ℕ)) → concat (xs ++ ys) ≡ concat xs ++ concat ys
concat-append [] ys = refl
concat-append (x ∷ xs) ys =
    ap (λ l. x ++ l) (concat-append xs ys) ∙ sym (append_assoc x (concat xs) (concat ys))

-- Ending a batch loses and adds no command, and adding appends.
pub stream-queue_end : (q : Queue) → stream (queue_end q) ≡ stream q
unfolding queue_end
stream-queue_end q = elim (Bool-cases (length q.pending == 0)) [
  | inl z ↦ ap stream (if_true _ _ z) ∙ ap (λ l. concat q.batches ++ l) (sym (empty q.pending z))
  | inr z ↦
      ap stream (if_false _ _ z)
      ∙ append-nil (concat (q.batches ++ (q.pending ∷ [])))
      ∙ concat-append q.batches (q.pending ∷ [])
      ∙ ap (λ l. concat q.batches ++ l) (append-nil q.pending)
]
  where
    empty : (l : List ℕ) → (length l == 0) ≡ true → l ≡ []
    empty [] e = refl
    empty (x ∷ xs) e = absurd (ground arith)

pub stream-queue_add :
    (commands : List ℕ) (q : Queue) → stream (queue_add commands q) ≡ stream q ++ commands
unfolding queue_add
stream-queue_add commands q =
    sym (append_assoc (concat r.batches) r.pending commands) ∙ ap (λ l. l ++ commands) (same _)
  where
    test : Bool
    test = ltb batch_size (length q.pending + length commands + 16)

    r : Queue
    r = if test then queue_end q else q

    same : (b : Bool) → stream (if b then queue_end q else q) ≡ stream q
    same true = stream-queue_end q
    same false = refl

pub queue_end-pending : (q : Queue) → (queue_end q).pending ≡ []
unfolding queue_end
queue_end-pending q = elim (Bool-cases (length q.pending == 0)) [
  | inl z ↦ ap (λ (r : Queue). r.pending) (if_true _ _ z)
  | inr z ↦ ap (λ (r : Queue). r.pending) (if_false _ _ z)
]

open_first-Refines :
    (s : State) (q : Queue)
    → Refines s q
    → Refines (if s.is_open then s else gem2d_begin s) q
      × ((if s.is_open then s else gem2d_begin s).is_open ≡ true)
open_first-Refines s q r = elim (Bool-cases s.is_open) [
  | inl e ↦ subst P (sym (if_true _ _ e)) (r, e)
  | inr e ↦ subst P (sym (if_false _ _ e)) (begin-Refines s q r)
]
  where
    P : State → Type 0
    P t = Refines t q × (t.is_open ≡ true)

-- A state with room for `size` bytes of commands and the trailer.
record HasRoom (s : State) (q : Queue) (size : ℕ) : Type 0 where
  refines : Refines s q
  opened : s.is_open ≡ true
  room : s.position + size + 16 ≤ batch_size

room_if :
    (b : Bool) (size : ℕ) (s t : State) (q r : Queue)
    → (b ≡ true → HasRoom s q size)
    → (b ≡ false → HasRoom t r size)
    → HasRoom (if b then s else t) (if b then q else r) size
room_if true size s t q r h k = h refl
room_if false size s t q r h k = k refl

stream-run_queue : (ops : List Op) (q : Queue) → stream (run_queue ops q) ≡ stream q ++ added ops
stream-run_queue [] q = sym (append-nil (stream q))
stream-run_queue (add commands ∷ ops) q =
    stream-run_queue ops (queue_add commands q)
    ∙ ap (λ l. l ++ added ops) (stream-queue_add commands q)
    ∙ append_assoc (stream q) commands (added ops)
stream-run_queue (begin ∷ ops) q = stream-run_queue ops q
stream-run_queue (finish ∷ ops) q =
    stream-run_queue ops (queue_end q) ∙ ap (λ l. l ++ added ops) (stream-queue_end q)
stream-run_queue (wait_idle ∷ ops) q = stream-run_queue ops q

module _ (kernel : Kernel) (takes : (log : List Request) → kernel.executes log ≡ true) where
  make_room-HasRoom :
      (s : State) (q : Queue) (size : ℕ)
      → Refines s q
      → s.is_open ≡ true
      → size + 16 ≤ batch_size
      → HasRoom
          (make_room kernel size s)
          (if ltb batch_size (length q.pending + size + 16) then queue_end q else q)
          size
  unfolding make_room
  make_room-HasRoom s q size r opened fits = rw (r.filled opened).size (
      room_if (ltb batch_size (s.position + size + 16)) size (gem2d_begin (gem2d_end kernel s)) s
        (queue_end q) q
        (λ full. record {
          refines = fresh.0;
          opened = fresh.1;
          room = omega (arith, (fresh.0.filled fresh.1).size, ap length (queue_end-pending q));
        })
        (λ free. record { refines = r; opened = opened; room = ground arith }))
    where
      fresh :
          Refines (gem2d_begin (gem2d_end kernel s)) (queue_end q)
          × ((gem2d_begin (gem2d_end kernel s)).is_open ≡ true)
      fresh = begin-Refines (gem2d_end kernel s) (queue_end q) (end-Refines kernel takes s q r).0

  add-Refines :
      (s : State) (q : Queue) (commands : List ℕ)
      → Refines s q
      → length commands + 16 ≤ batch_size
      → Refines (gem2d_add kernel commands s) (queue_add commands q)
  unfolding gem2d_add queue_add
  add-Refines s q commands r fits =
      subst (λ t. Refines t (queue_add commands q)) (sym (if_false _ _ (ap not r.on)))
        (copy_commands-Refines roomy
          (if ltb batch_size (length q.pending + length commands + 16) then queue_end q else q)
          commands h.refines h.opened h.room)
    where
      first :
          Refines (if s.is_open then s else gem2d_begin s) q
          × ((if s.is_open then s else gem2d_begin s).is_open ≡ true)
      first = open_first-Refines s q r

      roomy : State
      roomy = make_room kernel (length commands) (if s.is_open then s else gem2d_begin s)

      h :
          HasRoom roomy
            (if ltb batch_size (length q.pending + length commands + 16) then queue_end q else q)
            (length commands)
      h = make_room-HasRoom _ q (length commands) first.0 first.1 fits

  run-refined :
      (ops : List Op) (s : State) (q : Queue)
      → AllFit ops
      → Refines s q
      → Refines (run kernel ops s) (run_queue ops q)
  run-refined [] s q fit r = r
  run-refined (add commands ∷ ops) s q fit r =
      run-refined ops (gem2d_add kernel commands s) (queue_add commands q) fit.1
        (add-Refines s q commands r fit.0)
  run-refined (begin ∷ ops) s q fit r =
      run-refined ops (gem2d_begin s) q fit (begin-Refines s q r).0
  run-refined (finish ∷ ops) s q fit r =
      run-refined ops (gem2d_end kernel s) (queue_end q) fit (end-Refines kernel takes s q r).0
  run-refined (wait_idle ∷ ops) s q fit r =
      run-refined ops (gem2d_wait_idle s) q fit (wait_idle-Refines s q r)

  -- Whatever sequence of operations runs, the queue of gem2d.cpp refines its specification: where the
  -- kernel executes every batch and all commands fit into an empty batch with the trailer, the batches
  -- that the GPU was given are those of the specification, each with its end, the open batch holds the
  -- pending commands with room for the trailer, and it was waited for since it was last executed. No
  -- command is lost, repeated or out of order: batches and pending commands together are the commands
  -- that were there and those added, in their order.
  pub run-Refines :
      (ops : List Op) (s : State) (q : Queue)
      → AllFit ops
      → Refines s q
      → Refines (run kernel ops s) (run_queue ops q)
        × (stream (run_queue ops q) ≡ stream q ++ added ops)
  run-Refines ops s q fit r = (run-refined ops s q fit r, stream-run_queue ops q)
