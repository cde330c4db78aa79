-- ===== src/Gem2d.antt =====
-- The 2D queue of gem2d.cpp: two batch buffers of 32 KiB in turns, which the kernel executes.
-- The kernel is a parameter: what it answers to the requests, which the model keeps in a log, the
-- oldest first. A map is a memory of bytes by offset, so that a write behind the batch shows. Area
-- ids are positive, and 0 is no handle.
pub mod Requests
pub mod Refine
pub mod Run
pub mod Overrun
pub mod Init
pub mod Tests
use haiku_vaio_vpceb3k1e.Prelude.{
  ℕ, zero, suc, ◌+◌, ◌-◌, ◌*◌, ◌/◌, ◌%◌, ◌^◌, Bool, true, false, not, ◌||◌, ◌&&◌, Option, none,
  some, List, [], ◌∷◌, ◌++◌, if◌then◌else◌, ltb, leb, ◌==◌, length, set, get_or, replicate,
}
use haiku_vaio_vpceb3k1e.Prelude.Memory.{Memory, write_bytes, read_bytes}

abbrev pub batch_count : ℕ
batch_count = 2

abbrev pub batch_size : ℕ
batch_size = 32 * 1024

abbrev pub mi_batch_buffer_end : ℕ
mi_batch_buffer_end = 0x0A * 2 ^ 23

abbrev pub mi_noop : ℕ
mi_noop = 0

-- The bytes of a word of 32 bits in memory.
abbrev pub word_bytes : ℕ → List ℕ
word_bytes w = w % 2 ^ 8 ∷ w / 2 ^ 8 % 2 ^ 8 ∷ w / 2 ^ 16 % 2 ^ 8 ∷ w / 2 ^ 24 % 2 ^ 8 ∷ []

-- The requests to the kernel; an execbuffer carries the bytes from the start of the batch on that
-- it has the GPU execute.
pub data Request : Type 0 where
  create : ℕ → Request
  clone_area : ℕ → Request
  delete_area : ℕ → Request
  close : ℕ → Request
  wait : ℕ → Request
  set_domain : ℕ → Request
  execbuffer : ℕ → List ℕ → Request

-- The static variables of the source, with the log.
pub record State : Type 0 where
  pub available : Bool
  pub handles : List ℕ
  pub areas : List (Option ℕ)
  pub maps : ℕ → Memory
  pub current : ℕ
  pub position : ℕ
  pub is_open : Bool
  pub log : List Request

abbrev pub handle_of : State → ℕ → ℕ
handle_of s i = get_or s.handles i 0

abbrev pub ask : State → List Request → State
ask s requests = record s { log = s.log ++ requests }

-- Bytes written into the map of batch `i`.
abbrev pub store : (ℕ → Memory) → ℕ → ℕ → List ℕ → ℕ → Memory
store maps i p bytes j = if j == i then write_bytes (maps i) p bytes else maps j

-- What the kernel answers: whether it has GEM, the handle and area of a buffer to create, the clone of
-- an area, and whether it executes the batch of the last request of a log.
pub record Kernel : Type 0 where
  pub has_gem : Bool
  pub created : ℕ → Option (ℕ × ℕ)
  pub cloned : ℕ → Option ℕ
  pub executes : List Request → Bool

-- One round of the loop of `gem2d_uninit`.
abbrev pub release_area : ℕ → Option ℕ → State → State
release_area i none s = s
release_area i (some area) s = ask (record s { areas = set s.areas i none }) (delete_area area ∷ [])

abbrev pub release_handle : ℕ → State → State
release_handle i s =
    if handle_of s i == 0
    then s
    else ask (record s { handles = set s.handles i 0 }) (close (handle_of s i) ∷ [])

unfoldable pub release_batch : ℕ → State → State
release_batch i s = release_handle i (release_area i (get_or s.areas i none) s)

unfoldable pub gem2d_uninit : State → State
unfolding release_batch
gem2d_uninit s = release_batch 1 (release_batch 0 (record s { available = false }))

-- B_OK, B_NOT_SUPPORTED and B_ERROR.
pub data Status : Type 0 where
  ok : Status
  not_supported : Status
  failed : Status

-- The clone of batch `i`'s area in a round of the loop of `gem2d_init`, with whether it succeeds.
abbrev pub take_clone : ℕ → Option ℕ → State → Bool × State
take_clone i none s = (false, record s { areas = set s.areas i none })
take_clone i (some area) s = (true, record s { areas = set s.areas i (some area) })

abbrev pub take_buffer : Kernel → ℕ → Option (ℕ × ℕ) → State → Bool × State
take_buffer kernel i none s = (false, s)
take_buffer kernel i (some (handle, area)) s =
    take_clone i (kernel.cloned area)
      (ask (record s { handles = set s.handles i handle }) (clone_area area ∷ []))

unfoldable pub create_batch : Kernel → ℕ → State → Bool × State
create_batch kernel i s = take_buffer kernel i (kernel.created i) (ask s (create batch_size ∷ []))

-- The rounds from batch `i` on, and what follows them.
abbrev pub then_batch : (State → Status × State) → Bool × State → Status × State
then_batch go (true, s) = go s
then_batch go (false, s) = (failed, gem2d_uninit s)

abbrev pub ready : State → Status × State
ready s = (ok, record s { available = true })

unfoldable pub gem2d_init : Kernel → State → Status × State
unfolding create_batch gem2d_uninit
gem2d_init kernel s =
    if kernel.has_gem
    then then_batch (λ t. then_batch ready (create_batch kernel 1 t)) (create_batch kernel 0 s)
    else (not_supported, s)

abbrev pub wait_batch : State → ℕ → State
wait_batch s index = ask s (wait (handle_of s index) ∷ [])

abbrev pub next_batch : State → ℕ
next_batch s = (s.current + 1) % batch_count

-- The other batch is taken: it is waited for and moved to the CPU.
abbrev pub open_next : State → State
open_next s =
    ask (record s { current = next_batch s; position = 0; is_open = true })
      (wait (handle_of s (next_batch s)) ∷ set_domain (handle_of s (next_batch s)) ∷ [])

unfoldable pub gem2d_begin : State → State
gem2d_begin s = if not s.available || s.is_open then s else open_next s

-- What `gem2d_end` writes behind commands of `position` bytes.
abbrev pub trailer : ℕ → List ℕ
trailer position =
    if (position + 4) % 8 == 0
    then word_bytes mi_batch_buffer_end
    else word_bytes mi_batch_buffer_end ++ word_bytes mi_noop

-- The batch is ended and handed to the kernel; a failure turns the 2D path off.
unfoldable pub submit : Kernel → State → State
unfolding write_bytes read_bytes
submit kernel s =
    let maps = store s.maps s.current s.position (trailer s.position) in
    let batch = read_bytes (maps s.current) 0 (s.position + length (trailer s.position)) in
    let log = s.log ++ (execbuffer (handle_of s s.current) batch ∷ []) in
    record s { maps = maps; log = log; available = kernel.executes log }

unfoldable pub gem2d_end : Kernel → State → State
unfolding submit
gem2d_end kernel s =
    if not s.available || not s.is_open
    then s
    else if s.position == 0
    then record s { is_open = false }
    else submit kernel (record s { is_open = false })

-- The commands are copied behind those of the open batch.
unfoldable pub copy_commands : List ℕ → State → State
unfolding write_bytes
copy_commands commands s = record s {
  maps = store s.maps s.current s.position commands;
  position = s.position + length commands;
}

-- Room is kept for the trailer.
unfoldable pub make_room : Kernel → ℕ → State → State
unfolding gem2d_begin gem2d_end
make_room kernel size s =
    if ltb batch_size (s.position + size + 16) then gem2d_begin (gem2d_end kernel s) else s

unfoldable pub gem2d_add : Kernel → List ℕ → State → State
unfolding gem2d_begin make_room copy_commands
gem2d_add kernel commands s =
    if not s.available
    then s
    else copy_commands commands
        (make_room kernel (length commands) (if s.is_open then s else gem2d_begin s))

unfoldable pub gem2d_wait_idle : State → State
gem2d_wait_idle s = if not s.available then s else wait_batch (wait_batch s 0) 1

-- The toggle back to the ring, a file that is looked for every 200 ms at most.
pub record Toggle : Type 0 where
  pub checked : ℕ
  pub forced : Bool

unfoldable pub force_legacy : ℕ → Bool → Toggle → Toggle
force_legacy now exists t =
    if ltb 200000 (now - t.checked) then record { checked = now; forced = exists } else t

-- The toggle is not looked at where the path is off.
unfoldable pub gem2d_available : ℕ → Bool → Toggle → State → Bool × Toggle
unfolding force_legacy
gem2d_available now exists t s =
    if s.available
    then (not (force_legacy now exists t).forced, force_legacy now exists t)
    else (false, t)
