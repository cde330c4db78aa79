-- ===== src/Gem2d/Overrun.antt =====
-- An addition of gem2d.cpp whose full batch the kernel refuses.
use haiku_vaio_vpceb3k1e.Prelude.{
  ℕ, ◌+◌, ◌<◌, ◌≡◌, ap, ap₂, ◌∙◌, true, false, not, ◌||◌, List, ◌==◌, length, arith, if_true,
  if_false, lt→ltb,
}
use haiku_vaio_vpceb3k1e.Prelude.Memory.{read_bytes, read-write}
use haiku_vaio_vpceb3k1e.Gem2d.{
  State, Kernel, batch_size, submit, gem2d_begin, gem2d_end, copy_commands, make_room, gem2d_add,
}
use haiku_vaio_vpceb3k1e.Gem2d.Refine.{store-current}

module _ (kernel : Kernel) (commands : List ℕ) (s : State) (on : s.available ≡ true)
    (opened : s.is_open ≡ true) (filled : 0 < s.position)
    (full : batch_size < s.position + length commands + 16)
    (refused : kernel.executes (submit kernel (record s { is_open = false })).log ≡ false) where
  abbrev shut : State
  shut = record s { is_open = false }

  not_empty : (s.position == 0) ≡ false
  not_empty = ground arith

  ends : gem2d_end kernel s ≡ submit kernel shut
  unfolding gem2d_end
  ends = if_false _ _ (ap₂ (λ a b. not a || not b) on opened) ∙ if_false _ _ not_empty

  stays : gem2d_begin (submit kernel shut) ≡ submit kernel shut
  unfolding gem2d_begin submit
  stays = if_true _ _ (ap (λ a. not a || false) refused)

  adds : gem2d_add kernel commands s ≡ copy_commands commands (submit kernel shut)
  unfolding gem2d_add make_room
  adds =
      if_false _ _ (ap not on)
      ∙ ap (λ t. copy_commands commands (make_room kernel (length commands) t)) (if_true _ _ opened)
      ∙ ap (copy_commands commands) (
          if_true _ _ (lt→ltb batch_size (s.position + length commands + 16) full)
          ∙ ap gem2d_begin ends
          ∙ stays)

  -- Where commands do not fit into the open batch and the kernel refuses the batch, gem2d_add turns
  -- the 2D path off, but copies the commands all the same: behind the ones of the refused batch, up to
  -- less than 16 bytes before the end of the buffer or, as far as they go, behind it.
  pub gem2d_add-overrun :
      ((gem2d_add kernel commands s).available ≡ false)
      × ((gem2d_add kernel commands s).position ≡ s.position + length commands)
      × (read_bytes ((gem2d_add kernel commands s).maps s.current) s.position (length commands)
          ≡ commands)
  unfolding copy_commands submit
  gem2d_add-overrun = (
    ap (λ (t : State). t.available) adds ∙ refused,
    ap (λ (t : State). t.position) adds,
    ap (λ (t : State). read_bytes (t.maps s.current) s.position (length commands)) adds
        ∙ ap (λ m. read_bytes m s.position (length commands))
            (store-current (submit kernel shut) commands)
        ∙ read-write _ s.position commands,
  )
