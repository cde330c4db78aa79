-- ===== src/Engine/Draw/Sent.antt =====
-- The blits and rectangles of engine.cpp reach the GPU, in as many batches as they need.
use haiku_vaio_vpceb3k1e.Prelude.{
  ℕ, ◌≤◌, ◌≡◌, refl, ap, sym, ◌∙◌, Bool, true, false, List, [], ◌∷◌, ◌++◌, map, append-nil, length,
  arith,
}
use haiku_vaio_vpceb3k1e.Gem2d.{Kernel, State, Request}
use haiku_vaio_vpceb3k1e.Gem2d.Refine.{Queue, queue_add, concat, stream, Refines}
use haiku_vaio_vpceb3k1e.Gem2d.Run.{
  finish, run, run_queue, added, AllFit, run-Refines, queue_end-pending,
}
use haiku_vaio_vpceb3k1e.Engine.{words_bytes}
use haiku_vaio_vpceb3k1e.Engine.Draw.{
  Screen, Blit, Rectangle, source_blit, color_blit, adds, batched, screen_to_screen_blit,
  fill_rectangle, invert_rectangle,
}

-- Behind an operation all commands are in batches: those of the queue before it and `bytes`.
pub record IsSent (q : Queue) (bytes : List ℕ) (out : State) : Type 0 where
  pub after : Queue
  pub refines : Refines out after
  pub nothing_pending : after.pending ≡ []
  pub sent : concat after.batches ≡ stream q ++ bytes

-- Every command is short.
abbrev AllShort : List (List ℕ) → Type 0
AllShort [] = Unit {0}
AllShort (c ∷ cs) = (length c ≤ 32) × AllShort cs

AllFit-adds : (cs : List (List ℕ)) → AllShort cs → AllFit (adds cs (finish ∷ []))
AllFit-adds [] short = tt
AllFit-adds (c ∷ cs) short = (omega (arith, short.0), AllFit-adds cs short.1)

added-adds : (cs : List (List ℕ)) → added (adds cs (finish ∷ [])) ≡ concat cs
added-adds [] = refl
added-adds (c ∷ cs) = ap (λ l. c ++ l) (added-adds cs)

adds-pending : (cs : List (List ℕ)) (q : Queue) → (run_queue (adds cs (finish ∷ [])) q).pending ≡ []
adds-pending [] q = queue_end-pending q
adds-pending (c ∷ cs) q = adds-pending cs (queue_add c q)

batched-IsSent :
    (kernel : Kernel) (takes : (log : List Request) → kernel.executes log ≡ true)
    (cs : List (List ℕ)) (s : State) (q : Queue)
    → AllShort cs
    → Refines s q
    → IsSent q (concat cs) (run kernel (batched cs []) s)
batched-IsSent kernel takes cs s q short r = record {
  after = out;
  refines = done.0;
  nothing_pending = adds-pending cs q;
  sent =
      sym (append-nil (concat out.batches))
      ∙ ap (λ l. concat out.batches ++ l) (sym (adds-pending cs q))
      ∙ done.1
      ∙ ap (λ l. stream q ++ l) (added-adds cs);
}
  where
    out : Queue
    out = run_queue (batched cs []) q

    done :
        Refines (run kernel (batched cs []) s) out
        × (stream out ≡ stream q ++ added (batched cs []))
    done = run-Refines kernel takes (batched cs []) s q (AllFit-adds cs short) r

colors_short :
    (screen : Screen) (invert : Bool) (color : ℕ) (rs : List Rectangle)
    → AllShort (map (λ r. words_bytes (color_blit screen invert color r)) rs)
colors_short screen invert color [] = tt
colors_short screen invert color (r ∷ rs) = (omega arith, colors_short screen invert color rs)

blits_short :
    (screen : Screen) (bs : List Blit) → AllShort (map (λ b. words_bytes (source_blit screen b)) bs)
blits_short screen [] = tt
blits_short screen (b ∷ bs) = (omega arith, blits_short screen bs)

-- With a kernel that executes every batch and the render engine off, intel_screen_to_screen_blit,
-- intel_fill_rectangle and intel_invert_rectangle of any number of rectangles send all their commands, one for each
-- rectangle in their order, behind those that the queue held, and nothing is pending behind them.
pub drawing-IsSent :
    (kernel : Kernel) (takes : (log : List Request) → kernel.executes log ≡ true) (screen : Screen)
    (color : ℕ) (blits : List Blit) (rectangles : List Rectangle) (s : State) (q : Queue)
    → Refines s q
    → IsSent q
        (concat (map (λ b. words_bytes (source_blit screen b)) blits))
        (screen_to_screen_blit kernel screen blits s)
      × IsSent q
          (concat (map (λ r. words_bytes (color_blit screen false color r)) rectangles))
          (fill_rectangle kernel screen color rectangles s)
      × IsSent q
          (concat (map (λ r. words_bytes (color_blit screen true 0xffffffff r)) rectangles))
          (invert_rectangle kernel screen rectangles s)
unfolding screen_to_screen_blit fill_rectangle invert_rectangle
drawing-IsSent kernel takes screen color blits rectangles s q r = (
  batched-IsSent kernel takes _ s q (blits_short screen blits) r,
  batched-IsSent kernel takes _ s q (colors_short screen false color rectangles) r,
  batched-IsSent kernel takes _ s q (colors_short screen true 0xffffffff rectangles) r,
)
