-- ===== src/Engine/Draw/Tests.antt =====
-- The drawing operations of engine.cpp on a screen of 32 bits, with a kernel that executes every batch.
use haiku_vaio_vpceb3k1e.Prelude.{ℕ, refl, true, false, List, [], ◌∷◌, map, none, replicate, arith}
use haiku_vaio_vpceb3k1e.Gem2d.{Kernel, State}
use haiku_vaio_vpceb3k1e.Gem2d.Refine.{Queue, concat, Refines}
use haiku_vaio_vpceb3k1e.Engine.{RingBuffer, words_bytes}
use haiku_vaio_vpceb3k1e.Engine.Round.{IsAligned}
use haiku_vaio_vpceb3k1e.Engine.Draw.{
  Screen, Blit, Rectangle, Span, source_blit, color_blit, screen_to_screen_blit, fill_rectangle,
  invert_rectangle, draw_on_ring,
}
use haiku_vaio_vpceb3k1e.Engine.Draw.Sent.{IsSent, drawing-IsSent}
use haiku_vaio_vpceb3k1e.Engine.Draw.OnRing.{IsDrawn, draw_on_ring-IsDrawn}

abbrev kernel : Kernel
kernel = record {
  has_gem = true;
  created = λ i. none;
  cloned = λ area. none;
  executes = λ log. true;
}

abbrev at_rest : State
at_rest = record {
  available = true;
  handles = 7 ∷ 8 ∷ [];
  areas = none ∷ none ∷ [];
  maps = λ i o. 0;
  current = 0;
  position = 0;
  is_open = false;
  log = [];
}

abbrev empty_queue : Queue
empty_queue = record { batches = []; pending = [] }

at_rest-Refines : Refines at_rest empty_queue
at_rest-Refines = record {
  on = refl;
  sent = refl;
  filled = λ h. absurd (cc h);
  nothing = λ h. refl;
}

abbrev screen : Screen
screen = record { bits_per_pixel = 32; bytes_per_row = 4096; frame_buffer_offset = 0 }

abbrev spans : List Span
spans = record { top = 1; left = 2; right = 3 } ∷ record { top = 2; left = 2; right = 3 } ∷ []

-- A setup of 36 bytes.
abbrev setup : List ℕ
setup = replicate 36 1

abbrev blits : List Blit
blits =
    record { src_left = 0; src_top = 0; dest_left = 5; dest_top = 6; width = 9; height = 9 } ∷ []

abbrev rectangles : List Rectangle
rectangles = record { left = 0; top = 0; right = 9; bottom = 9 } ∷ []

drawing-IsSent_example :
    IsSent empty_queue
      (concat (map (λ b. words_bytes (source_blit screen b)) blits))
      (screen_to_screen_blit kernel screen blits at_rest)
    × IsSent empty_queue
        (concat (map (λ r. words_bytes (color_blit screen false 0xff r)) rectangles))
        (fill_rectangle kernel screen 0xff rectangles at_rest)
    × IsSent empty_queue
        (concat (map (λ r. words_bytes (color_blit screen true 0xffffffff r)) rectangles))
        (invert_rectangle kernel screen rectangles at_rest)
drawing-IsSent_example =
    drawing-IsSent kernel (λ log. refl) screen 0xff blits rectangles at_rest empty_queue
      at_rest-Refines

-- A ring of 64 bytes in which the second command goes round the end.
abbrev ring : RingBuffer
ring = record { base = λ o. 0; size = 64; position = 44; space_left = 64 }

ring-IsAligned : IsAligned 6 ring
ring-IsAligned = record {
  power = refl;
  words = refl;
  small = omega arith;
  inside = omega arith;
  aligned = refl;
}

abbrev commands : List (List ℕ)
commands = replicate 4 0x01020304 ∷ replicate 6 0x05060708 ∷ []

draw_on_ring-IsDrawn_example : IsDrawn 7 ring commands (draw_on_ring (λ n. []) 7 commands ring)
draw_on_ring-IsDrawn_example =
    draw_on_ring-IsDrawn 6 (λ n. []) 7 commands ring ring-IsAligned refl (omega arith)
