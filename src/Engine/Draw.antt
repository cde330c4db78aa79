-- ===== src/Engine/Draw.antt =====
-- The drawing operations of engine.cpp on top of the 2D queue of gem2d.cpp: each is a run of its
-- operations. The commands are those of commands.h, as words; the one that sets up a mono pattern is
-- a parameter, since the compiler lays it out and one of its fields is not set.
pub mod Batches
pub mod Sent
pub mod OnRing
pub mod Tests
use haiku_vaio_vpceb3k1e.Prelude.{
  ℕ, zero, suc, ◌+◌, ◌*◌, ◌^◌, ◌%◌, bit_or, Bool, true, false, List, [], ◌∷◌, ◌++◌, map,
  if◌then◌else◌, ◌==◌, length, take, drop,
}
use haiku_vaio_vpceb3k1e.Gem2d.{Kernel, State}
use haiku_vaio_vpceb3k1e.Gem2d.Run.{Op, add, begin, finish, run}
use haiku_vaio_vpceb3k1e.Engine.{RingBuffer, words_bytes, put, finish_queue}

-- What the commands take of `shared_info`.
pub record Screen : Type 0 where
  pub bits_per_pixel : ℕ
  pub bytes_per_row : ℕ
  pub frame_buffer_offset : ℕ

-- Two fields of 16 bits in a word, the first in the low half.
abbrev pub halves : ℕ → ℕ → ℕ
halves low high = low % 2 ^ 16 + high % 2 ^ 16 * 2 ^ 16

abbrev pub xy_command_source_blit : ℕ
xy_command_source_blit = 0x54c00006

abbrev pub xy_command_color_blit : ℕ
xy_command_color_blit = 0x54000004

abbrev pub xy_command_scanline_blit : ℕ
xy_command_scanline_blit = 0x49400001

abbrev pub command_blit_rgba : ℕ
command_blit_rgba = 0x00300000

-- The mode for the depth of the screen; an invalid depth, which stops in the debugger, has 0.
abbrev pub color_mode : ℕ → ℕ
color_mode bits =
    if bits == 8
    then 0x00
    else if bits == 15
    then 0x02
    else if bits == 16
    then 0x01
    else if bits == 32
    then 0x03
    else 0

abbrev pub opcode_for : Screen → ℕ → ℕ
opcode_for screen command =
    if screen.bits_per_pixel == 32 then bit_or command command_blit_rgba else command

-- A rectangle as the commands have it, its right and bottom edge behind it.
pub record Area : Type 0 where
  pub left : ℕ
  pub top : ℕ
  pub right : ℕ
  pub bottom : ℕ

-- `xy_command`.
abbrev pub xy_command : Screen → ℕ → ℕ → Area → List ℕ
xy_command screen command rop area =
    opcode_for screen command
    ∷ (screen.bytes_per_row % 2 ^ 16 + rop * 2 ^ 16 + color_mode screen.bits_per_pixel * 2 ^ 24)
    ∷ halves area.left area.top
    ∷ halves area.right area.bottom
    ∷ screen.frame_buffer_offset
    ∷ []

-- `fill_rect_params`, whose edges are inside.
pub record Rectangle : Type 0 where
  pub left : ℕ
  pub top : ℕ
  pub right : ℕ
  pub bottom : ℕ

abbrev pub area_of : Rectangle → Area
area_of r = record { left = r.left; top = r.top; right = r.right + 1; bottom = r.bottom + 1 }

abbrev pub color_blit : Screen → Bool → ℕ → Rectangle → List ℕ
color_blit screen invert color r =
    xy_command screen xy_command_color_blit (if invert then 0x55 else 0xf0) (area_of r)
    ++ (color ∷ [])

-- `blit_params`.
pub record Blit : Type 0 where
  pub src_left : ℕ
  pub src_top : ℕ
  pub dest_left : ℕ
  pub dest_top : ℕ
  pub width : ℕ
  pub height : ℕ

abbrev pub dest_area : Blit → Area
dest_area b = record {
  left = b.dest_left;
  top = b.dest_top;
  right = b.dest_left + b.width + 1;
  bottom = b.dest_top + b.height + 1;
}

abbrev pub source_blit : Screen → Blit → List ℕ
source_blit screen b =
    xy_command screen xy_command_source_blit 0xcc (dest_area b)
    ++ (halves b.src_left b.src_top
        ∷ (screen.bytes_per_row % 2 ^ 16)
        ∷ screen.frame_buffer_offset
        ∷ [])

-- A span of `intel_fill_span`.
pub record Span : Type 0 where
  pub top : ℕ
  pub left : ℕ
  pub right : ℕ

abbrev pub scanline_blit : Span → List ℕ
scanline_blit s = xy_command_scanline_blit ∷ halves s.left s.top ∷ halves s.right s.top ∷ []

-- Commands between gem2d_begin and gem2d_end.
abbrev pub adds : List (List ℕ) → List Op → List Op
adds [] rest = rest
adds (c ∷ cs) rest = add c ∷ adds cs rest

abbrev pub batched : List (List ℕ) → List Op → List Op
batched commands rest = begin ∷ adds commands (finish ∷ rest)

unfoldable pub screen_to_screen_blit : Kernel → Screen → List Blit → State → State
screen_to_screen_blit kernel screen params s =
    run kernel (batched (map (λ b. words_bytes (source_blit screen b)) params) []) s

-- With the render engine off.
unfoldable pub fill_rectangle : Kernel → Screen → ℕ → List Rectangle → State → State
fill_rectangle kernel screen color params s =
    run kernel (batched (map (λ r. words_bytes (color_blit screen false color r)) params) []) s

unfoldable pub invert_rectangle : Kernel → Screen → List Rectangle → State → State
invert_rectangle kernel screen params s =
    run kernel (batched (map (λ r. words_bytes (color_blit screen true 0xffffffff r)) params) []) s

abbrev pub chunk_size : ℕ
chunk_size = 1024

-- The chunks of the spans; the fuel is spent one for each chunk, which has a span at least.
unfoldable pub chunks : ℕ → List Span → List (List Span)
chunks zero spans = []
chunks (suc fuel) [] = []
chunks (suc fuel) (x ∷ spans) =
    take chunk_size (x ∷ spans) ∷ chunks fuel (drop chunk_size (x ∷ spans))

-- `setup` is the command that every chunk begins with.
abbrev pub span_ops : List ℕ → List (List Span) → List Op
span_ops setup [] = []
span_ops setup (c ∷ cs) =
    batched (setup ∷ map (λ s. words_bytes (scanline_blit s)) c) (span_ops setup cs)

unfoldable pub fill_span : Kernel → List ℕ → List Span → State → State
unfolding chunks
fill_span kernel setup spans s = run kernel (span_ops setup (chunks (length spans) spans)) s

-- The commands put into the ring one after the other; `heads` is what HEAD shows while the
-- code makes space, by the number of times that it does so behind: 0 is the destructor.
abbrev pub put_each : (ℕ → List ℕ) → List (List ℕ) → RingBuffer → RingBuffer
put_each heads [] ring = ring
put_each heads (c ∷ cs) ring = put_each heads cs (put (heads (suc (length cs))) c ring)

-- A queue with these commands, and its destructor.
unfoldable pub draw_on_ring : (ℕ → List ℕ) → ℕ → List (List ℕ) → RingBuffer → ℕ × RingBuffer
unfolding put finish_queue
draw_on_ring heads last commands ring = finish_queue (heads 0) last (put_each heads commands ring)

unfoldable pub screen_to_screen_blit_on_ring :
    (ℕ → List ℕ) → ℕ → Screen → List Blit → RingBuffer → ℕ × RingBuffer
unfolding draw_on_ring
screen_to_screen_blit_on_ring heads last screen params ring =
    draw_on_ring heads last (map (λ b. source_blit screen b) params) ring

unfoldable pub fill_rectangle_on_ring :
    (ℕ → List ℕ) → ℕ → Screen → ℕ → List Rectangle → RingBuffer → ℕ × RingBuffer
unfolding draw_on_ring
fill_rectangle_on_ring heads last screen color params ring =
    draw_on_ring heads last (map (λ r. color_blit screen false color r) params) ring

unfoldable pub invert_rectangle_on_ring :
    (ℕ → List ℕ) → ℕ → Screen → List Rectangle → RingBuffer → ℕ × RingBuffer
unfolding draw_on_ring
invert_rectangle_on_ring heads last screen params ring =
    draw_on_ring heads last (map (λ r. color_blit screen true 0xffffffff r) params) ring

unfoldable pub fill_span_on_ring :
    (ℕ → List ℕ) → ℕ → List ℕ → List Span → RingBuffer → ℕ × RingBuffer
unfolding draw_on_ring
fill_span_on_ring heads last setup params ring =
    draw_on_ring heads last (setup ∷ map (λ s. scanline_blit s) params) ring
