-- ===== src/Engine/Draw/Batches.antt =====
-- What the drawing operations of engine.cpp send as one batch.
use haiku_vaio_vpceb3k1e.Prelude.{ℕ, ◌≤◌, List, [], ◌∷◌, ◌++◌, map, length}
use haiku_vaio_vpceb3k1e.Gem2d.Refine.{concat}
use haiku_vaio_vpceb3k1e.Engine.{words_bytes}
use haiku_vaio_vpceb3k1e.Engine.Draw.{Span, scanline_blit, chunk_size}

abbrev pub span_bytes : List Span → List ℕ
span_bytes c = concat (map (λ s. words_bytes (scanline_blit s)) c)

abbrev pub AllSmall : List (List Span) → Type 0
AllSmall [] = Unit {0}
AllSmall (c ∷ cs) = (length c ≤ chunk_size) × AllSmall cs

-- All spans of chunks in their order.
abbrev pub all_spans : List (List Span) → List Span
all_spans [] = []
all_spans (c ∷ cs) = c ++ all_spans cs
