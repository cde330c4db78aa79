-- ===== src/Mpeg2/Ac/Symbols.antt =====
-- What follows an AC code: the sign of a coefficient, or the run and the level of an escape.
use haiku_vaio_vpceb3k1e.Prelude.{
  ℕ, ◌+◌, ◌≤◌, ◌<◌, ◌≡◌, refl, ap, ap₂, true, arith, ◌==◌, if◌then◌else◌, all_below,
  all_below_sound,
}
use haiku_vaio_vpceb3k1e.Prelude.Int.{of_word, eq_ℤ, eq_ℤ_sound}
use haiku_vaio_vpceb3k1e.Mpeg2.Bits.{Bits, skip}
use haiku_vaio_vpceb3k1e.Mpeg2.Bits.Value.{value, value-lt}
use haiku_vaio_vpceb3k1e.Mpeg2.Bits.Read.{position, total}
use haiku_vaio_vpceb3k1e.Mpeg2.Bits.Laws.{IsInside, read-skip}
use haiku_vaio_vpceb3k1e.Mpeg2.Vlc.Code.{escape, coefficient}
use haiku_vaio_vpceb3k1e.Mpeg2.Ac.{
  RunLevel, bad, run_level, signed, extend_level, check_escape, decode_symbol,
}

levels : all_below 4096 (λ l. eq_ℤ (extend_level l) (of_word 12 l)) ≡ true
unfolding all_below extend_level
levels = refl

-- The 12 bits of an escaped level are its two's complement.
extend_level-of_word : (l : ℕ) → l < 4096 → extend_level l ≡ of_word 12 l
extend_level-of_word l h =
    eq_ℤ_sound _ _ (all_below_sound 4096 (λ k. eq_ℤ (extend_level k) (of_word 12 k)) l levels h)

-- What an escape stands for; a level of 0 is an error.
abbrev pub escaped : ℕ → ℕ → RunLevel
escaped run l = if l == 0 then bad else run_level run (of_word 12 l)

check_escape-escaped :
    (run l : ℕ) → run < 64 → l < 4096 → check_escape run (extend_level l) ≡ escaped run l
unfolding check_escape
check_escape-escaped run l hr hl = rw (extend_level-of_word l hl) (ground arith)

module _ (bs : Bits) (len : ℕ) (v : IsInside bs) where
  pub decode_symbol-coefficient :
      (run level : ℕ)
      → position bs + len + 1 ≤ total bs
      → decode_symbol (coefficient run level) (skip bs len)
        ≡ (run_level run (signed (value bs.bytes (position bs + len) 1) level), skip bs (len + 1))
  unfolding decode_symbol
  decode_symbol-coefficient run level room = rw (read-skip bs len 1 v (omega arith) room)

  pub decode_symbol-escape :
      position bs + (len + 18) ≤ total bs
      → decode_symbol escape (skip bs len) ≡ (
        escaped
            (value bs.bytes (position bs + len) 6)
            (value bs.bytes (position bs + (len + 6)) 12),
        skip bs (len + 18),
      )
  unfolding decode_symbol
  decode_symbol-escape room = rw (read-skip bs len 6 v (omega arith) (omega arith)) (
      rw (read-skip bs (len + 6) 12 v (omega arith) (omega arith)) (
        ap₂ (λ (r : RunLevel) (next : Bits). (r, next))
          (check_escape-escaped _ _ (value-lt bs.bytes (position bs + len) 6)
            (value-lt bs.bytes (position bs + (len + 6)) 12))
          (ap (skip bs) (omega arith))))
