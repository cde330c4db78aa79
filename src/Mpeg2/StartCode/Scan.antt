-- ===== src/Mpeg2/StartCode/Scan.antt =====
-- What the start code scanner finds, and that it misses none.
use haiku_vaio_vpceb3k1e.Prelude.{
  List, get_or, ℕ, zero, suc, ◌+◌, ◌-◌, ◌^◌, ◌≤◌, ◌<◌, bit_or, ◌≡◌, refl, ap, ◌∙◌, ◌⊎◌, inl, inr,
  true, false, arith, ltb, Bool-cases, ℕ_discrete,
}
use haiku_vaio_vpceb3k1e.Mpeg2.Bits.{Bits, align}
use haiku_vaio_vpceb3k1e.Mpeg2.StartCode.{is_prefix, has_room, find_loop, find_start_code}

-- No start code stands at the bytes from `a` to before `b`.
abbrev pub NoPrefix : List ℕ → ℕ → ℕ → Type 0
NoPrefix bytes a b = (j : ℕ) → a ≤ j → j < b → is_prefix bytes j ≡ false

-- The first start code from byte `a` on stands at byte `at`; the result is its code, and the
-- reader stands behind its four bytes.
pub record Found (bytes : List ℕ) (size a : ℕ) (out : ℕ × Bits) : Type 0 where
  pub at : ℕ
  pub after : a ≤ at
  pub fits : at + 3 < size
  pub is_code : is_prefix bytes at ≡ true
  pub first : NoPrefix bytes a at
  pub code : out.0 ≡ bit_or 0x100 (get_or bytes (at + 3) 0)
  pub place : out.1 ≡ record { bytes = bytes; size = size; byte_pos = at + 4; bit_pos = 0 }

-- No start code with its four bytes inside the buffer stands from byte `a` on.
pub record NotFound (bytes : List ℕ) (size a : ℕ) (out : ℕ × Bits) : Type 0 where
  pub zero_code : out.0 ≡ 0
  pub none_left : NoPrefix bytes a (size - 3)

NoPrefix-later :
    (bytes : List ℕ) (a b : ℕ)
    → is_prefix bytes a ≡ false
    → NoPrefix bytes (a + 1) b
    → NoPrefix bytes a b
NoPrefix-later bytes a b none_here later j lo hi = elim (ℕ_discrete j a) [
  | yes e ↦ ap (is_prefix bytes) e ∙ none_here
  | no e ↦ later j (omega arith) hi
]

Found-later :
    (bytes : List ℕ) (size a : ℕ) (out : ℕ × Bits)
    → is_prefix bytes a ≡ false
    → Found bytes size (a + 1) out
    → Found bytes size a out
Found-later bytes size a out none_here f = record {
  at = f.at;
  after = omega (arith, f.after);
  fits = f.fits;
  is_code = f.is_code;
  first = NoPrefix-later bytes a f.at none_here f.first;
  code = f.code;
  place = f.place;
}

NotFound-later :
    (bytes : List ℕ) (size a : ℕ) (out : ℕ × Bits)
    → is_prefix bytes a ≡ false
    → NotFound bytes size (a + 1) out
    → NotFound bytes size a out
NotFound-later bytes size a out none_here f = record {
  zero_code = f.zero_code;
  none_left = NoPrefix-later bytes a (size - 3) none_here f.none_left;
}

find_loop_lem :
    (fuel : ℕ) (bs : Bits)
    → bs.bit_pos ≡ 0
    → bs.size ≤ bs.byte_pos + fuel
    → bs.byte_pos ≤ bs.size
    → bs.size + 3 < 2 ^ 32
    → Found bs.bytes bs.size bs.byte_pos (find_loop fuel bs)
      ⊎ NotFound bs.bytes bs.size bs.byte_pos (find_loop fuel bs)
unfolding find_loop
find_loop_lem zero bs b enough le small =
    inr (record { zero_code = refl; none_left = λ j lo hi. absurd (omega arith) })
find_loop_lem (suc fuel) bs b enough le small = elim (Bool-cases (has_room bs)) [
  | inl room ↦ elim (Bool-cases (is_prefix bs.bytes bs.byte_pos)) [
    | inl here ↦
        rw (room, here)
          (inl (record {
            at = bs.byte_pos;
            after = omega arith;
            fits = ground arith;
            is_code = here;
            first = λ j lo hi. absurd (omega arith);
            code = refl;
            place = refl;
          }))
    | inr other ↦
        rw (room, other)
          (later other (
            find_loop_lem fuel (record bs { byte_pos = bs.byte_pos + 1 }) b (omega arith)
              (ground arith) small))
  ]
  | inr full ↦
      rw full (inr (record { zero_code = refl; none_left = λ j lo hi. absurd (ground arith) }))
]
  where
    later :
        is_prefix bs.bytes bs.byte_pos ≡ false
        → Found bs.bytes bs.size
            (bs.byte_pos + 1)
            (find_loop fuel (record bs { byte_pos = bs.byte_pos + 1 }))
          ⊎ NotFound bs.bytes bs.size
              (bs.byte_pos + 1)
              (find_loop fuel (record bs { byte_pos = bs.byte_pos + 1 }))
        → Found bs.bytes bs.size bs.byte_pos
            (find_loop fuel (record bs { byte_pos = bs.byte_pos + 1 }))
          ⊎ NotFound bs.bytes bs.size bs.byte_pos
              (find_loop fuel (record bs { byte_pos = bs.byte_pos + 1 }))
    later e (inl f) = inl (Found-later bs.bytes bs.size bs.byte_pos _ e f)
    later e (inr f) = inr (NotFound-later bs.bytes bs.size bs.byte_pos _ e f)

-- `mpeg2_find_start_code`, on a reader inside a buffer of less than 4 GB, returns the first start
-- code that stands at or after the next whole byte and leaves the reader behind it; it returns 0
-- only where no start code is left.
pub find_start_code_lem :
    (bs : Bits)
    → bs.bit_pos < 8
    → bs.byte_pos + 1 ≤ bs.size
    → bs.size + 3 < 2 ^ 32
    → Found bs.bytes bs.size (align bs).byte_pos (find_start_code bs)
      ⊎ NotFound bs.bytes bs.size (align bs).byte_pos (find_start_code bs)
unfolding find_start_code
find_start_code_lem bs b le small = elim (Bool-cases (ltb 0 bs.bit_pos)) [
  | inl part ↦
      rw (align-part part) (find_loop_lem bs.size _ refl (ground arith) (ground arith) small)
  | inr whole ↦
      rw (align-whole whole)
        (find_loop_lem bs.size bs (ground arith) (ground arith) (ground arith) small)
]
  where
    align-part :
        ltb 0 bs.bit_pos ≡ true → align bs ≡ record bs { byte_pos = bs.byte_pos + 1; bit_pos = 0 }
    align-part e = ground arith

    align-whole : ltb 0 bs.bit_pos ≡ false → align bs ≡ bs
    align-whole e = ground arith
