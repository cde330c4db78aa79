-- ===== src/Mpeg2/StartCode/Resync.antt =====
-- Where `mpeg2_resync_to_next_slice` leaves the reader.
use haiku_vaio_vpceb3k1e.Prelude.{
  List, inl, inr, ℕ, zero, suc, ◌+◌, ◌^◌, ◌≤◌, ◌<◌, ◌≡◌, refl, Bool, true, false, arith, ltb,
  Bool-cases,
}
use haiku_vaio_vpceb3k1e.Mpeg2.Bits.{Bits, byte, align}
use haiku_vaio_vpceb3k1e.Mpeg2.StartCode.{
  is_prefix, has_room, is_slice_id, resync_loop, resync_to_next_slice,
}

-- The answer is yes and the reader stands before a slice's start code, which is in the buffer; or it
-- is no and fewer than four bytes are left. The reader is at or behind byte `a`.
pub record Resynced (bytes : List ℕ) (size a : ℕ) (out : Bool × Bits) : Type 0 where
  pub same : (out.1.bytes ≡ bytes) × (out.1.size ≡ size) × (out.1.bit_pos ≡ 0)
  pub after : a ≤ out.1.byte_pos
  pub slice :
      out.0 ≡ true
      → (is_prefix bytes out.1.byte_pos ≡ true)
        × (is_slice_id (byte out.1 (out.1.byte_pos + 3)) ≡ true)
        × (out.1.byte_pos + 3 < size)
  pub end : out.0 ≡ false → size ≤ out.1.byte_pos + 3

Resynced-later :
    (bytes : List ℕ) (size a b : ℕ) (out : Bool × Bits)
    → a ≤ b
    → Resynced bytes size b out
    → Resynced bytes size a out
Resynced-later bytes size a b out le f = record {
  same = f.same;
  after = omega (arith, f.after);
  slice = f.slice;
  end = f.end;
}

resync_loop_lem :
    (fuel : ℕ) (bs : Bits)
    → bs.bit_pos ≡ 0
    → bs.size ≤ bs.byte_pos + fuel
    → bs.byte_pos ≤ bs.size
    → bs.size + 3 < 2 ^ 32
    → Resynced bs.bytes bs.size bs.byte_pos (resync_loop fuel bs)
unfolding resync_loop
resync_loop_lem zero bs b enough le small = record {
  same = (refl, refl, b);
  after = omega arith;
  slice = λ e. absurd (cc e);
  end = λ e. omega arith;
}
resync_loop_lem (suc fuel) bs b enough le small = elim (Bool-cases (has_room bs)) [
  | inl room ↦ elim (Bool-cases (is_prefix bs.bytes bs.byte_pos)) [
    | inl here ↦ elim (Bool-cases (is_slice_id (byte bs (bs.byte_pos + 3)))) [
      | inl slice ↦
          rw (room, here, slice)
            (record {
              same = (refl, refl, b);
              after = omega arith;
              slice = λ e. (here, slice, ground arith);
              end = λ e. absurd (cc e);
            })
      | inr other ↦
          rw (room, here, other)
            (Resynced-later bs.bytes bs.size bs.byte_pos (bs.byte_pos + 4) _ (omega arith) (
              resync_loop_lem fuel (record bs { byte_pos = bs.byte_pos + 4 }) b (omega arith)
                (ground arith) small))
    ]
    | inr nothing ↦
        rw (room, nothing)
          (Resynced-later bs.bytes bs.size bs.byte_pos (bs.byte_pos + 1) _ (omega arith) (
            resync_loop_lem fuel (record bs { byte_pos = bs.byte_pos + 1 }) b (omega arith)
              (ground arith) small))
  ]
  | inr full ↦ rw full (record {
    same = (refl, refl, b);
    after = omega arith;
    slice = λ e. absurd (cc e);
    end = λ e. ground arith;
  })
]

-- `mpeg2_resync_to_next_slice`, on a reader inside a buffer of less than 4 GB, either answers yes and
-- leaves the reader right before the start code of a slice, at or after the next whole byte, or
-- answers no with fewer than four bytes left.
pub resync_to_next_slice_lem :
    (bs : Bits)
    → bs.bit_pos < 8
    → bs.byte_pos + 1 ≤ bs.size
    → bs.size + 3 < 2 ^ 32
    → Resynced bs.bytes bs.size (align bs).byte_pos (resync_to_next_slice bs)
unfolding resync_to_next_slice
resync_to_next_slice_lem bs b le small = elim (Bool-cases (ltb 0 bs.bit_pos)) [
  | inl part ↦
      rw (align-part part) (resync_loop_lem bs.size _ refl (ground arith) (ground arith) small)
  | inr whole ↦
      rw (align-whole whole)
        (resync_loop_lem bs.size bs (ground arith) (ground arith) (ground arith) small)
]
  where
    align-part :
        ltb 0 bs.bit_pos ≡ true → align bs ≡ record bs { byte_pos = bs.byte_pos + 1; bit_pos = 0 }
    align-part e = ground arith

    align-whole : ltb 0 bs.bit_pos ≡ false → align bs ≡ bs
    align-whole e = ground arith
