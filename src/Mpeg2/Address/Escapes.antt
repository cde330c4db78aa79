-- ===== src/Mpeg2/Address/Escapes.antt =====
-- decode_macroblock_address_increment of mpeg2_parser.cpp at the codes of table B-1, behind any
-- number of escapes, and the fuel of its calls of itself.
use native.Mathlib.Nat.{one-le-pow}
use haiku_vaio_vpceb3k1e.Prelude.{
  ℕ, suc, ◌+◌, ◌-◌, ◌*◌, ◌≤◌, ◌<◌, ◌≡◌, ◌≢◌, refl, subst, Bool, true, false, ◌&&◌, get_elem?,
  Option, none, some, arith, leb, all_below, all_below_sound, Bool-cases, inl, inr,
}
use haiku_vaio_vpceb3k1e.Mpeg2.Bits.{Bits, peek, skip, available}
use haiku_vaio_vpceb3k1e.Mpeg2.Bits.Value.{value, value-add}
use haiku_vaio_vpceb3k1e.Mpeg2.Bits.Read.{position, total}
use haiku_vaio_vpceb3k1e.Mpeg2.Bits.Laws.{IsInside, peek-value, available_lem}
use haiku_vaio_vpceb3k1e.Mpeg2.Vlc.Code.{Entry, entry}
use haiku_vaio_vpceb3k1e.Mpeg2.Address.{
  Increment, end_of_slice, bad, by, Found, number, escape, stuffing, nothing, address_tests,
  add_escape, slice_ends, take_found, address_loop, decode_address_increment,
}
use haiku_vaio_vpceb3k1e.Mpeg2.Address.Table.{address_table, as_tabled, address_tests-as_tabled}

-- Twenty-three zeros are not the beginning of a code.
slice_ends-code :
    (bs : Bits) (len : ℕ)
    → IsInside bs
    → len ≤ 23
    → 1 ≤ value bs.bytes (position bs) len
    → slice_ends bs ≡ false
slice_ends-code bs len v le code = elim (Bool-cases (available bs 23)) [
  | inl there ↦ rw there (ground (arith, seen there))
  | inr gone ↦ rw gone refl
]
  where
    positive : 1 ≤ value bs.bytes (position bs) 23
    positive =
        subst (λ n. 1 ≤ value bs.bytes (position bs) n) {x = len + (23 - len)} (omega arith)
          (rw (value-add bs.bytes (position bs) len (23 - len))
            (grind (arith, one-le-pow (23 - len) 2 (omega arith))))

    seen : available bs 23 ≡ true → 1 ≤ peek bs 23
    seen there =
        rw (peek-value bs 23 v.aligned (omega arith) (ground (arith, available_lem bs 23 v)))
          positive

-- A number that is not the tabled one.
record Miscounted (s : ℕ) (f : Found) : Type 0 where
  m : ℕ
  l : ℕ
  is_number : f ≡ number m l
  other : m ≢ s

found_other : (f : Found) (s len : ℕ) → 15 < s → s < 34 → as_tabled f s len ≡ true → Miscounted s f
found_other (number m l) s len lo hi h = record {
  m = m;
  l = l;
  is_number = refl;
  other = ground arith;
}
found_other escape s len lo hi h = absurd (ground arith)
found_other stuffing s len lo hi h = absurd (ground arith)
found_other nothing s len lo hi h = absurd (cc h)

abbrev positive_code : Option (Entry ℕ) → Bool
positive_code none = true
positive_code (some (entry code len s)) = leb 1 code && leb len 11 && leb s 35

codes_positive : all_below 35 (λ i. positive_code (get_elem? address_table i)) ≡ true
unfolding all_below
codes_positive = refl

-- What a round does, by what the tests find.
loop-found :
    (fuel : ℕ) (bs : Bits) (f : Found)
    → slice_ends bs ≡ false
    → address_tests (peek bs) ≡ f
    → address_loop (suc fuel) bs ≡ take_found (address_loop fuel) bs f
unfolding address_loop
loop-found fuel bs f open_slice e = rw (open_slice, e) refl

-- The reader stands at the code of `s` in table B-1, which has `len` bits, with 11 bits in the
-- buffer.
pub record AtCode (bs : Bits) (len s : ℕ) : Type 0 where
  pub inside : IsInside bs
  pub room : position bs + 11 ≤ total bs
  pub row : ℕ
  pub code : ℕ
  pub listed : row < 35
  pub tabled : get_elem? address_table row ≡ some (entry code len s)
  pub here : value bs.bytes (position bs) len ≡ code

positive_row : (bs : Bits) (len s : ℕ) (c : AtCode bs len s) → (1 ≤ c.code) × (len ≤ 11) × (s ≤ 35)
positive_row bs len s c = ground (
  arith,
  rw c.tabled at (
      all_below_sound 35 (λ i. positive_code (get_elem? address_table i)) c.row codes_positive
        c.listed),
)

AtCode-found :
    (bs : Bits) (len s : ℕ)
    → AtCode bs len s
    → (slice_ends bs ≡ false) × (as_tabled (address_tests (peek bs)) s len ≡ true)
AtCode-found bs len s c =
    let p = positive_row bs len s c in
    (
      slice_ends-code bs len c.inside (omega (arith, p.1)) (rw c.here p.0),
      address_tests-as_tabled bs c.row c.code len s c.inside.aligned c.listed c.room c.tabled
          c.here,
    )

-- At the code of an increment from 16 to 33 the decoder takes a number, but never that increment:
-- it counts up in the codes where the table counts down, and takes the first codes of 11 bits for
-- codes of 10.
pub decode_address_increment-miscounts :
    (bs : Bits) (len s : ℕ)
    → 15 < s
    → s < 34
    → AtCode bs len s
    → (m : ℕ) × ((decode_address_increment bs).0 ≡ by m) × (m ≢ s)
unfolding decode_address_increment
decode_address_increment-miscounts bs len s lo hi c =
    let f = AtCode-found bs len s c in
    let o = found_other (address_tests (peek bs)) s len lo hi f.1 in
    (o.m, rw (fuel_suc, loop-found (bs.size * 8) bs (number o.m o.l) f.0 o.is_number) refl, o.other)
  where
    fuel_suc : bs.size * 8 + 1 ≡ suc (bs.size * 8)
    fuel_suc = omega arith

-- `k` escapes, and behind them the code of `s`.
pub data Escaped : Bits → ℕ → ℕ → ℕ → Type 0 where
  plain : {bs : Bits} {len s : ℕ} → AtCode bs len s → Escaped bs 0 len s
  escaped :
      {bs : Bits} {k len s : ℕ}
      → AtCode bs 11 34
      → Escaped (skip bs 11) k len s
      → Escaped bs (suc k) len s

-- A run of decode_macroblock_address_increment with its calls of itself, each on the reader 11 bits on:
-- it is finite, and fuel has no part in it.
pub data Runs : Bits → Increment × Bits → Type 0 where
  ends : {bs : Bits} → slice_ends bs ≡ true → Runs bs (end_of_slice, bs)
  takes :
      {bs : Bits} {n len : ℕ}
      → slice_ends bs ≡ false
      → address_tests (peek bs) ≡ number n len
      → Runs bs (by n, skip bs len)
  fails :
      {bs : Bits} → slice_ends bs ≡ false → address_tests (peek bs) ≡ nothing → Runs bs (bad, bs)
  stuffed :
      {bs : Bits} {out : Increment × Bits}
      → slice_ends bs ≡ false
      → address_tests (peek bs) ≡ stuffing
      → Runs (skip bs 11) out
      → Runs bs out
  escapes :
      {bs : Bits} {out : Increment × Bits}
      → slice_ends bs ≡ false
      → address_tests (peek bs) ≡ escape
      → Runs (skip bs 11) out
      → Runs bs (add_escape out.0, out.1)
