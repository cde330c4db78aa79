-- ===== src/Mpeg2/Macroblock/Resync.antt =====
-- The search of mpeg2_parser.cpp for the type of a macroblock whose type is not found in place.
use haiku_vaio_vpceb3k1e.Prelude.{
  ℕ, zero, suc, ◌+◌, ◌-◌, ◌<◌, ◌≡◌, refl, sym, ap, subst, ◌∙◌, Bool, true, false, ◌&&◌, Option,
  none, some, if◌then◌else◌, arith, ◌==◌, leb,
}
use haiku_vaio_vpceb3k1e.Mpeg2.Bits.{Bits, peek, skip}
use haiku_vaio_vpceb3k1e.Mpeg2.Macroblock.Decoders.{resync_type, at_bit, starts, found_or}

if-some {ℓ} :
    {A : Type ℓ} (b : Bool) (o : Option A) (t : A) → (if b then o else none) ≡ some t → o ≡ some t
if-some true o t h = h
if-some false o t h = absurd (cc h)

some-inj {ℓ} : {A : Type ℓ} {x y : A} → some x ≡ some y → x ≡ y
some-inj e = cc

starts-some {ℓ} :
    {A : Type ℓ} (type : Bits → Option A × Bits) (bs : Bits) (t : A)
    → starts type bs ≡ some t
    → (type (skip bs 1)).0 ≡ some t
starts-some type bs t h = if-some (peek bs 1 == 1) (type (skip bs 1)).0 t h

skip-aligned : (bs : Bits) (n : ℕ) → (skip bs n).bit_pos < 8
unfolding skip
skip-aligned bs n = omega arith

found_at {ℓ} :
    {A : Type ℓ} (type : Bits → Option A × Bits) (there : Bits) (u : A) (next : Bits) (t : A)
    → starts type there ≡ some u
    → ◌≡◌ {A = Bits × A} (skip there 1, u) (next, t)
    → ((type next).0 ≡ some t) × (next.bit_pos < 8)
found_at {A = A} type there u next t e same = (
  ap (λ (r : Bits × A). (type r.0).0) (sym same)
      ∙ starts-some type there u e
      ∙ ap (λ (r : Bits × A). some r.1) same,
  subst (λ (b : Bits). b.bit_pos < 8) (ap (λ (r : Bits × A). r.0) same) (skip-aligned there 1),
)

-- One round: the type is found in place, or by the rounds behind it.
found_or-round {ℓ} :
    {A : Type ℓ} (type : Bits → Option A × Bits) (there : Bits) (inside : Bool) (o : Option A)
    (rest : Option (Bits × A)) (next : Bits) (t : A)
    → (if inside then starts type there else none) ≡ o
    → (rest ≡ some (next, t) → ((type next).0 ≡ some t) × (next.bit_pos < 8))
    → found_or (skip there 1) o rest ≡ some (next, t)
    → ((type next).0 ≡ some t) × (next.bit_pos < 8)
found_or-round type there inside none rest next t e h found = h found
found_or-round type there inside (some u) rest next t e h found =
    found_at type there u next t (if-some inside (starts type there) u e) (some-inj found)

-- Where the search finds a type, the reader that it returns stands in front of the code of that type:
-- decoding there takes the same type once more.
pub resync_type-found {ℓ} :
    {A : Type ℓ} (type : Bits → Option A × Bits) (room : Bits → Bool) (left : ℕ) (bs : Bits)
    (back shifted : ℕ) (next : Bits) (t : A)
    → resync_type type room left bs back shifted ≡ some (next, t)
    → ((type next).0 ≡ some t) × (next.bit_pos < 8)
unfolding resync_type
resync_type-found type room zero bs back shifted next t h = absurd (cc h)
resync_type-found type room (suc left) bs back shifted next t h =
    found_or-round type (at_bit bs (shifted - back))
      (leb back shifted && room (at_bit bs (shifted - back))) _
      (resync_type type room left bs back (shifted + 1)) next t refl
      (resync_type-found type room left bs back (shifted + 1) next t) h
