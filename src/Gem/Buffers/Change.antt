-- ===== src/Gem/Buffers/Change.antt =====
-- A new buffer and a released one in the table of buffer objects.
use haiku_vaio_vpceb3k1e.Prelude.{
  ℕ, suc, ◌+◌, ◌<◌, ◌≡◌, ◌≢◌, refl, ap, ◌∙◌, sym, true, false, List, [], ◌∷◌, none, some, arith,
  if◌then◌else◌, ◌==◌, set, length, Bool-cases, ==_iff, subst, inl, inr,
}
use haiku_vaio_vpceb3k1e.Gem.Buffers.{Buffer, has_handle, free_slot, find, release}
use haiku_vaio_vpceb3k1e.Gem.Buffers.Table.{
  Unused, Distinct, Below, live, find-Unused, free_slot-used, free_slot-free,
}

module _ (new : Buffer) (in_use : new.in_use ≡ true) where
  nowhere : (i : ℕ) → free_slot [] ≡ some i → ⊥
  unfolding free_slot
  nowhere i e = cc

  pub Unused-set :
      (h : ℕ) (os : List Buffer) (i : ℕ)
      → free_slot os ≡ some i
      → new.handle ≢ h
      → Unused h os
      → Unused h (set os i new)
  Unused-set h [] i e ne u = absurd (nowhere i e)
  Unused-set h (o ∷ os) i e ne u = elim (Bool-cases o.in_use) [
    | inl used ↦
        let s = free_slot-used o os i used e in rw s.2 (u.0, Unused-set h os s.0 s.1 ne u.1)
    | inr free ↦ rw (free_slot-free o os i free e) (ground (arith, ne), u.1)
  ]

  pub Distinct-set :
      (os : List Buffer) (i : ℕ)
      → free_slot os ≡ some i
      → Below new.handle os
      → Unused new.handle os
      → Distinct os
      → Distinct (set os i new)
  Distinct-set [] i e b u d = absurd (nowhere i e)
  Distinct-set (o ∷ os) i e b u d = elim (Bool-cases o.in_use) [
    | inl used ↦
        let s = free_slot-used o os i used e in
        rw s.2 (
          λ w. Unused-set o.handle os s.0 s.1 (λ same. omega (arith, b.0 w, same)) (d.0 w),
          Distinct-set os s.0 s.1 b.1 u.1 d.1,
        )
    | inr free ↦ rw (free_slot-free o os i free e) (λ w. u.1, d.1)
  ]

  pub Below-set :
      (n : ℕ) (os : List Buffer) (i : ℕ)
      → free_slot os ≡ some i
      → new.handle < n
      → Below n os
      → Below n (set os i new)
  Below-set n [] i e lt b = absurd (nowhere i e)
  Below-set n (o ∷ os) i e lt b = elim (Bool-cases o.in_use) [
    | inl used ↦ let s = free_slot-used o os i used e in rw s.2 (b.0, Below-set n os s.0 s.1 lt b.1)
    | inr free ↦ rw (free_slot-free o os i free e) (λ w. lt, b.1)
  ]

  pub live-set :
      (os : List Buffer) (i : ℕ) → free_slot os ≡ some i → live (set os i new) ≡ suc (live os)
  live-set [] i e = absurd (nowhere i e)
  live-set (o ∷ os) i e = elim (Bool-cases o.in_use) [
    | inl used ↦
        let s = free_slot-used o os i used e in
        rw s.2 (rw used (ap (λ k. 1 + k) (live-set os s.0 s.1) ∙ omega arith))
    | inr free ↦ rw (free_slot-free o os i free e) (rw (in_use, free) (omega arith))
  ]

pub Unused-release : (k h : ℕ) (os : List Buffer) → Unused k os → Unused k (release h os)
unfolding release
Unused-release k h [] u = tt
Unused-release k h (o ∷ os) u = elim (Bool-cases (has_handle h o)) [
  | inl y ↦ rw y (refl, u.1)
  | inr n ↦ rw n (u.0, Unused-release k h os u.1)
]

pub Distinct-release : (h : ℕ) (os : List Buffer) → Distinct os → Distinct (release h os)
unfolding release
Distinct-release h [] d = tt
Distinct-release h (o ∷ os) d = elim (Bool-cases (has_handle h o)) [
  | inl y ↦ rw y (λ w. d.0 (has_used h o y), d.1)
  | inr n ↦ rw n (λ w. Unused-release o.handle h os (d.0 w), Distinct-release h os d.1)
]
  where
    has_used : (h : ℕ) (o : Buffer) → has_handle h o ≡ true → o.in_use ≡ true
    has_used h o y = ground arith

pub Below-release : (n h : ℕ) (os : List Buffer) → Below n os → Below n (release h os)
unfolding release
Below-release n h [] b = tt
Below-release n h (o ∷ os) b = elim (Bool-cases (has_handle h o)) [
  | inl y ↦ rw y (λ w. absurd (off w), b.1)
  | inr m ↦ rw m (b.0, Below-release n h os b.1)
]
  where
    off : false ≡ true → ⊥
    off w = cc

pub length-release : (h : ℕ) (os : List Buffer) → length (release h os) ≡ length os
unfolding release
length-release h [] = refl
length-release h (o ∷ os) = elim (Bool-cases (has_handle h o)) [
  | inl y ↦ rw y refl
  | inr n ↦ rw n (ap suc (length-release h os))
]

pub live-release :
    (h : ℕ) (os : List Buffer) (o : Buffer)
    → find h os ≡ some o
    → suc (live (release h os)) ≡ live os
unfolding release find
live-release h [] b e = absurd (off e)
  where
    off : none ≡ some b → ⊥
    off w = cc
live-release h (o ∷ os) b e = elim (Bool-cases (has_handle h o)) [
  | inl y ↦ rw y (rw (has_used y) (omega arith))
  | inr n ↦ rw n (omega (arith, live-release h os b (rw n at e)))
]
  where
    has_used : has_handle h o ≡ true → o.in_use ≡ true
    has_used y = ground arith

handle_of : (h : ℕ) (o : Buffer) → has_handle h o ≡ true → (o.in_use ≡ true) × (o.handle ≡ h)
handle_of h o y = ground arith

has_handle-ne :
    (k h : ℕ) (o : Buffer) → has_handle h o ≡ true → (k == h) ≡ false → has_handle k o ≡ false
has_handle-ne k h o y ne = ground arith

-- A handle that is released is found no more, and the others are found as before.
pub find-release :
    (k h : ℕ) (os : List Buffer)
    → Distinct os
    → find k (release h os) ≡ (if k == h then none else find k os)
unfolding release find
find-release k h [] d = elim (Bool-cases (k == h)) [ inl e ↦ rw e refl | inr e ↦ rw e refl ]
find-release k h (o ∷ os) d = elim (Bool-cases (has_handle h o)) [
  | inl y ↦ rw y (elim (Bool-cases (k == h)) [
    | inl e ↦ rw e (find-Unused k os (subst (λ m. Unused m os) (key y e) (d.0 (handle_of h o y).0)))
    | inr e ↦ rw e (rw (has_handle-ne k h o y e) refl)
  ])
  | inr n ↦ rw n (elim (Bool-cases (k == h)) [
    | inl e ↦ rw e (
        rw (subst (λ m. has_handle m o ≡ false) (sym ((==_iff k h).0 e)) n)
          (find-release k h os d.1 ∙ rw e refl))
    | inr e ↦
        rw e (ap (λ z. if has_handle k o then some o else z) (find-release k h os d.1 ∙ rw e refl))
  ])
]
  where
    key : has_handle h o ≡ true → (k == h) ≡ true → o.handle ≡ k
    key y e = (handle_of h o y).1 ∙ sym ((==_iff k h).0 e)
