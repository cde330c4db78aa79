-- ===== src/Gem/Buffers/Table.antt =====
-- The table of buffer objects as a map from handles to buffers.
use haiku_vaio_vpceb3k1e.Prelude.{
  ℕ, suc, ◌+◌, ◌≤◌, ◌<◌, ◌≡◌, refl, ap, ◌∙◌, sym, true, false, List, [], ◌∷◌, Option, none, some,
  arith, if◌then◌else◌, ◌==◌, set, Bool-cases, Option-cases, ==_iff, subst, inl, inr,
}
use haiku_vaio_vpceb3k1e.Gem.Buffers.{Buffer, has_handle, free_slot, find}

-- No buffer in use has the handle `h`.
abbrev pub Unused : ℕ → List Buffer → Type 0
Unused h [] = Unit {0}
Unused h (o ∷ os) = (has_handle h o ≡ false) × Unused h os

-- No two buffers in use share a handle.
abbrev pub Distinct : List Buffer → Type 0
Distinct [] = Unit {0}
Distinct (o ∷ os) = (o.in_use ≡ true → Unused o.handle os) × Distinct os

-- The handles in use are below `n`.
abbrev pub Below : ℕ → List Buffer → Type 0
Below n [] = Unit {0}
Below n (o ∷ os) = (o.in_use ≡ true → o.handle < n) × Below n os

abbrev pub live : List Buffer → ℕ
live [] = 0
live (o ∷ os) = (if o.in_use then 1 else 0) + live os

pub find-Unused : (h : ℕ) (os : List Buffer) → Unused h os → find h os ≡ none
unfolding find
find-Unused h [] u = refl
find-Unused h (o ∷ os) u = rw u.0 (find-Unused h os u.1)

pub Unused-of_find : (h : ℕ) (os : List Buffer) → find h os ≡ none → Unused h os
unfolding find
Unused-of_find h [] e = tt
Unused-of_find h (o ∷ os) e = elim (Bool-cases (has_handle h o)) [
  | inl y ↦ absurd (found (rw y at e))
  | inr n ↦ (n, Unused-of_find h os (rw n at e))
]
  where
    found : some o ≡ none → ⊥
    found x = cc

pub Unused-Below : (n : ℕ) (os : List Buffer) → Below n os → Unused n os
Unused-Below n [] b = tt
Unused-Below n (o ∷ os) b = (ground (arith, b.0), Unused-Below n os b.1)

pub Below-mono : (m n : ℕ) (os : List Buffer) → m ≤ n → Below m os → Below n os
Below-mono m n [] le b = tt
Below-mono m n (o ∷ os) le b = (λ u. omega (arith, b.0 u), Below-mono m n os le b.1)

some_inj : (i j : ℕ) → some i ≡ some j → i ≡ j
some_inj i j e = cc

-- The first free slot of a table whose first slot is in use.
pub free_slot-used :
    (o : Buffer) (os : List Buffer) (i : ℕ)
    → o.in_use ≡ true
    → free_slot (o ∷ os) ≡ some i
    → (k : ℕ) × (free_slot os ≡ some k) × (i ≡ suc k)
unfolding free_slot
free_slot-used o os i used e = elim (Option-cases (free_slot os)) [
  | inl e0 ↦ absurd (nowhere (rw (used, e0) at e))
  | inr y ↦ (y.0, y.1, sym (some_inj (suc y.0) i (rw (used, y.1) at e)))
]
  where
    nowhere : none ≡ some i → ⊥
    nowhere x = cc

pub free_slot-free :
    (o : Buffer) (os : List Buffer) (i : ℕ) → o.in_use ≡ false → free_slot (o ∷ os) ≡ some i → i ≡ 0
unfolding free_slot
free_slot-free o os i free e = sym (some_inj 0 i (rw free at e))

later :
    (h n : ℕ) (new : Buffer) (o : Buffer) (x y : Option Buffer)
    → has_handle n o ≡ false
    → x ≡ (if n == h then some new else y)
    → (if has_handle h o then some o else x)
      ≡ (if n == h then some new else (if has_handle h o then some o else y))
later h n new o x y u e = elim (Bool-cases (n == h)) [
  | inl same ↦
      rw same (rw (subst (λ m. has_handle m o ≡ false) ((==_iff n h).0 same) u) (e ∙ rw same refl))
  | inr other ↦ rw other (ap (λ z. if has_handle h o then some o else z) (e ∙ rw other refl))
]

-- A buffer put into the first free slot.
pub find-set :
    (h : ℕ) (new : Buffer) (os : List Buffer) (i : ℕ)
    → free_slot os ≡ some i
    → new.in_use ≡ true
    → Unused new.handle os
    → find h (set os i new) ≡ (if new.handle == h then some new else find h os)
unfolding find free_slot
find-set h new [] i e u f = absurd (nowhere e)
  where
    nowhere : none ≡ some i → ⊥
    nowhere x = cc
find-set h new (o ∷ os) i e u f = elim (Bool-cases o.in_use) [
  | inl used ↦
      let s = free_slot-used o os i used e in
      rw s.2 (
        later h new.handle new o (find h (set os s.0 new)) (find h os) f.0
          (find-set h new os s.0 s.1 u f.1))
  | inr free ↦ rw (free_slot-free o os i free e) (rw (free, u) refl)
]
