-- ===== src/Gem2d/Init.antt =====
-- The initialisation of gem2d.cpp, and what it takes back where it fails.
use haiku_vaio_vpceb3k1e.Prelude.{
  ℕ, zero, suc, ◌≡◌, ◌≢◌, refl, ap, ap₂, ◌++◌, append-nil, append_assoc, if◌then◌else◌, ==-ne, sym,
  subst, ◌∙◌, Bool, true, false, Option, none, some, List, [], ◌∷◌, ◌==◌, length, length-set, set,
  get_or, arith, Bool-cases, inl, inr, if_true, if_false, ==_iff,
}
use haiku_vaio_vpceb3k1e.Gem2d.{
  State, Request, close, delete_area, Kernel, Status, ok, not_supported, failed, batch_size,
  handle_of, ask, create, clone_area, release_area, release_handle, release_batch, gem2d_uninit,
  take_clone, take_buffer, create_batch, then_batch, ready, gem2d_init,
}

set-get_or {ℓ} : {A : Type ℓ} (xs : List A) (i : ℕ) (d : A) → set xs i (get_or xs i d) ≡ xs
set-get_or [] i d = refl
set-get_or (x ∷ xs) zero d = refl
set-get_or (x ∷ xs) (suc i) d = ap (λ l. x ∷ l) (set-get_or xs i d)

-- What releasing batch `i` leaves.
record IsReleased (i : ℕ) (s t : State) : Type 0 where
  handles : t.handles ≡ set s.handles i 0
  areas : t.areas ≡ set s.areas i none
  available : t.available ≡ s.available

release_area-IsReleased :
    (i : ℕ) (o : Option ℕ) (s : State)
    → get_or s.areas i none ≡ o
    → ((release_area i o s).areas ≡ set s.areas i none)
      × ((release_area i o s).handles ≡ s.handles)
      × ((release_area i o s).available ≡ s.available)
release_area-IsReleased i none s e =
    (sym (set-get_or s.areas i none) ∙ ap (set s.areas i) e, refl, refl)
release_area-IsReleased i (some area) s e = (refl, refl, refl)

release_handle-IsReleased :
    (i : ℕ) (s : State)
    → ((release_handle i s).handles ≡ set s.handles i 0)
      × ((release_handle i s).areas ≡ s.areas)
      × ((release_handle i s).available ≡ s.available)
release_handle-IsReleased i s = by_test (handle_of s i == 0) refl
  where
    P : State → Type 0
    P t = (t.handles ≡ set s.handles i 0) × (t.areas ≡ s.areas) × (t.available ≡ s.available)

    by_test : (b : Bool) → (handle_of s i == 0) ≡ b → P (release_handle i s)
    by_test true e = subst P (sym (if_true _ _ e)) (
      sym (set-get_or s.handles i 0) ∙ ap (set s.handles i) ((==_iff (handle_of s i) 0).0 e),
      refl,
      refl,
    )
    by_test false e = subst P (sym (if_false _ _ e)) (refl, refl, refl)

release_batch-IsReleased : (i : ℕ) (s : State) → IsReleased i s (release_batch i s)
unfolding release_batch
release_batch-IsReleased i s =
    let a = release_area-IsReleased i (get_or s.areas i none) s refl in
    let h = release_handle-IsReleased i (release_area i (get_or s.areas i none) s) in
    record { handles = h.0 ∙ ap (λ l. set l i 0) a.1; areas = h.1 ∙ a.0; available = h.2 ∙ a.2 }

-- Off, without handles and areas.
pub record IsCleared (s : State) : Type 0 where
  pub available : s.available ≡ false
  pub handles : s.handles ≡ 0 ∷ 0 ∷ []
  pub areas : s.areas ≡ none ∷ none ∷ []

set_both {ℓ} :
    {A : Type ℓ} (xs : List A) (d : A) → length xs ≡ 2 → set (set xs 0 d) 1 d ≡ d ∷ d ∷ []
set_both [] d e = absurd (omega arith)
set_both (x ∷ []) d e = absurd (omega arith)
set_both (x ∷ y ∷ []) d e = refl
set_both (x ∷ y ∷ z ∷ xs) d e = absurd (omega arith)

gem2d_uninit-IsCleared :
    (s : State) → length s.handles ≡ 2 → length s.areas ≡ 2 → IsCleared (gem2d_uninit s)
unfolding gem2d_uninit
gem2d_uninit-IsCleared s h a = record {
  available = r1.available ∙ r0.available;
  handles = r1.handles ∙ ap (λ l. set l 1 0) r0.handles ∙ set_both s.handles 0 h;
  areas = r1.areas ∙ ap (λ l. set l 1 none) r0.areas ∙ set_both s.areas none a;
}
  where
    off : State
    off = record s { available = false }

    r0 : IsReleased 0 off (release_batch 0 off)
    r0 = release_batch-IsReleased 0 off

    r1 : IsReleased 1 (release_batch 0 off) (release_batch 1 (release_batch 0 off))
    r1 = release_batch-IsReleased 1 (release_batch 0 off)

-- The outcome of gem2d_init by the kernel's answers, `created` being the handle and the area of each
-- buffer: the state, and the requests made in their order.
pub data IsInitialised (kernel : Kernel) (s : State) : Status × State → Type 0 where
  no_gem : kernel.has_gem ≡ false → IsInitialised kernel s (not_supported, s)
  on :
      {h0 a0 c0 h1 a1 c1 : ℕ} {t : State}
      → kernel.has_gem ≡ true
      → kernel.created 0 ≡ some (h0, a0)
      → kernel.cloned a0 ≡ some c0
      → kernel.created 1 ≡ some (h1, a1)
      → kernel.cloned a1 ≡ some c1
      → t.available ≡ true
      → t.handles ≡ h0 ∷ h1 ∷ []
      → t.areas ≡ some c0 ∷ some c1 ∷ []
      → t.log
        ≡ s.log ++ (create batch_size ∷ clone_area a0 ∷ create batch_size ∷ clone_area a1 ∷ [])
      → IsInitialised kernel s (ok, t)
  no_first :
      {t : State}
      → kernel.has_gem ≡ true
      → kernel.created 0 ≡ none
      → IsCleared t
      → t.log ≡ s.log ++ (create batch_size ∷ [])
      → IsInitialised kernel s (failed, t)
  no_first_clone :
      {h0 a0 : ℕ} {t : State}
      → kernel.has_gem ≡ true
      → kernel.created 0 ≡ some (h0, a0)
      → kernel.cloned a0 ≡ none
      → IsCleared t
      → t.log ≡ s.log ++ (create batch_size ∷ clone_area a0 ∷ close h0 ∷ [])
      → IsInitialised kernel s (failed, t)
  no_second :
      {h0 a0 c0 : ℕ} {t : State}
      → kernel.has_gem ≡ true
      → kernel.created 0 ≡ some (h0, a0)
      → kernel.cloned a0 ≡ some c0
      → kernel.created 1 ≡ none
      → IsCleared t
      → t.log
        ≡ s.log
          ++ (create batch_size
              ∷ clone_area a0
              ∷ create batch_size
              ∷ delete_area c0
              ∷ close h0
              ∷ [])
      → IsInitialised kernel s (failed, t)
  no_second_clone :
      {h0 a0 c0 h1 a1 : ℕ} {t : State}
      → kernel.has_gem ≡ true
      → kernel.created 0 ≡ some (h0, a0)
      → kernel.cloned a0 ≡ some c0
      → kernel.created 1 ≡ some (h1, a1)
      → kernel.cloned a1 ≡ none
      → IsCleared t
      → t.log
        ≡ s.log
          ++ (create batch_size
              ∷ clone_area a0
              ∷ create batch_size
              ∷ clone_area a1
              ∷ delete_area c0
              ∷ close h0
              ∷ close h1
              ∷ [])
      → IsInitialised kernel s (failed, t)

-- What gem2d_uninit leaves of two batches of which the area of the first alone may be there.
abbrev closes : ℕ → List Request
closes h = if h == 0 then [] else close h ∷ []

abbrev deletes : Option ℕ → List Request
deletes none = []
deletes (some area) = delete_area area ∷ []

release_area-log :
    (i : ℕ) (o : Option ℕ) (s : State) → (release_area i o s).log ≡ s.log ++ deletes o
release_area-log i none s = sym (append-nil s.log)
release_area-log i (some area) s = refl

release_handle-log :
    (i : ℕ) (s : State) → (release_handle i s).log ≡ s.log ++ closes (handle_of s i)
release_handle-log i s = elim (Bool-cases (handle_of s i == 0)) [
  | inl e ↦
      ap (λ (t : State). t.log) (if_true _ _ e)
      ∙ sym (append-nil s.log)
      ∙ ap (λ l. s.log ++ l) (sym (if_true _ _ e))
  | inr e ↦ ap (λ (t : State). t.log) (if_false _ _ e) ∙ ap (λ l. s.log ++ l) (sym (if_false _ _ e))
]

abbrev given_back : Option ℕ → ℕ → List Request
given_back area h = deletes area ++ closes h

release_batch-log :
    (i : ℕ) (s : State)
    → (release_batch i s).log ≡ s.log ++ given_back (get_or s.areas i none) (handle_of s i)
unfolding release_batch
release_batch-log i s =
    let o = get_or s.areas i none in
    release_handle-log i (release_area i o s)
    ∙ ap₂ (λ l (hs : List ℕ). l ++ closes (get_or hs i 0)) (release_area-log i o s)
        (release_area-IsReleased i o s refl).1
    ∙ append_assoc s.log (deletes o) (closes (handle_of s i))

-- gem2d_uninit deletes the areas and closes the handles that there are.
gem2d_uninit-log :
    (s : State) (h0 h1 : ℕ) (a0 a1 : Option ℕ)
    → s.handles ≡ h0 ∷ h1 ∷ []
    → s.areas ≡ a0 ∷ a1 ∷ []
    → (gem2d_uninit s).log ≡ s.log ++ (given_back a0 h0 ++ given_back a1 h1)
unfolding gem2d_uninit
gem2d_uninit-log s h0 h1 a0 a1 hs as_ =
    release_batch-log 1 (release_batch 0 off)
    ∙ ap₂ (λ l b. l ++ b)
        (release_batch-log 0 off
          ∙ ap₂ (λ a h. s.log ++ given_back (get_or a 0 none) (get_or h 0 0)) as_ hs)
        (ap₂ (λ a h. given_back (get_or a 1 none) (get_or h 1 0))
          (r0.areas ∙ ap (λ l. set l 0 none) as_) (r0.handles ∙ ap (λ l. set l 0 0) hs))
    ∙ append_assoc s.log (given_back a0 h0) (given_back a1 h1)
  where
    off : State
    off = record s { available = false }

    r0 : IsReleased 0 off (release_batch 0 off)
    r0 = release_batch-IsReleased 0 off

closes-some : (h : ℕ) → h ≢ 0 → closes h ≡ close h ∷ []
closes-some h ne = if_false _ _ (==-ne h 0 ne)

module _ (kernel : Kernel) (start : State)
    (named : (i h a : ℕ) → kernel.created i ≡ some (h, a) → h ≢ 0) where
  -- Without handles and areas.
  abbrev fresh : State
  fresh = record start { handles = 0 ∷ 0 ∷ []; areas = none ∷ none ∷ [] }

  from_clone1 :
      (h0 a0 c0 h1 a1 : ℕ) (s : State) (o : Option ℕ)
      → kernel.has_gem ≡ true
      → kernel.created 0 ≡ some (h0, a0)
      → kernel.cloned a0 ≡ some c0
      → kernel.created 1 ≡ some (h1, a1)
      → kernel.cloned a1 ≡ o
      → s.handles ≡ h0 ∷ h1 ∷ []
      → s.areas ≡ some c0 ∷ none ∷ []
      → s.log
        ≡ fresh.log ++ (create batch_size ∷ clone_area a0 ∷ create batch_size ∷ clone_area a1 ∷ [])
      → IsInitialised kernel fresh (then_batch ready (take_clone 1 o s))
  from_clone1 h0 a0 c0 h1 a1 s (some c1) g e0 f0 e1 f1 hs areas log =
      on g e0 f0 e1 f1 refl hs (ap (λ l. set l 1 (some c1)) areas) log
  from_clone1 h0 a0 c0 h1 a1 s none g e0 f0 e1 f1 hs areas log =
      no_second_clone g e0 f0 e1 f1
        (gem2d_uninit-IsCleared lost (ap length hs) (length-set s.areas 1 none ∙ ap length areas))
        (gem2d_uninit-log lost h0 h1 (some c0) none hs (ap (λ l. set l 1 none) areas)
          ∙ ap₂ (λ a (b : List Request). a ++ b) log
              (ap₂ (λ (a b : List Request). delete_area c0 ∷ (a ++ b))
                (closes-some h0 (named 0 h0 a0 e0)) (closes-some h1 (named 1 h1 a1 e1)))
          ∙ append_assoc start.log _ _)
    where
      lost : State
      lost = record s { areas = set s.areas 1 none }

  from_buffer1 :
      (h0 a0 c0 : ℕ) (s : State) (o : Option (ℕ × ℕ))
      → kernel.has_gem ≡ true
      → kernel.created 0 ≡ some (h0, a0)
      → kernel.cloned a0 ≡ some c0
      → kernel.created 1 ≡ o
      → s.handles ≡ h0 ∷ 0 ∷ []
      → s.areas ≡ some c0 ∷ none ∷ []
      → s.log ≡ fresh.log ++ (create batch_size ∷ clone_area a0 ∷ create batch_size ∷ [])
      → IsInitialised kernel fresh (then_batch ready (take_buffer kernel 1 o s))
  from_buffer1 h0 a0 c0 s (some (h1, a1)) g e0 f0 e1 hs areas log =
      from_clone1 h0 a0 c0 h1 a1
        (ask (record s { handles = set s.handles 1 h1 }) (clone_area a1 ∷ [])) (kernel.cloned a1) g
        e0 f0 e1 refl (ap (λ l. set l 1 h1) hs) areas
        (ap (λ l. l ++ (clone_area a1 ∷ [])) log ∙ append_assoc start.log _ _)
  from_buffer1 h0 a0 c0 s none g e0 f0 e1 hs areas log =
      no_second g e0 f0 e1 (gem2d_uninit-IsCleared s (ap length hs) (ap length areas)) (
        gem2d_uninit-log s h0 0 (some c0) none hs areas
        ∙ ap₂ (λ a (b : List Request). a ++ b) log
            (ap (λ (a : List Request). delete_area c0 ∷ (a ++ []))
              (closes-some h0 (named 0 h0 a0 e0)))
        ∙ append_assoc start.log _ _)

  from_clone0 :
      (h0 a0 : ℕ) (s : State) (o : Option ℕ)
      → kernel.has_gem ≡ true
      → kernel.created 0 ≡ some (h0, a0)
      → kernel.cloned a0 ≡ o
      → s.handles ≡ h0 ∷ 0 ∷ []
      → s.areas ≡ none ∷ none ∷ []
      → s.log ≡ fresh.log ++ (create batch_size ∷ clone_area a0 ∷ [])
      → IsInitialised kernel fresh
          (then_batch (λ t. then_batch ready (create_batch kernel 1 t)) (take_clone 0 o s))
  unfolding create_batch
  from_clone0 h0 a0 s (some c0) g e0 f0 hs areas log =
      from_buffer1 h0 a0 c0
        (ask (record s { areas = set s.areas 0 (some c0) }) (create batch_size ∷ []))
        (kernel.created 1) g e0 f0 refl hs (ap (λ l. set l 0 (some c0)) areas)
        (ap (λ l. l ++ (create batch_size ∷ [])) log ∙ append_assoc start.log _ _)
  from_clone0 h0 a0 s none g e0 f0 hs areas log =
      no_first_clone g e0 f0
        (gem2d_uninit-IsCleared lost (ap length hs) (length-set s.areas 0 none ∙ ap length areas))
        (gem2d_uninit-log lost h0 0 none none hs (ap (λ l. set l 0 none) areas)
          ∙ ap₂ (λ a (b : List Request). a ++ b) log
              (ap (λ (a : List Request). a ++ []) (closes-some h0 (named 0 h0 a0 e0)))
          ∙ append_assoc start.log _ _)
    where
      lost : State
      lost = record s { areas = set s.areas 0 none }

  from_buffer0 :
      (o : Option (ℕ × ℕ))
      → kernel.has_gem ≡ true
      → kernel.created 0 ≡ o
      → IsInitialised kernel fresh (
          then_batch
            (λ t. then_batch ready (create_batch kernel 1 t))
            (take_buffer kernel 0 o (ask fresh (create batch_size ∷ []))))
  from_buffer0 (some (h0, a0)) g e0 =
      from_clone0 h0 a0
        (ask (record (ask fresh (create batch_size ∷ [])) { handles = h0 ∷ 0 ∷ [] })
          (clone_area a0 ∷ []))
        (kernel.cloned a0) g e0 refl refl refl (append_assoc start.log _ _)
  from_buffer0 none g e0 = no_first g e0 (gem2d_uninit-IsCleared _ refl refl) (
      gem2d_uninit-log (ask fresh (create batch_size ∷ [])) 0 0 none none refl refl
      ∙ append-nil (start.log ++ (create batch_size ∷ [])))

  from_fresh : IsInitialised kernel fresh (gem2d_init kernel fresh)
  unfolding gem2d_init create_batch
  from_fresh = elim (Bool-cases kernel.has_gem) [
    | inl has ↦
        subst (IsInitialised kernel fresh) (sym (if_true _ _ has))
          (from_buffer0 (kernel.created 0) has refl)
    | inr lacks ↦ subst (IsInitialised kernel fresh) (sym (if_false _ _ lacks)) (no_gem lacks)
  ]

-- From an accelerant that has no handles and areas, with a kernel that gives no buffer the handle 0,
-- gem2d_init either reports that the kernel has no GEM, and changes nothing, or turns the path on with
-- the two buffers and clones that the kernel gave, or fails at the first buffer or clone that is missing,
-- and then the path is off, no handle and no area is left, and the areas and handles that it had got
-- are deleted and closed, those of the first batch first.
pub gem2d_init-IsInitialised :
    (kernel : Kernel) (s : State)
    → ((i h a : ℕ) → kernel.created i ≡ some (h, a) → h ≢ 0)
    → s.handles ≡ 0 ∷ 0 ∷ []
    → s.areas ≡ none ∷ none ∷ []
    → IsInitialised kernel s (gem2d_init kernel s)
gem2d_init-IsInitialised kernel s named hs no_areas =
    subst (λ h. Goal h s.areas) (sym hs)
      (subst (Goal (0 ∷ 0 ∷ [])) (sym no_areas) (from_fresh kernel s named))
  where
    Goal : List ℕ → List (Option ℕ) → Type 0
    Goal h a =
        IsInitialised kernel (record s { handles = h; areas = a })
          (gem2d_init kernel (record s { handles = h; areas = a }))
