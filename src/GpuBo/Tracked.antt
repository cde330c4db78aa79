-- ===== src/GpuBo/Tracked.antt =====
-- Allocating and freeing objects in gpu_bo.cpp keeps the table of live objects true.
use haiku_vaio_vpceb3k1e.Prelude.{
  ℕ, zero, suc, ◌+◌, ◌-◌, ◌%◌, ◌^◌, ◌≤◌, ◌<◌, ◌≡◌, ◌≢◌, refl, ap, ap₂, sym, subst, ◌∙◌, Bool, true,
  false, Option, none, some, List, [], ◌∷◌, if◌then◌else◌, ◌==◌, length, arith, Bool-cases,
  Option-cases, inl, inr, if_true, if_false, ==_iff, ==-ne,
}
use haiku_vaio_vpceb3k1e.GpuBo.{
  Bo, no_bo, State, Status, ok, bad_value, max_tracked_bos, set_bo, keep_entry, take_entry,
  clear_entry, with_entries, track_alloc, track_free, take_memory, gpu_bo_alloc, is_usable,
  gpu_bo_free,
}
use haiku_vaio_vpceb3k1e.GpuBo.Live.{
  times, taken, IsTracked, IsTaken, take_entry-IsTaken, IsClear, clear_entry-IsClear,
}

taken-le : (entries : List (Option ℕ)) → taken entries ≤ length entries
taken-le [] = omega arith
taken-le (none ∷ entries) = omega (arith, taken-le entries)
taken-le (some q ∷ entries) = omega (arith, taken-le entries)

different : false ≡ true → ⊥
different e = cc

-- An object that is not live is not in the table.
times-dead : (p : ℕ) (s : State) → IsTracked s → (s.bos p).valid ≡ false → times p s.live_bos ≡ 0
times-dead p s t dead = by_count (times p s.live_bos) (t.live p)
  where
    by_count : (n : ℕ) → (1 ≤ n → (s.bos p).valid ≡ true) → n ≡ 0
    by_count zero h = refl
    by_count (suc n) h = absurd (different (sym dead ∙ h (omega arith)))

set_bo-IsTracked :
    (p : ℕ) (bo : Bo) (s : State) → IsTracked s → times p s.live_bos ≡ 0 → IsTracked (set_bo p bo s)
set_bo-IsTracked p bo s t absent = record {
  length_table = t.length_table;
  count = t.count;
  once = t.once;
  live =
      λ q h. ap (λ (b : Bo). b.valid) (if_false bo (s.bos q) (==-ne q p (not_p q h))) ∙ t.live q h;
}
  where
    not_p : (q : ℕ) → 1 ≤ times q s.live_bos → q ≢ p
    not_p q h e = omega (arith, subst (λ r. 1 ≤ times r s.live_bos) e h, absent)

track_alloc-IsTracked :
    (p : ℕ) (s : State)
    → IsTracked s
    → times p s.live_bos ≡ 0
    → (s.bos p).valid ≡ true
    → IsTracked (track_alloc p s)
unfolding track_alloc
track_alloc-IsTracked p s t absent now = elim (Option-cases (take_entry p s.live_bos)) [
  | inl full ↦ subst (λ o. IsTracked (with_entries o ((s.live_count + 1) % 2 ^ 32) s)) (sym full) t
  | inr (after, e) ↦
      subst (λ o. IsTracked (with_entries o ((s.live_count + 1) % 2 ^ 32) s)) (sym e)
        (grown after (take_entry-IsTaken p s.live_bos after e))
]
  where
    grown :
        (after : List (Option ℕ))
        → IsTaken p s.live_bos after
        → IsTracked (with_entries (some after) ((s.live_count + 1) % 2 ^ 32) s)
    grown after k = record {
      length_table = k.same_length ∙ t.length_table;
      count = omega (arith, t.count, k.more, taken-le s.live_bos, t.length_table);
      once = λ q. elim (Bool-cases (q == p)) [
        | inl e ↦
            subst (λ r. times r after ≤ 1) (sym ((==_iff q p).0 e)) (omega (arith, k.here, absent))
        | inr e ↦ omega (arith, k.others q (other q e), t.once q)
      ];
      live = λ q h. elim (Bool-cases (q == p)) [
        | inl e ↦ subst (λ r. (s.bos r).valid ≡ true) (sym ((==_iff q p).0 e)) now
        | inr e ↦ t.live q (omega (arith, h, k.others q (other q e)))
      ];
    }
      where
        other : (q : ℕ) → (q == p) ≡ false → q ≢ p
        other q e f = absurd (different (sym e ∙ (==_iff q p).1 f))

take_memory-IsTracked :
    (aperture : ℕ) (o : Option ℕ) (p size alignment : ℕ) (s : State)
    → IsTracked s
    → times p s.live_bos ≡ 0
    → IsTracked (take_memory aperture o p size alignment s).1
unfolding take_memory
take_memory-IsTracked aperture none p size alignment s t absent = t
take_memory-IsTracked aperture (some base) p size alignment s t absent =
    track_alloc-IsTracked p (set_bo p bo s) (set_bo-IsTracked p bo s t absent) absent
      (ap (λ (b : Bo). b.valid) (if_true bo (s.bos p) ((==_iff p p).1 refl)))
  where
    bo : Bo
    bo = record {
      cpu_addr = base;
      gtt_offset = (base + 2 ^ 64 - aperture) % 2 ^ 32;
      size = size;
      alignment = alignment;
      valid = true;
    }

gpu_bo_alloc-IsTracked :
    (aperture : ℕ) (allocate : ℕ → Option ℕ) (p size alignment : ℕ) (s : State)
    → IsTracked s
    → (s.bos p).valid ≡ false
    → IsTracked (gpu_bo_alloc aperture allocate p size alignment s).1
unfolding gpu_bo_alloc
gpu_bo_alloc-IsTracked aperture allocate p size alignment s t dead = by_tests (p == 0) (size == 0)
  where
    absent : times p s.live_bos ≡ 0
    absent = times-dead p s t dead

    cleared : IsTracked (set_bo p no_bo s)
    cleared = set_bo-IsTracked p no_bo s t absent

    by_tests :
        (b c : Bool)
        → IsTracked
            (if b
              then (bad_value, s)
              else if c
              then (bad_value, set_bo p no_bo s)
              else take_memory aperture (allocate size) p size alignment (set_bo p no_bo s)).1
    by_tests true c = t
    by_tests false true = cleared
    by_tests false false =
        take_memory-IsTracked aperture (allocate size) p size alignment (set_bo p no_bo s) cleared
          absent

keep_entry-none :
    (entry : Option ℕ) (o : Option (List (Option ℕ))) → keep_entry entry o ≡ none → o ≡ none
keep_entry-none entry none h = refl
keep_entry-none entry (some rest) h = absurd (cc h)

clear_entry-none :
    (p : ℕ) (entries : List (Option ℕ)) → clear_entry p entries ≡ none → times p entries ≡ 0
clear_entry-none p [] h = refl
clear_entry-none p (none ∷ entries) h =
    clear_entry-none p entries (keep_entry-none none (clear_entry p entries) h)
clear_entry-none p (some q ∷ entries) h = elim (Bool-cases (q == p)) [
  | inl e ↦ absurd (some_none (sym (if_true _ _ e) ∙ h))
  | inr e ↦
      ap₂ (λ (a b : ℕ). a + b) (if_false 1 0 e)
        (clear_entry-none p entries
          (keep_entry-none (some q) (clear_entry p entries) (sym (if_false _ _ e) ∙ h)))
]
  where
    some_none : {x : List (Option ℕ)} → some x ≡ none → ⊥
    some_none f = cc

gpu_bo_free-IsTracked : (p : ℕ) (s : State) → IsTracked s → IsTracked (gpu_bo_free p s).1
unfolding gpu_bo_free track_free
gpu_bo_free-IsTracked p s t = by_test (is_usable p s)
  where
    count : ℕ
    count = (s.live_count + 2 ^ 32 - 1) % 2 ^ 32

    shrunk :
        (after : List (Option ℕ))
        → IsClear p s.live_bos after
        → IsTracked (set_bo p no_bo (with_entries (some after) count s))
    shrunk after k =
        set_bo-IsTracked p no_bo (with_entries (some after) count s)
          (record {
            length_table = k.same_length ∙ t.length_table;
            count = omega (arith, t.count, k.less, taken-le s.live_bos, t.length_table);
            once = λ q. omega (arith, fewer q, t.once q);
            live = λ q h. t.live q (omega (arith, h, fewer q));
          })
          (omega (arith, k.here, t.once p))
      where
        fewer : (q : ℕ) → times q after ≤ times q s.live_bos
        fewer q = elim (Bool-cases (q == p)) [
          | inl e ↦
              subst (λ r. times r after ≤ times r s.live_bos) (sym ((==_iff q p).0 e))
                (omega (arith, k.here))
          | inr e ↦ omega (arith, k.others q (λ f. absurd (different (sym e ∙ (==_iff q p).1 f))))
        ]

    freed : IsTracked (set_bo p no_bo (with_entries (clear_entry p s.live_bos) count s))
    freed = elim (Option-cases (clear_entry p s.live_bos)) [
      | inl none_there ↦
          subst (λ o. IsTracked (set_bo p no_bo (with_entries o count s))) (sym none_there)
            (set_bo-IsTracked p no_bo s t (clear_entry-none p s.live_bos none_there))
      | inr (after, e) ↦
          subst (λ o. IsTracked (set_bo p no_bo (with_entries o count s))) (sym e)
            (shrunk after (clear_entry-IsClear p s.live_bos after e))
    ]

    by_test :
        (b : Bool)
        → IsTracked
            (if◌then◌else◌ {A = Option ℕ × State} b
              (some (s.bos p).cpu_addr, set_bo p no_bo (track_free p s))
              (none, s)).1
    by_test true = freed
    by_test false = t

take_entry-full :
    (p : ℕ) (entries : List (Option ℕ))
    → take_entry p entries ≡ none
    → taken entries ≡ length entries
take_entry-full p [] h = refl
take_entry-full p (none ∷ entries) h = absurd (cc h)
take_entry-full p (some q ∷ entries) h =
    omega (arith, take_entry-full p entries (keep_entry-none (some q) (take_entry p entries) h))

-- What the table has of the objects, before and behind an operation on `p` that leaves it there `n` times.
pub record IsListed (p n : ℕ) (s t : State) : Type 0 where
  pub here : times p t.live_bos ≡ n
  pub others : (q : ℕ) → q ≢ p → times q t.live_bos ≡ times q s.live_bos

track_alloc-IsListed :
    (p : ℕ) (s : State)
    → times p s.live_bos ≡ 0
    → taken s.live_bos < length s.live_bos
    → IsListed p 1 s (track_alloc p s)
unfolding track_alloc
track_alloc-IsListed p s absent room = elim (Option-cases (take_entry p s.live_bos)) [
  | inl full ↦ absurd (omega (arith, take_entry-full p s.live_bos full))
  | inr (after, e) ↦
      let k = take_entry-IsTaken p s.live_bos after e in
      subst (λ o. IsListed p 1 s (with_entries o ((s.live_count + 1) % 2 ^ 32) s)) (sym e)
        (record { here = omega (arith, k.here, absent); others = k.others })
]

-- An allocation that succeeds has gone through the allocator.
gpu_bo_alloc-IsListed :
    (aperture : ℕ) (allocate : ℕ → Option ℕ) (p size alignment : ℕ) (s : State)
    → IsTracked s
    → (s.bos p).valid ≡ false
    → taken s.live_bos < max_tracked_bos
    → (gpu_bo_alloc aperture allocate p size alignment s).0 ≡ ok
    → IsListed p 1 s (gpu_bo_alloc aperture allocate p size alignment s).1
unfolding gpu_bo_alloc take_memory
gpu_bo_alloc-IsListed aperture allocate p size alignment s t dead room =
    by_tests (p == 0) (size == 0) (allocate size)
  where
    Goal : Status × State → Type 0
    Goal r = r.0 ≡ ok → IsListed p 1 s r.1

    roomy : taken s.live_bos < length s.live_bos
    roomy = omega (arith, room, t.length_table)

    by_tests :
        (b c : Bool) (o : Option ℕ)
        → Goal (
            if b
            then (bad_value, s)
            else if c
            then (bad_value, set_bo p no_bo s)
            else take_memory aperture o p size alignment (set_bo p no_bo s))
    by_tests true c o h = absurd (cc h)
    by_tests false true o h = absurd (cc h)
    by_tests false false none h = absurd (cc h)
    by_tests false false (some base) h =
        let l =
          track_alloc-IsListed p
            (set_bo p
              (record {
                cpu_addr = base;
                gtt_offset = (base + 2 ^ 64 - aperture) % 2 ^ 32;
                size = size;
                alignment = alignment;
                valid = true;
              })
              (set_bo p no_bo s))
            (times-dead p s t dead) roomy in
        record { here = l.here; others = l.others }

gpu_bo_free-IsListed :
    (p : ℕ) (s : State) → IsTracked s → is_usable p s ≡ true → IsListed p 0 s (gpu_bo_free p s).1
unfolding gpu_bo_free track_free
gpu_bo_free-IsListed p s t usable =
    subst (λ (r : Option ℕ × State). IsListed p 0 s r.1) (sym (if_true _ _ usable))
      (elim (Option-cases (clear_entry p s.live_bos)) [
        | inl none_there ↦
            subst (λ o. IsListed p 0 s (set_bo p no_bo (with_entries o count s))) (sym none_there)
              (record { here = clear_entry-none p s.live_bos none_there; others = λ q ne. refl })
        | inr (after, e) ↦
            let k = clear_entry-IsClear p s.live_bos after e in
            subst (λ o. IsListed p 0 s (set_bo p no_bo (with_entries o count s))) (sym e)
              (record { here = omega (arith, k.here, t.once p); others = k.others })
      ])
  where
    count : ℕ
    count = (s.live_count + 2 ^ 32 - 1) % 2 ^ 32

-- gpu_bo_free of any object `p`, and gpu_bo_alloc of an object `q` that is not live, keep the table of
-- 32 entries true, whatever they return: it lists live objects only, each at most once, and live_count
-- is the number of its entries. A live object that is freed is no longer listed, and one whose
-- allocation succeeds while the table has room is listed; every other object is listed as before.
pub gpu_bo-IsTracked :
    (aperture : ℕ) (allocate : ℕ → Option ℕ) (p q size alignment : ℕ) (s : State)
    → IsTracked s
    → (s.bos q).valid ≡ false
    → IsTracked (gpu_bo_free p s).1
      × (is_usable p s ≡ true → IsListed p 0 s (gpu_bo_free p s).1)
      × IsTracked (gpu_bo_alloc aperture allocate q size alignment s).1
      × (taken s.live_bos < max_tracked_bos
          → (gpu_bo_alloc aperture allocate q size alignment s).0 ≡ ok
          → IsListed q 1 s (gpu_bo_alloc aperture allocate q size alignment s).1)
gpu_bo-IsTracked aperture allocate p q size alignment s t dead = (
  gpu_bo_free-IsTracked p s t,
  gpu_bo_free-IsListed p s t,
  gpu_bo_alloc-IsTracked aperture allocate q size alignment s t dead,
  gpu_bo_alloc-IsListed aperture allocate q size alignment s t dead,
)
