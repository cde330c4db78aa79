-- ===== src/GpuBo/Live.antt =====
-- The table of live objects of gpu_bo.cpp.
use haiku_vaio_vpceb3k1e.Prelude.{
  ℕ, suc, ◌+◌, ◌≤◌, ◌≡◌, ◌≢◌, refl, ap, sym, subst, ◌∙◌, true, Option, none, some, List, [], ◌∷◌,
  if◌then◌else◌, ◌==◌, length, arith, Bool-cases, inl, inr, if_true, if_false,
}
use haiku_vaio_vpceb3k1e.GpuBo.{State, keep_entry, take_entry, clear_entry, max_tracked_bos}

-- How often `p` stands in the table, and how many entries are taken.
abbrev pub times : ℕ → List (Option ℕ) → ℕ
times p [] = 0
times p (none ∷ entries) = times p entries
times p (some q ∷ entries) = (if q == p then 1 else 0) + times p entries

abbrev pub taken : List (Option ℕ) → ℕ
taken [] = 0
taken (none ∷ entries) = taken entries
taken (some q ∷ entries) = 1 + taken entries

-- The table lists live objects only, each at most once, and the count is the number of them.
pub record IsTracked (s : State) : Type 0 where
  pub length_table : length s.live_bos ≡ max_tracked_bos
  pub count : s.live_count ≡ taken s.live_bos
  pub once : (p : ℕ) → times p s.live_bos ≤ 1
  pub live : (p : ℕ) → 1 ≤ times p s.live_bos → (s.bos p).valid ≡ true

-- What taking an entry for `p` does to a table.
pub record IsTaken (p : ℕ) (before after : List (Option ℕ)) : Type 0 where
  pub same_length : length after ≡ length before
  pub more : taken after ≡ taken before + 1
  pub here : times p after ≡ times p before + 1
  pub others : (q : ℕ) → q ≢ p → times q after ≡ times q before

some-inj : {x y : List (Option ℕ)} → some x ≡ some y → x ≡ y
some-inj e = cc

keep_entry-some :
    (entry : Option ℕ) (o : Option (List (Option ℕ))) (after : List (Option ℕ))
    → keep_entry entry o ≡ some after
    → (rest : List (Option ℕ)) × (o ≡ some rest) × (entry ∷ rest ≡ after)
keep_entry-some entry none after h = absurd (cc h)
keep_entry-some entry (some rest) after h = (rest, refl, cc)

pub take_entry-IsTaken :
    (p : ℕ) (before after : List (Option ℕ))
    → take_entry p before ≡ some after
    → IsTaken p before after
take_entry-IsTaken p [] after h = absurd (cc h)
take_entry-IsTaken p (none ∷ entries) after h =
    subst (IsTaken p (none ∷ entries)) (some-inj h) (record {
      same_length = refl;
      more = omega arith;
      here = ground arith;
      others = λ q ne. ground arith;
    })
take_entry-IsTaken p (some q ∷ entries) after h =
    let (rest, e, same) = keep_entry-some (some q) (take_entry p entries) after h in
    let t = take_entry-IsTaken p entries rest e in
    subst (IsTaken p (some q ∷ entries)) same (record {
      same_length = ap (λ (n : ℕ). suc n) t.same_length;
      more = omega (arith, t.more);
      here = ground (arith, t.here);
      others = λ r ne. ground (arith, t.others r ne);
    })

-- What clearing an entry of `p` does.
pub record IsClear (p : ℕ) (before after : List (Option ℕ)) : Type 0 where
  pub same_length : length after ≡ length before
  pub less : taken before ≡ taken after + 1
  pub here : times p before ≡ times p after + 1
  pub others : (q : ℕ) → q ≢ p → times q after ≡ times q before

pub clear_entry-IsClear :
    (p : ℕ) (before after : List (Option ℕ))
    → clear_entry p before ≡ some after
    → IsClear p before after
clear_entry-IsClear p [] after h = absurd (cc h)
clear_entry-IsClear p (none ∷ entries) after h =
    let (rest, e, same) = keep_entry-some none (clear_entry p entries) after h in
    let t = clear_entry-IsClear p entries rest e in
    subst (IsClear p (none ∷ entries)) same (record {
      same_length = ap (λ (n : ℕ). suc n) t.same_length;
      less = omega (arith, t.less);
      here = omega (arith, t.here);
      others = λ r ne. t.others r ne;
    })
clear_entry-IsClear p (some q ∷ entries) after h = elim (Bool-cases (q == p)) [
  | inl e ↦ subst (IsClear p (some q ∷ entries)) (some-inj (sym (if_true _ _ e) ∙ h)) (record {
    same_length = refl;
    less = omega arith;
    here = ground arith;
    others = λ r ne. ground arith;
  })
  | inr e ↦
      let (rest, f, same) =
        keep_entry-some (some q) (clear_entry p entries) after (sym (if_false _ _ e) ∙ h) in
      let t = clear_entry-IsClear p entries rest f in
      subst (IsClear p (some q ∷ entries)) same (record {
        same_length = ap (λ (n : ℕ). suc n) t.same_length;
        less = omega (arith, t.less);
        here = ground (arith, t.here);
        others = λ r ne. ground (arith, t.others r ne);
      })
]
