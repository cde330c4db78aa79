-- ===== src/Mpeg2/Vlc/Prefix.antt =====
-- Where no earlier code of a table begins with a code, or the other way round, the search finds it.
use native.Mathlib.Nat.{div-div-eq-div-mul}
use haiku_vaio_vpceb3k1e.Prelude.{
  ℕ, zero, suc, ◌+◌, ◌-◌, ◌/◌, ◌^◌, ◌≤◌, ◌≡◌, ap, ◌∙◌, sym, Bool, true, false, not, ◌&&◌, none,
  some, List, [], ◌∷◌, arith, if◌then◌else◌, leb, ◌==◌, ==_iff, get_elem?, Bool-cases, inl, inr,
}
use haiku_vaio_vpceb3k1e.Prelude.Bits.{pow-add}
use haiku_vaio_vpceb3k1e.Mpeg2.Vlc.Code.{Entry, entry, len, symbol, matches, search}

shift-shift : (x a b c : ℕ) → a + b ≡ c → x / 2 ^ a / 2 ^ b ≡ x / 2 ^ c
shift-shift x a b c e =
    div-div-eq-div-mul x (2 ^ a) (2 ^ b)
    ∙ ap (λ (t : ℕ). x / t) (sym (pow-add 2 a b) ∙ ap (λ (t : ℕ). 2 ^ t) e)

-- What a window matches, it matches by its top bits.
matches_shorter :
    (w window c l c' l' : ℕ)
    → l ≤ l'
    → l' ≤ w
    → window / 2 ^ (w - l') ≡ c'
    → c' / 2 ^ (l' - l) ≡ window / 2 ^ (w - l)
matches_shorter w window c l c' l' le fits m =
    ap (λ (t : ℕ). t / 2 ^ (l' - l)) (sym m)
    ∙ shift-shift window (w - l') (l' - l) (w - l) (omega arith)

module _ {S : Type 0} where
  -- One of the two codes begins with the other.
  abbrev pub clash : Entry S → Entry S → Bool
  clash (entry c l s) (entry c' l' s') =
      if leb l l' then c' / 2 ^ (l' - l) == c else c / 2 ^ (l - l') == c'

  pub clash_of_matches :
      (w window : ℕ) (d e : Entry S)
      → len d ≤ w
      → len e ≤ w
      → matches w window d ≡ true
      → matches w window e ≡ true
      → clash d e ≡ true
  clash_of_matches w window (entry c l s) (entry c' l' s') hd he md me =
      elim (Bool-cases (leb l l')) [
        | inl le ↦ rw le (
            (==_iff _ _).1 (
              matches_shorter w window c l c' l' (ground arith) he ((==_iff _ _).0 me)
              ∙ (==_iff _ _).0 md))
        | inr lt ↦ rw lt (
            (==_iff _ _).1 (
              matches_shorter w window c' l' c l (ground arith) hd ((==_iff _ _).0 md)
              ∙ (==_iff _ _).0 me))
      ]

  -- Entry `i` fits the window, and so do the entries before it, and none of them clashes with it.
  unfoldable pub clear_of : ℕ → Entry S → List (Entry S) → ℕ → Bool
  clear_of w e [] i = true
  clear_of w e (d ∷ ds) zero = true
  clear_of w e (d ∷ ds) (suc i) = leb (len d) w && not (clash d e) && clear_of w e ds i

  unfoldable pub is_clear : ℕ → List (Entry S) → ℕ → Bool
  unfolding clear_of
  is_clear w es i = elim (get_elem? es i) [
    | none ↦ false
    | some e ↦ leb (len e) w && clear_of w e es i
  ]

  search_clear :
      (skip : S → Bool) (w window : ℕ) (e : Entry S) (es : List (Entry S)) (i : ℕ)
      → len e ≤ w
      → clear_of w e es i ≡ true
      → get_elem? es i ≡ some e
      → skip (symbol e) ≡ false
      → matches w window e ≡ true
      → search skip w window es ≡ some e
  unfolding search clear_of
  search_clear skip w window e [] i fits clear at kept m = cc
  search_clear skip w window e (d ∷ ds) zero fits clear at kept m = ground arith
  search_clear skip w window e (d ∷ ds) (suc i) fits clear at kept m =
      ground (arith, search_clear skip w window e ds i, clash_of_matches w window d e)

  -- The search finds the entry that a window begins with.
  pub search_lem :
      (skip : S → Bool) (w window : ℕ) (es : List (Entry S)) (i : ℕ) (e : Entry S)
      → is_clear w es i ≡ true
      → get_elem? es i ≡ some e
      → skip (symbol e) ≡ false
      → matches w window e ≡ true
      → search skip w window es ≡ some e
  unfolding is_clear
  search_lem skip w window es i e clear at kept m =
      search_clear skip w window e es i (ground arith) (ground arith) at kept m

  pub is_clear-fits :
      (w : ℕ) (es : List (Entry S)) (i : ℕ) (e : Entry S)
      → is_clear w es i ≡ true
      → get_elem? es i ≡ some e
      → len e ≤ w
  unfolding is_clear
  is_clear-fits w es i e clear at = ground arith
