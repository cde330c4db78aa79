-- ===== src/Mpeg2/Vlc/Code.antt =====
-- Variable-length code tables, and the search of mpeg2_parser.cpp through one: the first entry
-- whose code the next bits begin with.
use haiku_vaio_vpceb3k1e.Prelude.{
  ℕ, ◌-◌, ◌/◌, ◌^◌, Bool, Option, none, some, List, [], ◌∷◌, if◌then◌else◌, ◌==◌,
}

-- What an AC code stands for: a run of zeros and the size of the level after it.
pub data Symbol : Type 0 where
  end_of_block : Symbol
  escape : Symbol
  coefficient : ℕ → ℕ → Symbol

-- A code, its length in bits and what it stands for.
pub data Entry (S : Type 0) : Type 0 where
  entry : ℕ → ℕ → S → Entry S

module _ {S : Type 0} where
  abbrev pub code : Entry S → ℕ
  code (entry c l s) = c

  abbrev pub len : Entry S → ℕ
  len (entry c l s) = l

  abbrev pub symbol : Entry S → S
  symbol (entry c l s) = s

  -- The code is the top of a window of `w` bits.
  abbrev pub matches : ℕ → ℕ → Entry S → Bool
  matches w window e = window / 2 ^ (w - len e) == code e

  -- The entries that `skip` names are passed over.
  unfoldable pub search : (S → Bool) → ℕ → ℕ → List (Entry S) → Option (Entry S)
  search skip w window [] = none
  search skip w window (e ∷ es) =
      if skip (symbol e)
      then search skip w window es
      else if matches w window e
      then some e
      else search skip w window es
