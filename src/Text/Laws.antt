-- ===== src/Text/Laws.antt =====
-- Lines made of tokens, and what the tokenizers find in them.
use ioriot.Prelude.{
  ℕ, ◌≡◌, refl, [], ◌∷◌, ◌++◌, Bool, true, not, ◌&&◌, ◌==◌, length, some, none, arith,
}
use ioriot.Text.{Bytes, starts_with, drop, find, pieces, strtok}

-- No byte of the string is `c`.
abbrev pub lacks : ℕ → Bytes → Bool
lacks c [] = true
lacks c (d ∷ s) = not (d == c) && lacks c s

starts_with-append : (what s : Bytes) → starts_with what (what ++ s) ≡ true
starts_with-append [] s = refl
starts_with-append (c ∷ what) s = ground (arith, starts_with-append what s)

pub drop-append : (s t : Bytes) → drop (length s) (s ++ t) ≡ t
drop-append [] t = refl
drop-append (c ∷ s) t = drop-append s t

-- The first occurrence of a string is where its first byte first occurs.
pub find-append :
    (c : ℕ) (what word rest : Bytes)
    → lacks c word ≡ true
    → find (c ∷ what) (word ++ ((c ∷ what) ++ rest)) ≡ some (word, rest)
unfolding find
find-append c what [] rest h = ground (arith, starts_with-append what rest, drop-append what rest)
find-append c what (d ∷ word) rest h = ground (arith, find-append c what word rest)

pub find-lacks : (c : ℕ) (what word : Bytes) → lacks c word ≡ true → find (c ∷ what) word ≡ none
unfolding find
find-lacks c what [] h = refl
find-lacks c what (d ∷ word) h = ground (arith, find-lacks c what word)

-- The words of a string without the delimiter
pub pieces-append :
    (delim : ℕ) (word rest : Bytes)
    → lacks delim word ≡ true
    → pieces delim (word ++ delim ∷ rest) ≡ (word, strtok delim rest)
unfolding strtok
pieces-append delim [] rest h = ground arith
pieces-append delim (c ∷ word) rest h = ground (arith, pieces-append delim word rest)

pub pieces-lacks :
    (delim : ℕ) (word : Bytes) → lacks delim word ≡ true → pieces delim word ≡ (word, [])
pieces-lacks delim [] h = refl
pieces-lacks delim (c ∷ word) h = ground (arith, pieces-lacks delim word)
