-- ===== src/Text/Tokens/Laws.antt =====
-- The tokens of a line that was joined from words.
use ioriot.Prelude.{
  ◌∙◌, ◌≤◌, ◌+◌, ap, suc, length, ◌<◌, ℕ, ◌≡◌, refl, List, [], ◌∷◌, ◌++◌, true, false, is_nil, some,
  none, arith, zero, if◌then◌else◌, Option, length-append,
}
use ioriot.Text.{Bytes, find}
use ioriot.Text.Laws.{lacks, find-append}
use ioriot.Text.Tokens.{all_tokens, tokens, is_eol, drop_eol, trim_eol, strtok2}

-- A token that stands between delimiters that begin with `c`, on one line
pub record IsToken (c : ℕ) (word : Bytes) : Type 0 where
  pub some_byte : is_nil word ≡ false
  pub no_delim : lacks c word ≡ true
  pub no_newline : lacks b'\n' word ≡ true
  pub no_return : lacks b'\r' word ≡ true

abbrev pub AreTokens : ℕ → List Bytes → Type 0
AreTokens c [] = Unit
AreTokens c (word ∷ words) = IsToken c word × AreTokens c words

-- What may stand at the end of a line
abbrev pub IsEnding : Bytes → Type 0
IsEnding [] = Unit
IsEnding (c ∷ s) = (is_eol c ≡ true) × IsEnding s

-- The words, each with the delimiter behind it, and an end
abbrev pub line : Bytes → List Bytes → Bytes → Bytes
line delim [] end = end
line delim (word ∷ words) end = word ++ (delim ++ line delim words end)

drop_eol-ending : (s : Bytes) → IsEnding s → drop_eol s ≡ []
drop_eol-ending [] h = refl
drop_eol-ending (c ∷ s) h = ground (arith, drop_eol-ending s)

trim_eol-ending : (s : Bytes) → IsEnding s → trim_eol s ≡ []
trim_eol-ending [] h = refl
trim_eol-ending (c ∷ s) h = ground (arith, trim_eol-ending s)

drop_eol-word :
    (word rest : Bytes)
    → is_nil word ≡ false
    → lacks b'\n' word ≡ true
    → lacks b'\r' word ≡ true
    → (drop_eol (word ++ rest) ≡ word ++ rest) × (is_nil (word ++ rest) ≡ false)
drop_eol-word [] rest h n r = absurd (ground arith)
drop_eol-word (c ∷ word) rest h n r = ground arith

trim_eol-word :
    (word rest : Bytes)
    → lacks b'\n' word ≡ true
    → lacks b'\r' word ≡ true
    → IsEnding rest
    → trim_eol (word ++ rest) ≡ word
trim_eol-word [] rest n r h = trim_eol-ending rest h
trim_eol-word (c ∷ word) rest n r h = ground (arith, trim_eol-word word rest)

find-ending :
    (c : ℕ) (what word rest : Bytes)
    → is_eol c ≡ false
    → lacks c word ≡ true
    → IsEnding rest
    → find (c ∷ what) (word ++ rest) ≡ none
unfolding find
find-ending c what [] [] e l h = refl
find-ending c what [] (d ∷ rest) e l h = ground (arith, find-ending c what [] rest)
find-ending c what (d ∷ word) rest e l h = ground (arith, find-ending c what word rest)

module _ (c : ℕ) (what : Bytes) (not_eol : is_eol c ≡ false) where
  strtok2-word :
      (word rest : Bytes)
      → IsToken c word
      → strtok2 (c ∷ what) (some (word ++ ((c ∷ what) ++ rest))) ≡ some (word, some (drop_eol rest))
  unfolding strtok2
  strtok2-word word rest t = ground (
    arith,
    drop_eol-word word ((c ∷ what) ++ rest) t.some_byte t.no_newline t.no_return,
    find-append c what word rest t.no_delim,
  )

  strtok2-last :
      (word rest : Bytes)
      → IsToken c word
      → IsEnding rest
      → strtok2 (c ∷ what) (some (word ++ rest)) ≡ some (word, none)
  unfolding strtok2
  strtok2-last word rest t end = ground (
    arith,
    drop_eol-word word rest t.some_byte t.no_newline t.no_return,
    find-ending c what word rest not_eol t.no_delim end,
    trim_eol-word word rest t.no_newline t.no_return end,
  )

drop_eol_idem : (s : Bytes) → drop_eol (drop_eol s) ≡ drop_eol s
drop_eol_idem [] = refl
drop_eol_idem (c ∷ s) = ground (arith, drop_eol_idem s)

tokens-drop_eol :
    (n : ℕ) (delim s : Bytes) → tokens n delim (some (drop_eol s)) ≡ tokens n delim (some s)
unfolding tokens strtok2
tokens-drop_eol zero delim s = refl
tokens-drop_eol (suc n) delim s =
    ap
      (λ (found : Option (Bytes × Option Bytes)). elim found [
        | none ↦ []
        | some (token, left) ↦ token ∷ tokens n delim left
      ])
      (ap
        (λ (str : Bytes). if is_nil str then none else elim (find delim str) [
          | some (token, next) ↦ some (token, some (drop_eol next))
          | none ↦ (let token = trim_eol str in if is_nil token then none else some (token, none))
        ])
        (drop_eol_idem s))

length-line :
    (delim end : Bytes) (words : List Bytes)
    → 0 < length delim
    → length words + length end ≤ length (line delim words end)
length-line delim end [] h = omega arith
length-line delim end (word ∷ words) h = omega (
  arith,
  length-line delim end words h,
  length-append word (delim ++ line delim words end),
  length-append delim (line delim words end),
)

module _ (c : ℕ) (what : Bytes) (not_eol : is_eol c ≡ false) where
  tokens-line :
      (n : ℕ) (words : List Bytes) (word end : Bytes)
      → AreTokens c words
      → IsToken c word
      → IsEnding end
      → length words < n
      → tokens n (c ∷ what) (some (line (c ∷ what) words (word ++ end))) ≡ words ++ word ∷ []
  unfolding tokens
  tokens-line zero words word end ts t e h = absurd (omega arith)
  tokens-line (suc zero) [] word end ts t e h =
      rw (tokens, strtok2-last c what not_eol word end t e) refl
  tokens-line (suc (suc n)) [] word end ts t e h =
      rw (tokens, strtok2-last c what not_eol word end t e) (unfold strtok2 in refl)
  tokens-line (suc n) (x ∷ words) word end ts t e h =
      rw (tokens, strtok2-word c what not_eol x (line (c ∷ what) words (word ++ end)) ts.0)
        (ap (◌∷◌ x) (
          tokens-drop_eol n (c ∷ what) (line (c ∷ what) words (word ++ end))
          ∙ tokens-line n words word end ts.1 t e (omega arith)))

  tokens-line_closed :
      (n : ℕ) (words : List Bytes) (end : Bytes)
      → AreTokens c words
      → IsEnding end
      → length words < n
      → tokens n (c ∷ what) (some (line (c ∷ what) words end)) ≡ words
  unfolding tokens
  tokens-line_closed zero words end ts e h = absurd (omega arith)
  tokens-line_closed (suc n) [] end ts e h = unfold strtok2 in ground (arith, drop_eol-ending end e)
  tokens-line_closed (suc n) (x ∷ words) end ts e h =
      rw (tokens, strtok2-word c what not_eol x (line (c ∷ what) words end) ts.0)
        (ap (◌∷◌ x) (
          tokens-drop_eol n (c ∷ what) (line (c ∷ what) words end)
          ∙ tokens-line_closed n words end ts.1 e (omega arith)))

  -- A line of words that are not empty and hold neither the first byte of the delimiter nor a
  -- newline or a carriage return is split into these words, whether a delimiter stands behind the
  -- last word or not, and whatever newlines and carriage returns end the line. The delimiter does
  -- not begin with one of these.
  pub all_tokens-line :
      (words : List Bytes) (word end : Bytes)
      → AreTokens c words
      → IsToken c word
      → IsEnding end
      → (all_tokens (c ∷ what) (line (c ∷ what) words (word ++ end)) ≡ words ++ word ∷ [])
        × (all_tokens (c ∷ what) (line (c ∷ what) words end) ≡ words)
  unfolding all_tokens
  all_tokens-line words word end ts t e = (
    tokens-line _ words word end ts t e
        (omega (arith, length-line (c ∷ what) (word ++ end) words (omega arith))),
    tokens-line_closed _ words end ts e
        (omega (arith, length-line (c ∷ what) end words (omega arith))),
  )
