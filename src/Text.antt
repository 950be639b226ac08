-- ===== src/Text.antt =====
-- C strings, and what the code does with them: ioriot/src/utils/utils.c, and the functions of the C
-- library that it and its callers use. A string is the list of its bytes before the NUL.
pub mod Tokens
pub mod Numbers
pub mod Laws
use Prim.Native.Char.{code}
use Prim.Native.String.{String}
use ioriot.Prelude.{
  ℕ, zero, suc, ◌+◌, ◌-◌, List, [], ◌∷◌, ◌++◌, Bool, true, false, not, ◌&&◌, ◌||◌, ◌==◌, leb,
  is_nil, length, if◌then◌else◌, Option, some, none, ◌*◌, ◌/◌, ◌%◌, ◌^◌, ◌≤◌, ◌<◌, ◌≡◌, ◌≢◌, ◌⊎◌,
  ◌↔◌, refl, ap, sym, subst, ◌∙◌, ltb, get_or, set, arith, length-append, inl, inr, Option-cases,
  Bool-cases, ℤ, pos, negsuc, eqz, ltz, lez, ◌+ℤ◌, ◌-ℤ◌, ◌≤ℤ◌, ◌<ℤ◌, Outcome, ok, exit, fault,
  ◌>>=◌, Holds, Holds-bind, Holds-any,
}

abbrev pub Bytes : Type 0
Bytes = List ℕ

-- The bytes of a literal
abbrev pub bytes : String → Bytes
bytes String.[] = []
bytes (String.◌∷◌ c s) = code c ∷ bytes s

-- `strncmp(s, prefix, strlen(prefix)) == 0`
abbrev pub starts_with : Bytes → Bytes → Bool
starts_with [] s = true
starts_with (c ∷ prefix) [] = false
starts_with (c ∷ prefix) (d ∷ s) = c == d && starts_with prefix s

-- `s + n`
abbrev pub drop : ℕ → Bytes → Bytes
drop zero s = s
drop (suc n) [] = []
drop (suc n) (c ∷ s) = drop n s

-- `strstr`: what stands before and after the first occurrence
unfoldable pub find : Bytes → Bytes → Option (Bytes × Bytes)
find what [] = if is_nil what then some ([], []) else none
find what (c ∷ s) =
    if starts_with what (c ∷ s)
    then some ([], drop (length what) (c ∷ s))
    else elim (find what s) [ none ↦ none | some (before, after) ↦ some (c ∷ before, after) ]

abbrev pub has : Bytes → Bytes → Bool
has what s = elim (find what s) [ none ↦ false | some found ↦ true ]

-- The loop over `strtok_r` with one delimiter: the part before the first one, and the parts behind
-- it, the empty ones left out
abbrev pub add : Bytes → List Bytes → List Bytes
add [] words = words
add (c ∷ word) words = (c ∷ word) ∷ words

abbrev pub pieces : ℕ → Bytes → Bytes × List Bytes
pieces delim [] = ([], [])
pieces delim (c ∷ s) =
    let (word, words) = pieces delim s in
    if c == delim then ([], add word words) else (c ∷ word, words)

unfoldable pub strtok : ℕ → Bytes → List Bytes
strtok delim s = let (word, words) = pieces delim s in add word words

-- `chreplace`
unfoldable pub chreplace : Bytes → ℕ → ℕ → Bytes
chreplace [] replace with_ = []
chreplace (c ∷ s) replace with_ = (if c == replace then with_ else c) ∷ chreplace s replace with_

-- The last byte of `c ∷ s`, and all but it
abbrev pub last : ℕ → Bytes → ℕ
last c [] = c
last c (d ∷ s) = last d s

abbrev pub but_last : ℕ → Bytes → Bytes
but_last c [] = []
but_last c (d ∷ s) = c ∷ but_last d s

-- `strunquote`: the bytes move down by one, but for the NUL behind them; with no quote at the end,
-- the last byte is left where it was, too.
unfoldable pub strunquote : Bytes → Bytes
strunquote [] = []
strunquote (c ∷ s) =
    if c == b'"' then (if last c s == b'"' then unquoted s else s ++ last c s ∷ []) else c ∷ s
  where
    unquoted : Bytes → Bytes
    unquoted [] = []
    unquoted (d ∷ r) = but_last d r

abbrev pub is_digit : ℕ → Bool
is_digit c = leb b'0' c && leb c b'9'

-- `is_number`
unfoldable pub is_number : Bytes → Bool
is_number [] = true
is_number (c ∷ s) = if not (is_digit c) && not (c == b'-') then false else is_number s

-- `strcmp(a, b) == 0`
abbrev pub same : Bytes → Bytes → Bool
same [] [] = true
same [] (d ∷ t) = false
same (c ∷ s) [] = false
same (c ∷ s) (d ∷ t) = c == d && same s t

-- `strchr`: what stands before and after the first `delim`
abbrev pub before_first : ℕ → Bytes → Option (Bytes × Bytes)
before_first delim [] = none
before_first delim (c ∷ s) = if c == delim then some ([], s) else elim (before_first delim s) [
  | none ↦ none
  | some (before, after) ↦ some (c ∷ before, after)
]

-- `strrchr`: what stands before the last `delim`
abbrev pub before_last : ℕ → Bytes → Option Bytes
before_last delim [] = none
before_last delim (c ∷ s) = elim (before_last delim s) [
  | some before ↦ some (c ∷ before)
  | none ↦ if c == delim then some [] else none
]

-- The string without the `delim` at its end
abbrev pub trim : ℕ → Bytes → Bytes
trim delim [] = []
trim delim (c ∷ s) = let rest = trim delim s in if is_nil rest && c == delim then [] else c ∷ rest

-- `dirname_r` of ioriot/src/utils/futils.c; of the empty string, it reads the byte in front of it.
unfoldable pub dirname_r : Bytes → Option Bytes
dirname_r [] = none
dirname_r (c ∷ s) =
    let path = c ∷ s in
    if same path (b'.' ∷ b'.' ∷ [])
    then some path
    else if last c s == b'/'
    then (if is_nil s then some path else elim (before_last b'/' (trim b'/' path)) [
      | some before ↦ some before
      | none ↦ some (trim b'/' path)
    ])
    else elim (before_last b'/' path) [ some before ↦ some before | none ↦ some (b'.' ∷ []) ]
