-- ===== src/Text/Tokens.antt =====
-- `strtok2_r` of ioriot/src/utils/utils.c, which splits a line at a delimiter of several bytes.
pub mod Laws
use ioriot.Prelude.{
  ◌+◌, length, ℕ, zero, suc, List, [], ◌∷◌, Bool, ◌&&◌, ◌||◌, ◌==◌, is_nil, if◌then◌else◌, Option,
  some, none,
}
use ioriot.Text.{Bytes, find}

abbrev pub is_eol : ℕ → Bool
is_eol c = c == b'\n' || c == b'\r'

abbrev pub drop_eol : Bytes → Bytes
drop_eol [] = []
drop_eol (c ∷ s) = if is_eol c then drop_eol s else c ∷ s

abbrev pub trim_eol : Bytes → Bytes
trim_eol [] = []
trim_eol (c ∷ s) = let rest = trim_eol s in if is_nil rest && is_eol c then [] else c ∷ rest

-- `strtok2_r`, from the string that is left, `none` for NULL: the token, and what is left then
unfoldable pub strtok2 : Bytes → Option Bytes → Option (Bytes × Option Bytes)
strtok2 delim none = none
strtok2 delim (some s) =
    let str = drop_eol s in
    if is_nil str then none else elim (find delim str) [
      | some (token, next) ↦ some (token, some (drop_eol next))
      | none ↦ (let token = trim_eol str in if is_nil token then none else some (token, none))
    ]

-- The loop of its callers, within the given rounds
unfoldable pub tokens : ℕ → Bytes → Option Bytes → List Bytes
tokens zero delim left = []
tokens (suc rounds) delim left = elim (strtok2 delim left) [
  | none ↦ []
  | some (token, left) ↦ token ∷ tokens rounds delim left
]

-- The tokens of a line: each round takes a byte off it, and the last one finds none.
unfoldable pub all_tokens : Bytes → Bytes → List Bytes
all_tokens delim s = tokens (length s + 1) delim (some s)
