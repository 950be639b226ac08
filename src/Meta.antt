-- ===== src/Meta.antt =====
-- The meta header in the first line of a .replay file, and of a .capture file:
-- ioriot/src/meta/meta.c. A file is the list of its bytes.
pub mod Settings
pub mod Reading
pub mod RoundTrip
use ioriot.Text.{Bytes, bytes, starts_with, drop, strtok}
use ioriot.Text.Numbers.{strtol, show_long}
use ioriot.Prelude.{
  replicate, ℕ, zero, suc, ◌+◌, ◌-◌, ◌*◌, ◌/◌, ◌%◌, ◌^◌, ◌≤◌, ◌<◌, ◌≡◌, ◌≢◌, ◌⊎◌, ◌↔◌, refl, ap,
  sym, subst, ◌∙◌, List, [], ◌∷◌, ◌++◌, Bool, true, false, not, ◌&&◌, ◌||◌, ◌==◌, ltb, leb, is_nil,
  length, get_or, set, if◌then◌else◌, Option, some, none, arith, length-append, inl, inr,
  Option-cases, Bool-cases, ℤ, pos, negsuc, eqz, ltz, lez, ◌+ℤ◌, ◌-ℤ◌, ◌≤ℤ◌, ◌<ℤ◌, Outcome, ok,
  exit, fault, ◌>>=◌, Holds, Holds-bind, Holds-any,
}

-- `_MAX_META_LEN`
unfoldable pub max_meta_len : ℕ
max_meta_len = 256

-- `meta_reserve`: what it writes. It sets all bytes of its buffer but the last one, and the string
-- that it prints goes on behind the buffer up to the next NUL, with the given bytes.
unfoldable pub meta_reserve : Bytes → Bytes
meta_reserve beyond = replicate (max_meta_len - 1) b'#' ++ (beyond ++ (b'\n' ∷ []))

-- What is written from a position on, over what stands there
abbrev pub write_at : ℕ → Bytes → Bytes → Bytes
write_at zero text file = text ++ drop (length text) file
write_at (suc offset) text [] = 0 ∷ write_at offset text []
write_at (suc offset) text (c ∷ file) = c ∷ write_at offset text file

-- `meta_write_start`, from the position of the header on
abbrev pub meta_write_start : Bytes
meta_write_start = bytes "#|"

-- `meta_write_s`
abbrev pub meta_write_s : Bytes → Bytes → Bytes
meta_write_s key val = key ++ (b'=' ∷ (val ++ (b'|' ∷ [])))

-- `meta_write_l`
abbrev pub meta_write_l : Bytes → ℤ → Bytes
meta_write_l key val = meta_write_s key (show_long val)

-- `meta_read_start`: `getline`, the newline included
abbrev pub meta_read_start : Bytes → Bytes
meta_read_start [] = []
meta_read_start (c ∷ file) = if c == b'\n' then c ∷ [] else c ∷ meta_read_start file

-- `tok[n] == '='`
abbrev pub equals_at : ℕ → Bytes → Bool
equals_at n [] = false
equals_at zero (c ∷ tok) = c == b'='
equals_at (suc n) (c ∷ tok) = equals_at n tok

-- The loop of `meta_read_s` over the tokens
abbrev pub find_key : Bytes → List Bytes → Option Bytes
find_key key [] = none
find_key key (tok ∷ toks) =
    if starts_with key tok && equals_at (length key) tok
    then some (drop (length key + 1) tok)
    else find_key key toks

-- `meta_read_s`, from the line that was read
abbrev pub meta_read_s : Bytes → Bytes → Option Bytes
meta_read_s read_buf key = find_key key (strtok b'|' read_buf)

-- `meta_read_l`
unfoldable pub meta_read_l : Bytes → Bytes → Option ℤ
meta_read_l read_buf key = elim (meta_read_s read_buf key) [
  | none ↦ none
  | some buf ↦ some (strtol buf)
]
