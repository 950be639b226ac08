-- ===== src/Text/Numbers.antt =====
-- Numbers in decimal digits: `strtol`, `atol` and `atoi` of the C library, as the code uses them.
pub mod Laws
use ioriot.Prelude.{
  ℕ, ◌+◌, ◌-◌, ◌*◌, [], ◌∷◌, Bool, ◌&&◌, ◌||◌, ◌==◌, ltb, leb, if◌then◌else◌, ℤ, pos, negsuc, zero,
  suc, ◌/◌, ◌%◌, ◌^◌, ◌≤◌, ◌<◌, ◌≡◌, ◌≢◌, ◌⊎◌, ◌↔◌, refl, ap, sym, subst, ◌∙◌, List, ◌++◌, true,
  false, not, is_nil, length, get_or, set, Option, some, none, arith, length-append, inl, inr,
  Option-cases, Bool-cases, eqz, ltz, lez, ◌+ℤ◌, ◌-ℤ◌, ◌≤ℤ◌, ◌<ℤ◌, Outcome, ok, exit, fault, ◌>>=◌,
  Holds, Holds-bind, Holds-any,
}
use ioriot.Datas.Key.{to_int}
use ioriot.Text.{Bytes, is_digit}

abbrev pub is_space : ℕ → Bool
is_space c = c == b' ' || leb 9 c && leb c 13

-- The digits in front
abbrev pub digits : ℕ → Bytes → ℕ
digits n [] = n
digits n (c ∷ s) = if is_digit c then digits (10 * n + (c - b'0')) s else n

abbrev pub skip_space : Bytes → Bytes
skip_space [] = []
skip_space (c ∷ s) = if is_space c then skip_space s else c ∷ s

-- One more than the largest `long`
unfoldable pub long_bound : ℕ
long_bound = 9223372036854775808

-- A number that does not fit a `long` becomes the nearest that does.
unfoldable pub clamp_pos : ℕ → ℤ
clamp_pos n = if ltb n long_bound then pos n else pos (long_bound - 1)

unfoldable pub clamp_neg : ℕ → ℤ
clamp_neg n =
    if n == 0 then pos 0 else if ltb long_bound n then negsuc (long_bound - 1) else negsuc (n - 1)

abbrev pub signed : Bytes → ℤ
signed [] = pos 0
signed (c ∷ s) =
    if c == b'-'
    then clamp_neg (digits 0 s)
    else if c == b'+'
    then clamp_pos (digits 0 s)
    else clamp_pos (digits 0 (c ∷ s))

-- `strtol(s, NULL, 10)` and `atol(s)`
unfoldable pub strtol : Bytes → ℤ
strtol s = signed (skip_space s)

-- `atoi(s)`
unfoldable pub atoi : Bytes → ℤ
atoi s = to_int (strtol s)

-- `printf("%ld", n)`, in front of `acc`: a `long` has at most twenty digits.
unfoldable pub show_from : ℕ → ℕ → Bytes → Bytes
show_from zero n acc = acc
show_from (suc places) n acc = elim (ltb n 10) [
  | true ↦ (b'0' + n % 10) ∷ acc
  | false ↦ show_from places (n / 10) ((b'0' + n % 10) ∷ acc)
]

unfoldable pub show_nat : ℕ → Bytes
show_nat n = show_from 20 n []

unfoldable pub show_long : ℤ → Bytes
show_long (pos n) = show_nat n
show_long (negsuc n) = b'-' ∷ show_nat (n + 1)
