-- ===== src/Text/Numbers/Laws.antt =====
-- A number that is printed and read again.
use ioriot.Prelude.{
  ℕ, zero, suc, ◌+◌, ◌-◌, ◌*◌, ◌/◌, ◌%◌, ◌<◌, ◌≡◌, ap, ◌∙◌, [], ◌∷◌, true, ltb, arith, inl, inr,
  Bool-cases, ◌≤◌, refl, false, ◌==◌, is_nil, ℤ, pos, negsuc,
}
use ioriot.Text.{Bytes, is_digit}
use ioriot.Text.Laws.{lacks}
use ioriot.Text.Numbers.{
  show_long, long_bound, is_space, clamp_pos, show_nat, strtol, digits, show_from,
}

-- One more than the largest number of so many digits
abbrev bound : ℕ → ℕ
bound zero = 1
bound (suc places) = 10 * bound places

digit_lem : (n : ℕ) → (is_digit (b'0' + n % 10) ≡ true) × (b'0' + n % 10 - b'0' ≡ n % 10)
digit_lem n = ground arith

digits-show_from :
    (places n : ℕ) (acc : Bytes)
    → n < bound places
    → digits 0 (show_from places n acc) ≡ digits n acc
unfolding show_from
digits-show_from zero n acc h = ap (λ m. digits m acc) (omega arith)
digits-show_from (suc places) n acc h = elim (Bool-cases (ltb n 10)) [
  | inl e ↦ rw (e, digits) (rw ((digit_lem n).0) (ap (λ m. digits m acc) (ground (arith, e))))
  | inr e ↦
      rw (e, digits)
        (digits-show_from places (n / 10) ((b'0' + n % 10) ∷ acc) (omega arith)
          ∙ rw ((digit_lem n).0) (ap (λ m. digits m acc) (omega arith)))
]

-- All bytes are digits.
abbrev AreDigits : Bytes → Type 0
AreDigits [] = Unit
AreDigits (c ∷ s) = (is_digit c ≡ true) × AreDigits s

show_from-AreDigits :
    (places n : ℕ) (acc : Bytes) → AreDigits acc → AreDigits (show_from places n acc)
unfolding show_from
show_from-AreDigits zero n acc h = h
show_from-AreDigits (suc places) n acc h = elim (Bool-cases (ltb n 10)) [
  | inl e ↦ rw (e, AreDigits) ((digit_lem n).0, h)
  | inr e ↦
      rw (e, AreDigits)
        (show_from-AreDigits places (n / 10) ((b'0' + n % 10) ∷ acc) ((digit_lem n).0, h))
]

-- What is printed is not empty, and has none of the bytes that stand between fields.
pub AreDigits-lacks : (c : ℕ) (s : Bytes) → is_digit c ≡ false → AreDigits s → lacks c s ≡ true
AreDigits-lacks c [] n h = refl
AreDigits-lacks c (d ∷ s) n h =
    let rest = AreDigits-lacks c s n h.1 in
    let first : (d == c) ≡ false = ground (arith, n, h.0) in rw (first, rest) refl

pub show_nat-AreDigits : (n : ℕ) → AreDigits (show_nat n)
unfolding show_nat
show_nat-AreDigits n = show_from-AreDigits 20 n [] tt

show_from-is_nil : (places n c : ℕ) (acc : Bytes) → is_nil (show_from places n (c ∷ acc)) ≡ false
unfolding show_from
show_from-is_nil zero n c acc = refl
show_from-is_nil (suc places) n c acc = elim (Bool-cases (ltb n 10)) [
  | inl e ↦ rw (e, is_nil) refl
  | inr e ↦ rw (e, is_nil) (show_from-is_nil places (n / 10) (b'0' + n % 10) (c ∷ acc))
]

pub show_nat-is_nil : (n : ℕ) → is_nil (show_nat n) ≡ false
unfolding show_nat show_from
show_nat-is_nil n = elim (Bool-cases (ltb n 10)) [
  | inl e ↦ rw (e, is_nil) refl
  | inr e ↦ rw (e, is_nil) (show_from-is_nil 19 (n / 10) (b'0' + n % 10) [])
]

strtol-AreDigits : (s : Bytes) → is_nil s ≡ false → AreDigits s → strtol s ≡ clamp_pos (digits 0 s)
unfolding strtol
strtol-AreDigits [] n h = absurd (ground (arith, n))
strtol-AreDigits (c ∷ s) n h =
    let space : is_space c ≡ false = ground (arith, h.0) in
    let minus : (c == b'-') ≡ false = ground (arith, h.0) in
    let plus : (c == b'+') ≡ false = ground (arith, h.0) in rw space (rw (minus, plus) refl)

digits-show_nat : (n : ℕ) → n ≤ long_bound → digits 0 (show_nat n) ≡ n
unfolding show_nat long_bound
digits-show_nat n h = digits-show_from 20 n [] (omega arith)

-- A number that fits a `long` is read back.
pub strtol-show_nat : (n : ℕ) → n < long_bound → strtol (show_nat n) ≡ pos n
unfolding clamp_pos
strtol-show_nat n h =
    strtol-AreDigits (show_nat n) (show_nat-is_nil n) (show_nat-AreDigits n)
    ∙ rw (digits-show_nat n (omega arith)) (ground arith)

pub show_nat-lacks : (n : ℕ) → lacks b'|' (show_nat n) ≡ true
show_nat-lacks n = AreDigits-lacks b'|' (show_nat n) refl (show_nat-AreDigits n)

pub show_long-lacks : (n : ℤ) → lacks b'|' (show_long n) ≡ true
unfolding show_long
show_long-lacks (pos n) = show_nat-lacks n
show_long-lacks (negsuc n) = show_nat-lacks (n + 1)

pub show_long-some : (n : ℤ) → is_nil (show_long n) ≡ false
unfolding show_long
show_long-some (pos n) = show_nat-is_nil n
show_long-some (negsuc n) = refl

pub show_long-lacks_newline : (n : ℤ) → lacks b'\n' (show_long n) ≡ true
unfolding show_long
show_long-lacks_newline (pos n) = AreDigits-lacks b'\n' (show_nat n) refl (show_nat-AreDigits n)
show_long-lacks_newline (negsuc n) =
    AreDigits-lacks b'\n' (show_nat (n + 1)) refl (show_nat-AreDigits (n + 1))
