-- ===== src/Mounts/Joined.antt =====
-- The components of paths that are put together, as in `_mounts_relative_path` of
-- ioriot/src/mounts.c.
use mathlib.Core.List.{append-nil, append_assoc}
use ioriot.Prelude.{
  ℕ, ◌≡◌, refl, ap, sym, ◌∙◌, List, [], ◌∷◌, ◌++◌, true, ◌==◌, arith, inl, inr, Bool-cases,
}
use ioriot.Text.{Bytes, strtok, pieces, add, last, but_last}
use ioriot.Text.Laws.{pieces-lacks}
use ioriot.Mounts.Normal.{IsPart, All, add-part}
use ioriot.Mounts.Links.{append_part, append_parts}

-- The components on both sides of a delimiter
add-append : (word : Bytes) (xs ys : List Bytes) → add word (xs ++ ys) ≡ add word xs ++ ys
add-append [] xs ys = refl
add-append (c ∷ word) xs ys = refl

nothing_before : List Bytes → Bytes × List Bytes
nothing_before words = ([], words)

pieces-both :
    (delim : ℕ) (s r : Bytes)
    → pieces delim (s ++ delim ∷ r) ≡ ((pieces delim s).0, (pieces delim s).1 ++ strtok delim r)
unfolding strtok nothing_before
pieces-both delim [] r = ground arith
pieces-both delim (c ∷ s) r = rw (pieces-both delim s r) (elim (Bool-cases (c == delim)) [
  | inl e ↦ rw e (
      ap (λ (words : List Bytes). nothing_before words)
        (add-append (pieces delim s).0 (pieces delim s).1 (strtok delim r)))
  | inr e ↦ rw e refl
])

pub strtok-both :
    (delim : ℕ) (s r : Bytes) → strtok delim (s ++ delim ∷ r) ≡ strtok delim s ++ strtok delim r
unfolding strtok
strtok-both delim s r =
    rw (pieces-both delim s r) (add-append (pieces delim s).0 (pieces delim s).1 (strtok delim r))

strtok-one : (part : Bytes) → IsPart part → strtok b'/' part ≡ part ∷ []
unfolding strtok
strtok-one part h = rw (pieces-lacks b'/' part h.no_slash) (add-part part [] h)

last-but_last : (c : ℕ) (s : Bytes) → c ∷ s ≡ but_last c s ++ last c s ∷ []
last-but_last c [] = refl
last-but_last c (d ∷ s) = ap (λ (r : Bytes). c ∷ r) (last-but_last d s)

last-slash :
    (c : ℕ) (s part : Bytes)
    → (last c s == b'/') ≡ true
    → IsPart part
    → strtok b'/' ((c ∷ s) ++ part) ≡ strtok b'/' (c ∷ s) ++ part ∷ []
unfolding strtok
last-slash c s part e h =
    let slash : last c s ≡ b'/' = ground (arith, e) in
    let split : c ∷ s ≡ but_last c s ++ b'/' ∷ [] =
      last-but_last c s ∙ ap (λ (d : ℕ). but_last c s ++ d ∷ []) slash in
    let init : Bytes = but_last c s in
    let whole : strtok b'/' (c ∷ s) ≡ strtok b'/' init =
      ap (strtok b'/') split ∙ strtok-both b'/' init [] ∙ append-nil (strtok b'/' init) in
    ap (λ (r : Bytes). strtok b'/' (r ++ part)) split
    ∙ ap (strtok b'/') (append_assoc init (b'/' ∷ []) part)
    ∙ strtok-both b'/' init part
    ∙ rw (whole, strtok-one part h) refl

strtok-append_part :
    (s part : Bytes) → IsPart part → strtok b'/' (append_part s part) ≡ strtok b'/' s ++ part ∷ []
unfolding append_part strtok
strtok-append_part [] part h = strtok-one part h
strtok-append_part (c ∷ s) part h = elim (Bool-cases (last c s == b'/')) [
  | inl slash ↦ rw slash (last-slash c s part slash h)
  | inr other ↦ rw other (strtok-both b'/' (c ∷ s) part ∙ rw (strtok-one part h) refl)
]

pub strtok-append_parts :
    (s : Bytes) (parts : List Bytes)
    → All IsPart parts
    → strtok b'/' (append_parts s parts) ≡ strtok b'/' s ++ parts
unfolding append_parts
strtok-append_parts s [] h = sym (append-nil (strtok b'/' s))
strtok-append_parts s (part ∷ parts) h =
    strtok-append_parts (append_part s part) parts h.1
    ∙ rw (strtok-append_part s part h.0) (append_assoc (strtok b'/' s) (part ∷ []) parts)
