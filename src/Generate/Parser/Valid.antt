-- ===== src/Generate/Parser/Valid.antt =====
-- What the tokens of a line leave in a task: the cases of ioriot/src/generate/gparser.c.
use ioriot.Prelude.{
  eqz→eq, ℕ, ◌≡◌, ◌≢◌, refl, sym, ◌∙◌, List, [], ◌∷◌, ◌++◌, Bool, true, false, not, ◌==◌,
  if◌then◌else◌, Option, arith, inl, inr, Option-cases, Bool-cases, ℤ, pos, negsuc, eqz, ltz, ◌-ℤ◌,
  ◌<ℤ◌, Outcome, ok, Holds,
}
use ioriot.Prelude.{eqz→eq, eqz_cases}
use ioriot.Text.{Bytes, chreplace, strunquote, is_number, before_first, but_last, last}
use ioriot.Text.Numbers.{strtol, atoi}
use ioriot.Mounts.Clean.{Clean, CleanIf, append-Clean, if-Clean}
use ioriot.Generate.Task.{Task}
use ioriot.Generate.Parser.Keys.{
  Parse, Case, number, once, put_task, case_a, case_A, case_b, case_c, case_d, case_f, case_i,
  case_m, case_o, case_O, case_W, case_p, case_P, case_s, case_t, case_F, case_G, case_skip, put_fd,
  start_at, is_long, keys, case_of, extract_tok, path_value, put_time,
}

-- Between two tokens: no path has the byte that separates the fields of a replay, a descriptor that
-- counts is positive, and the time that a capture starts at stays once it is known.
pub record IsSound (started : ℤ) (path path2 : Option Bytes) (has_fd : Bool) (fd start_time : ℤ)
    : Type 0 where
  pub path_lem : CleanIf path
  pub path2_lem : CleanIf path2
  pub descriptor : has_fd ≡ true → pos 0 <ℤ fd
  pub start : started ≢ negsuc 0 → start_time ≡ started

abbrev pub IsValid : ℤ → Parse → Type 0
IsValid started p = IsSound started p.task.path p.task.path2 p.task.has_fd p.task.fd p.start_time

-- The strings that the cases of the paths make
chreplace-Clean : (s : Bytes) → Clean (chreplace s b'|' b'_')
unfolding chreplace
chreplace-Clean [] = refl
chreplace-Clean (c ∷ s) = ground (arith, chreplace-Clean s)

but_last-Clean : (c : ℕ) (s : Bytes) → Clean (c ∷ s) → Clean (but_last c s)
but_last-Clean c [] h = refl
but_last-Clean c (d ∷ s) h = ground (arith, but_last-Clean d s)

last-Clean : (c : ℕ) (s : Bytes) → Clean (c ∷ s) → Clean (last c s ∷ [])
last-Clean c [] h = h
last-Clean c (d ∷ s) h = last-Clean d s (ground (arith, h))

strunquote-Clean : (s : Bytes) → Clean s → Clean (strunquote s)
unfolding strunquote
strunquote-Clean [] h = refl
strunquote-Clean (c ∷ []) h =
    if-Clean (c == b'"') _ (c ∷ []) (if-Clean (c == b'"') [] (c ∷ []) refl h) h
strunquote-Clean (c ∷ d ∷ s) h =
    let rest : Clean (d ∷ s) = ground (arith, h) in
    if-Clean (c == b'"') _ (c ∷ d ∷ s)
      (if-Clean (last d s == b'"') (but_last d s) ((d ∷ s) ++ last d s ∷ [])
        (but_last-Clean d s rest) (append-Clean (d ∷ s) (last d s ∷ []) rest (last-Clean d s rest)))
      h

path_value-Clean : (value : Bytes) → Clean (path_value value)
unfolding path_value
path_value-Clean value = strunquote-Clean (chreplace value b'|' b'_') (chreplace-Clean value)

-- What holds of both ends of a test
pub if-Holds {ℓ} :
    {A : Type ℓ} (P : A → Type 0) (b : Bool) (a c : Outcome A)
    → Holds P a
    → Holds P c
    → Holds P (if b then a else c)
if-Holds P true a c h k = h
if-Holds P false a c h k = k

module _ (started : ℤ) where
  abbrev pub Leaves : Bool × Parse → Type 0
  Leaves result = IsValid started result.1

  number-Leaves :
      (put : Bytes → Parse → Parse) (value : Bytes) (p : Parse)
      → IsValid started p
      → IsValid started (put value p)
      → Holds Leaves (number put value p)
  number-Leaves put value p h k = if-Holds Leaves (is_number value) _ _ k h

  once-Leaves :
      (old : Task → ℤ) (put : Bytes → Parse → Parse) (value : Bytes) (p : Parse)
      → IsValid started p
      → (old p.task ≡ negsuc 0 → IsValid started (put value p))
      → Holds Leaves (once old put value p)
  once-Leaves old put value p h k = elim (Bool-cases (eqz (old p.task) (negsuc 0))) [
    | inl e ↦ rw e (number-Leaves put value p h (k (eqz→eq (old p.task) (negsuc 0) e)))
    | inr e ↦ rw e h
  ]

  -- The cases that the validity speaks of
  put_fd-IsValid :
      (n : ℤ) (p : Parse)
      → IsValid started p
      → p.task.fd ≡ negsuc 0
      → IsValid started (record p { task = put_fd p.task n })
  unfolding ltz
  put_fd-IsValid n p h blank = record {
    path_lem = h.path_lem;
    path2_lem = h.path2_lem;
    descriptor = λ has. ground (arith, has, h.descriptor, blank);
    start = h.start;
  }

  case_d-Leaves : (value : Bytes) (p : Parse) → IsValid started p → Holds Leaves (case_d value p)
  unfolding case_d
  case_d-Leaves value p h =
      once-Leaves (λ t. t.fd) (put_task put_fd atoi) value p h (put_fd-IsValid (atoi value) p h)

  case_i-Leaves : (value : Bytes) (p : Parse) → IsValid started p → Holds Leaves (case_i value p)
  unfolding case_i
  case_i-Leaves value p h = elim (Option-cases (before_first b':' value)) [
    | inl e ↦ rw (e, Holds) h
    | inr ((pid, tid), e) ↦
        rw (e, Holds)
          (if-Holds Leaves (not (is_number tid)) _ _ h
            (if-Holds Leaves (not (is_number pid)) _ _ h h))
  ]

  put_time-Leaves :
      (time start_time : ℤ) (p : Parse)
      → IsValid started p
      → (started ≢ negsuc 0 → start_time ≡ started)
      → Holds Leaves (put_time time start_time p)
  put_time-Leaves time start_time p h kept = elim (Bool-cases (is_long (time -ℤ start_time))) [
    | inr e ↦ rw e tt
    | inl e ↦ rw e (record {
      path_lem = h.path_lem;
      path2_lem = h.path2_lem;
      descriptor = h.descriptor;
      start = kept;
    })
  ]

  start_at_known :
      (start_time time : ℤ)
      → (started ≢ negsuc 0 → start_time ≡ started)
      → started ≢ negsuc 0
      → start_at start_time time ≡ started
  start_at_known start_time time kept known = elim (eqz_cases start_time (negsuc 0)) [
    | inl (e, is_blank) ↦ absurd (known (sym (kept known) ∙ is_blank))
    | inr (e, _) ↦ rw e (kept known)
  ]

  case_t-Leaves : (value : Bytes) (p : Parse) → IsValid started p → Holds Leaves (case_t value p)
  unfolding case_t
  case_t-Leaves value p h =
      if-Holds Leaves (is_number value) _ (ok (false, p))
        (put_time-Leaves (strtol value) (start_at p.start_time (strtol value)) p h
          (start_at_known p.start_time (strtol value) h.start))
        h

  case_p-Leaves : (value : Bytes) (p : Parse) → IsValid started p → Holds Leaves (case_p value p)
  unfolding case_p
  case_p-Leaves value p h = record {
    path_lem = path_value-Clean value;
    path2_lem = h.path2_lem;
    descriptor = h.descriptor;
    start = h.start;
  }

  case_P-Leaves : (value : Bytes) (p : Parse) → IsValid started p → Holds Leaves (case_P value p)
  unfolding case_P
  case_P-Leaves value p h = record {
    path_lem = h.path_lem;
    path2_lem = path_value-Clean value;
    descriptor = h.descriptor;
    start = h.start;
  }

  -- Every case of the `switch`
  abbrev AllKeep : List (ℕ × Case) → Type 0
  AllKeep [] = Unit
  AllKeep ((key, run) ∷ rest) =
      ((value : Bytes) (p : Parse) → IsValid started p → Holds Leaves (run value p)) × AllKeep rest

  keys-AllKeep : AllKeep keys
  unfolding case_a case_A case_b case_c case_f case_m case_o case_O case_W case_s case_F case_G
      case_skip
  keys-AllKeep = (
    λ value p h. h,
    (
      λ value p h. h,
      (
        λ value p h.
            if-Holds Leaves (eqz p.task.bytes (negsuc 0)) _ _
              (if-Holds Leaves (is_number value) _ _ h h) h,
        (
          λ value p h.
              if-Holds Leaves (eqz p.task.count (negsuc 0)) _ _
                (if-Holds Leaves (is_number value) _ _ h h) h,
          (
            case_d-Leaves,
            (
              λ value p h. if-Holds Leaves (is_number value) _ _ h h,
              (
                case_i-Leaves,
                (
                  λ value p h. if-Holds Leaves (is_number value) _ _ h h,
                  (
                    λ value p h. h,
                    (
                      λ value p h. if-Holds Leaves (is_number value) _ _ h h,
                      (
                        λ value p h. if-Holds Leaves (is_number value) _ _ h h,
                        (
                          case_p-Leaves,
                          (
                            case_P-Leaves,
                            (
                              λ value p h. if-Holds Leaves (is_number value) _ _ h h,
                              (
                                case_t-Leaves,
                                (
                                  λ value p h. if-Holds Leaves (is_number value) _ _ h h,
                                  (
                                    λ value p h. if-Holds Leaves (is_number value) _ _ h h,
                                    (λ value p h. h, (λ value p h. h, tt)),
                                  ),
                                ),
                              ),
                            ),
                          ),
                        ),
                      ),
                    ),
                  ),
                ),
              ),
            ),
          ),
        ),
      ),
    ),
  )

  case_of-Leaves :
      (table : List (ℕ × Case)) (key : ℕ) (value : Bytes) (p : Parse)
      → AllKeep table
      → IsValid started p
      → Holds Leaves (case_of table key value p)
  case_of-Leaves [] key value p k h = h
  case_of-Leaves ((name, run) ∷ rest) key value p k h =
      if-Holds Leaves (name == key) _ _ (k.0 value p h) (case_of-Leaves rest key value p k.1 h)

  pub extract_tok-Leaves :
      (p : Parse) (tok : Bytes) → IsValid started p → Holds Leaves (extract_tok p tok)
  unfolding extract_tok
  extract_tok-Leaves p [] h = h
  extract_tok-Leaves p (key ∷ []) h = h
  extract_tok-Leaves p (key ∷ eq ∷ []) h = h
  extract_tok-Leaves p (key ∷ eq ∷ c ∷ value) h =
      if-Holds Leaves (eq == b'=') _ _ (case_of-Leaves keys key (c ∷ value) p keys-AllKeep h) h
