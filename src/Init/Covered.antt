-- ===== src/Init/Covered.antt =====
-- What the INIT section of ioriot/src/generate/generate.c asks of a file, as ioriot/src/init/init.c
-- reads it.
use ioriot.Prelude.{
  ℕ, ◌<◌, ◌≡◌, refl, ap, ◌∙◌, List, [], ◌∷◌, ◌++◌, Bool, true, false, none, arith, ℤ, pos, eqz, ltz,
  ok, ◌>>=◌,
}
use mathlib.Core.List.{append_assoc}
use ioriot.Generate.Print.{barred}
use ioriot.Generate.State.{Vsize}
use ioriot.Generate.Section.{flag, init_words}
use ioriot.Init.Lines.{is_one, parsed_none, ITask, init_toks, task_at, init_line, push, lines_of}
use ioriot.Mounts.Normal.{All}
use ioriot.Replay.Lines.RoundTrip.{IsWord, strtok-barred, strtol-show_long, number-IsWord}
use ioriot.Text.{Bytes}
use ioriot.Text.Laws.{lacks}
use ioriot.Datas.Key.{to_int}
use ioriot.Text.Numbers.{clamp_pos, strtol, atoi, show_long, long_bound}

abbrev pub OnLine : Bytes → Type 0
OnLine word = lacks b'\n' word ≡ true

push-line :
    (word rest : Bytes) (line : Bytes) (lines : List Bytes)
    → OnLine word
    → lines_of rest ≡ line ∷ lines
    → lines_of (word ++ rest) ≡ (word ++ line) ∷ lines
unfolding lines_of
push-line [] rest line lines h e = e
push-line (c ∷ word) rest line lines h e = ground (arith, push-line word rest line lines, e, h)

-- The first line of a section
pub lines_of-barred :
    (words : List Bytes) (rest : Bytes)
    → All OnLine words
    → lines_of (barred words ++ rest) ≡ barred words ∷ lines_of rest
unfolding lines_of
lines_of-barred [] rest h = refl
lines_of-barred (word ∷ words) rest h =
    ap lines_of (append_assoc word (b'|' ∷ barred words) rest)
    ∙ push-line word (b'|' ∷ (barred words ++ rest)) (b'|' ∷ barred words) (lines_of rest) h.0
        (ap (push b'|') (lines_of-barred words rest h.1))

-- A file's line, and the task that is read from it
abbrev pub file_task : Vsize → ℤ → ℤ → ITask
file_task v start size = record {
  is_dir = false;
  is_file = true;
  is_link = false;
  offset = start;
  bytes = size;
  path = v.path;
  target = none;
}

-- A regular file that the replay needs
pub record IsNeeded (v : Vsize) : Type 0 where
  pub required : v.required ≡ true
  pub is_file : v.is_file ≡ true
  pub not_dir : v.is_dir ≡ false
  pub not_link : v.is_link ≡ false
  pub word : IsWord v.path
  pub on_line : lacks b'\n' v.path ≡ true

is_one-flag : (is_one_flag : Bool) → eqz (atoi (flag is_one_flag)) (pos 1) ≡ is_one_flag
unfolding atoi strtol eqz to_int clamp_pos long_bound
is_one-flag true = refl
is_one-flag false = refl

flag-IsWord : (b : Bool) → IsWord (flag b)
flag-IsWord true = record { some_byte = refl; no_bar = refl }
flag-IsWord false = record { some_byte = refl; no_bar = refl }

not_less : (n : ℕ) → ltz (pos n) (pos 0) ≡ false
unfolding ltz
not_less n = ground arith

read_tokens :
    (d f l o s path end : Bytes) (a b : ℕ)
    → is_one d ≡ false
    → is_one f ≡ true
    → is_one l ≡ false
    → strtol o ≡ pos a
    → strtol s ≡ pos b
    → (init_toks 0 (d ∷ f ∷ l ∷ o ∷ s ∷ path ∷ end ∷ []) parsed_none >>= λ p. task_at p p.path)
      ≡ ok (record {
        is_dir = false;
        is_file = true;
        is_link = false;
        offset = pos a;
        bytes = pos b;
        path = path;
        target = none;
      })
unfolding init_toks ◌>>=◌
read_tokens d f l o s path end a b p q r m n = rw (p, q, r, m, n, not_less a, not_less b) refl

words-All : (v : Vsize) (a b : ℕ) → IsNeeded v → All IsWord (init_words v (pos a) (pos b) [])
words-All v a b k = (
  flag-IsWord v.is_dir,
  (
    flag-IsWord v.is_file,
    (flag-IsWord v.is_link, (number-IsWord (pos a), (number-IsWord (pos b), (k.word, tt)))),
  ),
)

pub init_line-file :
    (v : Vsize) (a b : ℕ)
    → IsNeeded v
    → a < long_bound
    → b < long_bound
    → init_line (barred (init_words v (pos a) (pos b) [])) ≡ ok (file_task v (pos a) (pos b))
unfolding init_line
init_line-file v a b k m n =
    ap (λ (toks : List Bytes). init_toks 0 toks parsed_none >>= λ p. task_at p p.path)
      (strtok-barred (init_words v (pos a) (pos b) []) (words-All v a b k))
    ∙ read_tokens (flag v.is_dir) (flag v.is_file) (flag v.is_link) (show_long (pos a))
        (show_long (pos b)) v.path (b'\n' ∷ []) a b (is_one-flag v.is_dir ∙ k.not_dir)
        (is_one-flag v.is_file ∙ k.is_file) (is_one-flag v.is_link ∙ k.not_link)
        (strtol-show_long (pos a) a refl m) (strtol-show_long (pos b) b refl n)
