-- ===== src/Meta/Settings.antt =====
-- The settings of the header of a .replay file: ioriot/src/generate/generate.c, meta/meta.c.
use mathlib.Core.List.{append-nil, append_assoc}
use ioriot.Text.{Bytes, bytes, drop, strtok, add}
use ioriot.Text.Laws.{lacks, pieces-append}
use ioriot.Text.Numbers.{show_long}
use ioriot.Generate.Header.{Totals, write_header, before_init, replay_file, replay_version}
use ioriot.Meta.{meta_reserve, meta_write_s, meta_read_start, max_meta_len}
use ioriot.Prelude.{
  replicate, ℕ, zero, suc, ◌-◌, ◌≤◌, ◌<◌, ◌≡◌, refl, ap, sym, ◌∙◌, List, [], ◌∷◌, ◌++◌, true,
  length, arith, pos, ◌-ℤ◌, length-append,
}

-- Settings in a row, in front of a rest
abbrev pub joined : List (Bytes × Bytes) → Bytes → Bytes
joined [] rest = rest
joined ((key, val) ∷ settings) rest = meta_write_s key val ++ joined settings rest

abbrev pub words_of : List (Bytes × Bytes) → List Bytes
words_of [] = []
words_of ((key, val) ∷ settings) = (key ++ (b'=' ∷ val)) ∷ words_of settings

-- The settings of a header
abbrev pub settings : ℕ → Totals → List (Bytes × Bytes)
settings init_offset t =
    (bytes "replay_version", show_long (pos replay_version))
    ∷ (bytes "init_offset", show_long (pos init_offset))
    ∷ (bytes "user", t.user)
    ∷ (bytes "name", t.name)
    ∷ (bytes "num_vsizes", show_long (pos t.num_vsizes))
    ∷ (bytes "num_mapped_pids", show_long (pos t.num_mapped_pids))
    ∷ (bytes "num_mapped_fds", show_long (pos t.num_mapped_fds))
    ∷ (bytes "num_lines", show_long (pos t.lineno -ℤ pos t.num_lines_filtered))
    ∷ []

pub joined-append : (s : List (Bytes × Bytes)) (rest : Bytes) → joined s [] ++ rest ≡ joined s rest
joined-append [] rest = refl
joined-append ((key, val) ∷ s) rest =
    append_assoc (meta_write_s key val) (joined s []) rest
    ∙ ap (λ (r : Bytes). meta_write_s key val ++ r) (joined-append s rest)

pub write_header-joined :
    (n : ℕ) (t : Totals) → write_header n t ≡ b'#' ∷ b'|' ∷ joined (settings n t) []
unfolding write_header
write_header-joined n t =
    rw (append-nil (show_long (pos t.lineno -ℤ pos t.num_lines_filtered) ++ b'|' ∷ [])) refl

pub lacks-append :
    (c : ℕ) (s t : Bytes) → lacks c s ≡ true → lacks c t ≡ true → lacks c (s ++ t) ≡ true
lacks-append c [] t h k = k
lacks-append c (d ∷ s) t h k = ground (arith, lacks-append c s t)

abbrev pub AreWords : List (Bytes × Bytes) → Type 0
AreWords [] = Unit
AreWords ((key, val) ∷ s) = (lacks b'|' key ≡ true) × (lacks b'|' val ≡ true) × AreWords s

add-setting :
    (key val : Bytes) (words : List Bytes)
    → add (key ++ (b'=' ∷ val)) words ≡ (key ++ (b'=' ∷ val)) ∷ words
add-setting [] val words = refl
add-setting (c ∷ key) val words = refl

setting-append :
    (key val rest : Bytes) → meta_write_s key val ++ rest ≡ (key ++ (b'=' ∷ val)) ++ (b'|' ∷ rest)
setting-append [] val rest = ap (λ (r : Bytes). b'=' ∷ r) (append_assoc val (b'|' ∷ []) rest)
setting-append (c ∷ key) val rest = ap (λ (r : Bytes). c ∷ r) (setting-append key val rest)

pub strtok-joined :
    (s : List (Bytes × Bytes)) (rest : Bytes)
    → AreWords s
    → strtok b'|' (joined s rest) ≡ words_of s ++ strtok b'|' rest
unfolding strtok
strtok-joined [] rest h = refl
strtok-joined ((key, val) ∷ s) rest h =
    let word : Bytes = key ++ (b'=' ∷ val) in
    ap (strtok b'|') (setting-append key val (joined s rest))
    ∙ ap (λ (p : Bytes × List Bytes). add p.0 p.1)
        (pieces-append b'|' word (joined s rest) (lacks-append b'|' key (b'=' ∷ val) h.0 h.1))
    ∙ add-setting key val (strtok b'|' (joined s rest))
    ∙ ap (λ (r : List Bytes). word ∷ r) (strtok-joined s rest h.2)

-- The first line of a file whose first line is known
pub meta_read_start-line :
    (line file : Bytes)
    → lacks b'\n' line ≡ true
    → meta_read_start (line ++ (b'\n' ∷ file)) ≡ line ++ b'\n' ∷ []
meta_read_start-line [] file h = refl
meta_read_start-line (c ∷ line) file h = ground (arith, meta_read_start-line line file)

drop-replicate :
    (n m : ℕ) (s : Bytes) → n ≤ m → drop n (replicate m b'#' ++ s) ≡ replicate (m - n) b'#' ++ s
drop-replicate zero m s h = ap (λ (n : ℕ). replicate n b'#' ++ s) (omega arith)
drop-replicate (suc n) zero s h = absurd (omega (arith, h))
drop-replicate (suc n) (suc m) s h =
    drop-replicate n m s (omega (arith, h)) ∙ ap (λ (n : ℕ). replicate n b'#' ++ s) (omega arith)

pub lacks-replicate : (n : ℕ) → lacks b'\n' (replicate n b'#') ≡ true
lacks-replicate zero = refl
lacks-replicate (suc n) = lacks-replicate n

-- What is left of the reserve behind a header
abbrev pub left_over : ℕ → Bytes → Bytes
left_over n beyond = replicate (max_meta_len - 1 - n) b'#' ++ beyond

abbrev pub behind : Bytes → Bytes → Bytes
behind lines init_lines = lines ++ ((bytes "#INIT" ++ (b'\n' ∷ [])) ++ init_lines)

pub before_init-append :
    (beyond lines init_lines : Bytes)
    → before_init beyond lines ++ init_lines
      ≡ replicate (max_meta_len - 1) b'#' ++ (beyond ++ (b'\n' ∷ behind lines init_lines))
unfolding before_init meta_reserve
before_init-append beyond lines init_lines =
    append_assoc (meta_reserve beyond) (lines ++ (bytes "#INIT" ++ (b'\n' ∷ []))) init_lines
    ∙ append_assoc (replicate (max_meta_len - 1) b'#') (beyond ++ (b'\n' ∷ [])) _
    ∙ ap (λ (r : Bytes). replicate (max_meta_len - 1) b'#' ++ r)
        (append_assoc beyond (b'\n' ∷ []) _
          ∙ ap (λ (r : Bytes). beyond ++ (b'\n' ∷ r))
              (append_assoc lines (bytes "#INIT" ++ (b'\n' ∷ [])) init_lines))

pub replay_file-lines :
    (beyond lines init_lines : Bytes) (t : Totals) (n : ℕ)
    → n ≡ length (before_init beyond lines)
    → length (write_header n t) < max_meta_len
    → replay_file beyond lines init_lines t
      ≡ write_header n t
        ++ (left_over (length (write_header n t)) beyond ++ (b'\n' ∷ behind lines init_lines))
unfolding replay_file
replay_file-lines beyond lines init_lines t n e h = rw (sym e) (
    ap (λ (r : Bytes). write_header n t ++ r)
      (ap (drop (length (write_header n t))) (before_init-append beyond lines init_lines)
        ∙ drop-replicate (length (write_header n t)) (max_meta_len - 1) _ (omega (arith, h))
        ∙ sym (
            append_assoc (replicate (max_meta_len - 1 - length (write_header n t)) b'#') beyond _)))

abbrev pub OnOneLine : List (Bytes × Bytes) → Type 0
OnOneLine [] = Unit
OnOneLine ((key, val) ∷ s) = (lacks b'\n' key ≡ true) × (lacks b'\n' val ≡ true) × OnOneLine s

pub joined-lacks : (s : List (Bytes × Bytes)) → OnOneLine s → lacks b'\n' (joined s []) ≡ true
joined-lacks [] h = refl
joined-lacks ((key, val) ∷ s) h =
    lacks-append b'\n' (meta_write_s key val) (joined s [])
      (lacks-append b'\n' key (b'=' ∷ (val ++ b'|' ∷ [])) h.0
        (lacks-append b'\n' val (b'|' ∷ []) h.1 refl))
      (joined-lacks s h.2)

-- Behind the text that is written over a file, the file is what it was.
pub drop-overwritten :
    (n : ℕ) (text s : Bytes)
    → length text ≤ n
    → length text ≤ length s
    → drop n (text ++ drop (length text) s) ≡ drop n s
drop-overwritten n [] s h k = refl
drop-overwritten zero (c ∷ text) s h k = absurd (omega (arith, h))
drop-overwritten (suc n) (c ∷ text) [] h k = absurd (omega (arith, k))
drop-overwritten (suc n) (c ∷ text) (d ∷ s) h k =
    drop-overwritten n text s (omega (arith, h)) (omega (arith, k))

length-replicate : (n : ℕ) → length (replicate {A = ℕ} n b'#') ≡ n
length-replicate zero = refl
length-replicate (suc n) = omega (arith, length-replicate n)

pub length-before_init :
    (beyond lines : Bytes) → max_meta_len - 1 ≤ length (before_init beyond lines)
unfolding before_init meta_reserve
length-before_init beyond lines = omega (
  arith,
  length-append (meta_reserve beyond) (lines ++ (bytes "#INIT" ++ (b'\n' ∷ []))),
  length-append (replicate (max_meta_len - 1) b'#') (beyond ++ (b'\n' ∷ [])),
  length-replicate (max_meta_len - 1),
)
