-- ===== src/Meta/Reading.antt =====
-- What is read from the header of a .replay file: ioriot/src/replay/replay.c, ioriot/src/init/init.c.
use ioriot.Prelude.{
  ℕ, ◌-◌, ◌≤◌, ◌<◌, ◌≡◌, refl, ap, ◌∙◌, List, ◌∷◌, ◌++◌, true, length, Option, some, none, arith, ℤ,
  pos, eqz, ltz, ◌-ℤ◌, ok, ◌>>=◌,
}
use ioriot.Text.{Bytes, bytes, strtok, add}
use ioriot.Text.Laws.{lacks, pieces-append}
use ioriot.Text.Numbers.{strtol, show_long, long_bound}
use ioriot.Text.Numbers.Laws.{strtol-show_nat, show_long-lacks}
use ioriot.Generate.Header.{Totals, write_header, replay_version}
use ioriot.Replay.Header.{Header, replay_extract_header, check_version, count_or}
use ioriot.Init.Header.{InitHeader, init_extract_header}
use ioriot.Meta.{meta_read_start, meta_read_s, meta_read_l, max_meta_len, find_key}
use ioriot.Meta.Settings.{
  joined, words_of, settings, AreWords, joined-append, write_header-joined, strtok-joined,
}

-- What a header can hold
pub record IsHeader (init_offset : ℕ) (t : Totals) : Type 0 where
  pub user_bar : lacks b'|' t.user ≡ true
  pub name_bar : lacks b'|' t.name ≡ true
  pub user_line : lacks b'\n' t.user ≡ true
  pub name_line : lacks b'\n' t.name ≡ true
  pub vsizes : t.num_vsizes < long_bound
  pub pids : t.num_mapped_pids < long_bound
  pub fds : t.num_mapped_fds < long_bound
  pub lines : t.lineno < long_bound
  pub filtered : t.num_lines_filtered ≤ t.lineno
  pub offset : init_offset < long_bound
  pub fits : length (write_header init_offset t) < max_meta_len

read_nat : (n : ℕ) → n < long_bound → strtol (show_long (pos n)) ≡ pos n
unfolding show_long
read_nat n h = strtol-show_nat n h

settings-AreWords : (n : ℕ) (t : Totals) → IsHeader n t → AreWords (settings n t)
settings-AreWords n t h = (
  refl,
  show_long-lacks _,
  (
    refl,
    show_long-lacks _,
    (
      refl,
      h.user_bar,
      (
        refl,
        h.name_bar,
        (
          refl,
          show_long-lacks _,
          (refl, show_long-lacks _, (refl, show_long-lacks _, (refl, show_long-lacks _, tt))),
        ),
      ),
    ),
  ),
)

lines_left : (a b : ℕ) → b ≤ a → pos a -ℤ pos b ≡ pos (a - b)
unfolding ◌-ℤ◌
lines_left a b h = ground (arith, h)

module _ (n : ℕ) (t : Totals) (h : IsHeader n t) (rest buf : Bytes)
    (e : buf ≡ write_header n t ++ rest) where
  header_tokens : strtok b'|' buf ≡ bytes "#" ∷ (words_of (settings n t) ++ strtok b'|' rest)
  unfolding strtok
  header_tokens =
      rw (e, write_header-joined n t)
        (ap (λ (r : Bytes). strtok b'|' (b'#' ∷ b'|' ∷ r)) (joined-append (settings n t) rest)
          ∙ ap (λ (p : Bytes × List Bytes). add p.0 p.1)
              (pieces-append b'|' (bytes "#") (joined (settings n t) rest) refl)
          ∙ ap (λ (r : List Bytes). bytes "#" ∷ r)
              (strtok-joined (settings n t) rest (settings-AreWords n t h)))

  header_text :
      (meta_read_s buf (bytes "user") ≡ some t.user)
      × (meta_read_s buf (bytes "name") ≡ some t.name)
  header_text =
      (ap (find_key (bytes "user")) header_tokens, ap (find_key (bytes "name")) header_tokens)

  header_number :
      (key : Bytes) (z : ℕ)
      → z < long_bound
      → find_key key (bytes "#" ∷ (words_of (settings n t) ++ strtok b'|' rest))
        ≡ some (show_long (pos z))
      → meta_read_l buf key ≡ some (pos z)
  unfolding meta_read_l
  header_number key z small f =
      ap
        (λ (o : Option Bytes). elim o as (λ _. Option ℤ) [
          | none ↦ none
          | some val ↦ some (strtol val)
        ])
        (ap (find_key key) header_tokens ∙ f)
      ∙ ap (λ (z : ℤ). some z) (read_nat z small)

three_small : 3 < long_bound
unfolding long_bound
three_small = omega arith

header_numbers :
    (n : ℕ) (t : Totals) (h : IsHeader n t) (rest buf : Bytes)
    → buf ≡ write_header n t ++ rest
    → (meta_read_l buf (bytes "replay_version") ≡ some (pos replay_version))
      × (meta_read_l buf (bytes "init_offset") ≡ some (pos n))
      × (meta_read_l buf (bytes "num_vsizes") ≡ some (pos t.num_vsizes))
      × (meta_read_l buf (bytes "num_mapped_pids") ≡ some (pos t.num_mapped_pids))
      × (meta_read_l buf (bytes "num_mapped_fds") ≡ some (pos t.num_mapped_fds))
      × (meta_read_l buf (bytes "num_lines") ≡ some (pos (t.lineno - t.num_lines_filtered)))
header_numbers n t h rest buf e = (
  header_number n t h rest buf e _ 3 three_small refl,
  header_number n t h rest buf e _ n h.offset refl,
  header_number n t h rest buf e _ t.num_vsizes h.vsizes refl,
  header_number n t h rest buf e _ t.num_mapped_pids h.pids refl,
  header_number n t h rest buf e _ t.num_mapped_fds h.fds refl,
  header_number n t h rest buf e _ (t.lineno - t.num_lines_filtered) (omega (arith, h.lines))
      (ap (λ (z : ℤ). some (show_long z)) (lines_left t.lineno t.num_lines_filtered h.filtered)),
)

version_ok : check_version (some (pos replay_version)) ≡ ok tt
unfolding eqz
version_ok = refl

count_ok : (old : ℤ) (n : ℕ) → count_or old (some (pos n)) ≡ ok (pos n)
unfolding ltz
count_ok old n = ground arith

pub read_replay_header :
    (n : ℕ) (t : Totals) (h : IsHeader n t) (rest file : Bytes) (old : Header)
    → meta_read_start file ≡ write_header n t ++ rest
    → replay_extract_header old file
      ≡ ok (record {
        user = t.user;
        name = t.name;
        num_vsizes = pos t.num_vsizes;
        num_pids = pos t.num_mapped_pids;
        num_fds = pos t.num_mapped_fds;
        num_lines = pos (t.lineno - t.num_lines_filtered);
      })
unfolding replay_extract_header ◌>>=◌
read_replay_header n t h rest file old e =
    let k = header_numbers n t h rest (meta_read_start file) e in
    let texts = header_text n t h rest (meta_read_start file) e in
    rw
      (
        k.0,
        k.2,
        k.3,
        k.4,
        k.5,
        texts.0,
        texts.1,
        version_ok,
        count_ok old.num_vsizes t.num_vsizes,
        count_ok old.num_pids t.num_mapped_pids,
        count_ok old.num_fds t.num_mapped_fds,
        count_ok old.num_lines (t.lineno - t.num_lines_filtered),
      )
      refl

pub read_init_header :
    (n : ℕ) (t : Totals) (h : IsHeader n t) (rest file : Bytes) (old : InitHeader)
    → meta_read_start file ≡ write_header n t ++ rest
    → init_extract_header old file
      ≡ ok (record { user = t.user; name = t.name; init_offset = pos n })
unfolding init_extract_header ◌>>=◌
read_init_header n t h rest file old e =
    let k = header_numbers n t h rest (meta_read_start file) e in
    let texts = header_text n t h rest (meta_read_start file) e in
    rw (k.0, k.1, texts.0, texts.1, version_ok, count_ok old.init_offset n) refl
