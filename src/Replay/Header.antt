-- ===== src/Replay/Header.antt =====
-- `replay_extract_header` of ioriot/src/replay/replay.c.
use ioriot.Prelude.{if◌then◌else◌, Option, some, none, ℤ, pos, eqz, ltz, Outcome, ok, exit, ◌>>=◌}
use ioriot.Text.{Bytes, bytes}
use ioriot.Generate.Header.{replay_version}
use ioriot.Meta.{meta_read_start, meta_read_s, meta_read_l}

-- What it sets: `user` and `name` of the options, and the four numbers of its caller
pub record Header : Type 0 where
  pub user : Bytes
  pub name : Bytes
  pub num_vsizes : ℤ
  pub num_pids : ℤ
  pub num_fds : ℤ
  pub num_lines : ℤ

-- The check of the version: a header without one passes.
abbrev pub check_version : Option ℤ → Outcome (Unit {0})
check_version none = ok tt
check_version (some version) = if eqz version (pos replay_version) then ok tt else exit

-- A text keeps its value where the header has none.
abbrev pub text_or : Bytes → Option Bytes → Bytes
text_or old none = old
text_or old (some val) = val

-- So does a number, and a negative one is refused.
abbrev pub count_or : ℤ → Option ℤ → Outcome ℤ
count_or old none = ok old
count_or old (some n) = if ltz n (pos 0) then exit else ok n

unfoldable pub replay_extract_header : Header → Bytes → Outcome Header
replay_extract_header h file =
    let read_buf = meta_read_start file in
    check_version (meta_read_l read_buf (bytes "replay_version")) >>= λ _.
    count_or h.num_vsizes (meta_read_l read_buf (bytes "num_vsizes")) >>= λ num_vsizes.
    count_or h.num_pids (meta_read_l read_buf (bytes "num_mapped_pids")) >>= λ num_pids.
    count_or h.num_fds (meta_read_l read_buf (bytes "num_mapped_fds")) >>= λ num_fds.
    count_or h.num_lines (meta_read_l read_buf (bytes "num_lines")) >>= λ num_lines. ok (record {
      user = text_or h.user (meta_read_s read_buf (bytes "user"));
      name = text_or h.name (meta_read_s read_buf (bytes "name"));
      num_vsizes = num_vsizes;
      num_pids = num_pids;
      num_fds = num_fds;
      num_lines = num_lines;
    })
