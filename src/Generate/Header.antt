-- ===== src/Generate/Header.antt =====
-- What `generate_run` of ioriot/src/generate/generate.c checks in the first line of a .capture file
-- and writes into the first line of a .replay file.
use ioriot.Prelude.{
  ℕ, [], ◌∷◌, ◌++◌, length, if◌then◌else◌, some, none, pos, eqz, ◌-ℤ◌, Outcome, ok, exit,
}
use ioriot.Text.{Bytes, bytes}
use ioriot.Meta.{
  meta_reserve, write_at, meta_write_start, meta_write_s, meta_write_l, meta_read_start,
  meta_read_l,
}

-- `CAPTURE_VERSION`
abbrev pub capture_version : ℕ
capture_version = 4

-- `REPLAY_VERSION`
abbrev pub replay_version : ℕ
replay_version = 3

-- The check of the version of a .capture file: one with none passes.
unfoldable pub check_capture : Bytes → Outcome (Unit {0})
check_capture file = elim (meta_read_l (meta_read_start file) (bytes "capture_version")) [
  | none ↦ ok tt
  | some version ↦ if eqz version (pos capture_version) then ok tt else exit
]

-- What goes into the header: of the options and of the generator
pub record Totals : Type 0 where
  pub user : Bytes
  pub name : Bytes
  pub num_vsizes : ℕ
  pub num_mapped_pids : ℕ
  pub num_mapped_fds : ℕ
  pub lineno : ℕ
  pub num_lines_filtered : ℕ

-- The text of the header
unfoldable pub write_header : ℕ → Totals → Bytes
write_header init_offset t =
    meta_write_start
    ++ (meta_write_l (bytes "replay_version") (pos replay_version)
        ++ (meta_write_l (bytes "init_offset") (pos init_offset)
            ++ (meta_write_s (bytes "user") t.user
                ++ (meta_write_s (bytes "name") t.name
                    ++ (meta_write_l (bytes "num_vsizes") (pos t.num_vsizes)
                        ++ (meta_write_l (bytes "num_mapped_pids") (pos t.num_mapped_pids)
                            ++ (meta_write_l (bytes "num_mapped_fds") (pos t.num_mapped_fds)
                                ++ meta_write_l (bytes "num_lines")
                                    (pos t.lineno -ℤ pos t.num_lines_filtered))))))))

-- What stands in front of the INIT section until the header is written: the reserve, the lines that
-- the writer has written, and the mark
unfoldable pub before_init : Bytes → Bytes → Bytes
before_init beyond lines = meta_reserve beyond ++ (lines ++ (bytes "#INIT" ++ (b'\n' ∷ [])))

-- The .replay file, from what the writer and the callback of the INIT section have written
unfoldable pub replay_file : Bytes → Bytes → Bytes → Totals → Bytes
replay_file beyond lines init_lines t =
    write_at 0 (write_header (length (before_init beyond lines)) t)
      (before_init beyond lines ++ init_lines)
