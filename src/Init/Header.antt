-- ===== src/Init/Header.antt =====
-- `init_extract_header` of ioriot/src/init/init.c.
use ioriot.Prelude.{ℤ, Outcome, ok, ◌>>=◌}
use ioriot.Text.{Bytes, bytes}
use ioriot.Meta.{meta_read_start, meta_read_s, meta_read_l}
use ioriot.Replay.Header.{check_version, text_or, count_or}

-- What it sets: `user` and `name` of the options, and the offset of its caller
pub record InitHeader : Type 0 where
  pub user : Bytes
  pub name : Bytes
  pub init_offset : ℤ

unfoldable pub init_extract_header : InitHeader → Bytes → Outcome InitHeader
init_extract_header h file =
    let read_buf = meta_read_start file in
    check_version (meta_read_l read_buf (bytes "replay_version")) >>= λ _.
    count_or h.init_offset (meta_read_l read_buf (bytes "init_offset")) >>= λ init_offset.
    ok (record {
      user = text_or h.user (meta_read_s read_buf (bytes "user"));
      name = text_or h.name (meta_read_s read_buf (bytes "name"));
      init_offset = init_offset;
    })
