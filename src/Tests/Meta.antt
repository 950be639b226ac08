-- ===== src/Tests/Meta.antt =====
-- The header of the unit test of ioriot/src/replay/replay.c.
use ioriot.Prelude.{◌≡◌, refl, [], arith, pos, ◌-ℤ◌, ok}
use ioriot.Text.{bytes, drop}
use ioriot.Generate.Header.{Totals, write_header, before_init, replay_file}
use ioriot.Replay.Header.{Header, replay_extract_header}
use ioriot.Init.Header.{InitHeader, init_extract_header}
use ioriot.Meta.{meta_reserve, max_meta_len}
use ioriot.Meta.Reading.{IsHeader}
use ioriot.Meta.RoundTrip.{extract_header-replay_file}
use ioriot.Text.Numbers.{long_bound, show_long, show_nat, show_from}

abbrev totals : Totals
totals = record {
  user = bytes "metauser";
  name = bytes "metatest";
  num_vsizes = 11;
  num_mapped_pids = 22;
  num_mapped_fds = 33;
  lineno = 50;
  num_lines_filtered = 6;
}

abbrev no_header : Header
no_header = record {
  user = [];
  name = [];
  num_vsizes = pos 0;
  num_pids = pos 0;
  num_fds = pos 0;
  num_lines = pos 0;
}

abbrev no_init : InitHeader
no_init = record { user = []; name = []; init_offset = pos 7 }

write_header_run :
    write_header 262 totals
    ≡ bytes
        "#|replay_version=3|init_offset=262|user=metauser|name=metatest|num_vsizes=11|num_mapped_pids=22|num_mapped_fds=33|num_lines=44|"
unfolding write_header show_long show_nat show_from ◌-ℤ◌
write_header_run = refl

totals-IsHeader : IsHeader 262 totals
unfolding long_bound max_meta_len
totals-IsHeader = record {
  user_bar = refl;
  name_bar = refl;
  user_line = refl;
  name_line = refl;
  vsizes = omega arith;
  pids = omega arith;
  fds = omega arith;
  lines = omega arith;
  filtered = omega arith;
  offset = omega arith;
  fits = rw write_header_run (omega arith);
}

extract_header-replay_file_example :
    (replay_extract_header no_header (replay_file [] [] (bytes "x") totals)
      ≡ ok (record {
        user = bytes "metauser";
        name = bytes "metatest";
        num_vsizes = pos 11;
        num_pids = pos 22;
        num_fds = pos 33;
        num_lines = pos 44;
      }))
    × (init_extract_header no_init (replay_file [] [] (bytes "x") totals)
        ≡ ok (record { user = bytes "metauser"; name = bytes "metatest"; init_offset = pos 262 }))
    × (drop 262 (replay_file [] [] (bytes "x") totals) ≡ bytes "x")
unfolding before_init meta_reserve max_meta_len
extract_header-replay_file_example =
    extract_header-replay_file [] [] (bytes "x") totals 262 no_header no_init refl totals-IsHeader
      refl
