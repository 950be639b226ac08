-- ===== src/Tests/Main.antt =====
-- Command lines (ioriot/src/main.c).
use ioriot.Prelude.{ℕ, ◌≡◌, refl, List, [], ◌∷◌, false, some, pos, eqz, ltz}
use ioriot.Datas.Key.{to_int}
use ioriot.Main.{initialise_and_replay, main, read_options}
use ioriot.Main.Needs.{HasWorkers, Needs, main-Needs}
use ioriot.Text.{Bytes, bytes}
use ioriot.Text.Numbers.{atoi, strtol, clamp_pos, long_bound}

-- `ioriot -R x -p 0 -D`
abbrev replay_args : List (ℕ × Bytes)
replay_args = (b'R', bytes "x") ∷ (b'p', bytes "0") ∷ (b'D', []) ∷ []

replay_run :
    ((main (bytes "/tmp") replay_args).0 ≡ initialise_and_replay)
    × ((main (bytes "/tmp") replay_args).1.replay_file ≡ some (bytes "/tmp/x"))
    × ((main (bytes "/tmp") replay_args).1.num_workers ≡ pos 1)
    × ((main (bytes "/tmp") replay_args).1.drop_caches ≡ false)
unfolding main read_options atoi strtol to_int clamp_pos long_bound ltz eqz
replay_run = (refl, refl, refl, refl)

main-Needs_example :
    HasWorkers (main (bytes "/tmp") replay_args).1
    × Needs (main (bytes "/tmp") replay_args).0 (main (bytes "/tmp") replay_args).1
main-Needs_example = main-Needs (bytes "/tmp") replay_args
