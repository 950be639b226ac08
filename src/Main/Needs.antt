-- ===== src/Main/Needs.antt =====
-- What the parts of the program find in their options (ioriot/src/main.c).
use ioriot.Prelude.{
  ltz_cases, ℕ, ◌≡◌, refl, List, [], ◌∷◌, Bool, true, false, not, ◌&&◌, ◌||◌, ◌==◌, if◌then◌else◌,
  some, arith, inl, inr, Option-cases, Bool-cases, ℤ, pos, negsuc, eqz, ◌≤ℤ◌,
}
use ioriot.Main.{
  Options, options_new, Chosen, Action, unit_tests, print_version, drop_all_caches, print_help,
  refuse, cleanup, capture, generate, initialise, initialise_and_replay, replay_only, at_least_one,
  set_option, ending, with_module, is_set, action_of, replays, with_caches, start, read_options,
  main,
}
use ioriot.Text.{Bytes}
use ioriot.Text.Numbers.{atoi}

-- What a part relies on
abbrev pub Needs : Action → Options → Type 0
Needs unit_tests o = Unit
Needs print_version o = Unit
Needs drop_all_caches o = Unit
Needs print_help o = Unit
Needs refuse o = Unit
Needs cleanup o = Unit
Needs capture o = is_set o.capture_file ≡ true
Needs generate o = (is_set o.capture_file ≡ true) × (is_set o.replay_file ≡ true)
Needs initialise o = is_set o.replay_file ≡ true
Needs initialise_and_replay o = is_set o.replay_file ≡ true
Needs replay_only o = is_set o.replay_file ≡ true

-- There is a worker process, and each has a thread.
pub record HasWorkers (o : Options) : Type 0 where
  pub workers : pos 1 ≤ℤ o.num_workers
  pub threads : pos 1 ≤ℤ o.num_threads_per_worker

at_least_one_lem : (n : ℤ) → pos 1 ≤ℤ at_least_one n
at_least_one_lem n = ground (arith, ltz_cases n (pos 1))

set_option-HasWorkers :
    (cwd : Bytes) (opt : ℕ) (optarg : Bytes) (c d : Chosen)
    → HasWorkers c.opts
    → set_option cwd opt optarg c ≡ some d
    → HasWorkers d.opts
set_option-HasWorkers cwd opt optarg c d h e = record {
  workers = ground (arith, e, h.workers, at_least_one_lem (atoi optarg));
  threads = ground (arith, e, h.threads, at_least_one_lem (atoi optarg));
}

either-Needs :
    (o : Options) (b : Bool) (x y : Action)
    → (b ≡ true → Needs x o)
    → Needs y o
    → Needs (if b then x else y) o
either-Needs o true x y h k = h refl
either-Needs o false x y h k = k

action_of-Needs : (o : Options) → Needs (action_of o) o
action_of-Needs o =
    let has_capture : Bool = is_set o.capture_file in
    let has_replay : Bool = is_set o.replay_file in
    either-Needs o (o.purge || o.trash) cleanup _ (λ e. tt)
      (either-Needs o (has_capture && not has_replay) capture _ (λ e. ground (arith, e))
        (either-Needs o (has_capture && has_replay) generate _
          (λ e. (ground (arith, e), ground (arith, e)))
          (either-Needs o (has_replay && o.init && not o.replay) initialise _
            (λ e. ground (arith, e))
            (either-Needs o (has_replay && o.init && o.replay) initialise_and_replay _
              (λ e. ground (arith, e))
              (either-Needs o (has_replay && not o.init && o.replay) replay_only refuse
                (λ e. ground (arith, e)) tt)))))

-- What an outcome of the command line relies on
abbrev Ready : Action × Options → Type 0
Ready (action, o) = HasWorkers o × Needs action o

set_caches-Needs :
    (action : Action) (o : Options) (b : Bool)
    → Needs action o
    → Needs action (record o { drop_caches = b })
set_caches-Needs unit_tests o b h = tt
set_caches-Needs print_version o b h = tt
set_caches-Needs drop_all_caches o b h = tt
set_caches-Needs print_help o b h = tt
set_caches-Needs refuse o b h = tt
set_caches-Needs cleanup o b h = tt
set_caches-Needs capture o b h = h
set_caches-Needs generate o b h = h
set_caches-Needs initialise o b h = h
set_caches-Needs initialise_and_replay o b h = h
set_caches-Needs replay_only o b h = h

caches-Ready :
    (dont_drop : Bool) (action : Action) (o : Options)
    → HasWorkers o
    → Needs action o
    → Ready (with_caches dont_drop action o)
caches-Ready dont_drop action o h n = elim (Bool-cases (replays action)) [
  | inl e ↦ rw e (
    record { workers = h.workers; threads = h.threads },
    set_caches-Needs action o (not dont_drop) n,
  )
  | inr e ↦ rw e (h, n)
]

with_module-HasWorkers : (c : Chosen) → HasWorkers c.opts → HasWorkers (with_module c)
with_module-HasWorkers c h =
    elim (Bool-cases (not (eqz c.opts.pid (negsuc 0)) && not c.module_chosen)) [
      | inl e ↦ rw e (record { workers = h.workers; threads = h.threads })
      | inr e ↦ rw e h
    ]

start-Ready : (c : Chosen) → HasWorkers c.opts → Ready (start c)
start-Ready c h =
    caches-Ready c.dont_drop_caches (action_of (with_module c)) (with_module c)
      (with_module-HasWorkers c h) (action_of-Needs (with_module c))

ending-Needs : (opt : ℕ) (o : Options) → Needs (ending opt) o
ending-Needs opt o =
    either-Needs o (opt == b'U') unit_tests _ (λ e. tt)
      (either-Needs o (opt == b'V') print_version _ (λ e. tt)
        (either-Needs o (opt == b'd') drop_all_caches _ (λ e. tt)
          (either-Needs o (opt == b'h') print_help refuse (λ e. tt) tt)))

read_options-Ready :
    (cwd : Bytes) (args : List (ℕ × Bytes)) (c : Chosen)
    → HasWorkers c.opts
    → Ready (read_options cwd args c)
unfolding read_options
read_options-Ready cwd [] c h = start-Ready c h
read_options-Ready cwd ((opt, optarg) ∷ rest) c h =
    elim (Option-cases (set_option cwd opt optarg c)) [
      | inl e ↦ rw (e, read_options) (h, ending-Needs opt c.opts)
      | inr (d, e) ↦
          rw (e, read_options)
            (read_options-Ready cwd rest d (set_option-HasWorkers cwd opt optarg c d h e))
    ]

-- Whatever the command line says, its options ask for one worker process and one thread of it at
-- least, and name the files that the chosen part of the program works on: a .capture file to
-- capture or to generate from, a .replay file to generate, to initialise from or to replay.
pub main-Needs :
    (cwd : Bytes) (args : List (ℕ × Bytes))
    → HasWorkers (main cwd args).1 × Needs (main cwd args).0 (main cwd args).1
unfolding main
main-Needs cwd args =
    read_options-Ready cwd args
      (record { opts = options_new; dont_drop_caches = false; module_chosen = false })
      (record { workers = omega arith; threads = omega arith })
