-- ===== src/Main.antt =====
-- The command line: ioriot/src/main.c and options.c. What `getopt` finds is a list of letters, each
-- with its argument, and what the chosen part of the program does is left to the other modules.
pub mod Needs
use ioriot.Prelude.{
  ℕ, zero, suc, ◌+◌, ◌-◌, ◌*◌, ◌/◌, ◌%◌, ◌^◌, ◌≤◌, ◌<◌, ◌≡◌, ◌≢◌, ◌⊎◌, ◌↔◌, refl, ap, sym, subst,
  ◌∙◌, List, [], ◌∷◌, ◌++◌, Bool, true, false, not, ◌&&◌, ◌||◌, ◌==◌, ltb, leb, is_nil, length,
  get_or, set, if◌then◌else◌, Option, some, none, arith, length-append, inl, inr, Option-cases,
  Bool-cases, ℤ, pos, negsuc, eqz, ltz, lez, ◌+ℤ◌, ◌-ℤ◌, ◌≤ℤ◌, ◌<ℤ◌, Outcome, ok, exit, fault,
  ◌>>=◌, Holds, Holds-bind, Holds-any,
}
use ioriot.Text.{Bytes, bytes}
use ioriot.Text.Numbers.{atoi}

-- `options_s`; of the speed factor, the text is kept.
pub record Options : Type 0 where
  pub capture_file : Option Bytes
  pub replay_file : Option Bytes
  pub stats_file : Option Bytes
  pub user : Bytes
  pub name : Bytes
  pub wd_base : Bytes
  pub num_workers : ℤ
  pub num_threads_per_worker : ℤ
  pub init : Bool
  pub replay : Bool
  pub purge : Bool
  pub trash : Bool
  pub drop_caches : Bool
  pub speed_factor : Bytes
  pub pid : ℤ
  pub kernel_module : Bytes

-- `options_new`
abbrev pub options_new : Options
options_new = record {
  capture_file = none;
  replay_file = none;
  stats_file = none;
  user = bytes "nobody";
  name = bytes "test0";
  wd_base = bytes "/usr/local/ioriot";
  num_workers = pos 4;
  num_threads_per_worker = pos 128;
  init = false;
  replay = false;
  purge = false;
  trash = false;
  drop_caches = false;
  speed_factor = bytes "0";
  pid = negsuc 0;
  kernel_module = bytes "ioriot.ko";
}

-- The options, `dont_drop_caches` and `module_chosen`
pub record Chosen : Type 0 where
  pub opts : Options
  pub dont_drop_caches : Bool
  pub module_chosen : Bool

-- The parts of the program
pub data Action : Type 0 where
  unit_tests : Action
  print_version : Action
  drop_all_caches : Action
  print_help : Action
  refuse : Action
  cleanup : Action
  capture : Action
  generate : Action
  initialise : Action
  initialise_and_replay : Action
  replay_only : Action

-- `absolute_path`, in the given working directory
abbrev pub absolute_path : Bytes → Bytes → Bytes
absolute_path cwd [] = cwd ++ b'/' ∷ []
absolute_path cwd (c ∷ path) = if c == b'/' then c ∷ path else cwd ++ (b'/' ∷ (c ∷ path))

-- The first file named for a replay is kept.
abbrev pub replay_file_of : Bytes → Bytes → Option Bytes → Option Bytes
replay_file_of cwd optarg (some file) = some file
replay_file_of cwd optarg none = some (absolute_path cwd optarg)

abbrev pub at_least_one : ℤ → ℤ
at_least_one n = if ltz n (pos 1) then pos 1 else n

abbrev pub with_options : (Options → Options) → Chosen → Chosen
with_options f c = record c { opts = f c.opts }

-- The options that set a value
abbrev pub set_option : Bytes → ℕ → Bytes → Chosen → Option Chosen
set_option cwd opt optarg c =
    if opt == b'D'
    then some (record c { dont_drop_caches = true })
    else if opt == b'c'
    then some (with_options (λ o. record o { capture_file = some (absolute_path cwd optarg) }) c)
    else if opt == b'P'
    then some (with_options (λ o. record o { purge = true }) c)
    else if opt == b'T'
    then some (with_options (λ o. record o { trash = true }) c)
    else if opt == b'i'
    then some (
        with_options
          (λ o. record o { init = true; replay_file = replay_file_of cwd optarg o.replay_file }) c)
    else if opt == b'R'
    then some (
        with_options
          (λ o. record o {
            init = true;
            replay = true;
            replay_file = replay_file_of cwd optarg o.replay_file;
          })
          c)
    else if opt == b'r'
    then some (
        with_options
          (λ o. record o { replay = true; replay_file = replay_file_of cwd optarg o.replay_file })
          c)
    else if opt == b'S'
    then some (with_options (λ o. record o { stats_file = some optarg }) c)
    else if opt == b'w'
    then some (with_options (λ o. record o { wd_base = optarg }) c)
    else if opt == b'u'
    then some (with_options (λ o. record o { user = optarg }) c)
    else if opt == b'm'
    then some (record c { opts = record c.opts { kernel_module = optarg }; module_chosen = true })
    else if opt == b'n'
    then some (with_options (λ o. record o { name = optarg }) c)
    else if opt == b's'
    then some (with_options (λ o. record o { speed_factor = optarg }) c)
    else if opt == b'p'
    then some (with_options (λ o. record o { num_workers = at_least_one (atoi optarg) }) c)
    else if opt == b't'
    then some
        (with_options (λ o. record o { num_threads_per_worker = at_least_one (atoi optarg) }) c)
    else if opt == b'x'
    then some (with_options (λ o. record o { pid = atoi optarg }) c)
    else none

-- The options that end the program, and those that are none
abbrev pub ending : ℕ → Action
ending opt =
    if opt == b'U'
    then unit_tests
    else if opt == b'V'
    then print_version
    else if opt == b'd'
    then drop_all_caches
    else if opt == b'h'
    then print_help
    else refuse

-- A process to capture needs the module that targets one, unless another was named.
abbrev pub with_module : Chosen → Options
with_module c =
    if not (eqz c.opts.pid (negsuc 0)) && not c.module_chosen
    then record c.opts { kernel_module = bytes "targetedioriot.ko" }
    else c.opts

abbrev pub is_set : Option Bytes → Bool
is_set none = false
is_set (some file) = true

-- What the options ask for
abbrev pub action_of : Options → Action
action_of o =
    if o.purge || o.trash
    then cleanup
    else if is_set o.capture_file && not (is_set o.replay_file)
    then capture
    else if is_set o.capture_file && is_set o.replay_file
    then generate
    else if is_set o.replay_file && o.init && not o.replay
    then initialise
    else if is_set o.replay_file && o.init && o.replay
    then initialise_and_replay
    else if is_set o.replay_file && not o.init && o.replay
    then replay_only
    else refuse

abbrev pub replays : Action → Bool
replays unit_tests = false
replays print_version = false
replays drop_all_caches = false
replays print_help = false
replays refuse = false
replays cleanup = false
replays capture = false
replays generate = false
replays initialise = false
replays initialise_and_replay = true
replays replay_only = true

-- `drop_caches` is set for a replay only.
abbrev pub with_caches : Bool → Action → Options → Action × Options
with_caches dont_drop action o =
    (action, if replays action then record o { drop_caches = not dont_drop } else o)

abbrev pub start : Chosen → Action × Options
start c = with_caches c.dont_drop_caches (action_of (with_module c)) (with_module c)

-- The loop over the options, and what follows it: the part of the program that runs, and its
-- options
unfoldable pub read_options : Bytes → List (ℕ × Bytes) → Chosen → Action × Options
read_options cwd [] c = start c
read_options cwd ((opt, optarg) ∷ rest) c = elim (set_option cwd opt optarg c) [
  | none ↦ (ending opt, c.opts)
  | some d ↦ read_options cwd rest d
]

-- `main`
unfoldable pub main : Bytes → List (ℕ × Bytes) → Action × Options
main cwd args =
    read_options cwd args
      (record { opts = options_new; dont_drop_caches = false; module_chosen = false })
