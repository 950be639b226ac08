-- ===== src/Generate/Parser.antt =====
-- The parser of the capture: ioriot/src/generate/gparser.c, from a line to the task that the
-- generator turns into a line of the .replay file. Its thread hands each task on as it is.
pub mod Keys
pub mod Valid
pub mod Accepted
use ioriot.Prelude.{
  ℕ, zero, suc, ◌+◌, ◌-◌, ◌*◌, ◌/◌, ◌%◌, ◌^◌, ◌≤◌, ◌<◌, ◌≡◌, ◌≢◌, ◌⊎◌, ◌↔◌, refl, ap, sym, subst,
  ◌∙◌, List, [], ◌∷◌, ◌++◌, Bool, true, false, not, ◌&&◌, ◌||◌, ◌==◌, ltb, leb, is_nil, length,
  get_or, set, if◌then◌else◌, Option, some, none, arith, length-append, inl, inr, Option-cases,
  Bool-cases, ℤ, pos, negsuc, eqz, ltz, lez, ◌+ℤ◌, ◌-ℤ◌, ◌≤ℤ◌, ◌<ℤ◌, Outcome, ok, exit, fault,
  ◌>>=◌, Holds, Holds-bind, Holds-any,
}
use ioriot.Text.{Bytes, bytes, same}
use ioriot.Text.Tokens.{all_tokens}
use ioriot.Mounts.{Mounts, transform_path}
use ioriot.Mounts.Links.{transform_symlink_target}
use ioriot.Generate.Task.{Task, task_init}
use Keys.{Parse, extract_tok}

-- `MAX_TOKENS`
abbrev pub max_tokens : ℕ
max_tokens = 10

-- The loop of `gparser_extract`, with the number of tokens that it still takes; `false` is ERROR.
unfoldable pub extract_toks : ℕ → List Bytes → Parse → Outcome (Bool × Parse)
extract_toks left [] p = ok (true, p)
extract_toks zero (tok ∷ toks) p = ok (false, p)
extract_toks (suc left) (tok ∷ toks) p = do
  (success, p) ← extract_tok p tok
  if success then extract_toks left toks p else ok (false, p)

-- What has to be there
unfoldable pub complete : Parse → Bool
complete p =
    let t = p.task in
    if ltz t.pid (pos 0) || ltz p.tid (pos 0)
    then false
    else elim t.op [ none ↦ false | some op ↦ not (eqz t.mapped_time (negsuc 0)) ]

-- A path that is not that of a link's target: whether it is accepted, and what it becomes
unfoldable pub transformed : Mounts → Bytes → Bytes → Bool × Bytes
transformed m name path =
    let (accepted, path_r) = transform_path m name path in
    (accepted, elim path_r [ some path_r ↦ path_r | none ↦ path ])

unfoldable pub first_path : Mounts → Bytes → Option Bytes → Bool × Option Bytes
first_path m name none = (true, none)
first_path m name (some path) =
    let (accepted, path_r) = transformed m name path in (accepted, some path_r)

-- Whether `op` is one of the two calls whose second path is what a link contains
unfoldable pub reads_link : Option Bytes → Bool
reads_link none = false
reads_link (some op) = same op (bytes "readlink") || same op (bytes "readlinkat")

unfoldable pub link_target :
    Mounts → Bytes → Option Bytes → Option Bytes → Bytes → Outcome (Option Bytes)
link_target m name none path path2 = ok none
link_target m name (some original) none path2 = ok none
link_target m name (some original) (some path) path2 =
    transform_symlink_target m name original path path2

unfoldable pub second_path :
    Mounts → Bytes → Option Bytes → Option Bytes → Task → Outcome (Bool × Option Bytes)
second_path m name original none t = ok (true, none)
second_path m name original (some path2) t =
    if not (reads_link t.op)
    then ok (first_path m name (some path2))
    else do target ← link_target m name original t.path path2; ok (true, target)

-- The rest of `gparser_extract`, once all tokens are taken
unfoldable pub transform_paths : Mounts → Bytes → Parse → Outcome (Bool × Parse)
transform_paths m name p =
    let t = p.task in
    let original = t.path in
    let (accepted, path) = first_path m name original in
    if not (complete p && accepted) then ok (false, p) else do
      let t = record t { path = path }
      (accepted, path2) ← second_path m name original t.path2 t
      ok (accepted, record p { task = record t { path2 = if accepted then path2 else t.path2 } })

-- `gparser_extract` of a task that `gtask_init` has set up for the line
unfoldable pub parse_new : ℕ → ℤ → Parse
parse_new lineno start_time = record {
  task = task_init lineno;
  tid = negsuc 0;
  address = pos 0;
  address2 = pos 0;
  start_time = start_time;
}

abbrev pub with_status : Bool → Parse → Parse
with_status success p = record p { task = record p.task { ret = if success then pos 0 else pos 2 } }

unfoldable pub extract : Mounts → Bytes → Bytes → Parse → Outcome (Bool × Parse)
extract m name line p = do
  (success, p) ← extract_toks max_tokens (all_tokens (bytes ";:,") line) p
  (success, p) ← if success then transform_paths m name p else ok (false, p)
  ok (success, with_status success p)
