-- ===== src/Generate/Parser/Accepted.antt =====
-- What the rest of the generator can rely on in a task that `gparser_extract` of
-- ioriot/src/generate/gparser.c has accepted.
use ioriot.Prelude.{
  ℕ, zero, suc, ◌≤◌, ◌≡◌, ◌≢◌, refl, List, [], ◌∷◌, Bool, true, false, not, length, if◌then◌else◌,
  Option, some, none, arith, inl, inr, Option-cases, Bool-cases, ℤ, pos, negsuc, eqz, ltz, ◌≤ℤ◌, ok,
  Holds, Holds-bind,
}
use ioriot.Prelude.{Holds-weaken}
use ioriot.Text.{Bytes, bytes}
use ioriot.Text.Tokens.{all_tokens}
use ioriot.Mounts.{Mounts, transform_path}
use ioriot.Mounts.Normal.{All}
use ioriot.Mounts.Clean.{Clean, CleanIf, transform_path-Clean}
use ioriot.Mounts.Clean.Links.{transform_symlink_target-Clean, if-CleanIf}
use ioriot.Generate.Task.{Task, task_init}
use ioriot.Generate.Parser.{
  max_tokens, extract_toks, complete, transformed, first_path, reads_link, link_target, second_path,
  transform_paths, parse_new, with_status, extract,
}
use ioriot.Generate.Parser.Keys.{Parse, extract_tok}
use ioriot.Generate.Parser.Valid.{IsValid, Leaves, extract_tok-Leaves, if-Holds}

-- What is checked once all tokens are taken
pub record IsComplete (p : Parse) : Type 0 where
  pub pid : pos 0 ≤ℤ p.task.pid
  pub tid : pos 0 ≤ℤ p.tid
  pub op : Bytes
  pub names : p.task.op ≡ some op
  pub time : p.task.mapped_time ≢ negsuc 0

complete-IsComplete : (p : Parse) → complete p ≡ true → IsComplete p
unfolding complete ltz eqz
complete-IsComplete p h = elim (Option-cases p.task.op) [
  | inl missing ↦ absurd (ground (arith, h, missing))
  | inr (op, names) ↦ record {
    pid = ground (arith, h);
    tid = ground (arith, h);
    op = op;
    names = names;
    time = λ blank. ground (arith, h, names, blank);
  }
]

-- The tokens
extract_toks-Leaves :
    (started : ℤ) (left : ℕ) (toks : List Bytes) (p : Parse)
    → IsValid started p
    → Holds
        (λ r. IsValid started r.1 × (r.0 ≡ true → length toks ≤ left))
        (extract_toks left toks p)
unfolding extract_toks
extract_toks-Leaves started left [] p h = (h, λ _. omega arith)
extract_toks-Leaves started zero (tok ∷ toks) p h = (h, λ r. absurd (ground (arith, r)))
extract_toks-Leaves started (suc left) (tok ∷ toks) p h =
    Holds-bind (Leaves started) _ (extract_tok p tok) _ (extract_tok-Leaves started p tok h)
      (λ r valid.
        if-Holds _ r.0 _ (ok (false, r.1))
          (Holds-weaken (λ s. IsValid started s.1 × (s.0 ≡ true → length toks ≤ left)) _
            (extract_toks left toks r.1) (λ s h. (h.0, λ e. omega (arith, h.1 e)))
            (extract_toks-Leaves started left toks r.1 valid))
          (valid, λ e. absurd (ground (arith, e))))

-- The paths
or-Clean :
    (o : Option Bytes) (s : Bytes)
    → CleanIf o
    → Clean s
    → Clean (elim o [ some path_r ↦ path_r | none ↦ s ])
or-Clean none s h k = k
or-Clean (some path_r) s h k = h

first_path-Clean :
    (m : Mounts) (name : Bytes) (path : Option Bytes)
    → All Clean m.mps
    → Clean name
    → CleanIf path
    → CleanIf (first_path m name path).1
unfolding first_path transformed
first_path-Clean m name none k n h = tt
first_path-Clean m name (some path) k n h =
    or-Clean (transform_path m name path).1 path (transform_path-Clean m name path k n h) h

link_target-Clean :
    (m : Mounts) (name : Bytes) (original path : Option Bytes) (path2 : Bytes)
    → All Clean m.mps
    → Clean name
    → CleanIf original
    → Clean path2
    → Holds CleanIf (link_target m name original path path2)
unfolding link_target
link_target-Clean m name none path path2 k n o h = tt
link_target-Clean m name (some original) none path2 k n o h = tt
link_target-Clean m name (some original) (some path) path2 k n o h =
    transform_symlink_target-Clean m name original path path2 k n o h

second_path-Clean :
    (m : Mounts) (name : Bytes) (original path2 : Option Bytes) (t : Task)
    → All Clean m.mps
    → Clean name
    → CleanIf original
    → CleanIf path2
    → Holds (λ r. CleanIf r.1) (second_path m name original path2 t)
unfolding second_path
second_path-Clean m name original none t k n o h = tt
second_path-Clean m name original (some path2) t k n o h =
    if-Holds _ (not (reads_link t.op)) _ _ (first_path-Clean m name (some path2) k n h) (
      Holds-bind CleanIf _ (link_target m name original t.path path2) _
        (link_target-Clean m name original t.path path2 k n o h) (λ target clean. clean))

transform_paths-Leaves :
    (m : Mounts) (name : Bytes) (started : ℤ) (p : Parse)
    → All Clean m.mps
    → Clean name
    → IsValid started p
    → Holds (λ r. IsValid started r.1 × (r.0 ≡ true → IsComplete r.1)) (transform_paths m name p)
unfolding transform_paths
transform_paths-Leaves m name started p k n h = elim (Bool-cases (complete p)) [
  | inr e ↦ rw e (h, λ r. absurd (ground (arith, r)))
  | inl e ↦ rw e (
      if-Holds _ (not (first_path m name p.task.path).0) _ _ (h, λ r. absurd (ground (arith, r)))
        (Holds-bind (λ r. CleanIf r.1) _ _ _
          (second_path-Clean m name p.task.path p.task.path2 _ k n h.path_lem h.path2_lem)
          (λ r clean. (
            record {
              path_lem = first_path-Clean m name p.task.path k n h.path_lem;
              path2_lem = if-CleanIf r.0 r.1 p.task.path2 clean h.path2_lem;
              descriptor = h.descriptor;
              start = h.start;
            },
            λ accepted.
                (let c = complete-IsComplete p e in
                  record { pid = c.pid; tid = c.tid; op = c.op; names = c.names; time = c.time }),
          ))))
]

-- A task that the parser accepts
pub record IsAccepted (started : ℤ) (line : Bytes) (p : Parse) : Type 0 where
  pub tokens : length (all_tokens (bytes ";:,") line) ≤ max_tokens
  pub complete_lem : IsComplete p
  pub valid : IsValid started p
  pub ret : p.task.ret ≡ pos 0

parse_new-IsValid : (lineno : ℕ) (started : ℤ) → IsValid started (parse_new lineno started)
unfolding parse_new task_init
parse_new-IsValid lineno started = record {
  path_lem = tt;
  path2_lem = tt;
  descriptor = λ has. absurd (ground (arith, has));
  start = λ known. refl;
}

IsRight : ℤ → List Bytes → Bool × Parse → Type 0
IsRight started toks r =
    IsValid started r.1 × (r.0 ≡ true → (length toks ≤ max_tokens) × IsComplete r.1)

with_status-IsComplete : (b : Bool) (p : Parse) → IsComplete p → IsComplete (with_status b p)
with_status-IsComplete b p c = record {
  pid = c.pid;
  tid = c.tid;
  op = c.op;
  names = c.names;
  time = c.time;
}

rest-IsRight :
    (m : Mounts) (name : Bytes) (started : ℤ) (toks : List Bytes) (r : Bool × Parse)
    → All Clean m.mps
    → Clean name
    → IsValid started r.1
    → (r.0 ≡ true → length toks ≤ max_tokens)
    → Holds (IsRight started toks) (if r.0 then transform_paths m name r.1 else ok (false, r.1))
unfolding IsRight
rest-IsRight m name started toks (true, p) k n h l =
    Holds-weaken (λ r. IsValid started r.1 × (r.0 ≡ true → IsComplete r.1)) _
      (transform_paths m name p) (λ r g. (g.0, λ e. (l refl, g.1 e)))
      (transform_paths-Leaves m name started p k n h)
rest-IsRight m name started toks (false, p) k n h l = (h, λ e. absurd (ground (arith, e)))

-- Of every line of a capture, whatever it contains: a task that the parser accepts has at most ten
-- tokens, a process and a thread number that are not negative, an operation and a time. Its
-- descriptor is positive if it counts, and neither of its paths, once it is put behind
-- its mount point, has the byte `|`, provided that the mount points and the test's name do not.
-- Whether the task is accepted or not, the time that the capture starts at stays what it was once
-- it was known.
pub extract-IsAccepted :
    (m : Mounts) (name line : Bytes) (lineno : ℕ) (started : ℤ)
    → All Clean m.mps
    → Clean name
    → Holds
        (λ r.
          (started ≢ negsuc 0 → r.1.start_time ≡ started)
          × (r.0 ≡ true → IsAccepted started line r.1))
        (extract m name line (parse_new lineno started))
unfolding extract IsRight
extract-IsAccepted m name line lineno started k n =
    let toks : List Bytes = all_tokens (bytes ";:,") line in
    let new : Parse = parse_new lineno started in
    Holds-bind (λ r. IsValid started r.1 × (r.0 ≡ true → length toks ≤ max_tokens)) _
      (extract_toks max_tokens toks new) _
      (extract_toks-Leaves started max_tokens toks new (parse_new-IsValid lineno started))
      (λ r h.
        Holds-bind (IsRight started toks) _
          (if r.0 then transform_paths m name r.1 else ok (false, r.1)) _
          (rest-IsRight m name started toks r k n h.0 h.1)
          (λ s g. (
            g.0.start,
            λ e. record {
              tokens = (g.1 e).0;
              complete_lem = with_status-IsComplete s.0 s.1 (g.1 e).1;
              valid = g.0;
              ret = rw e refl;
            },
          )))
