-- ===== src/Futils/Depth.antt =====
-- The depth of `mkdir_p` of ioriot/src/utils/futils.c.
use ioriot.Prelude.{
  ℕ, zero, suc, ◌+◌, ◌≤◌, ◌<◌, ◌≡◌, ◌⊎◌, refl, ◌∙◌, [], ◌∷◌, Bool, true, ◌==◌, is_nil, length,
  if◌then◌else◌, some, none, arith, inl, inr, Option-cases, Bool-cases, Outcome, ok, ◌>>=◌, subst,
  false, fault,
}
use ioriot.Text.{Bytes, bytes, same, last, trim, before_last, dirname_r}
use ioriot.Mounts.Resolves.{same-eq}
use ioriot.Futils.{
  FileSystem, directory, is_directory, is_regular, mkdir_p, with_parent, below, depth_of,
}

length-before_last :
    (d : ℕ) (s before : Bytes) → before_last d s ≡ some before → length before < length s
length-before_last d [] before e = absurd (ground (arith, e))
length-before_last d (c ∷ s) before e = elim (Option-cases (before_last d s)) [
  | inl p ↦ ground (arith, e, p)
  | inr (b, p) ↦ ground (arith, e, p, length-before_last d s b p)
]

length-trim : (d : ℕ) (s : Bytes) → length (trim d s) ≤ length s
length-trim d [] = omega arith
length-trim d (c ∷ s) = ground (arith, length-trim d s)

trim-last : (d c : ℕ) (s : Bytes) → (last c s == d) ≡ true → length (trim d (c ∷ s)) ≤ length s
trim-last d c [] e = rw e (omega arith)
trim-last d c (b ∷ s) e = ground (arith, trim-last d b s e)

-- The shorter path behind `dirname_r`, or one of those that are always there
abbrev Ends : Bytes → Bytes → Type 0
Ends path top =
    (length top < length path) ⊎ (top ≡ bytes ".") ⊎ (top ≡ bytes "..") ⊎ (top ≡ bytes "/")

some-eq : (path top : Bytes) → some path ≡ some top → top ≡ path
some-eq path top e = ground (arith, e)

only-slash :
    (c : ℕ) (s top : Bytes)
    → some (c ∷ s) ≡ some top
    → (last c s == b'/') ≡ true
    → is_nil s ≡ true
    → top ≡ bytes "/"
only-slash c [] top e q r = ground (arith, e, q)
only-slash c (d ∷ s) top e q r = absurd (ground (arith, r))

dirname-Ends : (path top : Bytes) → dirname_r path ≡ some top → Ends path top
unfolding dirname_r
dirname-Ends [] top e = absurd (ground (arith, e))
dirname-Ends (c ∷ s) top e = elim (Bool-cases (same (c ∷ s) (b'.' ∷ b'.' ∷ []))) [
  | inl p ↦
      let up : c ∷ s ≡ bytes ".." = same-eq (c ∷ s) (bytes "..") p in
      inr (inr (inl (some-eq (c ∷ s) top (ground (arith, e, p)) ∙ up)))
  | inr p ↦ elim (Bool-cases (last c s == b'/')) [
    | inl q ↦ elim (Bool-cases (is_nil s)) [
      | inl r ↦ inr (inr (inr (only-slash c s top (ground (arith, e, p, q, r)) q r)))
      | inr r ↦ elim (Option-cases (before_last b'/' (trim b'/' (c ∷ s)))) [
        | inl n ↦ inl (ground (arith, e, p, q, r, n, trim-last b'/' c s q))
        | inr (b, n) ↦ inl (
            ground (
              arith,
              e,
              p,
              q,
              r,
              n,
              length-trim b'/' (c ∷ s),
              length-before_last b'/' (trim b'/' (c ∷ s)) b n,
            ))
      ]
    ]
    | inr q ↦ elim (Option-cases (before_last b'/' (c ∷ s))) [
      | inl n ↦ inr (inl (ground (arith, e, p, q, n)))
      | inr (b, n) ↦ inl (ground (arith, e, p, q, n, length-before_last b'/' (c ∷ s) b n))
    ]
  ]
]

-- The directories that are always there
pub record HasDots {S : Type 0} (sys : FileSystem S) : Type 0 where
  pub dot : (s : S) → sys.stat s (bytes ".") ≡ directory
  pub up : (s : S) → sys.stat s (bytes "..") ≡ directory
  pub root : (s : S) → sys.stat s (bytes "/") ≡ directory

-- A regular file in place of the directory is removed.
abbrev pub cleared : {S : Type 0} → FileSystem S → S → Bytes → S
cleared sys s path = if is_regular (sys.stat s path) then sys.unlink s path else s

-- The outcomes of the recursion of `mkdir_p`, however deep it is
pub data MkdirP (S : Type 0) (sys : FileSystem S)
    : S → Bytes → Outcome (Bool × ℕ × S) → Type 0 where
  there :
      {s : S} {path : Bytes}
      → is_directory (sys.stat s path) ≡ true
      → MkdirP S sys s path (ok (true, 0, s))
  no_parent :
      {s : S} {path : Bytes}
      → is_directory (sys.stat s path) ≡ false
      → dirname_r path ≡ none
      → MkdirP S sys s path fault
  behind :
      {s : S} {path parent : Bytes} {above : Outcome (Bool × ℕ × S)}
      → is_directory (sys.stat s path) ≡ false
      → dirname_r path ≡ some parent
      → MkdirP S sys (cleared sys s path) parent above
      → MkdirP S sys s path (above >>= below sys path)

module _ {S : Type 0} (sys : FileSystem S) (k : HasDots sys) where
  always :
      (s : S) (path top : Bytes)
      → Ends path top
      → (length top < length path) ⊎ (sys.stat s top ≡ directory)
  always s path top (inl h) = inl h
  always s path top (inr (inl e)) = inr (rw e (k.dot s))
  always s path top (inr (inr (inl e))) = inr (rw e (k.up s))
  always s path top (inr (inr (inr e))) = inr (rw e (k.root s))

  mkdir_p-step :
      (depth : ℕ) (s : S) (path : Bytes)
      → mkdir_p sys (suc depth) s path ≡ (
          if is_directory (sys.stat s path)
          then ok (true, 0, s)
          else with_parent sys
              (mkdir_p sys depth)
              (if is_regular (sys.stat s path) then sys.unlink s path else s)
              path
              (dirname_r path))
  unfolding mkdir_p
  mkdir_p-step depth s path = refl

  mkdir_p-exact :
      (depth : ℕ) (s : S) (path : Bytes)
      → (length path < depth) ⊎ (sys.stat s path ≡ directory)
      → MkdirP S sys s path (mkdir_p sys (suc depth) s path)
  mkdir_p-exact depth s path (inr e) = rw (mkdir_p-step depth s path, e) (there (rw e refl))
  mkdir_p-exact zero s path (inl h) = absurd (omega (arith, h))
  mkdir_p-exact (suc depth) s path (inl h) =
      let clear : S = cleared sys s path in
      elim (Bool-cases (is_directory (sys.stat s path))) [
        | inl dir ↦ rw (mkdir_p-step (suc depth) s path, dir) (there dir)
        | inr new ↦ elim (Option-cases (dirname_r path)) [
          | inl e ↦ rw (mkdir_p-step (suc depth) s path, new, e) (no_parent new e)
          | inr (parent, e) ↦
              let above : MkdirP S sys clear parent (mkdir_p sys (suc depth) clear parent) =
                elim (always clear path parent (dirname-Ends path parent e)) [
                  | inl shorter ↦ mkdir_p-exact depth clear parent (inl (omega (arith, shorter, h)))
                  | inr dir ↦ mkdir_p-exact depth clear parent (inr dir)
                ] in
              rw (mkdir_p-step (suc depth) s path, new, e) (behind new e above)
        ]
      ]

  -- Where `.`, `..` and `/` are directories, the outcome of `mkdir_p` within the depth that a path
  -- is given is the one of the recursion of the code without a bound, whatever else is missing: the
  -- depth does not run out. The recursion is described without a depth: a directory that is there
  -- is left; a path without a parent faults; otherwise a regular file there is removed, the
  -- recursion for the parent has an outcome, and, unless this fails, the path is made behind it.
  pub mkdir_p-MkdirP :
      (s : S) (path : Bytes) → MkdirP S sys s path (mkdir_p sys (depth_of path) s path)
  mkdir_p-MkdirP s path =
      subst (λ (d : ℕ). MkdirP S sys s path (mkdir_p sys d s path)) (omega arith)
        (mkdir_p-exact (length path + 1) s path (inl (omega arith)))
