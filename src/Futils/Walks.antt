-- ===== src/Futils/Walks.antt =====
-- Where a path leads, followed component by component: what the file system does with `.` and `..`,
-- apart from the code of ioriot/src/utils/futils.c that predicts it.
use ioriot.Prelude.{ℕ, suc, ◌≡◌, List, [], ◌∷◌, false, ◌==◌, if◌then◌else◌, inl, inr, Bool-cases}
use ioriot.Text.{Bytes, bytes, same}
use ioriot.Mounts.{collapse, tail}
use ioriot.Mounts.Resolves.{same-eq}

-- Where a walk starts: in the root directory, or so many directories above the working directory
pub data Start : Type 0 where
  top : Start
  above : ℕ → Start

abbrev pub start_of : Bytes → Start
start_of [] = above 0
start_of (c ∷ path) = if c == b'/' then top else above 0

-- The components lead from a place, the directories below its start with the innermost first, to
-- another: the parent of the root directory is itself, and of the working directory, the one above.
pub data Walk : Start → List Bytes → List Bytes → Start → List Bytes → Type 0 where
  stop : (start : Start) (place : List Bytes) → Walk start place [] start place
  here :
      {start start' : Start} {place place' toks : List Bytes}
      → Walk start place toks start' place'
      → Walk start place (bytes "." ∷ toks) start' place'
  up :
      {start start' : Start} {dir : Bytes} {place place' toks : List Bytes}
      → Walk start place toks start' place'
      → Walk start (dir ∷ place) (bytes ".." ∷ toks) start' place'
  up_top :
      {start' : Start} {place' toks : List Bytes}
      → Walk top [] toks start' place'
      → Walk top [] (bytes ".." ∷ toks) start' place'
  up_above :
      {n : ℕ} {start' : Start} {place' toks : List Bytes}
      → Walk (above (suc n)) [] toks start' place'
      → Walk (above n) [] (bytes ".." ∷ toks) start' place'
  enter :
      {start start' : Start} {tok : Bytes} {place place' toks : List Bytes}
      → same tok (bytes "..") ≡ false
      → same tok (bytes ".") ≡ false
      → Walk start (tok ∷ place) toks start' place'
      → Walk start place (tok ∷ toks) start' place'

-- Out of a directory below the root directory, or out of it
up_any :
    (place toks place' : List Bytes)
    → Walk top (tail place) toks top place'
    → Walk top place (bytes ".." ∷ toks) top place'
up_any [] toks place' w = up_top w
up_any (dir ∷ place) toks place' w = up w

-- From the root directory on, `..` that has nothing to leave can be dropped.
pub Walk-collapse : (place toks : List Bytes) → Walk top place toks top (collapse place toks)
unfolding collapse
Walk-collapse place [] = stop top place
Walk-collapse place (tok ∷ toks) = elim (Bool-cases (same tok (bytes ".."))) [
  | inl e ↦
      rw (e, same-eq tok (bytes "..") e)
        (up_any place toks (collapse (tail place) toks) (Walk-collapse (tail place) toks))
  | inr e ↦ elim (Bool-cases (same tok (bytes "."))) [
    | inl f ↦ rw (e, f, same-eq tok (bytes ".") f) (here (Walk-collapse place toks))
    | inr f ↦ rw (e, f) (enter e f (Walk-collapse (tok ∷ place) toks))
  ]
]
