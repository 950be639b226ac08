-- ===== src/Replay/Sound.antt =====
-- Which descriptors a replay uses: what the handlers of ioriot/src/replay/rioop.c keep true of the
-- map of descriptors and of the calls that were made.
pub mod Steps
pub mod Handlers
pub mod Changes
pub mod Table
use ioriot.Prelude.{
  ℕ, zero, suc, ◌+◌, ◌-◌, ◌*◌, ◌/◌, ◌%◌, ◌^◌, ◌≤◌, ◌<◌, ◌≡◌, ◌≢◌, ◌⊎◌, ◌↔◌, refl, ap, sym, subst,
  ◌∙◌, List, [], ◌∷◌, ◌++◌, Bool, true, false, not, ◌&&◌, ◌||◌, ◌==◌, ltb, leb, is_nil, length,
  get_or, set, if◌then◌else◌, Option, some, none, arith, length-append, inl, inr, Option-cases,
  Bool-cases, ℤ, pos, negsuc, eqz, ltz, lez, ◌+ℤ◌, ◌-ℤ◌, ◌≤ℤ◌, ◌<ℤ◌, Outcome, ok, exit, fault,
  ◌>>=◌, Holds, Holds-bind, Holds-any,
}
use ioriot.Text.{Bytes}
use ioriot.Datas.AMap.{AMap, amap_get}
use ioriot.Datas.AMap.Laws.{contents, amap_get_lem}
use ioriot.Replay.Files.{
  Sys, Call, on_path, on_fd, closed, opened, renamed, synced, RVfd, Files, System,
}
use ioriot.Replay.Ioop.{vfd_of, no_vfd, with_vfd, found, emit}
use ioriot.Datas.AMap.Laws

-- Whether a descriptor is open after the calls
abbrev pub is_open : List Call → ℤ → Bool
is_open [] fd = false
is_open (on_path sys path args ∷ calls) fd = is_open calls fd
is_open (on_fd sys used args ∷ calls) fd = is_open calls fd
is_open (closed sys used ∷ calls) fd = if eqz used fd then false else is_open calls fd
is_open (opened path flags ret ∷ calls) fd =
    if lez (pos 0) ret && eqz ret fd then true else is_open calls fd
is_open (renamed path path2 ∷ calls) fd = is_open calls fd
is_open (synced ∷ calls) fd = is_open calls fd

-- Each call with a descriptor is made while it is open.
abbrev pub Sound : List Call → Type 0
Sound [] = Unit
Sound (on_path sys path args ∷ calls) = Sound calls
Sound (on_fd sys used args ∷ calls) = (is_open calls used ≡ true) × Sound calls
Sound (closed sys used ∷ calls) = (is_open calls used ≡ true) × Sound calls
Sound (opened path flags ret ∷ calls) = Sound calls
Sound (renamed path path2 ∷ calls) = Sound calls
Sound (synced ∷ calls) = Sound calls

-- The descriptor of an object
abbrev pub fd_of : List RVfd → ℕ → ℤ
fd_of vfds p = (get_or vfds (p - 1) no_vfd).fd

-- The slots of a map lead to open descriptors, each to one of its own.
pub record IsHeld (slot : ℕ → ℕ) (vfds : List RVfd) (calls : List Call) : Type 0 where
  pub calls_lem : Sound calls
  pub open_lem : (q : ℕ) → slot q ≢ 0 → is_open calls (fd_of vfds (slot q)) ≡ true
  pub apart_lem :
      (q r : ℕ) → slot q ≢ 0 → slot r ≢ 0 → q ≢ r → fd_of vfds (slot q) ≢ fd_of vfds (slot r)
  pub there_lem : (q : ℕ) → slot q ≤ length vfds

pub record IsSound (s : Files) : Type 0 where
  pub map_lem : Laws.IsValid s.fds
  pub held : IsHeld (contents s.fds) s.vfds s.calls

-- A descriptor of the .replay file that the map has
pub record IsMapped (s : Files) (fd : ℤ) (q : ℕ) : Type 0 where
  pub number : fd ≡ pos q
  pub inside : q < s.fds.size
  pub live : contents s.fds q ≢ 0

found-Holds :
    (P : Files → Type 0) (o : Option ℕ) (p : ℕ) (use_it : ℕ → Outcome Files) (s : Files)
    → o ≡ some p
    → P s
    → (p ≢ 0 → Holds P (use_it p))
    → Holds P (found o use_it s)
found-Holds P o p use_it s e h k =
    rw e
      (elim (Bool-cases (p == 0)) [ inl z ↦ rw z h | inr n ↦ rw n (k (λ z. ground (arith, z, n))) ])

pub with_vfd-Holds :
    (P : Files → Type 0) (fd : ℤ) (s : Files) (use_it : ℕ → Outcome Files)
    → Laws.IsValid s.fds
    → P s
    → ((q : ℕ) → IsMapped s fd q → Holds P (use_it (contents s.fds q)))
    → Holds P (with_vfd fd s use_it)
unfolding amap_get
with_vfd-Holds P (negsuc n) s use_it v h k = tt
with_vfd-Holds P (pos q) s use_it v h k = elim (Bool-cases (ltb q s.fds.size)) [
  | inl e ↦
      found-Holds P (amap_get s.fds (pos q)) (contents s.fds q) use_it s
        (amap_get_lem s.fds q v ∙ rw e refl) h
        (λ live. k q (record { number = refl; inside = ground (arith, e); live = live }))
  | inr e ↦
      found-Holds P (amap_get s.fds (pos q)) 0 use_it s (amap_get_lem s.fds q v ∙ rw e refl) h
        (λ live. absurd (live refl))
]

-- A call that opens and closes nothing, of an open descriptor if it is of one
pub emit_path-IsSound :
    (sys : Sys) (path : Bytes) (args : List ℤ) (s : Files)
    → IsSound s
    → IsSound (emit (on_path sys path args) s)
emit_path-IsSound sys path args s h =
    let k = h.held in
    record {
      map_lem = h.map_lem;
      held = record {
        calls_lem = k.calls_lem;
        open_lem = k.open_lem;
        apart_lem = k.apart_lem;
        there_lem = k.there_lem;
      };
    }

pub emit_fd-IsSound :
    (sys : Sys) (q : ℕ) (args : List ℤ) (s : Files)
    → IsSound s
    → contents s.fds q ≢ 0
    → IsSound (emit (on_fd sys (vfd_of s (contents s.fds q)).fd args) s)
emit_fd-IsSound sys q args s h live =
    let k = h.held in
    record {
      map_lem = h.map_lem;
      held = record {
        calls_lem = (k.open_lem q live, k.calls_lem);
        open_lem = k.open_lem;
        apart_lem = k.apart_lem;
        there_lem = k.there_lem;
      };
    }

pub emit_renamed-IsSound :
    (path path2 : Bytes) (s : Files) → IsSound s → IsSound (emit (renamed path path2) s)
emit_renamed-IsSound path path2 s h =
    let k = h.held in
    record {
      map_lem = h.map_lem;
      held = record {
        calls_lem = k.calls_lem;
        open_lem = k.open_lem;
        apart_lem = k.apart_lem;
        there_lem = k.there_lem;
      };
    }

pub emit_synced-IsSound : (s : Files) → IsSound s → IsSound (emit synced s)
emit_synced-IsSound s h =
    let k = h.held in
    record {
      map_lem = h.map_lem;
      held = record {
        calls_lem = k.calls_lem;
        open_lem = k.open_lem;
        apart_lem = k.apart_lem;
        there_lem = k.there_lem;
      };
    }
