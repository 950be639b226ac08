-- ===== src/Replay/Sound/Changes.antt =====
-- The handlers of ioriot/src/replay/rioop.c that open, close or read a directory keep the
-- descriptors sound, where open(2) returns no descriptor that is open.
use ioriot.Prelude.{
  length-set, ℕ, zero, suc, ◌+◌, ◌-◌, ◌≡◌, ◌≢◌, refl, ap, sym, subst, ◌∙◌, List, [], ◌∷◌, ◌++◌,
  true, false, not, ◌==◌, ltb, length, get_or, set, if◌then◌else◌, Option, arith, inl, inr,
  Bool-cases, ℤ, pos, negsuc, ltz, ◌<ℤ◌, ok, Holds,
}
use mathlib.Core.Path.{fun_ext}
use ioriot.Text.{Bytes}
use ioriot.Text.Numbers.{strtol}
use ioriot.Datas.AMap.{AMap, amap_set, amap_unset}
use ioriot.Datas.AMap.Laws
use ioriot.Datas.AMap.Laws.{contents, amap_set_lem, amap_unset_lem}
use ioriot.Replay.Files.{
  Sys, sys_close, sys_fdopendir, sys_readdir, Call, on_fd, closed, opened, RVfd, Files, System,
}
use ioriot.Replay.Ioop.{emit, vfd_of, no_vfd, keep_open, after_open, open_with, rioop_open}
use ioriot.Replay.Table.{read_dir, rioop_close, rioop_getdents}
use ioriot.Replay.Sound.{is_open, fd_of, IsHeld, IsSound, emit_fd-IsSound}
use ioriot.Replay.Sound.Steps.{close-IsHeld, open-IsHeld, reclose-IsHeld, keep-IsHeld, lose-IsHeld}
use ioriot.Replay.Sound.Handlers.{Keeps, tok-Holds, mapped-Holds}
use ioriot.Generate.Parser.Valid.{if-Holds}

closed-IsSound :
    (s : Files) (q : ℕ) (b : AMap) (sys : Sys)
    → IsSound s
    → contents s.fds q ≢ 0
    → Laws.IsValid b
    → ((r : ℕ) → contents b r ≡ (if q == r then 0 else contents s.fds r))
    → IsSound (emit (closed sys (fd_of s.vfds (contents s.fds q))) (record s { fds = b }))
closed-IsSound s q b sys h live v e = record {
  map_lem = v;
  held =
      subst (λ slot. IsHeld slot s.vfds (closed sys (fd_of s.vfds (contents s.fds q)) ∷ s.calls))
        (sym (fun_ext e)) (close-IsHeld (contents s.fds) s.vfds s.calls h.held sys q live);
}

pub rioop_close-Keeps : Keeps rioop_close
unfolding rioop_close
rioop_close-Keeps lineno toks s h = tok-Holds toks 3 _ (λ fd. mapped-Holds (strtol fd) s _ h (λ q m.
    let (b, run, valid, size, slots) = amap_unset_lem s.fds q h.map_lem in
    let ran = ap (amap_unset s.fds) m.number ∙ run in
    rw (ran, Holds)
      (closed-IsSound s q b _ h m.live valid (λ r. ground (arith, slots r, m.inside)))))

-- A stream is noted.
set_dirfd :
    (vfds : List RVfd) (i p : ℕ)
    → (get_or (set vfds i (record (get_or vfds i no_vfd) { dirfd = true })) p no_vfd).fd
      ≡ (get_or vfds p no_vfd).fd
set_dirfd [] i p = refl
set_dirfd (vfd ∷ vfds) zero zero = refl
set_dirfd (vfd ∷ vfds) zero (suc p) = refl
set_dirfd (vfd ∷ vfds) (suc i) zero = refl
set_dirfd (vfd ∷ vfds) (suc i) (suc p) = set_dirfd vfds i p

noted-IsSound :
    (s : Files) (i : ℕ)
    → IsSound s
    → IsSound (record s { vfds = set s.vfds i (record (get_or s.vfds i no_vfd) { dirfd = true }) })
noted-IsSound s i h =
    let k = h.held in
    let e = λ (p : ℕ). set_dirfd s.vfds i (p - 1) in
    record {
      map_lem = h.map_lem;
      held = record {
        calls_lem = k.calls_lem;
        open_lem = λ q live. rw (e (contents s.fds q)) (k.open_lem q live);
        apart_lem =
            λ q r a c n. rw (e (contents s.fds q), e (contents s.fds r)) (k.apart_lem q r a c n);
        there_lem = λ q.
            rw (length-set s.vfds i (record (get_or s.vfds i no_vfd) { dirfd = true }))
              (k.there_lem q);
      };
    }

read_dir-IsSound :
    (sys : System) (q : ℕ) (s : Files)
    → IsSound s
    → contents s.fds q ≢ 0
    → IsSound (read_dir sys (contents s.fds q) s)
read_dir-IsSound sys q s h live = elim (Bool-cases (vfd_of s (contents s.fds q)).dirfd) [
  | inl e ↦ rw e (emit_fd-IsSound sys_readdir q [] s h live)
  | inr e ↦
      let asked = emit_fd-IsSound sys_fdopendir q [] s h live in
      rw e (elim (Bool-cases (sys.has_stream s.calls (vfd_of s (contents s.fds q)).fd)) [
        | inr f ↦ rw f asked
        | inl f ↦
            (let p = contents s.fds q in
              let s' = emit (on_fd sys_fdopendir (fd_of s.vfds p) []) s in
              let s'' = record s' {
                vfds =
                    set s'.vfds (p - 1) (record (get_or s'.vfds (p - 1) no_vfd) { dirfd = true });
              } in
              rw f (
                subst (λ fd. IsSound (emit (on_fd sys_readdir fd []) s''))
                  (set_dirfd s.vfds (p - 1) (p - 1))
                  (emit_fd-IsSound sys_readdir q [] s'' (noted-IsSound s' (p - 1) asked) live)))
      ])
]

pub rioop_getdents-Keeps : (sys : System) → Keeps (rioop_getdents sys)
unfolding rioop_getdents
rioop_getdents-Keeps sys lineno toks s h =
    tok-Holds toks 3 _
      (λ fd. mapped-Holds (strtol fd) s _ h (λ q m. read_dir-IsSound sys q s h m.live))

-- open(2) returns a descriptor that is not open.
abbrev pub IsFresh : System → Type 0
IsFresh sys =
    (calls : List Call) (path : Bytes) (flags : ℕ)
    → pos 0 <ℤ sys.open_result calls path flags
    → is_open calls (sys.open_result calls path flags) ≡ false

keep-Holds :
    (q : ℕ) (ret : ℤ) (path : Bytes) (flags : ℕ) (s : Files)
    → IsSound s
    → pos 0 <ℤ ret
    → is_open s.calls ret ≡ false
    → Holds IsSound (keep_open (pos q) path ret (emit (opened path flags ret) s))
keep-Holds q ret path flags s h p fresh =
    let (b, run, valid, size, slots) = amap_set_lem s.fds q h.map_lem (length s.vfds + 1) in
    let vfd : RVfd = record { fd = ret; dirfd = false; mapped_fd = pos q; path = path } in
    let calls : List Call = opened path flags ret ∷ s.calls in
    rw (run, Holds)
      (elim (Bool-cases (ltb q s.fds.size)) [
        | inl e ↦ record {
          map_lem = valid;
          held =
              subst (λ slot. IsHeld slot (s.vfds ++ vfd ∷ []) calls)
                (sym (fun_ext (λ r. slots r ∙ rw e refl)))
                (keep-IsHeld (contents s.fds) s.vfds s.calls h.held path flags q vfd p fresh);
        }
        | inr e ↦ record {
          map_lem = valid;
          held =
              subst (λ slot. IsHeld slot (s.vfds ++ vfd ∷ []) calls)
                (sym (fun_ext (λ r. slots r ∙ rw e refl)))
                (lose-IsHeld (contents s.fds) s.vfds s.calls h.held path flags vfd);
        }
      ])

kept-Holds :
    (fd ret : ℤ) (path : Bytes) (flags : ℕ) (s : Files)
    → IsSound s
    → IsSound (emit (opened path flags ret) s)
    → pos 0 <ℤ ret
    → is_open s.calls ret ≡ false
    → Holds IsSound (
        if not (ltz (pos 0) fd)
        then ok (emit (opened path flags ret) s)
        else keep_open fd path ret (emit (opened path flags ret) s))
unfolding ltz amap_set
kept-Holds (negsuc n) ret path flags s h still p fresh =
    if-Holds IsSound (not (ltz (pos 0) (negsuc n))) _ _ still tt
kept-Holds (pos q) ret path flags s h still p fresh =
    if-Holds IsSound (not (ltz (pos 0) (pos q))) _ _ still (keep-Holds q ret path flags s h p fresh)

after_open-Holds :
    (fd ret : ℤ) (path : Bytes) (flags : ℕ) (s : Files)
    → IsSound s
    → (pos 0 <ℤ ret → is_open s.calls ret ≡ false)
    → Holds IsSound (after_open fd path ret (emit (opened path flags ret) s))
unfolding ltz
after_open-Holds fd ret path flags s h fresh =
    let still : IsSound (emit (opened path flags ret) s) = record {
      map_lem = h.map_lem;
      held = open-IsHeld (contents s.fds) s.vfds s.calls h.held path flags ret;
    } in
    elim (Bool-cases (ltz (pos 0) ret)) [
      | inr e ↦ rw e still
      | inl e ↦
          let p : pos 0 <ℤ ret = ground (arith, e) in
          rw e (
            if-Holds IsSound (ltz fd (pos 0)) _ _
              (record {
                map_lem = h.map_lem;
                held =
                    reclose-IsHeld (contents s.fds) s.vfds s.calls h.held sys_close path flags ret p
                      (fresh p);
              })
              (kept-Holds fd ret path flags s h still p (fresh p)))
    ]

open_with-Holds :
    (sys : System) (fd : ℤ) (path : Bytes) (flags : ℕ) (s : Files)
    → IsFresh sys
    → IsSound s
    → Holds IsSound (open_with sys fd path flags s)
unfolding open_with
open_with-Holds sys fd path flags s fresh h =
    after_open-Holds fd _ path _ s h (fresh s.calls path _)

pub rioop_open-Keeps :
    (sys : System) (flags_ : Option ℕ) → IsFresh sys → Keeps (rioop_open sys flags_)
unfolding rioop_open
rioop_open-Keeps sys flags_ fresh lineno toks s h = tok-Holds toks 3 _ (λ fd.
    tok-Holds toks 4 _
      (λ path. tok-Holds toks 6 _ (λ flags. open_with-Holds sys (strtol fd) path _ s fresh h)))
