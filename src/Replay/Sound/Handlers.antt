-- ===== src/Replay/Sound/Handlers.antt =====
-- Each handler of ioriot/src/replay/rioop.c keeps the descriptors sound.
use ioriot.Prelude.{
  pos_part, ℕ, List, [], ◌∷◌, not, ◌||◌, inl, inr, Option-cases, ℤ, pos, eqz, lez, Outcome, ◌>>=◌,
  Holds, Holds-bind, Holds-any,
}
use ioriot.Text.{Bytes}
use ioriot.Text.Numbers.{strtol, atoi}
use ioriot.Datas.AMap.Laws.{contents}
use ioriot.Replay.Files.{Sys, sys_write, sys_fcntl, sys_fchown, Files, System}
use ioriot.Replay.Ioop.{
  Toks, Handler, tok, vfd_of, with_vfd, path_call, fd_call, bytes_call, digits_fit, rioop_rename,
  rioop_write,
}
use ioriot.Replay.Table.{rioop_fcntl, chown_path, rioop_fchown}
use ioriot.Replay.Sound.{
  IsSound, IsMapped, with_vfd-Holds, emit_path-IsSound, emit_fd-IsSound, emit_renamed-IsSound,
}
use ioriot.Generate.Parser.Valid.{if-Holds}

abbrev pub Keeps : Handler → Type 0
Keeps run = (lineno : ℕ) (toks : Toks) (s : Files) → IsSound s → Holds IsSound (run lineno toks s)

-- A token is read first.
pub tok-Holds :
    (toks : Toks) (i : ℕ) (f : Bytes → Outcome Files)
    → ((t : Bytes) → Holds IsSound (f t))
    → Holds IsSound (tok toks i >>= f)
tok-Holds toks i f h =
    Holds-bind (λ _. Unit) IsSound (tok toks i) f (Holds-any (tok toks i)) (λ t _. h t)

pub mapped-Holds :
    (fd : ℤ) (s : Files) (use_it : ℕ → Outcome Files)
    → IsSound s
    → ((q : ℕ) → IsMapped s fd q → Holds IsSound (use_it (contents s.fds q)))
    → Holds IsSound (with_vfd fd s use_it)
mapped-Holds fd s use_it h k = with_vfd-Holds IsSound fd s use_it h.map_lem h k

pub path_call-Keeps : (sys : Sys) → Keeps (path_call sys)
path_call-Keeps sys lineno toks s h = tok-Holds toks 3 _ (λ path. emit_path-IsSound sys path [] s h)

pub fd_call-Keeps : (sys : Sys) → Keeps (fd_call sys)
fd_call-Keeps sys lineno toks s h =
    tok-Holds toks 3 _
      (λ fd. mapped-Holds (strtol fd) s _ h (λ q m. emit_fd-IsSound sys q [] s h m.live))

pub bytes_call-Keeps :
    (sys : Sys) (place : ℕ) (before : List ℤ) → Keeps (bytes_call sys place before)
bytes_call-Keeps sys place before lineno toks s h = tok-Holds toks 3 _ (λ fd.
    tok-Holds toks place _ (λ bytes.
      if-Holds IsSound (lez (atoi bytes) (pos 0)) _ _ h
        (mapped-Holds (strtol fd) s _ h (λ q m. emit_fd-IsSound sys q _ s h m.live))))

pub rioop_rename-Keeps : Keeps rioop_rename
unfolding rioop_rename
rioop_rename-Keeps lineno toks s h =
    tok-Holds toks 3 _ (λ path. tok-Holds toks 4 _ (λ path2. emit_renamed-IsSound path path2 s h))

pub rioop_write-Keeps : Keeps rioop_write
unfolding rioop_write
rioop_write-Keeps lineno toks s h = tok-Holds toks 3 _ (λ fd. tok-Holds toks 4 _ (λ bytes.
    if-Holds IsSound (lez (atoi bytes) (pos 0)) _ _ h (
      mapped-Holds (strtol fd) s _ h (λ q m.
        if-Holds IsSound (not (digits_fit (pos_part (atoi bytes)) lineno)) _ _ tt (
          if-Holds IsSound (eqz (vfd_of s (contents s.fds q)).fd (pos 0)) _ _ tt
            (emit_fd-IsSound sys_write q _ s h m.live))))))

pub after_offset-Keeps :
    (sys : Sys)
    → Keeps (λ lineno toks s.
      tok toks 4 >>= λ offset. bytes_call sys 5 (strtol offset ∷ []) lineno toks s)
after_offset-Keeps sys lineno toks s h =
    tok-Holds toks 4 _ (λ offset. bytes_call-Keeps sys 5 (strtol offset ∷ []) lineno toks s h)

pub rioop_fcntl-Keeps : (sys : System) → Keeps (rioop_fcntl sys)
unfolding rioop_fcntl
rioop_fcntl-Keeps sys lineno toks s h = tok-Holds toks 3 _ (λ fd. tok-Holds toks 4 _ (λ cmd.
    tok-Holds toks 5 _ (λ arg. mapped-Holds (strtol fd) s _ h (λ q m.
      if-Holds IsSound (eqz (atoi cmd) sys.f_getfd || eqz (atoi cmd) sys.f_getfl) _ _
        (emit_fd-IsSound sys_fcntl q _ s h m.live)
        (if-Holds IsSound (eqz (atoi cmd) sys.f_setfd || eqz (atoi cmd) sys.f_setfl) _ _
          (emit_fd-IsSound sys_fcntl q _ s h m.live) h)))))

pub chown_path-Keeps : (name : Sys) (sys : System) → Keeps (chown_path name sys)
chown_path-Keeps name sys lineno toks s h = tok-Holds toks 3 _ (λ path.
    elim (Option-cases sys.user) [
      | inl e ↦ rw (e, Holds) h
      | inr (uid, e) ↦ rw (e, Holds) (emit_path-IsSound name path (uid ∷ []) s h)
    ])

pub rioop_fchown-Keeps : (sys : System) → Keeps (rioop_fchown sys)
unfolding rioop_fchown
rioop_fchown-Keeps sys lineno toks s h = tok-Holds toks 3 _ (λ fd.
    mapped-Holds (strtol fd) s _ h (λ q m. elim (Option-cases sys.user) [
      | inl e ↦ rw (e, Holds) h
      | inr (uid, e) ↦ rw (e, Holds) (emit_fd-IsSound sys_fchown q (uid ∷ []) s h m.live)
    ]))
