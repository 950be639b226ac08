-- ===== src/Replay/Sound/Steps.antt =====
-- The handlers of ioriot/src/replay/rioop.c that change the map of descriptors or what it leads to.
use ioriot.Prelude.{
  eqz_cases, ℕ, ◌+◌, ◌-◌, ◌≤◌, ◌≡◌, ◌≢◌, refl, ap, sym, ◌∙◌, List, [], ◌∷◌, ◌++◌, true, false, ◌==◌,
  length, get_or, if◌then◌else◌, arith, length-append, inl, inr, Bool-cases, ℤ, pos, eqz, lez, ◌<ℤ◌,
}
use ioriot.Prelude.{get_or-append_one}
use mathlib.Core.Bool.{true≢false}
use ioriot.Text.{Bytes}
use ioriot.Replay.Files.{Sys, Call, closed, opened, RVfd}
use ioriot.Replay.Ioop.{no_vfd}
use ioriot.Replay.Sound.{is_open, fd_of, IsHeld}

neq-eqz : (a b : ℤ) → a ≢ b → eqz a b ≡ false
neq-eqz a b h = elim (eqz_cases a b) [ inl (_, e) ↦ absurd (h e) | inr (e, _) ↦ e ]

module _ (slot : ℕ → ℕ) (vfds : List RVfd) (calls : List Call) (h : IsHeld slot vfds calls) where
  -- A slot is emptied.
  abbrev pub emptied : ℕ → ℕ → ℕ
  emptied q r = if q == r then 0 else slot r

  other : (q r : ℕ) → emptied q r ≢ 0 → (q == r) ≡ false
  other q r live = elim (Bool-cases (q == r)) [ inl e ↦ absurd (live (rw e refl)) | inr e ↦ e ]

  -- Its descriptor is closed.
  pub close-IsHeld :
      (sys : Sys) (q : ℕ)
      → slot q ≢ 0
      → IsHeld (emptied q) vfds (closed sys (fd_of vfds (slot q)) ∷ calls)
  close-IsHeld sys q live = record {
    calls_lem = (h.open_lem q live, h.calls_lem);
    open_lem = λ r there.
        let e = other q r there in
        let still : slot r ≢ 0 = λ z. there (rw e z) in
        let n : q ≢ r = λ p. ground (arith, e, p) in
        rw e (
          rw (neq-eqz (fd_of vfds (slot q)) (fd_of vfds (slot r)) (h.apart_lem q r live still n))
            (h.open_lem r still));
    apart_lem = λ r t a c n.
        let e = other q r a in
        let f = other q t c in rw (e, f) (h.apart_lem r t (λ z. a (rw e z)) (λ z. c (rw f z)) n);
    there_lem = λ r. elim (Bool-cases (q == r)) [
      | inl e ↦ rw e (omega arith)
      | inr e ↦ rw e (h.there_lem r)
    ];
  }

  -- A file is opened.
  pub open-IsHeld :
      (path : Bytes) (flags : ℕ) (ret : ℤ) → IsHeld slot vfds (opened path flags ret ∷ calls)
  open-IsHeld path flags ret = record {
    calls_lem = h.calls_lem;
    open_lem = λ r there. ground (arith, h.open_lem r there);
    apart_lem = h.apart_lem;
    there_lem = h.there_lem;
  }

  fresh_apart :
      (ret : ℤ) (q : ℕ) → is_open calls ret ≡ false → slot q ≢ 0 → ret ≢ fd_of vfds (slot q)
  fresh_apart ret q fresh live e =
      true≢false (sym (h.open_lem q live) ∙ ap (is_open calls) (sym e) ∙ fresh)

  opened-is_open :
      (path : Bytes) (flags : ℕ) (ret : ℤ)
      → pos 0 <ℤ ret
      → is_open (opened path flags ret ∷ calls) ret ≡ true
  unfolding lez eqz
  opened-is_open path flags ret p = ground (arith, p)

  -- It is closed again at once.
  pub reclose-IsHeld :
      (sys : Sys) (path : Bytes) (flags : ℕ) (ret : ℤ)
      → pos 0 <ℤ ret
      → is_open calls ret ≡ false
      → IsHeld slot vfds (closed sys ret ∷ opened path flags ret ∷ calls)
  reclose-IsHeld sys path flags ret p fresh = record {
    calls_lem = (opened-is_open path flags ret p, h.calls_lem);
    open_lem = λ r there.
        rw (neq-eqz ret (fd_of vfds (slot r)) (fresh_apart ret r fresh there))
          (ground (arith, h.open_lem r there));
    apart_lem = h.apart_lem;
    there_lem = h.there_lem;
  }

  -- It is kept in a slot.
  abbrev pub filled : ℕ → ℕ → ℕ
  filled q r = if q == r then length vfds + 1 else slot r

  fd_of-old :
      (p : ℕ) (vfd : RVfd) → p ≢ 0 → p ≤ length vfds → fd_of (vfds ++ vfd ∷ []) p ≡ fd_of vfds p
  fd_of-old p vfd n l =
      let before : (length vfds == (p - 1)) ≡ false = ground (arith, n, l) in
      let e : get_or (vfds ++ vfd ∷ []) (p - 1) no_vfd ≡ get_or vfds (p - 1) no_vfd =
        get_or-append_one vfds vfd no_vfd (p - 1) ∙ rw before refl in
      ap (λ (v : RVfd). v.fd) e

  fd_of-new : (vfd : RVfd) → fd_of (vfds ++ vfd ∷ []) (length vfds + 1) ≡ vfd.fd
  fd_of-new vfd =
      let last : (length vfds == (length vfds + 1 - 1)) ≡ true = ground arith in
      let e : get_or (vfds ++ vfd ∷ []) (length vfds + 1 - 1) no_vfd ≡ vfd =
        get_or-append_one vfds vfd no_vfd (length vfds + 1 - 1) ∙ rw last refl in
      ap (λ (v : RVfd). v.fd) e

  kept-fd_of :
      (q r : ℕ) (vfd : RVfd)
      → slot r ≢ 0
      → (q == r) ≡ false
      → fd_of (vfds ++ vfd ∷ []) (filled q r) ≡ fd_of vfds (slot r)
  kept-fd_of q r vfd live e = rw e (fd_of-old (slot r) vfd live (h.there_lem r))

  filled_live : (q r : ℕ) → (q == r) ≡ false → filled q r ≢ 0 → slot r ≢ 0
  filled_live q r e live z = live (rw e z)

  -- The new descriptor is none of the others.
  apart_new :
      (q r : ℕ) (vfd : RVfd)
      → is_open calls vfd.fd ≡ false
      → slot r ≢ 0
      → (q == r) ≡ false
      → fd_of (vfds ++ vfd ∷ []) (length vfds + 1) ≢ fd_of (vfds ++ vfd ∷ []) (filled q r)
  apart_new q r vfd fresh live e p =
      fresh_apart vfd.fd r fresh live (sym (fd_of-new vfd) ∙ p ∙ kept-fd_of q r vfd live e)

  apart-filled :
      (q r t : ℕ) (vfd : RVfd)
      → is_open calls vfd.fd ≡ false
      → filled q r ≢ 0
      → filled q t ≢ 0
      → r ≢ t
      → fd_of (vfds ++ vfd ∷ []) (filled q r) ≢ fd_of (vfds ++ vfd ∷ []) (filled q t)
  apart-filled q r t vfd fresh a c n same_fd = elim (Bool-cases (q == r)) [
    | inl e ↦ elim (Bool-cases (q == t)) [
      | inl f ↦ n (ground (arith, e, f))
      | inr f ↦ apart_new q t vfd fresh (filled_live q t f c) f (rw e at same_fd)
    ]
    | inr e ↦ elim (Bool-cases (q == t)) [
      | inl f ↦ apart_new q r vfd fresh (filled_live q r e a) e (sym (rw f at same_fd))
      | inr f ↦ h.apart_lem r t (filled_live q r e a) (filled_live q t f c) n (
          sym (kept-fd_of q r vfd (filled_live q r e a) e)
          ∙ same_fd
          ∙ kept-fd_of q t vfd (filled_live q t f c) f)
    ]
  ]

  pub keep-IsHeld :
      (path : Bytes) (flags q : ℕ) (vfd : RVfd)
      → pos 0 <ℤ vfd.fd
      → is_open calls vfd.fd ≡ false
      → IsHeld (filled q) (vfds ++ vfd ∷ []) (opened path flags vfd.fd ∷ calls)
  keep-IsHeld path flags q vfd p fresh = record {
    calls_lem = h.calls_lem;
    open_lem = λ r live. elim (Bool-cases (q == r)) [
      | inl e ↦ rw e (rw (fd_of-new vfd) (opened-is_open path flags vfd.fd p))
      | inr e ↦
          let still : slot r ≢ 0 = λ z. live (rw e z) in
          rw (kept-fd_of q r vfd still e) (ground (arith, h.open_lem r still))
    ];
    apart_lem = λ r t a c n. apart-filled q r t vfd fresh a c n;
    there_lem = λ r. elim (Bool-cases (q == r)) [
      | inl e ↦ rw e (omega (arith, length-append vfds (vfd ∷ [])))
      | inr e ↦ rw e (omega (arith, length-append vfds (vfd ∷ []), h.there_lem r))
    ];
  }

  -- It is found no slot for.
  pub lose-IsHeld :
      (path : Bytes) (flags : ℕ) (vfd : RVfd)
      → IsHeld slot (vfds ++ vfd ∷ []) (opened path flags vfd.fd ∷ calls)
  lose-IsHeld path flags vfd = record {
    calls_lem = h.calls_lem;
    open_lem = λ r live.
        rw (fd_of-old (slot r) vfd live (h.there_lem r)) (ground (arith, h.open_lem r live));
    apart_lem = λ r t a c n.
        rw (fd_of-old (slot r) vfd a (h.there_lem r), fd_of-old (slot t) vfd c (h.there_lem t))
          (h.apart_lem r t a c n);
    there_lem = λ r. omega (arith, length-append vfds (vfd ∷ []), h.there_lem r);
  }
