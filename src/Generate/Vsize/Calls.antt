-- ===== src/Generate/Vsize/Calls.antt =====
-- All functions of ioriot/src/generate/vsize.c, and the order of the store.
use ioriot.Prelude.{
  ◌&&◌, ℕ, ◌-◌, ◌<◌, refl, subst, ℤ, arith, inl, inr, Bool-cases, if◌then◌else◌, ◌==◌, not,
}
use native.Mathlib.Decide.{ℕ_discrete}
use ioriot.Generate.PathMap.{Bytes, PathMap}
use ioriot.Generate.State.{
  set_file, set_unsure, set_renamed, Vsize, Store, deref, modify, init_parent_dir, touch, set_dir,
}
use ioriot.Generate.Vsize.{
  to_written, to_dir, to_unsure_file, to_link, has, vsize_rmdir, vsize_mkdir, vsize_seek,
  vsize_write, vsize_read, vsize_rename, vsize_stat, Vfd, vsize_close, vsize_symlink, vsize_open,
  at_first, to_unlinked, to_read, vsize_unlink, to_long,
}
use ioriot.Generate.Vsize.Inv.{IsTame, IsValid}
use ioriot.Generate.Vsize.Steps.{
  IsStep, stay, follow, modify-IsStep, init_parent_dir-IsStep, at_first-IsStep,
}

to_unlinked-IsTame : IsTame to_unlinked
to_unlinked-IsTame v h = ground arith

to_read-IsTame : (offset bytes : ℤ) → IsTame (to_read offset bytes)
to_read-IsTame offset bytes v h = ground arith

to_opened-IsTame :
    (flags o_directory o_creat : ℕ)
    → IsTame (λ o.
      if has flags o_directory
      then to_dir o
      else if not (has flags o_creat)
      then to_unsure_file o
      else o)
to_opened-IsTame flags o_directory o_creat v h = ground arith

module _ (paths : PathMap) (dirname : Bytes → Bytes) (g : Store paths) (v : ℕ) where
  module _ (valid : IsValid paths g) (inside : v - 1 < g.num_vsizes) where
    vsize_open-IsStep :
        (o_directory o_creat flags : ℕ) (vfd : Vfd) (path : Bytes)
        → IsStep paths g (vsize_open paths dirname o_directory o_creat g v vfd path flags).0
    unfolding vsize_open
    vsize_open-IsStep o_directory o_creat flags vfd path =
        let g1 = init_parent_dir paths dirname g path in
        let opened = λ (o : Vsize). touch (
          if has flags o_directory
          then to_dir o
          else if not (has flags o_creat)
          then to_unsure_file o
          else o) in
        let result = (vsize_open paths dirname o_directory o_creat g v vfd path flags).0 in
        elim (ℕ_discrete (deref paths g v).updates 0) [
          | yes first ↦
              subst (IsStep paths g) {x = modify paths g1 v opened} {y = result} (ground arith) (
                modify-IsStep paths g g1 v opened
                  (init_parent_dir-IsStep paths dirname g path valid) inside
                  (to_opened-IsTame flags o_directory o_creat))
          | no later ↦ elim (Bool-cases ((deref paths g v).unsure && has flags o_directory)) [
            | inl turned ↦
                subst (IsStep paths g) {x = modify paths g v (λ o. touch (set_dir o))} {y = result}
                  (ground arith)
                  (modify-IsStep paths g g v (λ o. touch (set_dir o)) (stay paths g valid) inside
                    (λ o h. ground arith))
            | inr kept ↦
                subst (IsStep paths g) {x = g} {y = result} (ground arith) (stay paths g valid)
          ]
        ]

    vsize_symlink-IsStep :
        (path target : Bytes) → IsStep paths g (vsize_symlink paths dirname g v path target)
    unfolding vsize_symlink
    vsize_symlink-IsStep path target =
        let g1 =
          if (deref paths g v).updates == 0 then init_parent_dir paths dirname g path else g in
        let before : IsStep paths g g1 = elim (ℕ_discrete (deref paths g v).updates 0) [
          | yes first ↦
              subst (IsStep paths g) {x = init_parent_dir paths dirname g path} {y = g1}
                (ground arith) (init_parent_dir-IsStep paths dirname g path valid)
          | no later ↦ subst (IsStep paths g) {x = g} {y = g1} (ground arith) (stay paths g valid)
        ] in
        modify-IsStep paths g g1 v (λ o. touch (to_link target o)) before inside
          (λ o h. ground arith)

    -- In a store in order, each function of vsize.c on an object of the store leaves the store in
    -- order, with no fewer objects, and every known path with its object.
    pub calls-IsStep :
        (o_directory o_creat flags v2 : ℕ) (vfd : Vfd) (path path2 : Bytes) (bytes : ℤ)
        → v2 - 1 < g.num_vsizes
        → IsStep paths g (vsize_open paths dirname o_directory o_creat g v vfd path flags).0
          × IsStep paths g (vsize_close paths g v vfd).0
          × IsStep paths g (vsize_stat paths dirname g v path)
          × IsStep paths g (vsize_symlink paths dirname g v path path2)
          × IsStep paths g (vsize_rename paths dirname g v v2 path path2)
          × IsStep paths g (vsize_read paths g v vfd bytes).0
          × IsStep paths g (vsize_write paths g v vfd bytes).0
          × IsStep paths g (vsize_seek paths g v vfd bytes).0
          × IsStep paths g (vsize_mkdir paths dirname g v path)
          × IsStep paths g (vsize_rmdir paths dirname g v path)
          × IsStep paths g (vsize_unlink paths dirname g v path)
    unfolding vsize_close vsize_stat vsize_rename vsize_read vsize_write vsize_seek vsize_mkdir
        vsize_rmdir vsize_unlink
    calls-IsStep o_directory o_creat flags v2 vfd path path2 bytes inside2 =
        let first = λ (f : Vsize → Vsize) (tame : IsTame f).
          at_first-IsStep paths dirname g v path f valid inside tame in
        let each = λ (f : Vsize → Vsize) (tame : IsTame f).
          modify-IsStep paths g g v f (stay paths g valid) inside tame in
        let stat = first to_unsure_file (λ o h. ground arith) in
        let rename =
          at_first-IsStep paths dirname (at_first paths dirname g v path to_unsure_file) v2 path2
            (λ o. set_renamed (set_unsure (set_file o))) stat.valid (omega (arith, stat.grown))
            (λ o h. ground arith) in
        (
          vsize_open-IsStep o_directory o_creat flags vfd path,
          each touch (λ o h. (refl, refl, h)),
          stat,
          vsize_symlink-IsStep path path2,
          follow paths stat rename,
          each (λ o. touch (to_read (to_long vfd.offset) bytes o))
              (λ o h. to_read-IsTame (to_long vfd.offset) bytes o h),
          each (λ o. touch (to_written (to_long vfd.offset) bytes o)) (λ o h. (refl, refl, h)),
          each touch (λ o h. (refl, refl, h)),
          first set_dir (λ o h. ground arith),
          first to_dir (λ o h. ground arith),
          first to_unlinked to_unlinked-IsTame,
        )
