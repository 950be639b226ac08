-- ===== src/Generate/Vsize/Paths.antt =====
-- The lookup of virtual sizes by path (`generate_vsize_by_path` of ioriot/src/generate/generate.c)
-- and the making of new ones.
use ioriot.Prelude.{
  inr, inl, ℕ, ◌+◌, ◌-◌, ◌≤◌, ◌<◌, ◌≡◌, ◌≢◌, refl, subst, [], ◌∷◌, ◌==◌, if◌then◌else◌, arith,
  length-append, Bool-cases, get_or-append_one,
}
use native.Mathlib.Decide.{ℕ_discrete}
use ioriot.Datas.Key.{str_same, str_same→eq, str_same_refl}
use ioriot.Generate.PathMap.{Bytes, PathMap}
use ioriot.Generate.State.{Vsize, vsize_new, Store, create, vsize_by_path}
use ioriot.Generate.Vsize.Inv.{HasOneKind, IsTame, object, IsValid}

vsize_new-HasOneKind : (path : Bytes) (id : ℕ) → HasOneKind (vsize_new path id)
unfolding vsize_new
vsize_new-HasOneKind path id = (refl, refl, refl, refl)

module _ (paths : PathMap) where
  -- A store in order, with an object for the path, in which the objects and the known paths of the
  -- one before are as they were
  pub record IsLookup (g : Store paths) (path : Bytes) (v : ℕ) (g' : Store paths) : Type 0 where
    pub valid : IsValid paths g'
    pub present : 0 < v
    pub inside : v ≤ g'.num_vsizes
    pub known : paths.get g'.vsize_map path ≡ v
    pub named : (object paths g' (v - 1)).path ≡ path
    pub grown : g.num_vsizes ≤ g'.num_vsizes
    pub objects : (i : ℕ) → i < g.num_vsizes → object paths g' i ≡ object paths g i
    pub others :
        (q : Bytes)
        → paths.get g.vsize_map q ≢ 0
        → paths.get g'.vsize_map q ≡ paths.get g.vsize_map q

  module _ (g : Store paths) (path : Bytes) (f : Vsize → Vsize) (valid : IsValid paths g) where
    pub object-create :
        (i : ℕ)
        → object paths (create paths g path f).1 i
          ≡ (if g.num_vsizes == i then f (vsize_new path (g.num_vsizes + 1)) else object paths g i)
    unfolding create
    object-create i = ground (
      arith,
      valid.counted,
      get_or-append_one g.vsizes (f (vsize_new path (g.num_vsizes + 1))) (vsize_new [] 0) i,
    )

    get-create :
        (q : Bytes)
        → paths.get g.vsize_map path ≡ 0
        → paths.get (create paths g path f).1.vsize_map q
          ≡ (if str_same path q then g.num_vsizes + 1 else paths.get g.vsize_map q)
    unfolding create
    get-create q absent =
        paths.get-insert g.vsize_map path q (g.num_vsizes + 1) (omega arith) absent

    -- A path that was known keeps its object.
    get-create_kept :
        (q : Bytes)
        → paths.get g.vsize_map path ≡ 0
        → paths.get g.vsize_map q ≢ 0
        → paths.get (create paths g path f).1.vsize_map q ≡ paths.get g.vsize_map q
    get-create_kept q absent present = elim (Bool-cases (str_same path q)) [
      | inl same ↦
          absurd
            (present (subst (λ q. paths.get g.vsize_map q ≡ 0) (str_same→eq path q same) absent))
      | inr other ↦ ground (arith, get-create q absent)
    ]

    create-IsValid :
        paths.get g.vsize_map path ≡ 0 → IsTame f → IsValid paths (create paths g path f).1
    unfolding create vsize_new
    create-IsValid absent tame =
        let n = g.num_vsizes in
        let fresh = vsize_new path (n + 1) in
        let new = tame fresh (vsize_new-HasOneKind path (n + 1)) in
        record {
          counted = ground (arith, valid.counted, length-append g.vsizes (f fresh ∷ []));
          ids = λ i h. elim (ℕ_discrete n i) [
            | yes e ↦ ground (arith, object-create i, new.1)
            | no e ↦ ground (arith, object-create i, valid.ids i (omega arith))
          ];
          known = λ i h. elim (ℕ_discrete n i) [
            | yes e ↦ ground (
              arith,
              object-create i,
              new.0,
              get-create (object paths (create paths g path f).1 i).path absent,
              str_same_refl path,
            )
            | no e ↦ ground (
              arith,
              object-create i,
              valid.known i (omega arith),
              get-create_kept (object paths g i).path absent
                  (omega (arith, valid.known i (omega arith))),
            )
          ];
          one_kind = λ i h. elim (ℕ_discrete n i) [
            | yes e ↦ ground (arith, object-create i, new.2)
            | no e ↦ ground (arith, object-create i, valid.one_kind i (omega arith))
          ];
          bounded = λ q. ground (arith, get-create q absent, valid.bounded q);
          found = λ q h. elim (Bool-cases (str_same path q)) [
            | inl same ↦
                ground (arith, get-create q absent, object-create n, new.0, str_same→eq path q same)
            | inr other ↦ ground (
              arith,
              get-create q absent,
              object-create (paths.get g.vsize_map q - 1),
              valid.bounded q,
              valid.found q (ground (arith, h, get-create q absent, other)),
            )
          ];
        }

    pub create-IsLookup :
        paths.get g.vsize_map path ≡ 0
        → IsTame f
        → IsLookup g path (g.num_vsizes + 1) (create paths g path f).1
    unfolding create vsize_new
    create-IsLookup absent tame =
        let n = g.num_vsizes in
        let new = tame (vsize_new path (n + 1)) (vsize_new-HasOneKind path (n + 1)) in
        record {
          valid = create-IsValid absent tame;
          present = omega arith;
          inside = omega arith;
          known = ground (arith, get-create path absent, str_same_refl path);
          named = ground (arith, object-create n, new.0);
          grown = omega arith;
          objects = λ i h. ground (arith, object-create i);
          others = λ q h. get-create_kept q absent h;
        }

  -- In a store in order, a lookup returns the object of the path, made if there was none; it leaves
  -- the store in order, and all other objects and known paths as they were.
  pub vsize_by_path-IsLookup :
      (g : Store paths) (path : Bytes)
      → IsValid paths g
      → IsLookup g path (vsize_by_path paths g path).0 (vsize_by_path paths g path).1
  unfolding vsize_by_path create
  vsize_by_path-IsLookup g path valid = elim (ℕ_discrete (paths.get g.vsize_map path) 0) [
    | yes absent ↦
        subst (λ (r : ℕ × Store paths). IsLookup g path r.0 r.1) {x = create paths g path (λ v. v)}
          (ground arith) (create-IsLookup g path (λ v. v) valid absent (λ v h. (refl, refl, h)))
    | no present ↦
        subst (λ (r : ℕ × Store paths). IsLookup g path r.0 r.1)
          {x = (paths.get g.vsize_map path, g)} (ground arith)
          (record {
            valid = valid;
            present = omega arith;
            inside = valid.bounded path;
            known = refl;
            named = valid.found path present;
            grown = omega arith;
            objects = λ i h. refl;
            others = λ q h. refl;
          })
  ]
