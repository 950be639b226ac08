-- ===== src/Generate/Vsize/Inv.antt =====
-- The order of the store of virtual sizes of ioriot/src/generate/vsize.c between two calls.
use ioriot.Prelude.{
  ℕ, ◌+◌, ◌-◌, ◌≤◌, ◌<◌, ◌≡◌, ◌≢◌, subst, ◌∙◌, [], false, not, ◌&&◌, ◌==◌, if◌then◌else◌, get_or,
  length, arith, length-set, get_or-set_self, get_or-set_ne,
}
use native.Mathlib.Decide.{ℕ_discrete}
use ioriot.Generate.PathMap.{Bytes, PathMap}
use ioriot.Generate.State.{Vsize, vsize_new, Store, modify}

-- An object has one kind at most, and only that of a file is ever unsure.
abbrev pub HasOneKind : Vsize → Type 0
HasOneKind v =
    ((v.is_dir && v.is_file) ≡ false)
    × ((v.is_dir && v.is_link) ≡ false)
    × ((v.is_file && v.is_link) ≡ false)
    × ((v.unsure && not v.is_file) ≡ false)

-- A change that keeps the name, the number and the one kind of an object
abbrev pub IsTame : (Vsize → Vsize) → Type 0
IsTame f = (v : Vsize) → HasOneKind v → ((f v).path ≡ v.path) × ((f v).id ≡ v.id) × HasOneKind (f v)

module _ (paths : PathMap) where
  -- The object at a place of the list
  abbrev pub object : Store paths → ℕ → Vsize
  object g i = get_or g.vsizes i (vsize_new [] 0)

  -- The i-th object has the number i + 1, is known under its path, and has one kind; and the map
  -- knows no other path.
  pub record IsValid (g : Store paths) : Type 0 where
    pub counted : length g.vsizes ≡ g.num_vsizes
    pub ids : (i : ℕ) → i < g.num_vsizes → (object g i).id ≡ i + 1
    pub known : (i : ℕ) → i < g.num_vsizes → paths.get g.vsize_map (object g i).path ≡ i + 1
    pub one_kind : (i : ℕ) → i < g.num_vsizes → HasOneKind (object g i)
    pub bounded : (path : Bytes) → paths.get g.vsize_map path ≤ g.num_vsizes
    pub found :
        (path : Bytes)
        → paths.get g.vsize_map path ≢ 0
        → (object g (paths.get g.vsize_map path - 1)).path ≡ path

  pub object-modify :
      (g : Store paths) (v i : ℕ) (f : Vsize → Vsize)
      → v - 1 < length g.vsizes
      → object (modify paths g v f) i ≡ (if (v - 1) == i then f (object g i) else object g i)
  object-modify g v i f h = elim (ℕ_discrete (v - 1) i) [
    | yes e ↦
        subst
          (λ i.
            object (modify paths g v f) i ≡ (if (v - 1) == i then f (object g i) else object g i))
          e
          (ground
            (arith, get_or-set_self g.vsizes (v - 1) (f (object g (v - 1))) (vsize_new [] 0) h))
    | no n ↦
        ground (arith, get_or-set_ne g.vsizes (v - 1) i (f (object g (v - 1))) (vsize_new [] 0) n)
  ]

  -- A tame change of an object keeps the store in order.
  pub modify-IsValid :
      (g : Store paths) (v : ℕ) (f : Vsize → Vsize)
      → IsValid g
      → v - 1 < g.num_vsizes
      → IsTame f
      → IsValid (modify paths g v f)
  modify-IsValid g v f ok inside tame =
      let inside' : v - 1 < length g.vsizes = omega (arith, ok.counted) in
      let changed = λ (i : ℕ). object-modify g v i f inside' in
      record {
        counted = length-set g.vsizes (v - 1) (f (object g (v - 1))) ∙ ok.counted;
        ids = λ i h. ground (arith, changed i, tame (object g i) (ok.one_kind i h), ok.ids i h);
        known = λ i h. ground (arith, changed i, tame (object g i) (ok.one_kind i h), ok.known i h);
        one_kind =
            λ i h. ground (arith, changed i, tame (object g i) (ok.one_kind i h), ok.one_kind i h);
        bounded = ok.bounded;
        found = λ path h. ground (
          arith,
          changed (paths.get g.vsize_map path - 1),
          ok.bounded path,
          tame (object g (paths.get g.vsize_map path - 1))
              (ok.one_kind (paths.get g.vsize_map path - 1) (ground (arith, h, ok.bounded path))),
          ok.found path h,
        );
      }
