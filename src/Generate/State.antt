-- ===== src/Generate/State.antt =====
-- The virtual sizes of the generator (`vsize_s`) and their lookup by path, from
-- ioriot/src/generate/vsize.c and generate.c. The objects stand in a list, in the order in which
-- they are made; the pointer to the i-th is its number, counted from 1.
use ioriot.Prelude.{
  ℕ, ◌+◌, ◌-◌, List, [], ◌∷◌, ◌++◌, Bool, true, false, ◌==◌, if◌then◌else◌, Option, none, ℤ, pos,
  get_or, set,
}
use ioriot.Datas.BTree.{BTree}
use ioriot.Generate.PathMap.{Bytes, PathMap}

-- `vsize_s`, but for its pointer to the generator
pub record Vsize : Type 0 where
  pub path : Bytes
  pub link_target : Option Bytes
  pub bytes : ℤ
  pub read_ranges : Option BTree
  pub write_ranges : Option BTree
  pub id : ℕ
  pub renamed : Bool
  pub required : Bool
  pub is_dir : Bool
  pub is_file : Bool
  pub is_link : Bool
  pub unsure : Bool
  pub updates : ℕ
  pub inserted : Bool

-- `vsize_new`
unfoldable pub vsize_new : Bytes → ℕ → Vsize
vsize_new path id = record {
  path = path;
  link_target = none;
  bytes = pos 0;
  read_ranges = none;
  write_ranges = none;
  id = id;
  renamed = false;
  required = false;
  is_dir = false;
  is_file = false;
  is_link = false;
  unsure = false;
  updates = 0;
  inserted = false;
}

-- `_Set_file`, `_Set_dir`, `_Set_link` and the macros for single flags
abbrev pub set_file : Vsize → Vsize
set_file v = record v { is_file = true; is_link = false; is_dir = false; unsure = false }

abbrev pub set_dir : Vsize → Vsize
set_dir v = record v { is_dir = true; is_link = false; is_file = false; unsure = false }

abbrev pub set_link : Vsize → Vsize
set_link v = record v { is_link = true; is_dir = false; is_file = false; unsure = false }

abbrev pub set_unsure : Vsize → Vsize
set_unsure v = record v { unsure = true }

abbrev pub set_required : Vsize → Vsize
set_required v = record v { required = true }

abbrev pub set_renamed : Vsize → Vsize
set_renamed v = record v { renamed = true }

abbrev pub set_inserted : Vsize → Vsize
set_inserted v = record v { inserted = true }

-- `v->updates++`
abbrev pub touch : Vsize → Vsize
touch v = record v { updates = v.updates + 1 }

module _ (paths : PathMap) where
  -- The part of `generate_s` that virtual sizes live in
  pub record Store : Type 0 where
    pub vsizes : List Vsize
    pub vsize_map : paths.Map
    pub num_vsizes : ℕ

  -- `*v`. A pointer to no object reads as an object that is new.
  abbrev pub deref : Store → ℕ → Vsize
  deref g v = get_or g.vsizes (v - 1) (vsize_new [] 0)

  abbrev pub modify : Store → ℕ → (Vsize → Vsize) → Store
  modify g v f = record g {
    vsizes = set g.vsizes (v - 1) (f (get_or g.vsizes (v - 1) (vsize_new [] 0)));
  }

  -- A new object, known under its path
  unfoldable pub create : Store → Bytes → (Vsize → Vsize) → ℕ × Store
  create g path f =
      let v = g.num_vsizes + 1 in
      (
        v,
        record {
          vsizes = g.vsizes ++ f (vsize_new path v) ∷ [];
          vsize_map = paths.insert g.vsize_map path v;
          num_vsizes = v;
        },
      )

  -- `generate_vsize_by_path`, with a path that is not NULL
  unfoldable pub vsize_by_path : Store → Bytes → ℕ × Store
  vsize_by_path g path =
      let v = paths.get g.vsize_map path in if v == 0 then create g path (λ v. v) else (v, g)

  module _ (dirname : Bytes → Bytes) where
    -- `init_parent_dir`; `dirname` is that of the C library.
    unfoldable pub init_parent_dir : Store → Bytes → Store
    init_parent_dir g path =
        let parent = dirname path in
        let v = paths.get g.vsize_map parent in
        if v == 0
        then (create g parent (λ v. touch (set_inserted (set_dir (set_required v))))).1
        else if (deref g v).unsure
        then modify g v (λ v. touch (set_dir v))
        else g
