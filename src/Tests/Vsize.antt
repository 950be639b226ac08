-- ===== src/Tests/Vsize.antt =====
-- Virtual sizes: a file `/a`, looked up in a store that is empty.
use ioriot.Prelude.{ℕ, ◌<◌, refl, [], ◌∷◌, pos, arith}
use ioriot.Generate.PathMap.{Bytes, string_map, empty_map}
use ioriot.Generate.State.{Store, vsize_by_path}
use ioriot.Generate.Vsize.{
  Vfd, vsize_stat, vsize_mkdir, vsize_rmdir, vsize_unlink, vsize_rename, vsize_symlink, vsize_open,
  vsize_close, vsize_read, vsize_write, vsize_seek,
}
use ioriot.Generate.Vsize.Inv.{IsValid}
use ioriot.Generate.Vsize.Paths.{IsLookup, vsize_by_path-IsLookup}
use ioriot.Generate.Vsize.Steps.{IsStep}
use ioriot.Generate.Vsize.Calls.{calls-IsStep}

abbrev pub slash : Bytes
slash = 47 ∷ []

abbrev pub file_a : Bytes
file_a = 47 ∷ 97 ∷ []

-- What dirname(3) returns for the paths used here
abbrev pub parent_of : Bytes → Bytes
parent_of path = slash

pub some_room : 0 < 16
some_room = omega arith

abbrev pub empty_store : Store string_map
empty_store = record { vsizes = []; vsize_map = (empty_map 16 some_room).0; num_vsizes = 0 }

pub empty_store-IsValid : IsValid string_map empty_store
empty_store-IsValid = record {
  counted = refl;
  ids = λ i h. absurd (omega arith);
  known = λ i h. absurd (omega arith);
  one_kind = λ i h. absurd (omega arith);
  bounded = λ path. omega (arith, (empty_map 16 some_room).1 path);
  found = λ path h. absurd (h ((empty_map 16 some_room).1 path));
}

-- The store and the object of `/a` after a first lookup
abbrev looked_up : ℕ × Store string_map
looked_up = vsize_by_path string_map empty_store file_a

looked_up-IsLookup : IsLookup string_map empty_store file_a looked_up.0 looked_up.1
looked_up-IsLookup = vsize_by_path-IsLookup string_map empty_store file_a empty_store-IsValid

vsize_by_path-IsLookup_example :
    IsLookup string_map looked_up.1 slash
      (vsize_by_path string_map looked_up.1 slash).0
      (vsize_by_path string_map looked_up.1 slash).1
vsize_by_path-IsLookup_example =
    vsize_by_path-IsLookup string_map looked_up.1 slash looked_up-IsLookup.valid

abbrev first_vfd : Vfd
first_vfd = record { fd = pos 3; mapped_fd = 11; path = file_a; offset = 0 }

calls-IsStep_example :
    let (v, g) = looked_up in
    IsStep string_map g (vsize_open string_map parent_of 65536 64 g v first_vfd file_a 66).0
    × IsStep string_map g (vsize_close string_map g v first_vfd).0
    × IsStep string_map g (vsize_stat string_map parent_of g v file_a)
    × IsStep string_map g (vsize_symlink string_map parent_of g v file_a slash)
    × IsStep string_map g (vsize_rename string_map parent_of g v v file_a slash)
    × IsStep string_map g (vsize_read string_map g v first_vfd (pos 100)).0
    × IsStep string_map g (vsize_write string_map g v first_vfd (pos 100)).0
    × IsStep string_map g (vsize_seek string_map g v first_vfd (pos 100)).0
    × IsStep string_map g (vsize_mkdir string_map parent_of g v file_a)
    × IsStep string_map g (vsize_rmdir string_map parent_of g v file_a)
    × IsStep string_map g (vsize_unlink string_map parent_of g v file_a)
calls-IsStep_example =
    calls-IsStep string_map parent_of looked_up.1 looked_up.0 looked_up-IsLookup.valid
      (omega (arith, looked_up-IsLookup.present, looked_up-IsLookup.inside)) 65536 64 66 looked_up.0
      first_vfd file_a slash (pos 100)
      (omega (arith, looked_up-IsLookup.present, looked_up-IsLookup.inside))
