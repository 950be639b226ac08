-- ===== src/Tests/Generate.antt =====
-- The generator on small inputs.
use ioriot.Prelude.{◌≡◌, true, false, pos, ◌+ℤ◌, arith, ltz, lez, refl, ◌-◌, ◌<◌, [], ◌∷◌, length}
use ioriot.Generate.PathMap.{string_map}
use ioriot.Generate.Section.{write_init_cb}
use ioriot.Generate.State.{Vsize, Store, vsize_new, set_file, set_required}
use ioriot.Generate.Vsize.{Vfd, to_long, vsize_read, vsize_write}
use ioriot.Generate.Vsize.Inv.{object}
use ioriot.Init.Asked.{init_asks, is_behind, vsize_write_keeps}
use ioriot.Tests.Vsize.{empty_store}
use ioriot.Text.{bytes}

-- A file of which 100 bytes were read, and a descriptor for it at 200
abbrev read_file : Vsize
read_file = set_file (set_required (record (vsize_new (bytes "/a") 1) { bytes = pos 100 }))

abbrev read_store : Store string_map
read_store = record empty_store { vsizes = read_file ∷ []; num_vsizes = 1 }

abbrev behind_it : Vfd
behind_it = record { fd = pos 3; mapped_fd = 1; path = bytes "/a"; offset = 200 }

one_object : 1 - 1 < length read_store.vsizes
one_object = omega arith

asked_before : init_asks read_file (pos 42) ≡ true
unfolding vsize_new ltz lez ◌+ℤ◌
asked_before = refl

abbrev before : Vsize
before = object string_map read_store 0

abbrev after_read : Vsize
after_read = object string_map (vsize_read string_map read_store 1 behind_it (pos 50)).0 0

abbrev after_write : Vsize
after_write = object string_map (vsize_write string_map read_store 1 behind_it (pos 50)).0 0

vsize_write_keeps_example :
    (is_behind before (to_long 200) ≡ false → init_asks after_write (pos 42) ≡ true)
    × (is_behind before (to_long 200) ≡ true
        → before.is_link ≡ false
        → write_init_cb after_write ≡ [])
    × (after_write.required ≡ before.required)
vsize_write_keeps_example =
    vsize_write_keeps string_map read_store 1 behind_it (pos 50) (pos 42) one_object asked_before

is_behind_run : is_behind read_file (to_long 200) ≡ true
unfolding vsize_new ltz
is_behind_run = refl

-- A read of 200 bytes at 0 of a file of 100 bytes
