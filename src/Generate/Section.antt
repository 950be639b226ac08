-- ===== src/Generate/Section.antt =====
-- The INIT section of a .replay file: `generate_write_init_cb` of
-- ioriot/src/generate/generate.c.
use ioriot.Prelude.{
  List, [], ◌∷◌, ◌++◌, Bool, not, ◌&&◌, is_nil, if◌then◌else◌, Option, some, none, ℤ, pos, ltz, lez,
  ◌-ℤ◌,
}
use ioriot.Datas.BTree.{BTree, run_cb2_r}
use ioriot.Text.{Bytes, bytes}
use ioriot.Text.Numbers.{show_long}
use ioriot.Generate.State.{Vsize}
use ioriot.Generate.Print.{barred}

-- `printf("%d", b)`
abbrev pub flag : Bool → Bytes
flag b = if b then bytes "1" else bytes "0"

-- The words of a line for a range, and those behind the path
abbrev pub init_words : Vsize → ℤ → ℤ → List Bytes → List Bytes
init_words v start size more =
    flag v.is_dir
    ∷ flag v.is_file
    ∷ flag v.is_link
    ∷ show_long start
    ∷ show_long size
    ∷ v.path
    ∷ more

-- `_write_ranges_cb`
unfoldable pub write_ranges_cb : Vsize → ℤ × ℤ → Bytes
write_ranges_cb v (start, end) =
    let size = end -ℤ start in if ltz (pos 0) size then barred (init_words v start size []) else []

-- For each range of a tree
unfoldable pub write_ranges : Vsize → List (ℤ × ℤ) → Bytes
write_ranges v [] = []
write_ranges v (range ∷ ranges) = write_ranges_cb v range ++ write_ranges v ranges

-- The ranges of a file, or its size
abbrev pub write_data : Vsize → Option BTree → Bytes
write_data v (some ranges) = write_ranges v (run_cb2_r ranges.root)
write_data v none = if lez (pos 0) v.bytes then barred (init_words v (pos 0) v.bytes []) else []

abbrev pub write_link : Vsize → Option Bytes → Bytes
write_link v (some target) = barred (init_words v (pos 0) (pos 0) (target ∷ []))
write_link v none = write_data v v.read_ranges

-- `generate_write_init_cb`
unfoldable pub write_init_cb : Vsize → Bytes
write_init_cb v =
    if v.required && not (is_nil v.path)
    then (if v.is_link then write_link v v.link_target else write_data v v.read_ranges)
    else []
