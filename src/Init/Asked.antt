-- ===== src/Init/Asked.antt =====
-- How reads and writes in the capture change what the INIT section asks for: `vsize_read` and
-- `vsize_write` of ioriot/src/generate/vsize.c, and `generate_write_init_cb` of
-- ioriot/src/generate/generate.c.
pub mod Sizes
use ioriot.Prelude.{
  ℕ, ◌-◌, ◌<◌, ◌≡◌, refl, ap, sym, ◌∙◌, [], Bool, true, false, ◌==◌, length, if◌then◌else◌, arith,
  ℤ, not,
}
use ioriot.Datas.BTree.{BTree}
use ioriot.Generate.DataRange.{asks_for}
use ioriot.Generate.PathMap.{PathMap}
use ioriot.Generate.Section.{write_data, write_init_cb}
use ioriot.Generate.State.{Vsize, Store, touch, modify}
use ioriot.Generate.Vsize.{Vfd, to_long, to_written, vsize_write}
use ioriot.Generate.Vsize.Inv.{object, object-modify}
use ioriot.Init.Asked.Sizes.{behind, size_kept, size_lost, no_lines}
use ioriot.Init.Ranges.{asked_by}
use ioriot.Init.Sections.{data_tasks, asked_by-data}

-- What the lines of the INIT section ask for at a position of a file, if the replay needs it as a
-- regular one
abbrev pub init_asks : Vsize → ℤ → Bool
init_asks v p = asked_by (data_tasks v v.read_ranges) p

init_asks_lem : (v : Vsize) (p : ℤ) → init_asks v p ≡ asks_for v.bytes v.read_ranges p
init_asks_lem v p = asked_by-data v v.read_ranges p

-- A write behind the recorded size of a file that has no ranges yet
abbrev pub is_behind : Vsize → ℤ → Bool
is_behind v offset = behind v.bytes v.read_ranges v.write_ranges offset

module _ (paths : PathMap) where
  own_object :
      (g : Store paths) (v : ℕ) (f : Vsize → Vsize)
      → v - 1 < length g.vsizes
      → object paths (modify paths g v f) (v - 1) ≡ f (object paths g (v - 1))
  own_object g v f h =
      let same : (v - 1 == v - 1) ≡ true = ground arith in
      object-modify paths g v (v - 1) f h
      ∙ ap (λ (b : Bool). if b then f (object paths g (v - 1)) else object paths g (v - 1)) same

  -- A write keeps the positions that the INIT section asks for, but for one case: behind the
  -- recorded size of a file of which no ranges, read or written, are kept yet. Then the INIT section
  -- has no line any more for the file, unless it is a link, though it asked for positions before. In
  -- either case, the write does not change whether the replay needs the file.
  pub vsize_write_keeps :
      (g : Store paths) (v : ℕ) (vfd : Vfd) (bytes p : ℤ)
      → v - 1 < length g.vsizes
      → init_asks (object paths g (v - 1)) p ≡ true
      → (is_behind (object paths g (v - 1)) (to_long vfd.offset) ≡ false
          → init_asks (object paths (vsize_write paths g v vfd bytes).0 (v - 1)) p ≡ true)
        × (is_behind (object paths g (v - 1)) (to_long vfd.offset) ≡ true
            → (object paths g (v - 1)).is_link ≡ false
            → write_init_cb (object paths (vsize_write paths g v vfd bytes).0 (v - 1)) ≡ [])
        × ((object paths (vsize_write paths g v vfd bytes).0 (v - 1)).required
            ≡ (object paths g (v - 1)).required)
  unfolding vsize_write
  vsize_write_keeps g v vfd bytes p i h =
      let o : Vsize = object paths g (v - 1) in
      let offset : ℤ = to_long vfd.offset in
      let asked : asks_for o.bytes o.read_ranges p ≡ true = sym (init_asks_lem o p) ∙ h in
      rw (own_object g v (λ o. touch (to_written offset bytes o)) i) (
        λ b.
            init_asks_lem (touch (to_written offset bytes o)) p
            ∙ size_kept o.bytes o.read_ranges o.write_ranges offset bytes p asked b,
        λ b l.
            let (size, none_read) =
              size_lost o.bytes o.read_ranges o.write_ranges offset bytes p asked b in
            no_lines (touch (to_written offset bytes o)) l size none_read,
        refl,
      )
