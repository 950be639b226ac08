-- ===== src/Datas/RBuffer/Refine.antt =====
-- The ring buffer of ioriot/src/datas/rbuffer.c as a bounded queue.
use ioriot.Prelude.{
  ℕ, ◌+◌, ◌-◌, ◌%◌, ◌≡◌, refl, List, [], ◌∷◌, ◌++◌, arith, length, Bool, not, is_nil, true, false,
  ltb, if◌then◌else◌, inl, inr, Bool-cases, get_or-set_self,
}
use ioriot.Datas.RBuffer.Inv.{Holds, write_in}
use ioriot.Datas.RBuffer.Steps.{
  Shape-publish, Cells-publish, Cells-write, Shape-set, Shape-release, Cells-clear, full_test,
  empty_test,
}
use ioriot.Datas.RBuffer.{RBuffer, insert, has_next, get_next}

-- What the buffer promises: a queue that holds at most `cap` items, and that answers NULL if empty.
unfoldable pub enqueue : ℕ → List ℕ → ℕ → Bool × List ℕ
enqueue cap q x = if ltb (length q) cap then (true, q ++ x ∷ []) else (false, q)

unfoldable pub dequeue : List ℕ → ℕ × List ℕ
dequeue [] = (0, [])
dequeue (x ∷ q) = (x, q)

-- `rbuffer_insert` succeeds exactly when fewer than `size - 1` items are held, and then appends.
pub insert_refines :
    {r : RBuffer} {q : List ℕ} (x : ℕ)
    → Holds r q
    → ((insert r x).0 ≡ (enqueue (r.size - 1) q x).0)
      × Holds (insert r x).1 (enqueue (r.size - 1) q x).1
      × ((insert r x).1.size ≡ r.size)
unfolding insert enqueue
insert_refines {r} {q} x h = elim (Bool-cases (ltb (length q) (r.size - 1))) [
  | inr full ↦ rw (full_test h.shape, full) (refl, h, refl)
  | inl free ↦
      let s = Shape-set r.write_pos x h.shape in
      rw (full_test h.shape, free)
        (
          refl,
          record {
            shape = Shape-publish x s (ground arith);
            cells = Cells-publish x s (Cells-write x h.shape h.cells) (
                get_or-set_self r.ring r.write_pos x 0
                  (omega (arith, write_in h.shape, h.shape.allocated)));
          },
          refl,
        )
]

-- `rbuffer_get_next` returns the oldest item and removes it; of an empty buffer it returns NULL.
pub get_next_refines :
    {r : RBuffer} {q : List ℕ}
    → Holds r q
    → ((get_next r).0 ≡ (dequeue q).0)
      × Holds (get_next r).1 (dequeue q).1
      × ((get_next r).1.size ≡ r.size)
unfolding get_next dequeue
get_next_refines {r} {q = []} h = rw (empty_test h.shape) (refl, h, refl)
get_next_refines {r} {q = x ∷ q} h = rw (empty_test h.shape) (
  h.cells.0,
  record {
    shape = Shape-release (Shape-set ((r.read_pos + 1) % r.size) 0 h.shape);
    cells = Cells-clear h.shape h.cells;
  },
  refl,
)

-- `rbuffer_has_next` tells whether an item is held.
pub has_next_lem : {r : RBuffer} {q : List ℕ} → Holds r q → has_next r ≡ not (is_nil q)
unfolding has_next
has_next_lem {q = []} h = rw (empty_test h.shape)
has_next_lem {q = x ∷ q} h = rw (empty_test h.shape)
