-- ===== src/Datas/RBuffer/Steps.antt =====
-- What each access of the writer and of the reader does to the queue that a buffer holds.
use ioriot.Prelude.{
  ℕ, ◌+◌, ◌-◌, ◌%◌, ◌<◌, ◌≡◌, ap, sym, ◌∙◌, subst, List, [], ◌∷◌, ◌++◌, arith, length, is_nil, true,
  false, ltb, ◌==◌, if◌then◌else◌, length-set, length-append, set, get_or, length-replicate,
}
use native.Mathlib.Nat.{mod-add-mod, mod-eq_of_lt}
use ioriot.Datas.RBuffer.Cells.{Cells, Cells-set, Cells-append, add-mod_turn}
use ioriot.Datas.RBuffer.Inv.{
  Shape, Holds, write_from_read, full_of_meet, meet_of_full, empty_of_meet,
}
use ioriot.Datas.RBuffer.{RBuffer, new}

-- A new buffer is empty.
pub new-Holds : (size : ℕ) → 0 < size → Holds (new size) []
unfolding new
new-Holds size h = record {
  shape = record {
    allocated = length-replicate size 0;
    read_in = omega arith;
    room = h;
    write_at =
        let e : size - 1 + 1 + 0 ≡ 0 + size = omega arith in
        ap (λ n. n % size) e ∙ add-mod_turn size 0 h;
  };
  cells = tt;
}

-- The writer's step: fill the slot, then move on.
pub Shape-publish :
    {r : RBuffer} {q : List ℕ} (x : ℕ)
    → Shape r q
    → length q + 1 < r.size
    → Shape (record r { write_pos = (r.write_pos + 1) % r.size }) (q ++ x ∷ [])
Shape-publish {r} {q} x s room = record {
  allocated = s.allocated;
  read_in = s.read_in;
  room = rw (length-append q (x ∷ [])) room;
  write_at =
      let e : r.read_pos + 1 + length (q ++ x ∷ []) ≡ r.read_pos + 1 + length q + 1 =
        omega (arith, length-append q (x ∷ [])) in
      ap (λ n. n % r.size) e
      ∙ sym (mod-add-mod (r.read_pos + 1 + length q) r.size 1)
      ∙ ap (λ n. (n + 1) % r.size) s.write_at;
}

pub Cells-publish :
    {r : RBuffer} {q : List ℕ} (x : ℕ)
    → Shape r q
    → Cells r.ring r.size ((r.read_pos + 1) % r.size) q
    → get_or r.ring r.write_pos 0 ≡ x
    → Cells r.ring r.size ((r.read_pos + 1) % r.size) (q ++ x ∷ [])
Cells-publish {r} {q} x s c e =
    Cells-append r.ring r.size _ x q (omega (arith, s.read_in)) c
      (ap (λ i. get_or r.ring i 0) (write_from_read s) ∙ e)

pub Cells-write :
    {r : RBuffer} {q : List ℕ} (x : ℕ)
    → Shape r q
    → Cells r.ring r.size ((r.read_pos + 1) % r.size) q
    → Cells (set r.ring r.write_pos x) r.size ((r.read_pos + 1) % r.size) q
Cells-write {r} {q} x s c =
    subst (λ i. Cells (set r.ring i x) r.size ((r.read_pos + 1) % r.size) q) (write_from_read s)
      (Cells-set r.ring r.size _ (length q) x q (omega (arith, s.read_in)) (omega arith) s.room c)

pub Shape-set :
    {r : RBuffer} {q : List ℕ} (i x : ℕ) → Shape r q → Shape (record r { ring = set r.ring i x }) q
Shape-set {r} i x s = record {
  allocated = length-set r.ring i x ∙ s.allocated;
  read_in = s.read_in;
  room = s.room;
  write_at = s.write_at;
}

-- The reader's step: empty the slot, then move on.
pub Shape-release :
    {r : RBuffer} {x : ℕ} {q : List ℕ}
    → Shape r (x ∷ q)
    → Shape (record r { read_pos = (r.read_pos + 1) % r.size }) q
Shape-release {r} {x} {q} s = record {
  allocated = s.allocated;
  read_in = omega (arith, s.read_in);
  room = omega (arith, s.room);
  write_at =
      let e : (r.read_pos + 1) % r.size + 1 + length q
          ≡ (r.read_pos + 1) % r.size + length (x ∷ q) =
        omega arith in
      ap (λ n. n % r.size) e ∙ write_from_read s;
}

-- Emptying the oldest slot leaves the rest.
pub Cells-clear :
    {r : RBuffer} {x : ℕ} {q : List ℕ}
    → Shape r (x ∷ q)
    → Cells r.ring r.size ((r.read_pos + 1) % r.size) (x ∷ q)
    → Cells
        (set r.ring ((r.read_pos + 1) % r.size) 0)
        r.size
        ((((r.read_pos + 1) % r.size) + 1) % r.size)
        q
Cells-clear {r} {x} {q} s c =
    let h : ℕ = (r.read_pos + 1) % r.size in
    let start : h < r.size = omega (arith, s.read_in) in
    let turn : h + 1 + (r.size - 1) ≡ h + r.size = omega (arith, s.read_in) in
    subst (λ i. Cells (set r.ring i 0) r.size ((h + 1) % r.size) q)
      (mod-add-mod (h + 1) r.size (r.size - 1)
        ∙ ap (λ n. n % r.size) turn
        ∙ add-mod_turn r.size h start)
      (Cells-set r.ring r.size ((h + 1) % r.size) (r.size - 1) 0 q (omega arith)
        (omega (arith, s.room)) (omega arith) c.1)

-- The writer finds its position at the reader's exactly when `size - 1` items are held.
pub full_test :
    {r : RBuffer} {q : List ℕ}
    → Shape r q
    → (r.write_pos == r.read_pos) ≡ (if ltb (length q) (r.size - 1) then false else true)
full_test {r} {q} s = ground (arith, full_of_meet s, meet_of_full s, s.room)

-- The reader finds the next position at the writer's exactly when nothing is held.
pub empty_test :
    {r : RBuffer} {q : List ℕ} → Shape r q → (((r.read_pos + 1) % r.size) == r.write_pos) ≡ is_nil q
empty_test {r} {q = []} s =
    let e : ((r.read_pos + 1) % r.size) + 0 ≡ (r.read_pos + 1) % r.size = omega arith in
    ground (
      arith,
      write_from_read s,
      mod-eq_of_lt {n = (r.read_pos + 1) % r.size} {m = r.size} (omega (arith, s.read_in)),
    )
empty_test {r} {q = x ∷ q} s = ground (arith, empty_of_meet s)
