-- ===== src/Datas/RBuffer/Inv.antt =====
-- What it means for a ring buffer to hold a queue.
use ioriot.Prelude.{ℕ, ◌+◌, ◌%◌, ◌<◌, ◌≡◌, ap, sym, ◌∙◌, List, [], ◌∷◌, arith, length}
use native.Mathlib.Nat.{mod-add-mod}
use native.Mathlib.Decide.{dec_lt}
use ioriot.Datas.RBuffer.Cells.{Cells, add-mod-ne, add-mod_turn}
use ioriot.Datas.RBuffer.{RBuffer}

-- The two positions lie in the array, and `q` stands between them, one slot at least being free.
pub record Shape (r : RBuffer) (q : List ℕ) : Type 0 where
  pub allocated : length r.ring ≡ r.size
  pub read_in : r.read_pos < r.size
  pub room : length q < r.size
  pub write_at : (r.read_pos + 1 + length q) % r.size ≡ r.write_pos

-- The buffer holds the queue `q`.
pub record Holds (r : RBuffer) (q : List ℕ) : Type 0 where
  pub shape : Shape r q
  pub cells : Cells r.ring r.size ((r.read_pos + 1) % r.size) q

module _ {r : RBuffer} {q : List ℕ} (s : Shape r q) where
  pub write_from_read : (((r.read_pos + 1) % r.size) + length q) % r.size ≡ r.write_pos
  write_from_read = rw mod-add-mod s.write_at

  pub write_in : r.write_pos < r.size
  write_in = omega (arith, s.read_in, s.write_at)

  -- The positions meet exactly when `size - 1` items are held.
  pub full_of_meet : r.write_pos ≡ r.read_pos → length q + 1 ≡ r.size
  full_of_meet e = elim (dec_lt (length q + 1) r.size) [
    | yes p ↦ absurd (
        add-mod-ne r.size r.read_pos (1 + length q) s.read_in (omega arith) (omega arith)
          (ap (λ n. n % r.size) (omega arith) ∙ s.write_at ∙ e))
    | no p ↦ omega (arith, s.room)
  ]

  pub meet_of_full : length q + 1 ≡ r.size → r.write_pos ≡ r.read_pos
  meet_of_full e =
      let turn : r.read_pos + 1 + length q ≡ r.read_pos + r.size = omega arith in
      sym s.write_at ∙ ap (λ n. n % r.size) turn ∙ add-mod_turn r.size r.read_pos s.read_in

-- The reader meets the writer exactly when nothing is held.
pub empty_of_meet :
    {r : RBuffer} {q : List ℕ}
    → Shape r q
    → ((r.read_pos + 1) % r.size) ≡ r.write_pos
    → length q ≡ 0
empty_of_meet {r} {q = []} s e = omega arith
empty_of_meet {r} {q = x ∷ q} s e = absurd (
    add-mod-ne r.size ((r.read_pos + 1) % r.size) (length (x ∷ q)) (omega (arith, s.read_in))
      (omega arith) s.room (write_from_read s ∙ sym e))
