-- ===== src/Datas/RBuffer/Threads/Inv.antt =====
-- What holds of the shared buffer wherever the two threads stand, kept by each step of the writer
-- and of the reader.
use ioriot.Prelude.{
  ℕ, ◌+◌, ◌%◌, ◌<◌, ◌≡◌, ◌≢◌, ap, sym, ◌∙◌, subst, List, [], ◌∷◌, ◌++◌, arith, length, get_or, set,
  get_or-set_ne,
}
use ioriot.Datas.RBuffer.Cells.{Cells, Cells-set, Cells-append, add-mod-ne, step-add}
use ioriot.Datas.RBuffer.Inv.{Shape, write_from_read}
use ioriot.Datas.RBuffer.Steps.{Cells-publish, Cells-write}
use ioriot.Datas.RBuffer.{RBuffer}
use ioriot.Datas.RBuffer.Threads.{
  Writer, asking, filling, publishing, Reader, looking, taking, clearing, releasing, System,
}

abbrev pub in_hand : Writer → List ℕ
in_hand asking = []
in_hand (filling x) = x ∷ []
in_hand (publishing x) = x ∷ []

-- A writer past its test knows that a slot is free, and, before it publishes, that it is filled.
abbrev pub WriterOk : RBuffer → List ℕ → Writer → Type 0
WriterOk b q asking = Unit
WriterOk b q (filling x) = length q + 1 < b.size
WriterOk b q (publishing x) = (length q + 1 < b.size) × (get_or b.ring b.write_pos 0 ≡ x)

-- A reader past its test has the slot of the oldest item, which counts until it is released.
abbrev pub ReaderOk : RBuffer → List ℕ → Reader → Type 0
ReaderOk b q looking = Cells b.ring b.size ((b.read_pos + 1) % b.size) q
ReaderOk b [] (taking slot) = ⊥
ReaderOk b (y ∷ q) (taking slot) =
    (slot ≡ (b.read_pos + 1) % b.size) × Cells b.ring b.size ((b.read_pos + 1) % b.size) (y ∷ q)
ReaderOk b [] (clearing slot x) = ⊥
ReaderOk b (y ∷ q) (clearing slot x) =
    (slot ≡ (b.read_pos + 1) % b.size)
    × (x ≡ y)
    × Cells b.ring b.size ((b.read_pos + 1) % b.size) (y ∷ q)
ReaderOk b [] (releasing slot x) = ⊥
ReaderOk b (y ∷ q) (releasing slot x) =
    (slot ≡ (b.read_pos + 1) % b.size)
    × (x ≡ y)
    × Cells b.ring b.size ((((b.read_pos + 1) % b.size) + 1) % b.size) q

-- `q` is what has been published and not released.
pub record Inv (items : List ℕ) (b : RBuffer) (w : Writer) (r : Reader) (todo received q : List ℕ)
    : Type 0 where
  pub order : received ++ (q ++ (in_hand w ++ todo)) ≡ items
  pub shape : Shape b q
  pub writing : WriterOk b q w
  pub reading : ReaderOk b q r

abbrev pub Holds : List ℕ → System → List ℕ → Type 0
Holds items s q = Inv items s.buffer s.writer s.reader s.todo s.received q

-- Filling the free slot does not touch what the reader relies on.
pub ReaderOk-fill :
    {b : RBuffer} (q : List ℕ) (x : ℕ) (r : Reader)
    → Shape b q
    → ReaderOk b q r
    → ReaderOk (record b { ring = set b.ring b.write_pos x }) q r
ReaderOk-fill q x looking s h = Cells-write x s h
ReaderOk-fill (y ∷ q) x (taking slot) s h = (h.0, Cells-write x s h.1)
ReaderOk-fill (y ∷ q) x (clearing slot z) s h = (h.0, h.1, Cells-write x s h.2)
ReaderOk-fill {b} (y ∷ q) x (releasing slot z) s h =
    let start : ℕ = (b.read_pos + 1) % b.size in
    (
      h.0,
      h.1,
      subst (λ i. Cells (set b.ring i x) b.size ((start + 1) % b.size) q)
          (step-add b.size start (length q) ∙ write_from_read s)
          (Cells-set b.ring b.size ((start + 1) % b.size) (length q) x q (omega (arith, s.read_in))
            (omega arith) (omega (arith, s.room)) h.2),
    )
ReaderOk-fill [] x (taking slot) s h = absurd h
ReaderOk-fill [] x (clearing slot z) s h = absurd h
ReaderOk-fill [] x (releasing slot z) s h = absurd h

-- Publishing the filled slot adds its item behind the others.
pub ReaderOk-publish :
    {b : RBuffer} (q : List ℕ) (x p : ℕ) (r : Reader)
    → Shape b q
    → get_or b.ring b.write_pos 0 ≡ x
    → ReaderOk b q r
    → ReaderOk (record b { write_pos = p }) (q ++ x ∷ []) r
ReaderOk-publish q x p looking s e h = Cells-publish x s h e
ReaderOk-publish (y ∷ q) x p (taking slot) s e h = (h.0, Cells-publish x s h.1 e)
ReaderOk-publish (y ∷ q) x p (clearing slot z) s e h = (h.0, h.1, Cells-publish x s h.2 e)
ReaderOk-publish {b} (y ∷ q) x p (releasing slot z) s e h =
    let start : ℕ = (b.read_pos + 1) % b.size in
    (
      h.0,
      h.1,
      Cells-append b.ring b.size ((start + 1) % b.size) x q (omega (arith, s.read_in)) h.2
          (ap (λ i. get_or b.ring i 0) (step-add b.size start (length q) ∙ write_from_read s) ∙ e),
    )
ReaderOk-publish [] x p (taking slot) s e h = absurd h
ReaderOk-publish [] x p (clearing slot z) s e h = absurd h
ReaderOk-publish [] x p (releasing slot z) s e h = absurd h

-- The oldest slot is not the one that the writer fills.
slot-ne-write_pos :
    {b : RBuffer} {y : ℕ} {q : List ℕ} → Shape b (y ∷ q) → (b.read_pos + 1) % b.size ≢ b.write_pos
slot-ne-write_pos {b} {y} {q} s e =
    add-mod-ne b.size ((b.read_pos + 1) % b.size) (length (y ∷ q)) (omega (arith, s.read_in))
      (omega arith) s.room (write_from_read s ∙ sym e)

pub WriterOk-clear :
    {b : RBuffer} (y : ℕ) (q : List ℕ) (w : Writer)
    → Shape b (y ∷ q)
    → WriterOk b (y ∷ q) w
    → WriterOk (record b { ring = set b.ring ((b.read_pos + 1) % b.size) 0 }) (y ∷ q) w
WriterOk-clear y q asking s h = tt
WriterOk-clear y q (filling x) s h = h
WriterOk-clear {b} y q (publishing x) s h =
    (h.0, get_or-set_ne b.ring _ b.write_pos 0 0 (slot-ne-write_pos s) ∙ h.1)

pub WriterOk-release :
    (b : RBuffer) (y p : ℕ) (q : List ℕ) (w : Writer)
    → WriterOk b (y ∷ q) w
    → WriterOk (record b { read_pos = p }) q w
WriterOk-release b y p q asking h = tt
WriterOk-release b y p q (filling x) h = omega arith
WriterOk-release b y p q (publishing x) h = (omega arith, h.1)
