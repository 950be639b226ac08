-- ===== src/Datas/RBuffer/Threads/Fifo.antt =====
-- What the reader thread of a shared ring buffer receives, under any interleaving.
use ioriot.Prelude.{
  ℕ, ◌+◌, ◌-◌, ◌%◌, ◌<◌, ◌≡◌, refl, ap, sym, subst, ◌∙◌, List, [], ◌∷◌, ◌++◌, arith, length, false,
  ltb, inl, inr, Bool-cases, get_or, get_or-set_self,
}
use mathlib.Core.List.{append_assoc, append-nil}
use ioriot.Datas.RBuffer.Inv.{write_in}
use ioriot.Datas.RBuffer.Steps.{
  Shape-publish, Shape-set, Shape-release, Cells-clear, full_test, empty_test, new-Holds,
}
use ioriot.Datas.RBuffer.{RBuffer, new, has_next}
use ioriot.Datas.RBuffer.Refine.{has_next_lem}
use ioriot.Datas.RBuffer.Threads.{
  Writer, asking, filling, publishing, Reader, looking, taking, clearing, releasing, System, ask,
  write, read, Actor, the_writer, the_reader, step, run, start,
}
use ioriot.Datas.RBuffer.Threads.Inv.{
  Inv, Holds, ReaderOk-fill, ReaderOk-publish, WriterOk-clear, WriterOk-release,
}

module _ {items : List ℕ} {b : RBuffer} {r : Reader} {received : List ℕ} where
  ask-Holds :
      (todo q : List ℕ) (v : Inv items b asking r todo received q)
      → let s : System = record {
        buffer = b;
        writer = asking;
        reader = r;
        todo = todo;
        received = received;
      } in
        Holds items (ask s todo) q
  unfolding ask
  ask-Holds [] q v = v
  ask-Holds (x ∷ todo) q v = elim (Bool-cases (ltb (length q) (b.size - 1))) [
    | inr full ↦ rw (full_test v.shape, full) v
    | inl free ↦
        rw (full_test v.shape, free)
          (record { order = v.order; shape = v.shape; writing = ground arith; reading = v.reading })
  ]

  write-Holds :
      (w : Writer) (todo q : List ℕ)
      → Inv items b w r todo received q
      → let s : System = record {
        buffer = b;
        writer = w;
        reader = r;
        todo = todo;
        received = received;
      } in
        (q' : List ℕ) × Holds items (write s w) q'
  unfolding write
  write-Holds asking todo q v = (q, ask-Holds todo q v)
  write-Holds (filling x) todo q v = (
    q,
    record {
      order = v.order;
      shape = Shape-set b.write_pos x v.shape;
      writing = (
        v.writing,
        get_or-set_self b.ring b.write_pos x 0 (omega (arith, write_in v.shape, v.shape.allocated)),
      );
      reading = ReaderOk-fill q x r v.shape v.reading;
    },
  )
  write-Holds (publishing x) todo q v = (
    q ++ x ∷ [],
    record {
      order = ap (λ l. received ++ l) (append_assoc q (x ∷ []) todo) ∙ v.order;
      shape = Shape-publish x v.shape v.writing.0;
      writing = tt;
      reading = ReaderOk-publish q x ((b.write_pos + 1) % b.size) r v.shape v.writing.1 v.reading;
    },
  )

module _ {items : List ℕ} {b : RBuffer} {w : Writer} {todo received : List ℕ} where
  read-Holds :
      (r : Reader) (q : List ℕ)
      → Inv items b w r todo received q
      → let s : System = record {
        buffer = b;
        writer = w;
        reader = r;
        todo = todo;
        received = received;
      } in
        (q' : List ℕ) × Holds items (read s r) q'
  unfolding read
  read-Holds looking [] v = ([], rw (empty_test v.shape) v)
  read-Holds looking (y ∷ q) v = (
    y ∷ q,
    rw (empty_test v.shape) (record {
      order = v.order;
      shape = v.shape;
      writing = v.writing;
      reading = (refl, v.reading);
    }),
  )
  read-Holds (taking slot) [] v = absurd v.reading
  read-Holds (taking slot) (y ∷ q) v = (
    y ∷ q,
    record {
      order = v.order;
      shape = v.shape;
      writing = v.writing;
      reading = (v.reading.0, ap (λ i. get_or b.ring i 0) v.reading.0 ∙ v.reading.1.0, v.reading.1);
    },
  )
  read-Holds (clearing slot x) [] v = absurd v.reading
  read-Holds (clearing slot x) (y ∷ q) v = (
    y ∷ q,
    rw v.reading.0 (record {
      order = v.order;
      shape = Shape-set ((b.read_pos + 1) % b.size) 0 v.shape;
      writing = WriterOk-clear y q w v.shape v.writing;
      reading = (refl, v.reading.1, Cells-clear v.shape v.reading.2);
    }),
  )
  read-Holds (releasing slot x) [] v = absurd v.reading
  read-Holds (releasing slot x) (y ∷ q) v = (
    q,
    rw (v.reading.0, v.reading.1)
        (record {
          order = append_assoc received (y ∷ []) _ ∙ v.order;
          shape = Shape-release v.shape;
          writing = WriterOk-release b y ((b.read_pos + 1) % b.size) q w v.writing;
          reading = v.reading.2;
        }),
  )

step-Holds :
    (a : Actor) {items : List ℕ} (s : System) (q : List ℕ)
    → Holds items s q
    → (q' : List ℕ) × Holds items (step a s) q'
unfolding step
step-Holds the_writer s q v = write-Holds s.writer s.todo q v
step-Holds the_reader s q v = read-Holds s.reader q v

run-Holds :
    (schedule : List Actor) {items : List ℕ} (s : System) (q : List ℕ)
    → Holds items s q
    → (q' : List ℕ) × Holds items (run schedule s) q'
unfolding run
run-Holds [] s q v = (q, v)
run-Holds (a ∷ schedule) s q v =
    let (q', v') = step-Holds a s q v in run-Holds schedule (step a s) q' v'

start-Holds : (size : ℕ) (items : List ℕ) → 0 < size → Holds items (start (new size) items) []
unfolding start
start-Holds size items pos =
    let h = new-Holds size pos in
    record { order = refl; shape = h.shape; writing = tt; reading = h.cells }

-- A system at rest has handed everything over.
received-eq-items :
    {items : List ℕ} {b : RBuffer} {received : List ℕ} (q : List ℕ)
    → Inv items b asking looking [] received q
    → has_next b ≡ false
    → received ≡ items
received-eq-items {received = received} [] v e = sym (append-nil received) ∙ v.order
received-eq-items (x ∷ q) v e =
    cc (sym (has_next_lem (record { shape = v.shape; cells = v.reading })) ∙ e)

module _ (size : ℕ) (items : List ℕ) (schedule : List Actor) (pos : 0 < size) where
  abbrev final : System
  final = run schedule (start (new size) items)

  final-Holds : (q : List ℕ) × Holds items final q
  final-Holds = run-Holds schedule (start (new size) items) [] (start-Holds size items pos)

  -- Whatever the interleaving, what the reader has received is a prefix of the items that the
  -- writer hands over: none is lost, repeated, or overtaken.
  pub run-start_prefix :
      (rest : List ℕ) × ((run schedule (start (new size) items)).received ++ rest ≡ items)
  run-start_prefix = let (q, v) = final-Holds in (_, v.order)

  -- Once the writer has nothing left to hand over and the reader finds nothing more, the reader has
  -- received exactly the items.
  pub run-start_complete :
      (run schedule (start (new size) items)).todo ≡ []
      → (run schedule (start (new size) items)).writer ≡ asking
      → (run schedule (start (new size) items)).reader ≡ looking
      → has_next (run schedule (start (new size) items)).buffer ≡ false
      → (run schedule (start (new size) items)).received ≡ items
  run-start_complete no_more idle rest none_held =
      let (q, v) = final-Holds in
      let v1 =
        subst (λ t. Inv items final.buffer final.writer final.reader t final.received q) no_more
          v in
      let v2 = subst (λ w. Inv items final.buffer w final.reader [] final.received q) idle v1 in
      let v3 = subst (λ r. Inv items final.buffer asking r [] final.received q) rest v2 in
      received-eq-items q v3 none_held
