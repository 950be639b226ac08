-- ===== src/Tests/RBuffer.antt =====
-- The ring buffer and the stack at small inputs.
use ioriot.Prelude.{ℕ, ◌≡◌, refl, List, [], ◌∷◌, ◌++◌, arith, some}
use mathlib.Core.List.{reverse}
use ioriot.Datas.RBuffer
use ioriot.Datas.RBuffer.{RBuffer}
use ioriot.Datas.RBuffer.Inv.{Holds}
use ioriot.Datas.RBuffer.Refine.{enqueue, dequeue, insert_refines, get_next_refines}
use ioriot.Datas.RBuffer.Threads.{System, Actor, the_writer, the_reader, start, run, step}
use ioriot.Datas.RBuffer.Threads.Fifo.{run-start_prefix, run-start_complete}
use ioriot.Datas.Stack
use ioriot.Datas.Stack.{Stack}
use ioriot.Datas.Stack.Laws.{IsCounted, new_reverse_from_lem}

-- A buffer of three slots that holds 8, then 9, round the end of its array
abbrev wrapped : RBuffer
wrapped = record { read_pos = 1; write_pos = 1; ring = 9 ∷ 0 ∷ 8 ∷ []; size = 3 }

wrapped-Holds : Holds wrapped (8 ∷ 9 ∷ [])
wrapped-Holds = omega arith

insert_refines_example :
    ((RBuffer.insert wrapped 5).0 ≡ (enqueue 2 (8 ∷ 9 ∷ []) 5).0)
    × Holds (RBuffer.insert wrapped 5).1 (enqueue 2 (8 ∷ 9 ∷ []) 5).1
    × ((RBuffer.insert wrapped 5).1.size ≡ 3)
insert_refines_example = insert_refines 5 wrapped-Holds

get_next_refines_example :
    ((RBuffer.get_next wrapped).0 ≡ (dequeue (8 ∷ 9 ∷ [])).0)
    × Holds (RBuffer.get_next wrapped).1 (dequeue (8 ∷ 9 ∷ [])).1
    × ((RBuffer.get_next wrapped).1.size ≡ 3)
get_next_refines_example = get_next_refines wrapped-Holds

-- One full turn of the writer and of the reader
abbrev turn : List Actor
turn = the_writer ∷ the_writer ∷ the_writer ∷ the_reader ∷ the_reader ∷ the_reader ∷ the_reader ∷ []

-- The writer runs into the full buffer twice.
abbrev schedule : List Actor
schedule = the_writer ∷ the_writer ∷ the_writer ∷ the_writer ∷ turn ++ (turn ++ turn)

abbrev two_slots : System
two_slots = start (RBuffer.new 2) (7 ∷ 8 ∷ [])

received_in_order : (run schedule two_slots).received ≡ 7 ∷ 8 ∷ []
unfolding run step start RBuffer.new
received_in_order = refl

run-start_prefix_example :
    (rest : List ℕ) × ((run schedule two_slots).received ++ rest ≡ 7 ∷ 8 ∷ [])
run-start_prefix_example = run-start_prefix 2 (7 ∷ 8 ∷ []) schedule (omega arith)

run-start_complete_example : (run schedule two_slots).received ≡ 7 ∷ 8 ∷ []
unfolding run step start RBuffer.new RBuffer.has_next
run-start_complete_example =
    run-start_complete 2 (7 ∷ 8 ∷ []) schedule (omega arith) refl refl refl refl

abbrev three : Stack
three = record { top = 3 ∷ 2 ∷ 1 ∷ []; size = 3 }

new_reverse_from_lem_example :
    (t : Stack) × (Stack.new_reverse_from three ≡ some t)
    × (t.top ≡ reverse (3 ∷ 2 ∷ 1 ∷ []))
    × IsCounted t
new_reverse_from_lem_example = new_reverse_from_lem three (omega arith)
