-- ===== src/Datas/Stack/Laws.antt =====
-- What the operations of the stack do to its elements and its size.
use ioriot.Prelude.{
  suc, ◌+◌, ◌∙◌, ap, refl, ◌<◌, ℕ, ◌-◌, ◌%◌, ◌≡◌, List, [], ◌∷◌, length, some, arith,
}
use mathlib.Core.List.{reverse, reverse_aux}
use ioriot.Datas.Stack.{
  Stack, ulong_mod, new, push, pop, pop_from, is_empty, move, new_reverse_from,
}

-- The size is the number of elements, which fits an `unsigned long`.
pub record IsCounted (s : Stack) : Type 0 where
  pub counted : s.size ≡ length s.top
  pub fits : length s.top < ulong_mod

-- `stack_pop` after `stack_push` returns the item and leaves the stack as it was.
pub pop-push : (s : Stack) (item : ℕ) → IsCounted s → pop (push s item) ≡ (item, s)
unfolding pop push
pop-push s item h = ground (arith, h.counted, h.fits)

-- `stack_push` keeps the size right while there is room for one more.
pub push-IsCounted :
    (s : Stack) (item : ℕ) → IsCounted s → length s.top + 1 < ulong_mod → IsCounted (push s item)
unfolding push
push-IsCounted s item h room = record { counted = omega (arith, h.counted); fits = omega arith }

pop_from-IsCounted : (l : List ℕ) (s : Stack) → s.top ≡ l → IsCounted s → IsCounted (pop_from l s).1
unfolding pop_from
pop_from-IsCounted [] s e h = h
pop_from-IsCounted (item ∷ next) s e h =
    let n = ap length e in
    record { counted = omega (arith, h.counted, h.fits, n); fits = omega (arith, h.fits, n) }

-- `stack_pop` keeps the size right, on an empty stack as well.
pub pop-IsCounted : (s : Stack) → IsCounted s → IsCounted (pop s).1
unfolding pop
pop-IsCounted s h = pop_from-IsCounted s.top s refl h

move_lem :
    (l : List ℕ) (n : ℕ) (r : Stack)
    → IsCounted r
    → length l + length r.top < ulong_mod
    → (t : Stack) × (move (suc (length l)) (record { top = l; size = n }) r ≡ some t)
      × (t.top ≡ reverse_aux l r.top)
      × IsCounted t
unfolding move is_empty pop
move_lem [] n r h room = (r, refl, refl, h)
move_lem (item ∷ l) n r h room =
    let (t, run, elems, counted) =
      move_lem l ((n + ulong_mod - 1) % ulong_mod) (push r item)
        (push-IsCounted r item h (omega arith)) (unfold push in omega arith) in
    (t, run, elems ∙ unfold push in refl, counted)

-- `stack_new_reverse_from` ends, and its result has the elements in reverse order and the right
-- size.
pub new_reverse_from_lem :
    (s : Stack)
    → IsCounted s
    → (t : Stack) × (new_reverse_from s ≡ some t) × (t.top ≡ reverse s.top) × IsCounted t
unfolding new_reverse_from
new_reverse_from_lem s h =
    let (t, run, elems, counted) =
      move_lem s.top s.size new (unfold new in record { counted = refl; fits = omega arith })
        (unfold new in omega (arith, h.fits)) in
    (t, ap (λ n. move n s new) (omega arith) ∙ run, elems ∙ unfold new in refl, counted)
