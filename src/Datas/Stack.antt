-- ===== src/Datas/Stack.antt =====
-- The stack of ioriot/src/datas/stack.c. The chain of elements is the list of their data pointers,
-- the top first; a pointer is its address, 0 for NULL.
pub mod Laws
use ioriot.Prelude.{
  ℕ, zero, suc, ◌+◌, ◌-◌, ◌%◌, ◌^◌, List, [], ◌∷◌, Bool, true, false, is_nil, length, Option, some,
  none,
}

-- `stack_s`; `size` is an `unsigned long`.
pub record Stack : Type 0 where
  pub top : List ℕ
  pub size : ℕ

abbrev pub ulong_mod : ℕ
ulong_mod = 2 ^ 64

unfoldable pub new : Stack
new = record { top = []; size = 0 }

unfoldable pub push : Stack → ℕ → Stack
push s item = record { top = item ∷ s.top; size = (s.size + 1) % ulong_mod }

pop_from : List ℕ → Stack → ℕ × Stack
pop_from [] s = (0, s)
pop_from (item ∷ next) s =
    (item, record { top = next; size = (s.size + ulong_mod - 1) % ulong_mod })

unfoldable pub pop : Stack → ℕ × Stack
unfolding pop_from
pop s = pop_from s.top s

pub is_empty : Stack → Bool
is_empty s = is_nil s.top

-- The loop of `stack_new_reverse_from`; `none` if it has not ended within the given rounds.
pub move : ℕ → Stack → Stack → Option Stack
move zero s r = none
move (suc rounds) s r = elim (is_empty s) [
  | true ↦ some r
  | false ↦ let (item, s') = pop s in move rounds s' (push r item)
]

-- One round for each element, and one for the test that ends the loop.
unfoldable pub new_reverse_from : Stack → Option Stack
new_reverse_from s = move (length s.top + 1) s new
