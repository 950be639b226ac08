-- ===== src/Datas/RBuffer.antt =====
-- The ring buffer of ioriot/src/datas/rbuffer.c, without its printing. A `void *` is its address,
-- 0 for NULL. A function that updates `*r` returns the new buffer.
pub mod Cells
pub mod Inv
pub mod Steps
pub mod Refine
pub mod Threads
use ioriot.Prelude.{
  ℕ, ◌+◌, ◌-◌, ◌%◌, List, Bool, true, false, ◌==◌, if◌then◌else◌, get_or, set, replicate,
}

-- `rbuffer_s`
pub record RBuffer : Type 0 where
  pub read_pos : ℕ
  pub write_pos : ℕ
  pub ring : List ℕ
  pub size : ℕ

-- `rbuffer_new`, whose `size` is positive in every call
unfoldable pub new : ℕ → RBuffer
new size = record { read_pos = size - 1; write_pos = 0; ring = replicate size 0; size = size }

-- `rbuffer_insert`
unfoldable pub insert : RBuffer → ℕ → Bool × RBuffer
insert r item = if r.write_pos == r.read_pos then (false, r) else (
  true,
  record r { ring = set r.ring r.write_pos item; write_pos = (r.write_pos + 1) % r.size },
)

-- `rbuffer_has_next`
unfoldable pub has_next : RBuffer → Bool
has_next r = if ((r.read_pos + 1) % r.size) == r.write_pos then false else true

-- `rbuffer_get_next`
unfoldable pub get_next : RBuffer → ℕ × RBuffer
get_next r =
    let read_pos = (r.read_pos + 1) % r.size in
    if read_pos == r.write_pos
    then (0, r)
    else (get_or r.ring read_pos 0, record r { ring = set r.ring read_pos 0; read_pos = read_pos })
