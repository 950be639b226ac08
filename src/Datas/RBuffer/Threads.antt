-- ===== src/Datas/RBuffer/Threads.antt =====
-- One writer thread and one reader thread on a shared ring buffer of ioriot/src/datas/rbuffer.c, as
-- the parser and the writer thread of ioriot/src/generate use it. A step is one access to the
-- shared buffer: the test of the two positions, the access to a slot, or the store of a position.
-- The memory is that of x86_64: the stores of a thread are seen in their order.
pub mod Inv
pub mod Fifo
use ioriot.Prelude.{ℕ, ◌+◌, ◌%◌, List, [], ◌∷◌, ◌++◌, ◌==◌, if◌then◌else◌, get_or, set}
use ioriot.Datas.RBuffer.{RBuffer}

-- Where the writer stands in `rbuffer_insert`, called by `rbuffer_insert_wait`.
pub data Writer : Type 0 where
  asking : Writer
  filling : ℕ → Writer
  publishing : ℕ → Writer

-- Where the reader stands in `rbuffer_get_next`, with its local `read_pos` and `data`.
pub data Reader : Type 0 where
  looking : Reader
  taking : ℕ → Reader
  clearing : ℕ → ℕ → Reader
  releasing : ℕ → ℕ → Reader

pub record System : Type 0 where
  pub buffer : RBuffer
  pub writer : Writer
  pub reader : Reader
  -- the items for which the writer has still to call `rbuffer_insert_wait`
  pub todo : List ℕ
  -- what `rbuffer_get_next` has returned, but for NULL
  pub received : List ℕ

-- The writer between two calls, or asleep in `rbuffer_insert_wait` after a failed insertion
ask : System → List ℕ → System
ask s [] = s
ask s (x ∷ rest) =
    if s.buffer.write_pos == s.buffer.read_pos
    then s
    else record s { writer = filling x; todo = rest }

write : System → Writer → System
unfolding ask
write s asking = ask s s.todo
write s (filling x) =
    let b = s.buffer in
    record s { buffer = record b { ring = set b.ring b.write_pos x }; writer = publishing x }
write s (publishing x) =
    let b = s.buffer in
    record s { buffer = record b { write_pos = (b.write_pos + 1) % b.size }; writer = asking }

read : System → Reader → System
read s looking =
    let b = s.buffer in
    if ((b.read_pos + 1) % b.size) == b.write_pos
    then s
    else record s { reader = taking ((b.read_pos + 1) % b.size) }
read s (taking slot) = record s { reader = clearing slot (get_or s.buffer.ring slot 0) }
read s (clearing slot x) =
    let b = s.buffer in
    record s { buffer = record b { ring = set b.ring slot 0 }; reader = releasing slot x }
read s (releasing slot x) =
    let b = s.buffer in
    record s {
      buffer = record b { read_pos = slot };
      reader = looking;
      received = s.received ++ x ∷ [];
    }

pub data Actor : Type 0 where
  the_writer the_reader : Actor

unfoldable pub step : Actor → System → System
unfolding write read
step the_writer s = write s s.writer
step the_reader s = read s s.reader

-- Any interleaving of the two threads
unfoldable pub run : List Actor → System → System
run [] s = s
run (a ∷ schedule) s = run schedule (step a s)

-- A fresh buffer and a writer that has the items to hand over
unfoldable pub start : RBuffer → List ℕ → System
start b items = record {
  buffer = b;
  writer = asking;
  reader = looking;
  todo = items;
  received = [];
}
