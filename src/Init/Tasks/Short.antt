-- ===== src/Init/Tasks/Short.antt =====
-- The files that `ithread_run_task` of ioriot/src/init/ithread.c leaves, by the writing functions
-- of ioriot/src/utils/futils.c.
use ioriot.Prelude.{
  ℕ, zero, suc, ◌+◌, ◌-◌, ◌/◌, ◌≤◌, ◌<◌, ◌≡◌, refl, ap, ◌∙◌, Bool, true, false, ◌==◌, ltb,
  if◌then◌else◌, some, arith, inl, inr, Bool-cases, ℤ, pos, Outcome, ok, ◌>>=◌,
}
use ioriot.Futils.{
  fill_with_stuff, cut, FileSystem, regular, max_chunk, random_bytes, ensure_file_exists,
  write_random_to_file, append_random_to_file,
}
use ioriot.Init.Lines.{ITask}
use ioriot.Init.Tasks.{counted, fill_file, ithread_run_task}
use ioriot.Text.{Bytes}

-- How many of so many bytes are not printed: one for each whole chunk, or one where there is none
abbrev pub missing_bytes : ℕ → ℕ
missing_bytes bytes = if ltb bytes 50000000 then 1 else bytes / 50000000

-- Once a whole chunk stands in the buffer, a shorter one is printed whole.
rest_bytes :
    (rounds bytes : ℕ)
    → 0 < bytes
    → bytes ≤ rounds
    → (n : ℕ) × (random_bytes rounds 49999999 bytes ≡ ok n) × (n + bytes / 50000000 ≡ bytes)
unfolding random_bytes max_chunk ◌>>=◌
rest_bytes zero bytes h k = absurd (omega (arith, h, k))
rest_bytes (suc rounds) bytes h k = elim (Bool-cases (ltb 50000000 bytes)) [
  | inl e ↦
      let more : 50000000 < bytes = ground (arith, e) in
      let (n, p, q) =
        rest_bytes rounds (bytes - 50000000) (omega (arith, more)) (omega (arith, k)) in
      (49999999 + n, rw (e, p) refl, omega (arith, q, more))
  | inr e ↦
      let few : bytes ≤ 50000000 = ground (arith, e) in
      let some_byte : (bytes == 0) ≡ false = ground (arith, h) in
      (cut (fill_with_stuff 49999999 bytes) bytes, rw (e, some_byte) refl, ground (arith, few, h))
]

random_bytes_lem :
    (bytes : ℕ)
    → 0 < bytes
    → (n : ℕ) × (random_bytes bytes 0 bytes ≡ ok n) × (n + missing_bytes bytes ≡ bytes)
unfolding random_bytes max_chunk ◌>>=◌
random_bytes_lem zero h = absurd (omega (arith, h))
random_bytes_lem (suc b) h = elim (Bool-cases (ltb 50000000 (suc b))) [
  | inl e ↦
      let more : 50000000 < suc b = ground (arith, e) in
      let (n, p, q) = rest_bytes b (suc b - 50000000) (omega (arith, more)) (omega arith) in
      (49999999 + n, rw (e, p) refl, ground (arith, q, more))
  | inr e ↦
      let few : suc b ≤ 50000000 = ground (arith, e) in
      let some_byte : (suc b == 0) ≡ false = ground arith in
      (cut (fill_with_stuff 0 (suc b)) (suc b), rw (e, some_byte) refl, ground (arith, few))
]

-- A file system in which regular files can be written, by the lengths of the files: a file that is
-- opened anew is as long as what is written into it, and nothing is written at an offset where
-- there are no bytes.
pub record HasSizes {S : Type 0} (sys : FileSystem S) : Type 0 where
  pub size : S → Bytes → ℕ
  pub overwritten :
      (s : S) (path : Bytes) (offset n : ℕ)
      → (after : S) × (sys.overwrite s path offset n ≡ some after)
        × (size after path ≡ (if n == 0 then 0 else offset + n))
  pub appended :
      (s : S) (path : Bytes) (n : ℕ)
      → (after : S) × (sys.append s path n ≡ some after) × (size after path ≡ size s path + n)

third {ℓ} :
    {A : Type ℓ} (a b c : Bool) (x y z w : A)
    → a ≡ false
    → b ≡ false
    → c ≡ true
    → (if a then x else if b then y else if c then z else w) ≡ z
third a b c x y z w p q r = rw (p, q, r) refl

module _ {S : Type 0} (sys : FileSystem S) (k : HasSizes sys) where
  overwrite_size :
      (s : S) (path : Bytes) (offset bytes : ℕ)
      → 0 < bytes
      → (after : S) × (write_random_to_file sys s path bytes offset ≡ ok after)
        × (k.size after path < offset + bytes)
  unfolding write_random_to_file ◌>>=◌
  overwrite_size s path offset bytes h =
      let (n, p, q) = random_bytes_lem bytes h in
      let (after, e, f) = k.overwritten s path offset n in
      (after, rw p (rw e refl), ground (arith, f, q, h))

  append_size :
      (s : S) (path : Bytes) (bytes : ℕ)
      → 0 < bytes
      → (after : S) × (append_random_to_file sys s path bytes ≡ ok after)
        × (k.size after path + missing_bytes bytes ≡ k.size s path + bytes)
  unfolding append_random_to_file ◌>>=◌
  append_size s path bytes h =
      let (n, p, q) = random_bytes_lem bytes h in
      let (after, e, f) = k.appended s path n in (after, rw p (rw e refl), omega (arith, f, q))

  ensured :
      (s : S) (path : Bytes)
      → sys.stat s path ≡ regular
      → ensure_file_exists sys s path ≡ ok (true, 0, s)
  unfolding ensure_file_exists
  ensured s path r = rw r refl

  run_file :
      (s : S) (task : ITask) (offset size : ℤ)
      → task.is_dir ≡ false
      → task.is_link ≡ false
      → task.is_file ≡ true
      → task.offset ≡ offset
      → task.bytes ≡ size
      → sys.stat s task.path ≡ regular
      → ithread_run_task sys s task ≡ fill_file sys task.path offset size (true, 0, s)
  unfolding ithread_run_task ◌>>=◌
  run_file s task offset size d l f o b r =
      third task.is_dir task.is_link task.is_file _ _ _ _ d l f
      ∙ ap (λ (m : Outcome (Bool × ℕ × S)). m >>= fill_file sys task.path task.offset task.bytes)
          (ensured s task.path r)
      ∙ ap (λ (z : ℤ). fill_file sys task.path z task.bytes (true, 0, s)) o
      ∙ ap (λ (z : ℤ). fill_file sys task.path offset z (true, 0, s)) b

  -- In a file system in which files can be written, a task with data for a regular file that is
  -- there counts one file and all its bytes as created. Where the data stand at an offset, the file
  -- ends in front of their end afterwards, however long it was before, and where they do not, it
  -- grows by their bytes less those that are not printed: one, or one for each whole chunk of
  -- 50000000 bytes where there is at least one.
  pub ithread_run_task_size :
      (s : S) (task : ITask) (offset bytes : ℕ)
      → task.is_dir ≡ false
      → task.is_link ≡ false
      → task.is_file ≡ true
      → task.offset ≡ pos offset
      → task.bytes ≡ pos (suc bytes)
      → sys.stat s task.path ≡ regular
      → (after : S) × (ithread_run_task sys s task ≡ ok (counted 0 1 (suc bytes), after))
        × (0 < offset → k.size after task.path < offset + suc bytes)
        × (offset ≡ 0
            → k.size after task.path + missing_bytes (suc bytes) ≡ k.size s task.path + suc bytes)
  unfolding ◌>>=◌
  ithread_run_task_size s task zero bytes d l f o b r =
      let (after, e, g) = append_size s task.path (suc bytes) (omega arith) in
      (
        after,
        run_file s task (pos zero) (pos (suc bytes)) d l f o b r ∙ rw e refl,
        λ h. absurd (omega (arith, h)),
        λ h. g,
      )
  ithread_run_task_size s task (suc offset) bytes d l f o b r =
      let (after, e, g) = overwrite_size s task.path (suc offset) (suc bytes) (omega arith) in
      (
        after,
        run_file s task (pos (suc offset)) (pos (suc bytes)) d l f o b r ∙ rw e refl,
        λ h. g,
        λ h. absurd (omega (arith, h)),
      )
