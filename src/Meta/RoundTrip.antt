-- ===== src/Meta/RoundTrip.antt =====
-- The header of a .replay file, as the generator writes it (ioriot/src/generate/generate.c) and as
-- the replayer and the initialiser read it (replay.c, init.c).
use ioriot.Prelude.{
  ℕ, ◌-◌, ◌≤◌, ◌≡◌, refl, ap, sym, ◌∙◌, [], ◌∷◌, ◌++◌, true, length, arith, length-append, pos, ok,
}
use mathlib.Core.List.{append_assoc}
use ioriot.Text.{Bytes, drop}
use ioriot.Text.Laws.{lacks, drop-append}
use ioriot.Text.Numbers.Laws.{show_long-lacks_newline}
use ioriot.Generate.Header.{Totals, write_header, before_init, replay_file}
use ioriot.Replay.Header.{Header, replay_extract_header}
use ioriot.Init.Header.{InitHeader, init_extract_header}
use ioriot.Meta.{replicate, meta_read_start, max_meta_len}
use ioriot.Meta.Settings.{
  joined-lacks, drop-overwritten, length-before_init, settings, left_over, behind,
  write_header-joined, lacks-append, meta_read_start-line, lacks-replicate, replay_file-lines,
}
use ioriot.Meta.Reading.{read_replay_header, read_init_header, IsHeader}

header_lacks : (n : ℕ) (t : Totals) → IsHeader n t → lacks b'\n' (write_header n t) ≡ true
header_lacks n t h = rw (write_header-joined n t) (
    joined-lacks (settings n t) (
      refl,
      show_long-lacks_newline _,
      (
        refl,
        show_long-lacks_newline _,
        (
          refl,
          h.user_line,
          (
            refl,
            h.name_line,
            (
              refl,
              show_long-lacks_newline _,
              (
                refl,
                show_long-lacks_newline _,
                (refl, show_long-lacks_newline _, (refl, show_long-lacks_newline _, tt)),
              ),
            ),
          ),
        ),
      ),
    ))

first_line :
    (beyond lines init_lines : Bytes) (t : Totals) (n : ℕ)
    → n ≡ length (before_init beyond lines)
    → IsHeader n t
    → lacks b'\n' beyond ≡ true
    → (rest : Bytes) × (meta_read_start (replay_file beyond lines init_lines t)
        ≡ write_header n t ++ rest)
first_line beyond lines init_lines t n e h b =
    let header : Bytes = write_header n t in
    let left : Bytes = left_over (length header) beyond in
    (
      left ++ b'\n' ∷ [],
      ap meta_read_start (
            replay_file-lines beyond lines init_lines t n e h.fits
            ∙ sym (append_assoc header left (b'\n' ∷ behind lines init_lines)))
          ∙ meta_read_start-line (header ++ left) (behind lines init_lines) (
              lacks-append b'\n' header left (header_lacks n t h) (
                lacks-append b'\n' (replicate (max_meta_len - 1 - length header) b'#') beyond
                  (lacks-replicate (max_meta_len - 1 - length header)) b))
          ∙ append_assoc header left (b'\n' ∷ []),
    )

-- The INIT section stands at the offset that the header gives.
drop-replay_file :
    (beyond lines init_lines : Bytes) (t : Totals) (n : ℕ)
    → n ≡ length (before_init beyond lines)
    → IsHeader n t
    → drop n (replay_file beyond lines init_lines t) ≡ init_lines
unfolding replay_file
drop-replay_file beyond lines init_lines t n e h =
    let B : Bytes = before_init beyond lines in
    let fits : length (write_header n t) ≤ n =
      omega (arith, e, h.fits, length-before_init beyond lines) in
    rw (sym e) (
      drop-overwritten n (write_header n t) (B ++ init_lines) fits
        (omega (arith, e, fits, length-append B init_lines))
      ∙ ap (λ (m : ℕ). drop m (B ++ init_lines)) e
      ∙ drop-append B init_lines)

-- The replayer and the initialiser find in the first line of a .replay file what the generator knew
-- when it wrote it, whatever they had before, and the INIT section of the file, and nothing but it,
-- stands behind the offset that the initialiser finds: where the header fits into the reserve, user
-- and name hold neither a bar nor a newline, the numbers fit a `long`, not more lines were filtered
-- than read, and no newline stands behind the buffer of the reserve.
pub extract_header-replay_file :
    (beyond lines init_lines : Bytes) (t : Totals) (n : ℕ) (old : Header) (old_init : InitHeader)
    → n ≡ length (before_init beyond lines)
    → IsHeader n t
    → lacks b'\n' beyond ≡ true
    → (replay_extract_header old (replay_file beyond lines init_lines t)
        ≡ ok (record {
          user = t.user;
          name = t.name;
          num_vsizes = pos t.num_vsizes;
          num_pids = pos t.num_mapped_pids;
          num_fds = pos t.num_mapped_fds;
          num_lines = pos (t.lineno - t.num_lines_filtered);
        }))
      × (init_extract_header old_init (replay_file beyond lines init_lines t)
          ≡ ok (record { user = t.user; name = t.name; init_offset = pos n }))
      × (drop n (replay_file beyond lines init_lines t) ≡ init_lines)
extract_header-replay_file beyond lines init_lines t n old old_init e h b =
    let (rest, line) = first_line beyond lines init_lines t n e h b in
    (
      read_replay_header n t h rest _ old line,
      read_init_header n t h rest _ old_init line,
      drop-replay_file beyond lines init_lines t n e h,
    )
