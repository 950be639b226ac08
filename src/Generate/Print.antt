-- ===== src/Generate/Print.antt =====
-- A line of a .replay file as it is written: `Gioop_write` of ioriot/src/generate/gioop.h.
use ioriot.Prelude.{ℕ, List, [], ◌∷◌, ◌++◌}
use ioriot.Text.{Bytes, bytes}
use ioriot.Text.Numbers.{show_nat, show_long}
use ioriot.Generate.Task.{Line, Field, number, text}

abbrev pub show_field : Field → Bytes
show_field (number n) = show_long n
show_field (text s) = s

-- The fields of a call, its name and the number of the line of the capture at their end
unfoldable pub show_fields : List Field → Bytes → ℕ → List Bytes
show_fields [] name lineno = (name ++ (b'@' ∷ show_nat lineno)) ∷ []
show_fields (field ∷ fields) name lineno = show_field field ∷ show_fields fields name lineno

-- Each with a bar behind it
abbrev pub barred : List Bytes → Bytes
barred [] = b'\n' ∷ []
barred (word ∷ words) = word ++ (b'|' ∷ barred words)

-- What stands behind the time, the virtual size and the process
unfoldable pub call_words : Line → Bytes → List Bytes
call_words l name = bytes "0" ∷ bytes "0" ∷ show_nat l.opcode ∷ show_fields l.fields name l.lineno

unfoldable pub print_line : Line → Bytes → Bytes
print_line l name =
    barred (show_long l.time ∷ show_nat l.vsize_id ∷ show_nat l.mapped_pid ∷ call_words l name)
