-- ===== src/Tests/Text.antt =====
-- The tokenizer at the lines of `utils_test` of ioriot/src/utils/utils.c.
use ioriot.Prelude.{◌≡◌, refl, [], ◌∷◌, ◌++◌}
use ioriot.Text.{find, bytes, chreplace, strunquote}
use ioriot.Text.Tokens.{all_tokens, tokens, strtok2}
use ioriot.Text.Tokens.Laws.{line, all_tokens-line}

-- "t=1;:,c=2\n"
line_run :
    all_tokens (bytes ";:,") (bytes "t=1;:,c=2" ++ b'\n' ∷ []) ≡ bytes "t=1" ∷ bytes "c=2" ∷ []
unfolding all_tokens tokens strtok2 find
line_run = refl

replaced_run : chreplace (bytes "a|b|") b'|' b'_' ≡ bytes "a_b_"
unfolding chreplace
replaced_run = refl

unquoted_run : strunquote (b'"' ∷ (bytes "/tmp/x" ++ b'"' ∷ [])) ≡ bytes "/tmp/x"
unfolding strunquote
unquoted_run = refl

-- No quote at the end: the last byte stands there twice.
half_unquoted_run : strunquote (b'"' ∷ bytes "/tmp/x") ≡ bytes "/tmp/xx"
unfolding strunquote
half_unquoted_run = refl

all_tokens-line_example :
    (all_tokens (bytes ";:,") (line (bytes ";:,") (bytes "t=1" ∷ []) (bytes "c=2" ++ b'\n' ∷ []))
      ≡ bytes "t=1" ∷ bytes "c=2" ∷ [])
    × (all_tokens (bytes ";:,") (line (bytes ";:,") (bytes "t=1" ∷ []) (b'\n' ∷ []))
        ≡ bytes "t=1" ∷ [])
all_tokens-line_example =
    all_tokens-line b';' (bytes ":,") refl (bytes "t=1" ∷ []) (bytes "c=2") (b'\n' ∷ [])
      (record { some_byte = refl; no_delim = refl; no_newline = refl; no_return = refl }, tt)
      (record { some_byte = refl; no_delim = refl; no_newline = refl; no_return = refl }) (refl, tt)
