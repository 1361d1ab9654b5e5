-- ===== src/Buyer/Text.antt =====
-- buyer/app/_utils.py: a text on one line, cut to a limit. `split` takes a newline for a space, so the
-- `replace` before it changes nothing.
use Prim.Native.String.{count}
use codex_browser.Prelude.{
  ℕ, ◌-◌, String, if◌then◌else◌, leb, concat, words_from, join_with, take_chars, drop_chars,
}

abbrev compact : String → String
compact text = join_with " " (words_from "" text)

unfoldable pub tail_text : String → ℕ → String
tail_text text limit =
    if leb (count (compact text)) limit
    then compact text
    else drop_chars (count (compact text) - limit) (compact text)

unfoldable pub head_text : String → ℕ → String
head_text text limit =
    if leb (count (compact text)) limit
    then compact text
    else concat (take_chars limit (compact text)) "..."
