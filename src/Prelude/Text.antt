-- ===== src/Prelude/Text.antt =====
-- The operations of Python's `str` that the program uses, over the native strings.
use Prim.Native.Nat.{ℕ, zero, suc, ◌/◌, ◌%◌}
use Prim.Native.Char.{code}
use Prim.Native.String.{String, ◌++◌}
use mathlib.Core.Path.{◌≡◌, refl}
use mathlib.Core.Bool.{Bool, true, false, ◌&&◌, ◌||◌}
use mathlib.Core.List.{List, [], ◌∷◌}
use text.Mathlib.Text.{◌==◌, starts_with}
use codex_browser.Prelude.Tests.{leb, ltb, nat_eq, if◌then◌else◌}

-- `not s`
abbrev pub is_empty : String → Bool
is_empty String.[] = true
is_empty (String.◌∷◌ c s) = false

-- `s in {…}`
abbrev pub one_of : String → List String → Bool
one_of s [] = false
one_of s (t ∷ ts) = (t == s) || one_of s ts

-- `str.isspace` of one character.
abbrev pub is_space : ℕ → Bool
is_space c =
    (leb 9 c && leb c 13)
    || (leb 28 c && leb c 32)
    || nat_eq c 133
    || nat_eq c 160
    || nat_eq c 5760
    || (leb 8192 c && leb c 8202)
    || nat_eq c 8232
    || nat_eq c 8233
    || nat_eq c 8239
    || nat_eq c 8287
    || nat_eq c 12288

lstrip : String → String
lstrip String.[] = ""
lstrip (String.◌∷◌ c s) = let rest = lstrip s in if is_space (code c) then rest else String.◌∷◌ c s

-- Cut off the characters at the end that pass the test.
unfoldable pub rstrip_by : (ℕ → Bool) → String → String
rstrip_by p String.[] = ""
rstrip_by p (String.◌∷◌ c s) =
    let rest = rstrip_by p s in if is_empty rest && p (code c) then "" else String.◌∷◌ c rest

-- `s.strip()`
unfoldable pub strip : String → String
unfolding lstrip rstrip_by
strip s = rstrip_by is_space (lstrip s)

-- `s.endswith(t)`
unfoldable pub ends_with : String → String → Bool
ends_with String.[] t = is_empty t
ends_with (String.◌∷◌ c s) t = (String.◌∷◌ c s == t) || ends_with s t

-- `s + t`, also in f-strings.
abbrev pub concat : String → String → String
concat s t = s ++ t

-- `s[n:]`
unfoldable pub drop_chars : ℕ → String → String
drop_chars zero s = s
drop_chars (suc n) String.[] = ""
drop_chars (suc n) (String.◌∷◌ c s) = drop_chars n s

-- `all(p(char) for char in s)`
unfoldable pub all_chars : (ℕ → Bool) → String → Bool
all_chars p String.[] = true
all_chars p (String.◌∷◌ c s) = p (code c) && all_chars p s

-- `part in s`
unfoldable pub contains : String → String → Bool
contains String.[] part = is_empty part
contains (String.◌∷◌ c s) part = starts_with (String.◌∷◌ c s) part || contains s part

-- `s[:n]`
unfoldable pub take_chars : ℕ → String → String
take_chars zero s = ""
take_chars (suc n) String.[] = ""
take_chars (suc n) (String.◌∷◌ c s) = String.◌∷◌ c (take_chars n s)

-- The characters that pass the test.
unfoldable pub keep_chars : (ℕ → Bool) → String → String
keep_chars p String.[] = ""
keep_chars p (String.◌∷◌ c s) =
    let rest = keep_chars p s in if p (code c) then String.◌∷◌ c rest else rest

-- A word that has been read, unless it is empty.
abbrev pub push_word : String → List String → List String
push_word String.[] rest = rest
push_word (String.◌∷◌ c w) rest = String.◌∷◌ c w ∷ rest

-- `s.split()`, with the part of a word that has been read.
unfoldable pub words_from : String → String → List String
words_from word String.[] = push_word word []
words_from word (String.◌∷◌ c s) =
    let ended = push_word word (words_from "" s) in
    let more = words_from (word ++ String.◌∷◌ c "") s in if is_space (code c) then ended else more

-- `sep.join(parts)`
unfoldable pub join_with : String → List String → String
join_with sep [] = ""
join_with sep (x ∷ []) = x
join_with sep (x ∷ y ∷ rest) = x ++ (sep ++ join_with sep (y ∷ rest))

-- `str(n)`: the digits of `n` before those of `after`; the fuel `suc n` is above the number of digits.
unfoldable pub digits_onto : ℕ → ℕ → String → String
unfolding take_chars drop_chars
digits_onto zero n after = after
digits_onto (suc fuel) n after =
    let digit = take_chars 1 (drop_chars (n % 10) "0123456789") ++ after in
    let more = digits_onto fuel (n / 10) digit in if ltb n 10 then digit else more

unfoldable pub show_nat : ℕ → String
unfolding digits_onto
show_nat n = digits_onto (suc n) n ""

show_nat_example : show_nat 1070 ≡ "1070"
unfolding show_nat
show_nat_example = refl

words_example : words_from "" "  a bc\n d " ≡ "a" ∷ "bc" ∷ "d" ∷ []
unfolding words_from
words_example = refl

strip_example : strip "  a b\n" ≡ "a b"
unfolding strip
strip_example = refl

ends_with_example : ends_with "shop.litres.ru" ".litres.ru" ≡ true
unfolding ends_with
ends_with_example = refl
