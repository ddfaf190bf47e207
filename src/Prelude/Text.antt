-- ===== src/Prelude/Text.antt =====
-- Texts as lists of code points, for the code that walks them or searches in them.
use Prim.Native.Nat.{ℕ, zero, suc, ◌+◌, ◌-◌, ◌/◌, ◌%◌}
use Prim.Native.Char.{Char, code}
use Prim.Native.String.{String, ◌++◌}
use mathlib.Core.Bool.{Bool, true, false, ◌&&◌, ◌||◌}
use mathlib.Core.List.{List, [], ◌∷◌}
use text.Mathlib.Text.{◌==◌}
use text.Mathlib.TextLemmas.{nil-append, cons-append}
use mathlib.Core.Path.{◌≡◌}
use native.Mathlib.Omega.{arith}
use nitpicker_daemon.Prelude.Lists.{length}
use nitpicker_daemon.Prelude.Tests.{leb, eqb, if◌then◌else◌}

abbrev pub codes : String → List ℕ
codes String.[] = []
codes (String.◌∷◌ c s) = code c ∷ codes s

-- `str.lower` on ASCII letters; other characters stay.
unfoldable pub lower : List ℕ → List ℕ
lower [] = []
lower (c ∷ cs) = (if leb b'A' c && leb c b'Z' then c + 32 else c) ∷ lower cs

nth_or : Char → ℕ → String → Char
nth_or d n String.[] = d
nth_or d zero (String.◌∷◌ c s) = c
nth_or d (suc n) (String.◌∷◌ c s) = nth_or d n s

lower_char : Char → Char
unfolding nth_or
lower_char c =
    if leb b'A' (code c) && leb (code c) b'Z'
    then nth_or c (code c - b'A') "abcdefghijklmnopqrstuvwxyz"
    else c

-- `str.lower` of a text, on ASCII letters too
unfoldable pub lower_text : String → String
unfolding lower_char
lower_text String.[] = ""
lower_text (String.◌∷◌ c s) = String.◌∷◌ (lower_char c) (lower_text s)

unfoldable pub starts : List ℕ → List ℕ → Bool
starts [] cs = true
starts (p ∷ ps) [] = false
starts (p ∷ ps) (c ∷ cs) = eqb p c && starts ps cs

-- `needle in text`
unfoldable pub occurs : List ℕ → List ℕ → Bool
unfolding starts
occurs needle [] = starts needle []
occurs needle (c ∷ cs) = starts needle (c ∷ cs) || occurs needle cs

-- `key in names`, for a set or list of texts.
abbrev pub among : String → List String → Bool
among k [] = false
among k (j ∷ js) = k == j || among k js

-- where `str.splitlines` ends a line
abbrev pub is_break : ℕ → Bool
is_break c =
    (leb 10 c && leb c 13) || (leb 28 c && leb c 30) || eqb c 133 || eqb c 8232 || eqb c 8233

abbrev pub cons_head : Char → List String → List String
cons_head c [] = String.◌∷◌ c "" ∷ []
cons_head c (line ∷ lines) = String.◌∷◌ c line ∷ lines

-- The rest of a line and the lines after it; the flag says that a carriage return stands before.
unfoldable pub cut_lines : Bool → String → List String
cut_lines cr String.[] = "" ∷ []
cut_lines cr (String.◌∷◌ c s) =
    let rest = cut_lines (eqb (code c) 13) s in
    if cr && eqb (code c) 10
    then rest
    else if is_break (code c)
    then "" ∷ rest
    else cons_head c rest

-- a text that ends with a line break has no line behind it
unfoldable pub drop_blank_end : List String → List String
drop_blank_end [] = []
drop_blank_end (line ∷ []) = if line == "" then [] else line ∷ []
drop_blank_end (line ∷ next ∷ lines) = line ∷ drop_blank_end (next ∷ lines)

-- `text.splitlines()`
unfoldable pub splitlines : String → List String
unfolding cut_lines drop_blank_end
splitlines s = drop_blank_end (cut_lines false s)

-- `text.startswith(prefix)`
abbrev pub starts_with : String → String → Bool
starts_with prefix s = starts (codes prefix) (codes s)

-- An f-string: its parts, put together.
unfoldable pub concat : List String → String
concat [] = ""
concat (s ∷ ss) = s ++ concat ss

-- `len(text)`
abbrev pub text_length : String → ℕ
text_length s = length (codes s)

length-append_text : (s t : String) → text_length (s ++ t) ≡ text_length s + text_length t
length-append_text String.[] t = rw (nil-append t) (omega arith)
length-append_text (String.◌∷◌ c s) t =
    rw (cons-append c s t) (omega (arith, length-append_text s t))

-- texts put together have the lengths of their parts
pub length-concat :
    (s : String) (rest : List String)
    → text_length (concat (s ∷ rest)) ≡ text_length s + text_length (concat rest)
unfolding concat
length-concat s rest = length-append_text s (concat rest)

-- `sep.join(texts)`
unfoldable pub join : String → List String → String
join sep [] = ""
join sep (s ∷ []) = s
join sep (s ∷ t ∷ ts) = s ++ (sep ++ join sep (t ∷ ts))

-- `str.isspace` of one character
abbrev pub is_space : ℕ → Bool
is_space c =
    (leb 9 c && leb c 13)
    || (leb 28 c && leb c 32)
    || eqb c 133
    || eqb c 160
    || eqb c 5760
    || (leb 8192 c && leb c 8202)
    || eqb c 8232
    || eqb c 8233
    || eqb c 8239
    || eqb c 8287
    || eqb c 12288

-- `not text.strip()`
unfoldable pub is_blank : List ℕ → Bool
is_blank [] = true
is_blank (c ∷ cs) = is_space c && is_blank cs

-- `text.lstrip()`
unfoldable pub lstrip : List ℕ → List ℕ
lstrip [] = []
lstrip (c ∷ cs) = if is_space c then lstrip cs else c ∷ cs

-- `text.strip()`, on the text itself
unfoldable pub strip_left : String → String
strip_left String.[] = ""
strip_left (String.◌∷◌ c s) = if is_space (code c) then strip_left s else String.◌∷◌ c s

unfoldable pub strip_right : String → String
strip_right String.[] = ""
strip_right (String.◌∷◌ c s) =
    let rest = strip_right s in if is_space (code c) && rest == "" then "" else String.◌∷◌ c rest

unfoldable pub strip : String → String
unfolding strip_left strip_right
strip s = strip_right (strip_left s)

-- `text[:n]`
unfoldable pub take_text : ℕ → String → String
take_text zero s = ""
take_text (suc n) String.[] = ""
take_text (suc n) (String.◌∷◌ c s) = String.◌∷◌ c (take_text n s)

-- The last of the decimal digits of a number.
abbrev digit : ℕ → String
digit n =
    if eqb n 0
    then "0"
    else if eqb n 1
    then "1"
    else if eqb n 2
    then "2"
    else if eqb n 3
    then "3"
    else if eqb n 4
    then "4"
    else if eqb n 5
    then "5"
    else if eqb n 6
    then "6"
    else if eqb n 7
    then "7"
    else if eqb n 8
    then "8"
    else "9"

-- The fuel bounds the digits: a number has at most as many as its value, or one.
decimal_within : ℕ → ℕ → String
decimal_within zero n = digit (n % 10)
decimal_within (suc fuel) n =
    let rest = decimal_within fuel (n / 10) in if leb n 9 then digit n else rest ++ digit (n % 10)

-- `str(n)`
unfoldable pub decimal : ℕ → String
unfolding decimal_within
decimal n = decimal_within n n
