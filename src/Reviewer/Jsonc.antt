-- ===== src/Reviewer/Jsonc.antt =====
-- mini_reviewer.py: `_load_jsonc`, which removes the comments of a settings file before it is
-- parsed. The four flags of the loop are one mode; `index += 2` drops the character that follows.
pub mod Lines
pub mod Again
pub mod Pieces
use Prim.Native.Char.{Char, code}
use nitpicker_daemon.Prelude.{ℕ, String, Bool, true, false, ◌&&◌, if◌then◌else◌, eqb}
use nitpicker_daemon.Python.Errors.{Result, ◌>>=◌}
use nitpicker_daemon.Python.Json.{Json}

pub data Mode : Type 0 where
  in_code in_string in_escape line_comment block_comment : Mode
  drop_to_code drop_to_line drop_to_block : Mode

-- `next_char == k`, where a text at its end has no next character
abbrev pub next_is : ℕ → String → Bool
next_is k String.[] = false
next_is k (String.◌∷◌ c s) = eqb (code c) k

-- one round of the loop: whether the character is kept, and the mode of the next round
unfoldable pub scan_char : Mode → ℕ → String → Bool × Mode
scan_char line_comment c s = if eqb c b'\n' then (true, in_code) else (false, line_comment)
scan_char block_comment c s =
    if eqb c b'*' && next_is b'/' s
    then (false, drop_to_code)
    else if eqb c b'\n'
    then (true, block_comment)
    else (false, block_comment)
scan_char in_escape c s = (true, in_string)
scan_char in_string c s =
    if eqb c b'\\'
    then (true, in_escape)
    else if eqb c b'"'
    then (true, in_code)
    else (true, in_string)
scan_char in_code c s =
    if eqb c b'"'
    then (true, in_string)
    else if eqb c b'/' && next_is b'/' s
    then (false, drop_to_line)
    else if eqb c b'/' && next_is b'*' s
    then (false, drop_to_block)
    else (true, in_code)
scan_char drop_to_code c s = (false, in_code)
scan_char drop_to_line c s = (false, line_comment)
scan_char drop_to_block c s = (false, block_comment)

abbrev pub keep_char : Bool → Char → String → String
keep_char true c s = String.◌∷◌ c s
keep_char false c s = s

unfoldable pub scan : Mode → String → String
scan m String.[] = ""
scan m (String.◌∷◌ c s) = keep_char (scan_char m (code c) s).0 c (scan (scan_char m (code c) s).1 s)

unfoldable pub strip_comments : String → String
strip_comments text = scan in_code text

-- `loads` is `json.loads`
unfoldable pub load_jsonc : (String → Result Json) → Result String → Result Json
load_jsonc loads file = do text ← file; loads (strip_comments text)
