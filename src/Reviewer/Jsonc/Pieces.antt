-- ===== src/Reviewer/Jsonc/Pieces.antt =====
-- A settings file as its author sees it: plain text, string literals, and comments of both kinds.
use Prim.Native.Char.{Char, code}
use nitpicker_daemon.Prelude.{
  String, false, List, [], ◌∷◌, ◌≡◌, refl, ap, ◌∙◌, eqb, arith, ◌&&◌, All,
}
use nitpicker_daemon.Reviewer.Jsonc.{
  in_code, in_string, line_comment, block_comment, scan_char, keep_char, scan, strip_comments,
}

pub data LiteralChar : Type 0 where
  raw : Char → LiteralChar
  escaped : Char → LiteralChar

pub data Piece : Type 0 where
  plain : List Char → Piece
  literal : List LiteralChar → Piece
  line : List Char → Piece
  block : List Char → Piece

-- characters, put before a text
abbrev pub onto : List Char → String → String
onto [] rest = rest
onto (c ∷ cs) rest = String.◌∷◌ c (onto cs rest)

abbrev pub literal_onto : List LiteralChar → String → String
literal_onto [] rest = rest
literal_onto (raw c ∷ cs) rest = String.◌∷◌ c (literal_onto cs rest)
literal_onto (escaped c ∷ cs) rest = String.◌∷◌ "\\" (String.◌∷◌ c (literal_onto cs rest))

abbrev pub newlines_onto : List Char → String → String
newlines_onto [] rest = rest
newlines_onto (c ∷ cs) rest = keep_char (eqb (code c) b'\n') c (newlines_onto cs rest)

-- the text of a piece before the rest of the file
abbrev pub write : Piece → String → String
write (plain cs) rest = onto cs rest
write (literal cs) rest = String.◌∷◌ "\"" (literal_onto cs (String.◌∷◌ "\"" rest))
write (line cs) rest = String.◌∷◌ "/" (String.◌∷◌ "/" (onto cs (String.◌∷◌ "\n" rest)))
write (block cs) rest =
    String.◌∷◌ "/" (String.◌∷◌ "*" (onto cs (String.◌∷◌ "*" (String.◌∷◌ "/" rest))))

-- what the parser of JSON is to see of it
abbrev pub content : Piece → String → String
content (plain cs) rest = onto cs rest
content (literal cs) rest = String.◌∷◌ "\"" (literal_onto cs (String.◌∷◌ "\"" rest))
content (line cs) rest = String.◌∷◌ "\n" rest
content (block cs) rest = newlines_onto cs rest

abbrev pub write_all : List Piece → String
write_all [] = ""
write_all (p ∷ ps) = write p (write_all ps)

abbrev pub content_all : List Piece → String
content_all [] = ""
content_all (p ∷ ps) = content p (content_all ps)

abbrev pub IsPlain : Char → Type 0
IsPlain c = (eqb (code c) b'"' ≡ false) × (eqb (code c) b'/' ≡ false)

abbrev pub IsRaw : LiteralChar → Type 0
IsRaw (raw c) = (eqb (code c) b'"' ≡ false) × (eqb (code c) b'\\' ≡ false)
IsRaw (escaped c) = Unit

-- no `*/` inside
abbrev pub IsOpen : List Char → Type 0
IsOpen [] = Unit
IsOpen (c ∷ []) = Unit
IsOpen (c ∷ d ∷ cs) = ((eqb (code c) b'*' && eqb (code d) b'/') ≡ false) × IsOpen (d ∷ cs)

abbrev pub IsPiece : Piece → Type 0
IsPiece (plain cs) = All IsPlain cs
IsPiece (literal cs) = All IsRaw cs
IsPiece (line cs) = All (λ c. eqb (code c) b'\n' ≡ false) cs
IsPiece (block cs) = IsOpen cs

scan-plain :
    (cs : List Char) (rest : String)
    → All IsPlain cs
    → scan in_code (onto cs rest) ≡ onto cs (scan in_code rest)
unfolding scan scan_char
scan-plain [] rest h = refl
scan-plain (c ∷ cs) rest h = ground (arith, scan-plain cs rest)

scan-literal :
    (cs : List LiteralChar) (rest : String)
    → All IsRaw cs
    → scan in_string (literal_onto cs (String.◌∷◌ "\"" rest))
      ≡ literal_onto cs (String.◌∷◌ "\"" (scan in_code rest))
unfolding scan scan_char
scan-literal [] rest h = refl
scan-literal (raw c ∷ cs) rest h = ground (arith, scan-literal cs rest)
scan-literal (escaped c ∷ cs) rest h =
    ap (λ (t : String). String.◌∷◌ "\\" (String.◌∷◌ c t)) (scan-literal cs rest h.1)

scan-line :
    (cs : List Char) (rest : String)
    → All (λ c. eqb (code c) b'\n' ≡ false) cs
    → scan line_comment (onto cs (String.◌∷◌ "\n" rest)) ≡ String.◌∷◌ "\n" (scan in_code rest)
unfolding scan scan_char
scan-line [] rest h = refl
scan-line (c ∷ cs) rest h = ground (arith, scan-line cs rest)

scan-block :
    (cs : List Char) (rest : String)
    → IsOpen cs
    → scan block_comment (onto cs (String.◌∷◌ "*" (String.◌∷◌ "/" rest)))
      ≡ newlines_onto cs (scan in_code rest)
unfolding scan scan_char
scan-block [] rest h = refl
scan-block (c ∷ []) rest h = ground (arith, scan-block [] rest tt)
scan-block (c ∷ d ∷ cs) rest h = ground (arith, scan-block (d ∷ cs) rest)

scan-write :
    (p : Piece) (rest : String)
    → IsPiece p
    → scan in_code (write p rest) ≡ content p (scan in_code rest)
unfolding scan scan_char
scan-write (plain cs) rest h = scan-plain cs rest h
scan-write (literal cs) rest h = ap (λ (t : String). String.◌∷◌ "\"" t) (scan-literal cs rest h)
scan-write (line cs) rest h = scan-line cs rest h
scan-write (block cs) rest h = scan-block cs rest h

scan-write_all : (ps : List Piece) → All IsPiece ps → scan in_code (write_all ps) ≡ content_all ps
scan-write_all [] h = unfold scan in refl
scan-write_all (p ∷ ps) h = scan-write p (write_all ps) h.0 ∙ ap (content p) (scan-write_all ps h.1)

-- If a settings file is written from pieces, each plain text without quotes and slashes, a string
-- literal, a line comment or a block comment, then what is left of it is the plain texts and the
-- literals unchanged, the line break of each line comment and the line breaks inside each block
-- comment.
pub strip_comments-write_all :
    (ps : List Piece) → All IsPiece ps → strip_comments (write_all ps) ≡ content_all ps
unfolding strip_comments
strip_comments-write_all ps h = scan-write_all ps h
