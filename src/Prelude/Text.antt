-- ===== src/Prelude/Text.antt =====
-- Python's `str.strip`, `lower`, `upper`, `startswith`. Case mapping is that of the ASCII letters: keywords and
-- ticker symbols have no others.
use Prim.Native.Char.{Char, code}
use Prim.Native.String.{[] as empty, ◌∷◌ as cons}
use text.Mathlib.Text.{starts_with}
use equity_research_agent.Prelude.{
  ◌==◌, ◌≡◌, refl, String, Bool, ◌&&◌, ◌||◌, leb, eqb, if◌then◌else◌,
}

-- the character of `to` at the place of `c` in `from`
abbrev translate : String → String → Char → Char
translate (cons a from) (cons b to) c = if eqb (code c) (code a) then b else translate from to c
translate from to c = c

each : (Char → Char) → String → String
each f empty = empty
each f (cons c s) = cons (f c) (each f s)

abbrev capitals : String
capitals = "ABCDEFGHIJKLMNOPQRSTUVWXYZ"

abbrev smalls : String
smalls = "abcdefghijklmnopqrstuvwxyz"

unfoldable pub lower : String → String
unfolding each
lower = each (translate capitals smalls)

unfoldable pub upper : String → String
unfolding each
upper = each (translate smalls capitals)

-- `str.isspace`
is_space : Char → Bool
is_space c =
    let n = code c in
    leb 9 n && leb n 13
    || leb 28 n && leb n 32
    || eqb n 0x85
    || eqb n 0xa0
    || eqb n 0x1680
    || leb 0x2000 n && leb n 0x200a
    || eqb n 0x2028
    || eqb n 0x2029
    || eqb n 0x202f
    || eqb n 0x205f
    || eqb n 0x3000

strip_left : String → String
strip_left empty = empty
strip_left (cons c s) = if is_space c then strip_left s else cons c s

-- a text of spaces only becomes empty, any other keeps its last character that is no space
strip_right : String → String
strip_right empty = empty
strip_right (cons c s) =
    let rest = strip_right s in
    elim rest [ empty ↦ if is_space c then empty else cons c empty | cons d t ↦ cons c (cons d t) ]

unfoldable pub strip : String → String
unfolding is_space strip_left strip_right
strip s = strip_right (strip_left s)

-- `ticker.strip().upper()`
unfoldable pub normalize_ticker : String → String
unfolding strip upper
normalize_ticker ticker = upper (strip ticker)

normalize_ticker_example : normalize_ticker " aapl\n" ≡ "AAPL"
unfolding normalize_ticker
normalize_ticker_example = refl

-- `s in t`
unfoldable pub is_infix : String → String → Bool
is_infix s empty = s == ""
is_infix s (cons c t) = starts_with (cons c t) s || is_infix s t
