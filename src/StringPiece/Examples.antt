-- ===== src/StringPiece/Examples.antt =====
-- Views of base/StringPiece.h on concrete bytes.
use cly_server.Base.{◌≡◌, not, codes, arith}
use cly_server.StringPiece.{
  StringPiece, lt, le, ge, gt, compare_pieces, as_string, is_less, is_greater,
}
use cly_server.StringPiece.Order.{lex, compare_pieces-lex}

-- Two views of longer texts.
abbrev get : StringPiece
get = record { ptr = codes "GET / HTTP"; size = 3 }

abbrev getter : StringPiece
getter = record { ptr = codes "GETTER"; size = 6 }

compare_pieces-lex_example :
    (compare_pieces get getter ≡ lex (as_string get) (as_string getter))
    × (lt get getter ≡ is_less (lex (as_string get) (as_string getter)))
    × (gt get getter ≡ is_greater (lex (as_string get) (as_string getter)))
    × (le get getter ≡ not (is_greater (lex (as_string get) (as_string getter))))
    × (ge get getter ≡ not (is_less (lex (as_string get) (as_string getter))))
compare_pieces-lex_example = compare_pieces-lex get getter (omega arith) (omega arith)
