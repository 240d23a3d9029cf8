-- ===== src/Config/Token/Progress.antt =====
-- `ParseToken` takes a byte off the stream unless it is at the end.
use server_spring.Base.{ℕ, ◌≤◌, [], ◌∷◌, ◌++◌, ◌≡◌, refl, arith, Bytes, length}
use server_spring.Config.Token.{
  TokenParserState, initial_whitespace, in_normal, Lexeme, Move, emit, goto, close_quote,
  scan_initial, scan_quoted, scan, scan_from, parse_token, settle, eof,
}

-- what a round leaves, where it returns
abbrev Leaves : ℕ → Move → Type 0
Leaves n (emit l) = length l.rest ≤ n
Leaves n (goto st v) = Unit

close_quote-Leaves : (v s : Bytes) → Leaves (length s) (close_quote v s)
unfolding close_quote
close_quote-Leaves v [] = ground arith
close_quote-Leaves v (d ∷ s) = ground arith

scan_initial-Leaves : (v : Bytes) (c : ℕ) (s : Bytes) → Leaves (length s) (scan_initial v c s)
unfolding scan_initial
scan_initial-Leaves v c s = ground arith

scan-Leaves :
    (st : TokenParserState) (v : Bytes) (c : ℕ) (s : Bytes)
    → Leaves (length (c ∷ s)) (scan st v c s)
unfolding scan scan_quoted
scan-Leaves initial_whitespace v c s = ground (arith, scan_initial-Leaves v c s)
scan-Leaves in_normal v c s = ground arith
scan-Leaves _ v c s = ground (arith, close_quote-Leaves (v ++ c ∷ []) s)

settle-le :
    {n : ℕ} (m : Move) (loop : TokenParserState → Bytes → Lexeme)
    → Leaves n m
    → ((st : TokenParserState) (v : Bytes) → length (loop st v).rest ≤ n)
    → length (settle m loop).rest ≤ n
settle-le (emit l) loop h k = h
settle-le (goto st v) loop h k = k st v

scan_from-le :
    (s : Bytes) (st : TokenParserState) (v : Bytes) → length (scan_from st v s).rest ≤ length s
unfolding scan_from
scan_from-le [] st v = omega arith
scan_from-le (c ∷ s) st v =
    settle-le (scan st v c s) (λ st' v'. scan_from st' v' s) (scan-Leaves st v c s)
      (λ st' v'. omega (arith, scan_from-le s st' v'))

-- A token takes at least one byte.
pub parse_token-le : (c : ℕ) (s : Bytes) → length (parse_token (c ∷ s)).rest ≤ length s
unfolding parse_token
parse_token-le c s =
    settle-le (scan_initial [] c s) (λ st' v'. scan_from st' v' s) (scan_initial-Leaves [] c s)
      (scan_from-le s)

pub parse_token-nil : parse_token [] ≡ record { type = eof; value = []; rest = [] }
unfolding parse_token
parse_token-nil = refl
