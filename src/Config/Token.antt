-- ===== src/Config/Token.antt =====
-- `NginxConfigParser::ParseToken` (src/config_parser.cc). The stream is the list of the bytes that
-- are left; `unget` after a good `get` puts the byte back, and `get` at the end yields the byte
-- 0xFF, which is no delimiter.
pub mod Progress
pub mod Reading
use server_spring.Base.{ℕ, Bool, ◌||◌, [], ◌∷◌, ◌++◌, Bytes, ◌==◌, if◌then◌else◌}

pub data TokenType : Type 0 where
  start normal start_block end_block comment statement_end eof error : TokenType

pub data TokenParserState : Type 0 where
  initial_whitespace single_quote double_quote in_comment in_normal : TokenParserState
  single_quote_escape double_quote_escape : TokenParserState

-- what `ParseToken` returns, the out-parameter `value`, and the rest of the stream
pub record Lexeme : Type 0 where
  pub type : TokenType
  pub value : Bytes
  pub rest : Bytes

-- one round of the loop: a return, or a `continue` in a state with a value
pub data Move : Type 0 where
  emit : Lexeme → Move
  goto : TokenParserState → Bytes → Move

abbrev returns : TokenType → Bytes → Bytes → Move
returns t v s = emit (record { type = t; value = v; rest = s })

-- a delimiter of a word or of a quoted string; the source names '\t' twice and '\r' never
unfoldable pub is_delimiter : ℕ → Bool
is_delimiter c =
    c == b' ' || c == b'\t' || c == b'\n' || c == b'\t' || c == b';' || c == b'{' || c == b'}'

unfoldable pub is_space : ℕ → Bool
is_space c = c == b' ' || c == b'\t' || c == b'\n' || c == b'\r'

-- behind a closing quote, on what the stream still holds
pub close_quote : Bytes → Bytes → Move
close_quote value [] = returns error value []
close_quote value (d ∷ s) =
    if is_delimiter d then returns normal value (d ∷ s) else returns error value s

pub scan_initial : Bytes → ℕ → Bytes → Move
scan_initial value c s =
    if c == b'{'
    then returns start_block (c ∷ []) s
    else if c == b'}'
    then returns end_block (c ∷ []) s
    else if c == b'#'
    then goto in_comment (c ∷ [])
    else if c == b'"'
    then goto double_quote (c ∷ [])
    else if c == b'\''
    then goto single_quote (c ∷ [])
    else if c == b';'
    then returns statement_end (c ∷ []) s
    else if is_space c
    then goto initial_whitespace value
    else goto in_normal (value ++ c ∷ [])

-- `case TOKEN_STATE_SINGLE_QUOTE` and `case TOKEN_STATE_DOUBLE_QUOTE`: the byte is appended first,
-- and a backslash is taken off again
pub scan_quoted : ℕ → TokenParserState → TokenParserState → Bytes → ℕ → Bytes → Move
scan_quoted quote inside escape value c s =
    if c == quote
    then close_quote (value ++ c ∷ []) s
    else if c == b'\\'
    then goto escape value
    else goto inside (value ++ c ∷ [])

pub scan : TokenParserState → Bytes → ℕ → Bytes → Move
scan initial_whitespace value c s = scan_initial value c s
scan single_quote value c s = scan_quoted b'\'' single_quote single_quote_escape value c s
scan double_quote value c s = scan_quoted b'"' double_quote double_quote_escape value c s
scan in_comment value c s =
    if c == b'\n' || c == b'\r' then returns comment value s else goto in_comment (value ++ c ∷ [])
scan in_normal value c s =
    if is_delimiter c then returns normal value (c ∷ s) else goto in_normal (value ++ c ∷ [])
scan single_quote_escape value c s = goto single_quote (value ++ c ∷ [])
scan double_quote_escape value c s = goto double_quote (value ++ c ∷ [])

-- behind the loop, at the end of the file
abbrev pub at_end : TokenParserState → TokenType
at_end single_quote = error
at_end double_quote = error
at_end _ = eof

-- the lexeme returned, or the loop run on
abbrev pub settle : Move → (TokenParserState → Bytes → Lexeme) → Lexeme
settle (emit l) loop = l
settle (goto state value) loop = loop state value

unfoldable pub scan_from : TokenParserState → Bytes → Bytes → Lexeme
scan_from state value [] = record { type = at_end state; value = value; rest = [] }
scan_from state value (c ∷ s) =
    settle (scan state value c s) (λ state' value'. scan_from state' value' s)

unfoldable pub parse_token : Bytes → Lexeme
unfolding scan_from scan scan_initial scan_quoted close_quote is_delimiter is_space
parse_token input = scan_from initial_whitespace [] input
