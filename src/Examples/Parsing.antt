-- ===== src/Examples/Parsing.antt =====
-- Texts of configs, and what the parser makes of them.
use server_spring.Base.{
  Bool, true, false, [], ◌∷◌, ◌++◌, codes, ◌≡◌, ◌≢◌, ◌↔◌, inl, refl, arith, Run, ok, undefined,
  ◌>>=◌, equal, c_str, some,
}
use server_spring.Number.{pos, stoi}
use server_spring.Number.Printing.{decimal, stoi-decimal}
use server_spring.Config.Types.{simple, block, NginxConfig, empty, add}
use server_spring.Config.Token.{start, normal, parse_token, is_delimiter, is_space}
use server_spring.Config.Token.Reading.{parse_token-IsToken}
use server_spring.Config.Printable.{IsToken, plain, quoted, IsPrintable}
use server_spring.Config.Comments.{parse_from-comment}
use server_spring.Config.Parser.{Parsed, parse, parse_from, inside}
use server_spring.Config.Parser.Termination.{IsEnded, parse-IsEnded}
use server_spring.Config.Parser.Grammar.{Verdict, parse-Verdict}
use server_spring.Config.Parser.Stuck.{IsStuck, parse-IsStuck}
use server_spring.Config.Printer.{to_string, indent, join, join_rest}
use server_spring.Config.RoundTrip.{parse-to_string}
use server_spring.Config.Defects.{parse-unclosed_block, parse-unfinished_word, parse-extra_brace}
use server_spring.Config.Locations.{validate_relative_paths}
use server_spring.Config.Executable.{config_parser_main, config_parser_main-to_string}

abbrev verdict : Run Parsed → Run Bool
verdict m = do p ← m; ok p.success

accepts : verdict (parse (codes "foo \"bar\";\nserver {\n  listen 80; # c\n}\n")) ≡ ok true
unfolding parse codes
accepts = refl

-- foo "a b"; server { listen 80; }
abbrev quoted_config : NginxConfig
quoted_config = add (simple (codes "foo" ∷ codes "\"a b\"" ∷ [])) (
    add (block (codes "server" ∷ []) (add (simple (codes "listen" ∷ codes "80" ∷ [])) empty)) empty)

foo-IsToken : IsToken (codes "foo")
unfolding codes is_delimiter is_space
foo-IsToken = plain refl (ground arith)

server-IsToken : IsToken (codes "server")
unfolding codes is_delimiter is_space
server-IsToken = plain refl (ground arith)

listen-IsToken : IsToken (codes "listen")
unfolding codes is_delimiter is_space
listen-IsToken = plain refl (ground arith)

port-IsToken : IsToken (codes "80")
unfolding codes is_delimiter is_space
port-IsToken = plain refl (ground arith)

string-IsToken : IsToken (codes "\"a b\"")
unfolding codes
string-IsToken = quoted (97 ∷ 32 ∷ 98 ∷ []) (inl refl) (ground arith)

quoted_config-IsPrintable : IsPrintable quoted_config
quoted_config-IsPrintable = (
  (foo-IsToken, (string-IsToken, tt)),
  (((server-IsToken, tt), ((listen-IsToken, (port-IsToken, tt)), tt)), tt),
)

parse-to_string_example :
    parse (to_string 1 quoted_config) ≡ ok (record { success = true; config = quoted_config })
parse-to_string_example = parse-to_string quoted_config 1 quoted_config-IsPrintable

token_read :
    parse_token (codes "\"a b\"" ++ 59 ∷ codes " x")
    ≡ record { type = normal; value = codes "\"a b\""; rest = 59 ∷ codes " x" }
unfolding is_delimiter
token_read = parse_token-IsToken 59 (codes " x") string-IsToken refl

parse-IsEnded_example : IsEnded (parse (codes "a { 'b"))
parse-IsEnded_example = parse-IsEnded (codes "a { 'b")

-- listen 80;
abbrev one_line : NginxConfig
one_line = add (simple (codes "listen" ∷ codes "80" ∷ [])) empty

one_line-IsPrintable : IsPrintable one_line
one_line-IsPrintable = ((listen-IsToken, (port-IsToken, tt)), tt)

one_line-ne-empty : one_line ≢ empty
one_line-ne-empty h = cc

block_left_open :
    parse (join (codes "server" ∷ []) ++ (b' ' ∷ b'{' ∷ b'\n' ∷ to_string 1 one_line))
    ≡ ok (record { success = true; config = add (block (codes "server" ∷ []) one_line) empty })
block_left_open =
    parse-unclosed_block (codes "server" ∷ []) one_line 1 (server-IsToken, tt) one_line-IsPrintable
      one_line-ne-empty

word_dropped :
    parse (to_string 0 one_line ++ 102 ∷ 111 ∷ [])
    ≡ ok (record { success = true; config = one_line })
unfolding is_delimiter is_space
word_dropped = parse-unfinished_word one_line 0 102 (111 ∷ []) one_line-IsPrintable refl (refl, tt)

extra_brace : parse (to_string 0 one_line ++ (b'}' ∷ b'\n' ∷ (codes "foo" ++ 59 ∷ []))) ≡ undefined
unfolding is_delimiter
extra_brace =
    parse-extra_brace one_line 0 (59 ∷ []) one_line-IsPrintable one_line-ne-empty foo-IsToken refl

stoi_int_max : stoi (decimal 2147483647) ≡ ok (pos 2147483647)
stoi_int_max = stoi-decimal 2147483647 (omega arith)

parse_from-comment_example :
    parse_from (b'#' ∷ ((98 ∷ 59 ∷ []) ++ b'\n' ∷ codes "a;")) start (inside [] [])
    ≡ parse_from (codes "a;") start (inside [] [])
parse_from-comment_example =
    parse_from-comment (98 ∷ 59 ∷ []) b'\n' (codes "a;") start (inside [] []) (ground arith)
      (inl refl)

no_path : validate_relative_paths (λ p. true) quoted_config ≡ ok true
unfolding validate_relative_paths codes equal
no_path = refl

quoted_text : c_str (to_string 0 quoted_config) ≡ to_string 0 quoted_config
unfolding c_str to_string indent join join_rest codes
quoted_text = refl

printed_again :
    config_parser_main (λ p. true) 2 (some (to_string 1 quoted_config))
    ≡ ok (0, to_string 0 quoted_config)
printed_again =
    config_parser_main-to_string (λ p. true) quoted_config 1 true quoted_config-IsPrintable
      quoted_text no_path

-- a brace too many, and a word behind it
parse-IsStuck_example :
    (parse (codes "a; server { } } b;") ≡ undefined) ↔ IsStuck (codes "a; server { } } b;")
parse-IsStuck_example = parse-IsStuck (codes "a; server { } } b;")

stuck_on_b : parse (codes "a; server { } } b;") ≡ undefined
unfolding parse codes
stuck_on_b = refl

parse-Verdict_example :
    ((c : NginxConfig) × (parse (codes "a ;; b") ≡ ok (record { success = false; config = c })))
    ↔ Verdict (codes "a ;; b") false
parse-Verdict_example = parse-Verdict (codes "a ;; b") false

rejects : verdict (parse (codes "a ;; b")) ≡ ok false
unfolding parse codes
rejects = refl
