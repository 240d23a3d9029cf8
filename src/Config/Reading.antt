-- ===== src/Config/Reading.antt =====
-- The loop of `Parse` over the white space and the words that `ToString` writes, with any bytes
-- behind them.
use server_spring.Base.{
  ℕ, suc, zero, ◌≡◌, refl, sym, ap, ◌∙◌, [], ◌∷◌, ◌++◌, List, true, append_assoc, append-nil, Bytes,
  All, ok,
}
use server_spring.Config.Types.{simple}
use server_spring.Config.Token.{eof, TokenType, normal, Lexeme, is_delimiter, is_space, parse_token}
use server_spring.Config.Token.Reading.{parse_token-space, parse_token-IsToken}
use server_spring.Config.Parser.{
  Statements, ConfigStack, inside, take_token, settle_step, finish, may_finish, parse_loop,
  parse_from, next,
}
use server_spring.Config.Parser.Fuel.{parse_from_lem}
use server_spring.Config.Parser.Steps.{begins, first_word, next_word}
use server_spring.Config.Printable.{IsToken, IsWords}
use server_spring.Config.Printer.{indent, join, join_rest}

-- The loop depends on the stream only by its next token.
parse_from_congr :
    (a b : Bytes) (last : TokenType) (stack : ConfigStack)
    → parse_token a ≡ parse_token b
    → parse_from a last stack ≡ parse_from b last stack
parse_from_congr a b last stack h =
    parse_from_lem a last stack
    ∙ ap
        (λ (l : Lexeme).
          settle_step (take_token last stack l.type l.value) stack (parse_from l.rest))
        h
    ∙ sym (parse_from_lem b last stack)

parse_from-space :
    (c : ℕ) (s : Bytes) (last : TokenType) (stack : ConfigStack)
    → is_space c ≡ true
    → parse_from (c ∷ s) last stack ≡ parse_from s last stack
parse_from-space c s last stack h = parse_from_congr (c ∷ s) s last stack (parse_token-space c s h)

-- one round of the loop that goes on
pub parse_from-next :
    (s : Bytes) (last : TokenType) (stack : ConfigStack) (l : Lexeme) (last' : TokenType)
    (stack' : ConfigStack)
    → parse_token s ≡ l
    → take_token last stack l.type l.value ≡ ok (next last' stack')
    → parse_from s last stack ≡ parse_from l.rest last' stack'
parse_from-next s last stack l last' stack' h k =
    parse_from_lem s last stack
    ∙ ap
        (λ (l : Lexeme).
          settle_step (take_token last stack l.type l.value) stack (parse_from l.rest))
        h
    ∙ ap (λ m. settle_step m stack (parse_from l.rest)) k

-- the end of the file, where it may be
pub parse_from-eof :
    (s : Bytes) (last : TokenType) (stack : ConfigStack) (value rest : Bytes)
    → parse_token s ≡ record { type = eof; value = value; rest = rest }
    → may_finish last ≡ true
    → parse_from s last stack ≡ finish true stack
unfolding parse_loop
parse_from-eof s last stack value rest h k =
    parse_from_lem s last stack
    ∙ ap
        (λ (l : Lexeme).
          settle_step (take_token last stack l.type l.value) stack (parse_from l.rest))
        h
    ∙ rw k

pub parse_from-indent :
    (depth : ℕ) (s : Bytes) (last : TokenType) (stack : ConfigStack)
    → parse_from (indent depth ++ s) last stack ≡ parse_from s last stack
unfolding indent parse_token
parse_from-indent zero s last stack = refl
parse_from-indent (suc depth) s last stack =
    parse_from-space b' ' _ last stack refl
    ∙ parse_from-space b' ' _ last stack refl
    ∙ parse_from-indent depth s last stack

pub parse_from-blank :
    (s : Bytes) (last : TokenType) (stack : ConfigStack)
    → parse_from (b' ' ∷ s) last stack ≡ parse_from s last stack
unfolding parse_token
parse_from-blank s last stack = parse_from-space b' ' s last stack refl

pub parse_from-newline :
    (s : Bytes) (last : TokenType) (stack : ConfigStack)
    → parse_from (b'\n' ∷ s) last stack ≡ parse_from s last stack
unfolding parse_token
parse_from-newline s last stack = parse_from-space b'\n' s last stack refl

-- what follows a token: a delimiter
abbrev pub Delimited : Bytes → Type 0
Delimited [] = ⊥
Delimited (d ∷ s) = is_delimiter d ≡ true

pub read_token :
    {t : Bytes} (s : Bytes)
    → IsToken t
    → Delimited s
    → parse_token (t ++ s) ≡ record { type = normal; value = t; rest = s }
read_token [] p h = absurd h
read_token (d ∷ s) p h = parse_token-IsToken d s p h

join_rest-Delimited : (us : List Bytes) (s : Bytes) → Delimited s → Delimited (join_rest us ++ s)
unfolding join_rest parse_token
join_rest-Delimited [] s h = h
join_rest-Delimited (u ∷ us) s h = refl

read_words :
    (us : List Bytes) (s : Bytes) (top : Statements) (ts : List Bytes) (below : List Statements)
    → All IsToken us
    → Delimited s
    → parse_from (join_rest us ++ s) normal (inside (top ++ simple ts ∷ []) below)
      ≡ parse_from s normal (inside (top ++ simple (ts ++ us) ∷ []) below)
unfolding join_rest parse_token
read_words [] s top ts below ps h = rw append-nil
read_words (u ∷ us) s top ts below (p, ps) h =
    parse_from-space b' ' _ normal _ refl
    ∙ rw append_assoc (
        parse_from-next _ normal _ _ _ _
          (read_token (join_rest us ++ s) p (join_rest-Delimited us s h)) (next_word u top ts below)
        ∙ read_words us s top (ts ++ u ∷ []) below ps h
        ∙ ap (λ vs. parse_from s normal (inside (top ++ simple vs ∷ []) below))
            (append_assoc ts (u ∷ []) us))

-- the words of a statement, behind its indentation
pub read_join :
    (depth : ℕ) (ts : List Bytes) (s : Bytes) (last : TokenType) (top : Statements)
    (below : List Statements)
    → IsWords ts
    → Delimited s
    → begins last ≡ true
    → parse_from (indent depth ++ (join ts ++ s)) last (inside top below)
      ≡ parse_from s normal (inside (top ++ simple ts ∷ []) below)
unfolding join
read_join depth [] s last top below ps h b = absurd ps
read_join depth (t ∷ ts) s last top below (p, ps) h b =
    parse_from-indent depth _ last _
    ∙ rw append_assoc (
        parse_from-next _ last _ _ _ _
          (read_token (join_rest ts ++ s) p (join_rest-Delimited ts s h))
          (first_word last t top below b)
        ∙ read_words ts s top (t ∷ []) below ps h)
