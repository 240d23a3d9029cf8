-- ===== src/Config/Parser/Steps.antt =====
-- What the loop does with each token, on a stack whose last statement is in sight.
use server_spring.Base.{◌≡◌, refl, [], ◌∷◌, ◌++◌, List, Bool, true, ◌&&◌, Bytes, arith, ok}
use server_spring.Config.Types.{NginxConfigStatement, simple, block, NginxConfig, empty, of_list}
use server_spring.Config.Token.{TokenType, normal, start_block, end_block, statement_end}
use server_spring.Config.Parser.{
  Statements, ConfigStack, inside, on_back, push_token, reset_child, take_word, open_block,
  close_block, take_token, next, may_be_word, starts_statement, may_close,
}

on_back-concat :
    (f : NginxConfigStatement → NginxConfigStatement) (ss : Statements) (s : NginxConfigStatement)
    → on_back f (ss ++ s ∷ []) ≡ ok (ss ++ f s ∷ [])
unfolding on_back
on_back-concat f [] s = refl
on_back-concat f (a ∷ []) s = refl
on_back-concat f (a ∷ b ∷ ss) s = rw (on_back-concat f (b ∷ ss) s)

-- the tokens in front of a statement
abbrev pub begins : TokenType → Bool
begins t = may_be_word t && starts_statement t

pub first_word :
    (last : TokenType) (t : Bytes) (top : Statements) (below : List Statements)
    → begins last ≡ true
    → take_token last (inside top below) normal t
      ≡ ok (next normal (inside (top ++ simple (t ∷ []) ∷ []) below))
unfolding take_token take_word
first_word last t top below b = ground (arith, on_back-concat (push_token t) top (simple []))

pub next_word :
    (t : Bytes) (top : Statements) (ts : List Bytes) (below : List Statements)
    → take_token normal (inside (top ++ simple ts ∷ []) below) normal t
      ≡ ok (next normal (inside (top ++ simple (ts ++ t ∷ []) ∷ []) below))
unfolding take_token take_word
next_word t top ts below = rw (on_back-concat (push_token t) top (simple ts))

pub end_statement :
    (v : Bytes) (stack : ConfigStack)
    → take_token normal stack statement_end v ≡ ok (next statement_end stack)
unfolding take_token
end_statement v stack = refl

pub open_brace :
    (v : Bytes) (top : Statements) (ts : List Bytes) (below : List Statements)
    → take_token normal (inside (top ++ simple ts ∷ []) below) start_block v
      ≡ ok (next start_block (inside [] ((top ++ block ts empty ∷ []) ∷ below)))
unfolding take_token open_block
open_brace v top ts below = rw (on_back-concat (reset_child []) top (simple ts))

pub close_brace :
    (last : TokenType) (v : Bytes) (child top : Statements) (ts : List Bytes) (c : NginxConfig)
    (below : List Statements)
    → may_close last ≡ true
    → take_token last (inside child ((top ++ block ts c ∷ []) ∷ below)) end_block v
      ≡ ok (next end_block (inside (top ++ block ts (of_list child) ∷ []) below))
unfolding take_token close_block
close_brace last v child top ts c below h =
    rw (h, on_back-concat (reset_child child) top (block ts c))
