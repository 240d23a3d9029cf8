-- ===== src/Config/Parser/Termination.antt =====
-- `Parse` ends on every input, without an exception.
use server_spring.Base.{
  ℕ, zero, suc, ◌<◌, arith, Bool, true, false, List, [], ◌∷◌, Bytes, length, Run, ok, undefined,
  ◌>>=◌, if◌then◌else◌,
}
use server_spring.Config.Types.{NginxConfigStatement}
use server_spring.Config.Token.{
  TokenType, start, normal, start_block, end_block, comment, statement_end, eof, error, parse_token,
}
use server_spring.Config.Token.Progress.{parse_token-le, parse_token-nil}
use server_spring.Config.Parser.{
  Statements, ConfigStack, inside, popped, Step, next, broken, accepted, Parsed, on_back, take_word,
  open_block, close_block, fold_blocks, finish, take_token, settle_step, parse_loop, parse,
}
use server_spring.Config.Parser.Fuel.{settle_step-eof}

-- A run that ends: with a result, or at an operation whose behaviour is undefined.
pub data IsEnded {A : Type 0} : Run A → Type 0 where
  returned : (a : A) → IsEnded (ok a)
  stuck : IsEnded undefined

bind-IsEnded :
    {A B : Type 0} (m : Run A) (f : A → Run B)
    → IsEnded m
    → ((a : A) → IsEnded (f a))
    → IsEnded (m >>= f)
bind-IsEnded _ f (returned a) h = h a
bind-IsEnded _ f stuck h = stuck

if-IsEnded :
    {A : Type 0} (b : Bool) (x y : Run A) → IsEnded x → IsEnded y → IsEnded (if b then x else y)
if-IsEnded true x y p q = p
if-IsEnded false x y p q = q

on_back-IsEnded :
    (f : NginxConfigStatement → NginxConfigStatement) (s : Statements) → IsEnded (on_back f s)
unfolding parse_loop
on_back-IsEnded f [] = stuck
on_back-IsEnded f (s ∷ []) = returned _
on_back-IsEnded f (s ∷ t ∷ ss) = bind-IsEnded _ _ (on_back-IsEnded f (t ∷ ss)) (λ a. returned _)

fold_blocks-IsEnded : (top : Statements) (below : List Statements) → IsEnded (fold_blocks top below)
unfolding parse_loop
fold_blocks-IsEnded top [] = returned top
fold_blocks-IsEnded top (p ∷ below) =
    bind-IsEnded _ _ (on_back-IsEnded _ p) (λ a. fold_blocks-IsEnded a below)

finish-IsEnded : (success : Bool) (stack : ConfigStack) → IsEnded (finish success stack)
unfolding parse_loop
finish-IsEnded success (inside top below) =
    bind-IsEnded _ _ (bind-IsEnded _ _ (fold_blocks-IsEnded top below) (λ a. returned _))
      (λ a. returned _)
finish-IsEnded success (popped root) = returned _

take_word-IsEnded :
    (last : TokenType) (t : Bytes) (stack : ConfigStack) → IsEnded (take_word last t stack)
unfolding parse_loop
take_word-IsEnded last t (popped root) = stuck
take_word-IsEnded last t (inside top below) = search (bind-IsEnded, on_back-IsEnded, returned)

open_block-IsEnded : (stack : ConfigStack) → IsEnded (open_block stack)
unfolding parse_loop
open_block-IsEnded (popped root) = stuck
open_block-IsEnded (inside top below) = bind-IsEnded _ _ (on_back-IsEnded _ top) (λ a. returned _)

close_block-IsEnded : (stack : ConfigStack) → IsEnded (close_block stack)
unfolding parse_loop
close_block-IsEnded (popped root) = stuck
close_block-IsEnded (inside top []) = returned _
close_block-IsEnded (inside top (p ∷ below)) =
    bind-IsEnded _ _ (on_back-IsEnded _ p) (λ a. returned _)

next-IsEnded :
    (t : TokenType) (m : Run ConfigStack) → IsEnded m → IsEnded (m >>= λ s. ok (next t s))
next-IsEnded t m h = bind-IsEnded m _ h (λ s. returned _)

take_token-IsEnded :
    (last : TokenType) (stack : ConfigStack) (t : TokenType) (v : Bytes)
    → IsEnded (take_token last stack t v)
unfolding parse_loop
take_token-IsEnded last stack error v = returned _
take_token-IsEnded last stack comment v = returned _
take_token-IsEnded last stack start v = returned _
take_token-IsEnded last stack normal v =
    if-IsEnded _ _ _ (next-IsEnded _ _ (take_word-IsEnded last v stack)) (returned _)
take_token-IsEnded last stack statement_end v = if-IsEnded _ _ _ (returned _) (returned _)
take_token-IsEnded last stack start_block v =
    if-IsEnded _ _ _ (next-IsEnded _ _ (open_block-IsEnded stack)) (returned _)
take_token-IsEnded last stack end_block v =
    if-IsEnded _ _ _ (next-IsEnded _ _ (close_block-IsEnded stack)) (returned _)
take_token-IsEnded last stack eof v = if-IsEnded _ _ _ (returned _) (returned _)

settle_step-IsEnded :
    (m : Run Step) (old : ConfigStack) (f : TokenType → ConfigStack → Run Parsed)
    → IsEnded m
    → ((last : TokenType) (stack : ConfigStack) → IsEnded (f last stack))
    → IsEnded (settle_step m old f)
settle_step-IsEnded _ old f (returned (next last stack)) h = h last stack
settle_step-IsEnded _ old f (returned broken) h = finish-IsEnded false old
settle_step-IsEnded _ old f (returned accepted) h = finish-IsEnded true old
settle_step-IsEnded _ old f stuck h = stuck

parse_loop-IsEnded :
    (fuel : ℕ) (input : Bytes) (last : TokenType) (stack : ConfigStack)
    → length input < fuel
    → IsEnded (parse_loop fuel input last stack)
unfolding parse_loop
parse_loop-IsEnded zero input last stack h = absurd (omega arith)
parse_loop-IsEnded (suc f) [] last stack h =
    rw (parse_token-nil, settle_step-eof last stack [] (parse_loop f []) (λ _ _. undefined))
      (settle_step-IsEnded _ stack _ (take_token-IsEnded last stack eof []) (λ _ _. stuck))
parse_loop-IsEnded (suc f) (c ∷ s) last stack h =
    let l = parse_token (c ∷ s) in
    settle_step-IsEnded _ stack _ (take_token-IsEnded last stack l.type l.value)
      (λ last' stack'. parse_loop-IsEnded f l.rest last' stack' (omega (arith, parse_token-le c s)))

-- On every input the loop of `Parse` comes to an end, with a result or at an operation whose
-- behaviour is undefined; it throws nothing, and fuel of one round for each byte and one more is
-- enough.
pub parse-IsEnded : (input : Bytes) → IsEnded (parse input)
unfolding parse
parse-IsEnded input =
    parse_loop-IsEnded (suc (length input)) input start (inside [] []) (omega arith)
