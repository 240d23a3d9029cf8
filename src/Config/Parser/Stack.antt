-- ===== src/Config/Parser/Stack.antt =====
-- When the stack of `Parse` is empty, and what becomes of the loop there.
use server_spring.Base.{
  ◌≡◌, ◌⊎◌, inl, inr, refl, arith, Bool, true, false, List, [], ◌∷◌, ◌++◌, Bytes, All, Run, ok,
  undefined, Bool-cases, if◌then◌else◌,
}
use server_spring.Config.Types.{NginxConfig, NginxConfigStatement, simple, of_list}
use server_spring.Config.Token.{
  TokenType, start, normal, start_block, end_block, comment, statement_end, eof, error, parse_token,
}
use server_spring.Config.Parser.{
  Statements, ConfigStack, inside, popped, on_back, push_token, reset_child, fold_blocks, contents,
  take_word, open_block, close_block, Step, next, broken, accepted, take_token, is_word,
  may_be_word, may_close, may_finish, starts_statement, finish,
}

-- where the loop is, in the text `input`, after some rounds: the bytes that are left, the type of
-- the last token and the stack
pub data Reads (input : Bytes) : Bytes → TokenType → ConfigStack → Type 0 where
  begun : Reads input input start (inside [] [])
  read :
      {rest : Bytes} {last last' : TokenType} {stack stack' : ConfigStack}
      → Reads input rest last stack
      → take_token last stack (parse_token rest).type (parse_token rest).value
        ≡ ok (next last' stack')
      → Reads input (parse_token rest).rest last' stack'

abbrev pub has_statement : Statements → Bool
has_statement [] = false
has_statement (s ∷ ss) = true

-- an open block has the statement that it belongs to, and a word has its statement
abbrev pub IsHeld : TokenType → ConfigStack → Type 0
IsHeld last (inside top below) =
    All (λ ss. has_statement ss ≡ true) below × (is_word last ≡ true → has_statement top ≡ true)
IsHeld last (popped root) = last ≡ end_block

on_back_lem :
    (f : NginxConfigStatement → NginxConfigStatement) (ss : Statements)
    → has_statement ss ≡ true
    → (ss' : Statements) × (on_back f ss ≡ ok ss') × (has_statement ss' ≡ true)
unfolding on_back
on_back_lem f [] h = absurd (ground (arith, h))
on_back_lem f (s ∷ []) h = (f s ∷ [], refl, refl)
on_back_lem f (s ∷ t ∷ ss) h =
    let (ss', e, k) = on_back_lem f (t ∷ ss) refl in (s ∷ ss', rw e refl, refl)

fold_blocks_lem :
    (top : Statements) (below : List Statements)
    → All (λ ss. has_statement ss ≡ true) below
    → (root : Statements) × (fold_blocks top below ≡ ok root)
unfolding fold_blocks
fold_blocks_lem top [] h = (top, refl)
fold_blocks_lem top (parent ∷ below) (one, h) =
    let (p, e, k) = on_back_lem (reset_child top) parent one in
    let (root, e') = fold_blocks_lem p below h in (root, rw (e, e') refl)

pub finish_lem :
    (success : Bool) (last : TokenType) (stack : ConfigStack)
    → IsHeld last stack
    → (c : NginxConfig) × (finish success stack ≡ ok (record { success = success; config = c }))
unfolding contents
finish_lem success last (inside top below) (h, k) =
    let (root, e) = fold_blocks_lem top below h in (of_list root, rw e refl)
finish_lem success last (popped root) h = (of_list root, refl)

-- one round from a stack that is held: it goes on with one, or is left, or the stack is empty and
-- the token a word or a brace that closes a block
pub data Round (stack : ConfigStack) (type : TokenType) : Run Step → Type 0 where
  goes_on :
      (last' : TokenType) (stack' : ConfigStack)
      → IsHeld last' stack'
      → Round stack type (ok (next last' stack'))
  left : (s : Step) → (s ≡ broken) ⊎ (s ≡ accepted) → Round stack type (ok s)
  stuck :
      (root : Statements)
      → stack ≡ popped root
      → (type ≡ normal) ⊎ (type ≡ end_block)
      → Round stack type undefined

append-has_statement :
    (ss : Statements) (s : NginxConfigStatement) → has_statement (ss ++ s ∷ []) ≡ true
append-has_statement [] s = refl
append-has_statement (t ∷ ss) s = refl

-- the statements to which a word is added
word_target-has_statement :
    (last : TokenType) (top : Statements)
    → (is_word last ≡ true → has_statement top ≡ true)
    → has_statement (if starts_statement last then top ++ simple [] ∷ [] else top) ≡ true
word_target-has_statement normal top k = k refl
word_target-has_statement start top k = append-has_statement top (simple [])
word_target-has_statement start_block top k = append-has_statement top (simple [])
word_target-has_statement end_block top k = append-has_statement top (simple [])
word_target-has_statement comment top k = append-has_statement top (simple [])
word_target-has_statement statement_end top k = append-has_statement top (simple [])
word_target-has_statement eof top k = append-has_statement top (simple [])
word_target-has_statement error top k = append-has_statement top (simple [])

if-Round :
    (b : Bool) (stack : ConfigStack) (type : TokenType) (m : Run Step)
    → (b ≡ true → Round stack type m)
    → Round stack type (if b then m else ok broken)
if-Round true stack type m h = h refl
if-Round false stack type m h = left broken (inl refl)

no_word : (last : TokenType) → last ≡ end_block → is_word last ≡ true → ⊥
no_word last e w = ground (arith, e, w)

pub take_token-Round :
    (last : TokenType) (stack : ConfigStack) (type : TokenType) (v : Bytes)
    → IsHeld last stack
    → Round stack type (take_token last stack type v)
unfolding take_token take_word open_block close_block
take_token-Round last stack error v h = left broken (inl refl)
take_token-Round last stack start v h = left broken (inl refl)
take_token-Round last stack comment v h = goes_on last stack h
take_token-Round last stack eof v h = elim (Bool-cases (may_finish last)) [
  | inl e ↦ rw e (left accepted (inr refl))
  | inr e ↦ rw e (left broken (inl refl))
]
take_token-Round last (inside top below) statement_end v (h, k) =
    if-Round (is_word last) _ _ _ (λ w. goes_on statement_end (inside top below) (h, λ e. k w))
take_token-Round last (popped root) statement_end v h =
    if-Round (is_word last) _ _ _ (λ w. absurd (no_word last h w))
take_token-Round last (inside top below) start_block v (h, k) = if-Round (is_word last) _ _ _ (λ w.
    let (t, e, one) = on_back_lem (reset_child []) top (k w) in
    rw e (goes_on start_block (inside [] (t ∷ below)) ((one, h), λ q. absurd (ground (arith, q)))))
take_token-Round last (popped root) start_block v h =
    if-Round (is_word last) _ _ _ (λ w. absurd (no_word last h w))
take_token-Round last (inside top []) end_block v h =
    if-Round (may_close last) _ _ _ (λ c. goes_on end_block (popped top) refl)
take_token-Round last (inside top (parent ∷ below)) end_block v ((one, h), k) =
    if-Round (may_close last) _ _ _ (λ c.
      let (p, e, there) = on_back_lem (reset_child top) parent one in
      rw e (goes_on end_block (inside p below) (h, λ q. absurd (ground (arith, q)))))
take_token-Round last (popped root) end_block v h =
    if-Round (may_close last) _ _ _ (λ c. stuck root refl (inr refl))
take_token-Round last (inside top below) normal v (h, k) = if-Round (may_be_word last) _ _ _ (λ c.
    let (t, e, there) = on_back_lem (push_token v) _ (word_target-has_statement last top k) in
    rw e (goes_on normal (inside t below) (h, λ q. there)))
take_token-Round last (popped root) normal v h =
    if-Round (may_be_word last) _ _ _ (λ c. stuck root refl (inl refl))
