-- ===== src/Config/Parser.antt =====
-- `NginxConfigParser::Parse` on a stream (src/config_parser.cc).
--
-- `config_stack` holds pointers: the root, and above each block the block that is the child of its
-- last statement. The model keeps of each open block the statements so far, the last one without
-- the child that is still open; `contents` puts the children back, and is the out-parameter.
pub mod Fuel
pub mod Steps
pub mod Stack
pub mod Stuck
pub mod Grammar
pub mod Report
pub mod Termination
use server_spring.Base.{
  ℕ, zero, suc, Bool, true, false, List, [], ◌∷◌, ◌++◌, Bytes, length, Run, ok, undefined, spent,
  ◌>>=◌, if◌then◌else◌,
}
use server_spring.Config.Types.{NginxConfigStatement, simple, block, NginxConfig, of_list, tokens}
use server_spring.Config.Token.{
  TokenType, start, normal, start_block, end_block, comment, statement_end, eof, error, parse_token,
}

abbrev pub Statements : Type 0
Statements = List NginxConfigStatement

-- `inside top below`: the stack, top first; `popped root`: the stack is empty
pub data ConfigStack : Type 0 where
  inside : Statements → List Statements → ConfigStack
  popped : Statements → ConfigStack

-- `statements_.back()` changed by `f`; the empty vector has no last element
pub on_back : (NginxConfigStatement → NginxConfigStatement) → Statements → Run Statements
on_back f [] = undefined
on_back f (s ∷ []) = ok (f s ∷ [])
on_back f (s ∷ t ∷ ss) = do r ← on_back f (t ∷ ss); ok (s ∷ r)

abbrev pub push_token : Bytes → NginxConfigStatement → NginxConfigStatement
push_token t (simple ts) = simple (ts ++ t ∷ [])
push_token t (block ts c) = block (ts ++ t ∷ []) c

-- `child_block_.reset(child)`
abbrev pub reset_child : Statements → NginxConfigStatement → NginxConfigStatement
reset_child child s = block (tokens s) (of_list child)

-- the tree below the root, the open blocks in their places
pub fold_blocks : Statements → List Statements → Run Statements
fold_blocks top [] = ok top
fold_blocks top (parent ∷ below) = do p ← on_back (reset_child top) parent; fold_blocks p below

pub contents : ConfigStack → Run NginxConfig
contents (inside top below) = do root ← fold_blocks top below; ok (of_list root)
contents (popped root) = ok (of_list root)

-- `last_token_type` before a NORMAL token
abbrev pub starts_statement : TokenType → Bool
starts_statement normal = false
starts_statement _ = true

-- TOKEN_TYPE_NORMAL: a new statement unless the last token was a word, then the token is added
pub take_word : TokenType → Bytes → ConfigStack → Run ConfigStack
take_word last token (popped root) = undefined
take_word last token (inside top below) = do
  t ← on_back (push_token token) (if starts_statement last then top ++ simple [] ∷ [] else top)
  ok (inside t below)

-- TOKEN_TYPE_START_BLOCK: the last statement gets a child, which becomes the top
pub open_block : ConfigStack → Run ConfigStack
open_block (popped root) = undefined
open_block (inside top below) = do t ← on_back (reset_child []) top; ok (inside [] (t ∷ below))

-- TOKEN_TYPE_END_BLOCK: `config_stack.pop()`
pub close_block : ConfigStack → Run ConfigStack
close_block (popped root) = undefined
close_block (inside top []) = ok (popped top)
close_block (inside top (parent ∷ below)) = do
  p ← on_back (reset_child top) parent
  ok (inside p below)

-- what a token does: go on, with `last_token_type` and the stack; `break`; or `return true`
pub data Step : Type 0 where
  next : TokenType → ConfigStack → Step
  broken : Step
  accepted : Step

abbrev goes_on : TokenType → Run ConfigStack → Run Step
goes_on t m = do stack ← m; ok (next t stack)

-- the guards on `last_token_type`
abbrev pub may_be_word : TokenType → Bool
may_be_word start = true
may_be_word statement_end = true
may_be_word start_block = true
may_be_word end_block = true
may_be_word normal = true
may_be_word _ = false

abbrev pub is_word : TokenType → Bool
is_word normal = true
is_word _ = false

abbrev pub may_close : TokenType → Bool
may_close start_block = true
may_close end_block = true
may_close statement_end = true
may_close _ = false

abbrev pub may_finish : TokenType → Bool
may_finish start = true
may_finish statement_end = true
may_finish end_block = true
may_finish _ = false

-- the body of the loop behind `ParseToken`
pub take_token : TokenType → ConfigStack → TokenType → Bytes → Run Step
take_token last stack error token = ok broken
take_token last stack comment token = ok (next last stack)
take_token last stack start token = ok broken
take_token last stack normal token =
    if may_be_word last then goes_on normal (take_word last token stack) else ok broken
take_token last stack statement_end token =
    if is_word last then ok (next statement_end stack) else ok broken
take_token last stack start_block token =
    if is_word last then goes_on start_block (open_block stack) else ok broken
take_token last stack end_block token =
    if may_close last then goes_on end_block (close_block stack) else ok broken
take_token last stack eof token = if may_finish last then ok accepted else ok broken

-- the value returned and the contents of `config`
pub record Parsed : Type 0 where
  pub success : Bool
  pub config : NginxConfig

abbrev pub finish : Bool → ConfigStack → Run Parsed
finish success stack = do c ← contents stack; ok (record { success = success; config = c })

-- the loop run on, or left
abbrev pub resume : Step → ConfigStack → (TokenType → ConfigStack → Run Parsed) → Run Parsed
resume (next last stack) old loop = loop last stack
resume broken old loop = finish false old
resume accepted old loop = finish true old

abbrev pub settle_step :
    Run Step → ConfigStack → (TokenType → ConfigStack → Run Parsed) → Run Parsed
settle_step m old loop = m >>= λ s. resume s old loop

-- the loop, on fuel
unfoldable pub parse_loop : ℕ → Bytes → TokenType → ConfigStack → Run Parsed
unfolding take_token take_word open_block close_block on_back contents fold_blocks
parse_loop zero input last stack = spent
parse_loop (suc fuel) input last stack =
    let l = parse_token input in
    settle_step (take_token last stack l.type l.value) stack (parse_loop fuel l.rest)

-- Each round but the last takes a byte off the stream, so the fuel is enough.
unfoldable pub parse_from : Bytes → TokenType → ConfigStack → Run Parsed
unfolding parse_loop parse_token
parse_from input = parse_loop (suc (length input)) input

unfoldable pub parse : Bytes → Run Parsed
unfolding parse_from
parse input = parse_from input start (inside [] [])
