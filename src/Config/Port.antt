-- ===== src/Config/Port.antt =====
-- `is_digits` and `NginxConfig::getPort` (src/config_parser.cc).
pub mod Laws
pub mod Report
use server_spring.Base.{
  zero, suc, ℕ, Bool, true, false, ◌&&◌, List, [], ◌∷◌, Bytes, codes, equal, c_str, leb, Option,
  none, some, Run, ok, ◌>>=◌, if◌then◌else◌,
}
use server_spring.Number.{ℤ, pos, negsuc, is_digit, leading, atoi}
use server_spring.Config.Types.{NginxConfigStatement, simple, block, NginxConfig, empty, add}

abbrev all_digits : Bytes → Bool
all_digits [] = true
all_digits (c ∷ s) = is_digit c && all_digits s

unfoldable pub is_digits : Bytes → Bool
is_digits [] = false
is_digits (c ∷ s) = all_digits (c ∷ s)

abbrev pub no_port : ℤ
no_port = negsuc 0

-- the checks on the number of a `listen` statement
abbrev pub check_port : ℤ → Run ℤ
check_port (pos n) = if leb n 65535 then ok (pos n) else ok no_port
check_port (negsuc n) = ok no_port

pub listen_port : Bytes → Run ℤ
listen_port token =
    if is_digits (c_str token) then (do n ← atoi (c_str token); check_port n) else ok no_port

-- `tokens_.size() == 2 && tokens_[0] == "listen"`, with the second token
pub listen_token : List Bytes → Option Bytes
listen_token (name ∷ token ∷ []) = if equal name (codes "listen") then some token else none
listen_token _ = none

-- the first loop, over the statements without a block; `none` where it returns nothing
pub own_port : NginxConfig → Option (Run ℤ)
own_port empty = none
own_port (add (block ts b) c) = own_port c
own_port (add (simple ts) c) = elim (listen_token ts) [
  | some token ↦ some (listen_port token)
  | none ↦ own_port c
]

abbrev pub first_found : Option (Run ℤ) → Run ℤ → Run ℤ
first_found none later = later
first_found (some r) later = r

abbrev pub unless_found : ℤ → Run ℤ → Run ℤ
unless_found (negsuc (suc n)) later = ok (negsuc (suc n))
unless_found (negsuc zero) later = later
unless_found (pos n) later = ok (pos n)

-- the second loop, over the blocks; each call of `getPort` on a block runs both loops there
pub child_port : NginxConfig → Run ℤ
child_port empty = ok no_port
child_port (add (simple ts) c) = child_port c
child_port (add (block ts b) c) = do
  p ← first_found (own_port b) (child_port b)
  unless_found p (child_port c)

unfoldable pub get_port : NginxConfig → Run ℤ
unfolding own_port child_port listen_token listen_port is_digits
get_port c = first_found (own_port c) (child_port c)
