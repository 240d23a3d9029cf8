-- ===== src/Config/Token/Reading.antt =====
-- What `ParseToken` makes of the pieces that `ToString` writes, with any bytes behind them.
use server_spring.Base.{
  subst, ℕ, ◌≡◌, refl, ◌≢◌, ◌⊎◌, inl, inr, ◌∙◌, [], ◌∷◌, ◌++◌, true, false, append_assoc,
  append-nil, All, Bytes, arith,
}
use server_spring.Config.Printable.{is_special, IsToken, plain, quoted}
use server_spring.Config.Token.{
  eof, single_quote, double_quote, in_comment, in_normal, normal, start_block, end_block, comment,
  statement_end, is_delimiter, is_space, scan, scan_quoted, close_quote, scan_from, parse_token,
}

pub parse_token-space :
    (c : ℕ) (s : Bytes) → is_space c ≡ true → parse_token (c ∷ s) ≡ parse_token s
unfolding parse_token
parse_token-space c s h = ground arith

scan_from-normal :
    (w : Bytes) (v : Bytes) (d : ℕ) (s : Bytes)
    → All (λ d. is_delimiter d ≡ false) w
    → is_delimiter d ≡ true
    → scan_from in_normal v (w ++ d ∷ s) ≡ record { type = normal; value = v ++ w; rest = d ∷ s }
unfolding scan_from scan
scan_from-normal [] v d s h e = rw (append-nil, e)
scan_from-normal (c ∷ w) v d s (h, hs) e =
    rw h (scan_from-normal w (v ++ c ∷ []) d s hs e ∙ rw append_assoc)

-- A word ends in front of a delimiter, which stays on the stream.
parse_token-plain :
    (c : ℕ) (w : Bytes) (d : ℕ) (s : Bytes)
    → is_special c ≡ false
    → All (λ d. is_delimiter d ≡ false) w
    → is_delimiter d ≡ true
    → parse_token (c ∷ (w ++ d ∷ s)) ≡ record { type = normal; value = c ∷ w; rest = d ∷ s }
unfolding parse_token
parse_token-plain c w d s h hs e = ground (arith, scan_from-normal w (c ∷ []) d s hs e)

abbrev NoQuote : ℕ → Bytes → Type 0
NoQuote q s = All (λ d. (d ≢ q) × (d ≢ b'\\')) s

scan_from-single :
    (w v : Bytes) (d : ℕ) (s : Bytes)
    → NoQuote b'\'' w
    → is_delimiter d ≡ true
    → scan_from single_quote v (w ++ (b'\'' ∷ d ∷ s))
      ≡ record { type = normal; value = v ++ (w ++ b'\'' ∷ []); rest = d ∷ s }
unfolding scan_from scan scan_quoted close_quote
scan_from-single [] v d s h e = rw e
scan_from-single (c ∷ w) v d s (h, hs) e =
    ground
      (arith, scan_from-single w (v ++ c ∷ []) d s hs e, append_assoc v (c ∷ []) (w ++ b'\'' ∷ []))

scan_from-double :
    (w v : Bytes) (d : ℕ) (s : Bytes)
    → NoQuote b'"' w
    → is_delimiter d ≡ true
    → scan_from double_quote v (w ++ (b'"' ∷ d ∷ s))
      ≡ record { type = normal; value = v ++ (w ++ b'"' ∷ []); rest = d ∷ s }
unfolding scan_from scan scan_quoted close_quote
scan_from-double [] v d s h e = rw e
scan_from-double (c ∷ w) v d s (h, hs) e =
    ground
      (arith, scan_from-double w (v ++ c ∷ []) d s hs e, append_assoc v (c ∷ []) (w ++ b'"' ∷ []))

parse_token-quoted :
    (q : ℕ) (w : Bytes) (d : ℕ) (s : Bytes)
    → (q ≡ b'"') ⊎ (q ≡ b'\'')
    → NoQuote q w
    → is_delimiter d ≡ true
    → parse_token (q ∷ (w ++ (q ∷ d ∷ s)))
      ≡ record { type = normal; value = q ∷ (w ++ q ∷ []); rest = d ∷ s }
unfolding parse_token
parse_token-quoted q w d s (inl e) h k =
    rw e (scan_from-double w (b'"' ∷ []) d s (subst (λ n. NoQuote n w) e h) k)
parse_token-quoted q w d s (inr e) h k =
    rw e (scan_from-single w (b'\'' ∷ []) d s (subst (λ n. NoQuote n w) e h) k)

-- Every token that is printable is read back, up to the delimiter behind it.
pub parse_token-IsToken :
    {t : Bytes} (d : ℕ) (s : Bytes)
    → IsToken t
    → is_delimiter d ≡ true
    → parse_token (t ++ d ∷ s) ≡ record { type = normal; value = t; rest = d ∷ s }
parse_token-IsToken d s (plain {c} {s = w} h hs) e = parse_token-plain c w d s h hs e
parse_token-IsToken d s (quoted {q} w h hs) e = rw append_assoc (parse_token-quoted q w d s h hs e)

-- The rest of a line behind `#` is skipped, whatever it holds.
pub scan_from-comment :
    (body v : Bytes) (e : ℕ) (s : Bytes)
    → All (λ d. (d ≢ b'\n') × (d ≢ b'\r')) body
    → (e ≡ b'\n') ⊎ (e ≡ b'\r')
    → scan_from in_comment v (body ++ e ∷ s)
      ≡ record { type = comment; value = v ++ body; rest = s }
unfolding scan_from scan
scan_from-comment [] v e s h k = rw append-nil (ground arith)
scan_from-comment (c ∷ body) v e s (h, hs) k =
    ground (arith, scan_from-comment body (v ++ c ∷ []) e s hs k, append_assoc v (c ∷ []) body)

pub parse_token-comment :
    (body : Bytes) (e : ℕ) (s : Bytes)
    → All (λ d. (d ≢ b'\n') × (d ≢ b'\r')) body
    → (e ≡ b'\n') ⊎ (e ≡ b'\r')
    → parse_token (b'#' ∷ (body ++ e ∷ s))
      ≡ record { type = comment; value = b'#' ∷ body; rest = s }
unfolding parse_token
parse_token-comment body e s h k = scan_from-comment body (b'#' ∷ []) e s h k

pub parse_token-statement_end :
    (s : Bytes)
    → parse_token (b';' ∷ s) ≡ record { type = statement_end; value = b';' ∷ []; rest = s }
unfolding parse_token
parse_token-statement_end s = refl

pub parse_token-start_block :
    (s : Bytes)
    → parse_token (b'{' ∷ s) ≡ record { type = start_block; value = b'{' ∷ []; rest = s }
unfolding parse_token
parse_token-start_block s = refl

pub parse_token-end_block :
    (s : Bytes) → parse_token (b'}' ∷ s) ≡ record { type = end_block; value = b'}' ∷ []; rest = s }
unfolding parse_token
parse_token-end_block s = refl

scan_from-unfinished :
    (w v : Bytes)
    → All (λ d. is_delimiter d ≡ false) w
    → scan_from in_normal v w ≡ record { type = eof; value = v ++ w; rest = [] }
unfolding scan_from scan
scan_from-unfinished [] v h = rw append-nil
scan_from-unfinished (c ∷ w) v (h, hs) =
    rw h (scan_from-unfinished w (v ++ c ∷ []) hs ∙ rw append_assoc)

-- A word with no delimiter behind it is reported as the end of the file.
pub parse_token-unfinished :
    (c : ℕ) (w : Bytes)
    → is_special c ≡ false
    → All (λ d. is_delimiter d ≡ false) w
    → parse_token (c ∷ w) ≡ record { type = eof; value = c ∷ w; rest = [] }
unfolding parse_token
parse_token-unfinished c w h hs = ground (arith, scan_from-unfinished w (c ∷ []) hs)
