-- ===== src/Session/Buffer.antt =====
-- What text a read passes on to `processRequest`.
use server_spring.Base.{
  ◌≤◌, ◌≡◌, ◌≢◌, refl, arith, [], ◌∷◌, ◌++◌, Bytes, All, length, length-append, length-drop, drop,
  c_str, ok, undefined, if◌then◌else◌,
}
use server_spring.Session.{receive, has_nul, read_string}

c_str-append : (b rest : Bytes) → All (λ c. c ≢ 0) b → c_str (b ++ rest) ≡ b ++ c_str rest
unfolding c_str
c_str-append [] rest h = refl
c_str-append (c ∷ b) rest (n, h) = ground (arith, n, c_str-append b rest h)

has_nul-append : (b rest : Bytes) → All (λ c. c ≢ 0) b → has_nul (b ++ rest) ≡ has_nul rest
unfolding read_string
has_nul-append [] rest h = refl
has_nul-append (c ∷ b) rest (n, h) = ground (arith, n, has_nul-append b rest h)

-- A read of bytes without a NUL passes these on, and behind them whatever the array holds up to the
-- next NUL; where there is none, the read goes past the end of the array.
pub read_string-receive :
    (bytes data_ : Bytes)
    → All (λ c. c ≢ 0) bytes
    → read_string (receive bytes data_) ≡ (
        if has_nul (drop (length bytes) data_)
        then ok (bytes ++ c_str (drop (length bytes) data_))
        else undefined)
unfolding read_string
read_string-receive bytes data_ h =
    rw
      (
        has_nul-append bytes (drop (length bytes) data_) h,
        c_str-append bytes (drop (length bytes) data_) h,
      )
      refl

pub length-receive :
    (bytes data_ : Bytes)
    → length bytes ≤ length data_
    → length (receive bytes data_) ≡ length data_
length-receive bytes data_ h =
    omega
      (arith, length-append bytes (drop (length bytes) data_), length-drop (length bytes) data_ h)
