-- ===== src/Routes/Matching.antt =====
-- `longest_prefix_matching` against its specification.
use server_spring.Base.{
  ℕ, ◌≤◌, ◌<◌, ◌≡◌, ◌⊎◌, inl, inr, refl, sym, subst, arith, true, false, ◌&&◌, [], ◌∷◌, Bytes,
  codes, equal, equal_iff, ltb, length, take, All, Bool-cases,
}
use server_spring.Routes.{RequestHandlerFactory, Routes, match_from, longest_prefix_matching}

-- `key` begins `uri`
abbrev pub Begins : Bytes → Bytes → Type 0
Begins key uri = key ≡ take (length key) uri

-- the keys of the routes
pub data HasKey (key : Bytes) : Routes → Type 0 where
  here : {f : RequestHandlerFactory} {rs : Routes} → HasKey key ((key, f) ∷ rs)
  there : {e : Bytes × RequestHandlerFactory} {rs : Routes} → HasKey key rs → HasKey key (e ∷ rs)

-- no key that begins the URI is longer than `n`
abbrev pub NoneLonger : Routes → Bytes → ℕ → Type 0
NoneLonger routes uri n = (key : Bytes) → HasKey key routes → Begins key uri → length key ≤ n

-- What the matched location is: the longest key that begins the URI, or "/" where only the empty
-- key does, or none.
pub data IsLongest (routes : Routes) (uri matched : Bytes) : Type 0 where
  longest :
      HasKey matched routes
      → Begins matched uri
      → 0 < length matched
      → NoneLonger routes uri (length matched)
      → IsLongest routes uri matched
  fallback : matched ≡ codes "/" → NoneLonger routes uri 0 → IsLongest routes uri matched

-- what the loop gives: the location it had, or one of the routes that is longer
abbrev Outcome : Bytes → Bytes → ℕ → Routes → Bytes → Type 0
Outcome uri matched n routes result =
    ((result ≡ matched) × NoneLonger routes uri n)
    ⊎ (HasKey result routes
        × Begins result uri
        × (n < length result)
        × NoneLonger routes uri (length result))

add_head :
    {uri root : Bytes} {f : RequestHandlerFactory} {n : ℕ} {rs : Routes}
    → (Begins root uri → length root ≤ n)
    → NoneLonger rs uri n
    → NoneLonger ((root, f) ∷ rs) uri n
add_head h l key here b = h b
add_head h l key (there k) b = l key k b

module _ {uri matched root result : Bytes} {f : RequestHandlerFactory} {n : ℕ} {rs : Routes} where
  taken :
      (equal root (take (length root) uri) && ltb n (length root)) ≡ true
      → Outcome uri root (length root) rs result
      → Outcome uri matched n ((root, f) ∷ rs) result
  taken e (inl (q, l)) =
      let p =
        subst
          (λ r.
            HasKey r ((root, f) ∷ rs)
            × Begins r uri
            × (n < length r)
            × NoneLonger ((root, f) ∷ rs) uri (length r))
          (sym q)
          (
            here,
            ground (arith, e, equal_iff root (take (length root) uri)),
            ground (arith, e),
            add_head (λ _. omega arith) l,
          ) in
      inr p
  taken e (inr (k, b, h, l)) =
      inr (there k, b, ground (arith, e, h), add_head (λ _. omega (arith, h)) l)

  skipped :
      (equal root (take (length root) uri) && ltb n (length root)) ≡ false
      → Outcome uri matched n rs result
      → Outcome uri matched n ((root, f) ∷ rs) result
  skipped e (inl (q, l)) =
      inl (q, add_head (λ b. ground (arith, e, b, equal_iff root (take (length root) uri))) l)
  skipped e (inr (k, b, h, l)) = inr (
    there k,
    b,
    h,
    add_head (λ c. ground (arith, e, c, h, equal_iff root (take (length root) uri))) l,
  )

match_from_lem :
    (uri matched : Bytes) (n : ℕ) (rs : Routes)
    → Outcome uri matched n rs (match_from uri matched n rs)
unfolding match_from
match_from_lem uri matched n [] = inl (refl, λ key k b. elim k [ ])
match_from_lem uri matched n ((root, f) ∷ rs) =
    elim (Bool-cases (equal root (take (length root) uri) && ltb n (length root))) [
      | inl e ↦ rw e (taken e (match_from_lem uri root (length root) rs))
      | inr e ↦ rw e (skipped e (match_from_lem uri matched n rs))
    ]

-- The location that is matched is the longest key that begins the URI; where no key of one byte or
-- more begins it, it is "/".
pub longest_prefix_matching-IsLongest :
    (routes : Routes) (uri : Bytes) → IsLongest routes uri (longest_prefix_matching routes uri)
unfolding longest_prefix_matching
longest_prefix_matching-IsLongest routes uri = elim (match_from_lem uri (codes "/") 0 routes) [
  | inl (q, l) ↦ fallback q l
  | inr (k, b, h, l) ↦ longest k b h l
]

-- where no key begins the URI, by the test that the loop makes
pub All-NoneLonger :
    (routes : Routes) (uri : Bytes)
    → All (λ e. equal e.0 (take (length e.0) uri) ≡ false) routes
    → NoneLonger routes uri 0
All-NoneLonger [] uri a key k b = elim k [ ]
All-NoneLonger ((root, f) ∷ rs) uri (e, a) _ here b =
    ground (arith, e, b, equal_iff root (take (length root) uri))
All-NoneLonger ((root, f) ∷ rs) uri (e, a) key (there k) b = All-NoneLonger rs uri a key k b
