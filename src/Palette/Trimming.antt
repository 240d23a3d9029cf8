-- ===== src/Palette/Trimming.antt =====
-- What `trim_whitespace` removes.
use server_spring.Base.{
  ℕ, suc, ◌+◌, ◌≡◌, ◌⊎◌, inl, inr, refl, ap, arith, true, false, [], ◌∷◌, ◌++◌, Bytes, All, take,
  none, some, Bool-cases, Option-cases,
}
use server_spring.Palette.Input.{is_white, find_last_not_of, trim_whitespace}

-- `t` is `s` without the white space at its end: what is behind `t` is white, and `t` is empty or
-- ends in a byte that is not.
pub record IsCut (s t : Bytes) : Type 0 where
  pub white : Bytes
  pub is_rest : s ≡ t ++ white
  pub all_white : All (λ c. is_white c ≡ true) white
  pub ends : (t ≡ []) ⊎ ((front : Bytes) × (c : ℕ) × (t ≡ front ++ c ∷ []) × (is_white c ≡ false))

find_last_not_of-none : (s : Bytes) → find_last_not_of s ≡ none → All (λ c. is_white c ≡ true) s
unfolding trim_whitespace
find_last_not_of-none [] h = tt
find_last_not_of-none (c ∷ s) h = elim (Option-cases (find_last_not_of s)) [
  | inl e ↦ elim (Bool-cases (is_white c)) [
    | inl w ↦ (w, find_last_not_of-none s e)
    | inr w ↦ cc (rw (e, w) at h)
  ]
  | inr (i, e) ↦ cc (rw e at h)
]

find_last_not_of-some :
    (s : Bytes) (i : ℕ)
    → find_last_not_of s ≡ some i
    → (front : Bytes) × (c : ℕ) × (white : Bytes) × (take (suc i) s ≡ front ++ c ∷ [])
      × (s ≡ (front ++ c ∷ []) ++ white)
      × (is_white c ≡ false)
      × All (λ d. is_white d ≡ true) white
unfolding trim_whitespace
find_last_not_of-some [] i h = cc
find_last_not_of-some (c ∷ s) i h = elim (Option-cases (find_last_not_of s)) [
  | inl e ↦ elim (Bool-cases (is_white c)) [
    | inl w ↦ cc (rw (e, w) at h)
    | inr w ↦
        let zero_i : i ≡ 0 = cc (rw (e, w) at h) in
        ([], c, s, rw zero_i refl, refl, w, find_last_not_of-none s e)
  ]
  | inr (j, e) ↦
      let (front, d, white, q, r, n, a) = find_last_not_of-some s j e in
      let suc_i : i ≡ suc j = cc (rw e at h) in
      (c ∷ front, d, white, rw suc_i (ap (λ t. c ∷ t) q), ap (λ t. c ∷ t) r, n, a)
]

-- `trim_whitespace` removes the white space at the end of a string, all of it, and no byte else: the
-- white space at its front stays.
pub trim_whitespace-IsCut : (s : Bytes) → IsCut s (trim_whitespace s)
unfolding trim_whitespace
trim_whitespace-IsCut s = elim (Option-cases (find_last_not_of s)) [
  | inl e ↦
      rw (e, trim_whitespace)
        (record {
          white = s;
          is_rest = refl;
          all_white = find_last_not_of-none s e;
          ends = inl refl;
        })
  | inr (i, e) ↦
      let (front, c, white, q, r, n, a) = find_last_not_of-some s i e in
      let one_more : i + 1 ≡ suc i = omega arith in
      rw (e, trim_whitespace, one_more, q)
        (record { white = white; is_rest = r; all_white = a; ends = inr (front, c, refl, n) })
]
