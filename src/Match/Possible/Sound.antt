-- ===== src/Match/Possible/Sound.antt =====
-- When `xmatch` answers 1, there is a text that both patterns match.
use undernet_cservice_p.Prelude.{
  ℕ, zero, suc, ◌≡◌, refl, inl, inr, Bool, true, [], ◌∷◌, ◌++◌, Str, length, ◌+◌, to_upper, arith,
  Bool-cases, or_true, ◌==◌, ==_iff, false≢true, ◌||◌,
}
use undernet_cservice_p.Match.Possible.{
  is_star, ends_in_star, match_x, xmatch_loop, xmatch_fuel, xmatch,
}
use undernet_cservice_p.Match.Possible.Hits.{
  Hits, done, skip, any, same, Meet, Hits-refl, star-Hits, eat_many, is_star_eq, Meet-sym,
}

is_star-Meet : (p q : Str) → is_star p ≡ true → Meet p q
is_star-Meet p q h = (q, rw (is_star_eq p h) (star-Hits q), Hits-refl q)

ends_in_star-Meet : (p q : Str) → ends_in_star p q ≡ true → Meet p q
ends_in_star-Meet [] q h = Meet-sym (is_star-Meet q [] h)
ends_in_star-Meet (c ∷ p) q h = cc

-- A common text of two patterns goes on to one for the patterns with a byte before each.
Meet-cons :
    (a b : ℕ) (p q : Str)
    → (a == b'?' || b == b'?' || to_upper a == to_upper b) ≡ true
    → Meet p q
    → Meet (a ∷ p) (b ∷ q)
Meet-cons a b p q h (s, hp, hq) = elim (or_true (a == b'?' || b == b'?') _ h) [
  | inl l ↦ elim (or_true (a == b'?') (b == b'?') l) [
    | inl e ↦ (b ∷ s, any ((==_iff a b'?').0 e) hp, same refl hq)
    | inr e ↦ (a ∷ s, same refl hp, any ((==_iff b b'?').0 e) hq)
  ]
  | inr e ↦ (a ∷ s, same refl hp, same (ground arith) hq)
]

module _ (x : Str → Str → Bool) (x-Meet : (p q : Str) → x p q ≡ true → Meet p q) where
  -- A text of `pat1` ends one of `pat2`.
  match_x-ends :
      (p q : Str) → match_x x p q ≡ true → (u : Str) × (s : Str) × Hits p s × Hits q (u ++ s)
  unfolding match_x
  match_x-ends p [] h = let (s, hp, hq) = x-Meet p [] h in ([], s, hp, hq)
  match_x-ends p (c ∷ q) h = elim (or_true _ _ h) [
    | inl e ↦ let (s, hp, hq) = x-Meet p (c ∷ q) e in ([], s, hp, hq)
    | inr e ↦ let (u, s, hp, hq) = match_x-ends p q e in (c ∷ u, s, hp, same refl hq)
  ]

  match_x-Meet : (a : ℕ) (p q : Str) → a ≡ b'*' → match_x x p q ≡ true → Meet (a ∷ p) q
  match_x-Meet a p q e h =
      let (u, s, hp, hq) = match_x-ends p q h in (u ++ s, eat_many u s e hp, hq)

  stars-Meet : (a b : ℕ) (p q : Str) → a ≡ b'*' → b ≡ b'*' → Meet (a ∷ p) q → Meet (a ∷ p) (b ∷ q)
  stars-Meet a b p q ea eb (s, h, k) = (s, h, skip eb k)

  xmatch_loop-Meet : (p q : Str) → xmatch_loop x p q ≡ true → Meet p q
  unfolding xmatch_loop
  xmatch_loop-Meet [] [] h = ([], done, done)
  xmatch_loop-Meet [] (b ∷ q) h = cc
  xmatch_loop-Meet (a ∷ p) [] h = cc
  xmatch_loop-Meet (a ∷ p) (b ∷ q) h = elim (Bool-cases (a == b'*')) [
    | inl ea ↦ elim (Bool-cases (b == b'*')) [
      | inl eb ↦ elim (or_true (match_x x p q) (match_x x q p) (ground arith)) [
        | inl e ↦
            stars-Meet a b p q (ground arith) (ground arith) (match_x-Meet a p q (ground arith) e)
        | inr e ↦
            Meet-sym (
              stars-Meet b a q p (ground arith) (ground arith)
                (match_x-Meet b q p (ground arith) e))
      ]
      | inr nb ↦ match_x-Meet a p (b ∷ q) (ground arith) (ground arith)
    ]
    | inr na ↦ elim (Bool-cases (b == b'*')) [
      | inl eb ↦ Meet-sym (match_x-Meet b q (a ∷ p) (ground arith) (ground arith))
      | inr nb ↦ elim (Bool-cases (a == b'?' || b == b'?' || to_upper a == to_upper b)) [
        | inl fit ↦
            Meet-cons a b p q fit (elim (Bool-cases (ends_in_star p q || ends_in_star q p)) [
              | inl e ↦ elim (or_true _ _ e) [
                | inl l ↦ ends_in_star-Meet p q l
                | inr r ↦ Meet-sym (ends_in_star-Meet q p r)
              ]
              | inr e ↦ xmatch_loop-Meet p q (rw (na, nb, fit, e) at h)
            ])
        | inr unfit ↦ absurd (false≢true (rw (na, nb, unfit) at h))
      ]
    ]
  ]

xmatch_fuel-Meet : (f : ℕ) (p q : Str) → xmatch_fuel f p q ≡ true → Meet p q
unfolding xmatch_fuel
xmatch_fuel-Meet zero p q h = cc
xmatch_fuel-Meet (suc f) p q h = elim (Bool-cases (is_star p || is_star q)) [
  | inl e ↦ elim (or_true _ _ e) [
    | inl l ↦ is_star-Meet p q l
    | inr r ↦ Meet-sym (is_star-Meet q p r)
  ]
  | inr e ↦ xmatch_loop-Meet (xmatch_fuel f) (xmatch_fuel-Meet f) p q (rw e at h)
]

-- When `xmatch` answers 1, some text fits both patterns.
pub xmatch-Meet : (p q : Str) → xmatch p q ≡ true → Meet p q
unfolding xmatch
xmatch-Meet p q h = xmatch_fuel-Meet (suc (length p + length q)) p q h
