-- ===== src/Match/Possible/Complete.antt =====
-- When some text fits two patterns that have no two stars in a row, `xmatch` answers 1, and its
-- nested calls are never deeper than the fuel.
use undernet_cservice_p.Prelude.{
  ℕ, zero, suc, ◌+◌, ◌≤◌, ◌<◌, ◌≡◌, ◌≢◌, ◌↔◌, refl, sym, ◌⊎◌, inl, inr, Bool, true, false, [], ◌∷◌,
  ◌++◌, Str, length, to_upper, arith, Bool-cases, ◌==◌, ==_iff, ◌||◌, str_case_eq, ap, ◌∙◌, subst,
}
use undernet_cservice_p.Match.Possible.{
  is_star, ends_in_star, match_x, xmatch_loop, xmatch_fuel, xmatch,
}
use undernet_cservice_p.Match.Possible.Hits.{
  Hits, done, skip, eat, any, same, Meet, Meet-sym, eat_many,
}
use undernet_cservice_p.Match.Possible.Sound.{xmatch-Meet}

-- No star stands next to another.
abbrev pub Spaced : Str → Type 0
Spaced [] = Unit
Spaced (a ∷ []) = Unit
Spaced (a ∷ b ∷ p) = ((a ≡ b'*') → b ≢ b'*') × Spaced (b ∷ p)

Spaced-tail : (a : ℕ) (p : Str) → Spaced (a ∷ p) → Spaced p
Spaced-tail a [] h = tt
Spaced-tail a (b ∷ p) h = h.1

-- An end of `q`.
data Ends : Str → Str → Type 0 where
  whole : {q : Str} → Ends q q
  later : {a : ℕ} {r q : Str} → Ends r q → Ends r (a ∷ q)

Ends-Spaced : {r q : Str} → Ends r q → Spaced q → Spaced r
Ends-Spaced whole h = h
Ends-Spaced (later {a} {q} e) h = Ends-Spaced e (Spaced-tail a q h)

Ends-length : {r q : Str} → Ends r q → length r ≤ length q
Ends-length whole = omega arith
Ends-length (later e) = omega (arith, Ends-length e)

-- A text that ends one of `q` fits an end of `q`.
split_Hits :
    {q t : Str} → Hits q t → (u : Str) (s : Str) → t ≡ u ++ s → (r : Str) × Ends r q × Hits r s
split_Hits done [] s e = ([], whole, subst (Hits []) e done)
split_Hits done (c ∷ u) s e = absurd (cc)
split_Hits (skip f h) u s e = let (r, en, k) = split_Hits h u s e in (r, later en, k)
split_Hits (eat f h) [] s e = (_, whole, subst (Hits _) e (eat f h))
split_Hits (eat f h) (c ∷ u) s e = split_Hits h u s (cc)
split_Hits (any f h) [] s e = (_, whole, subst (Hits _) e (any f h))
split_Hits (any f h) (c ∷ u) s e = let (r, en, k) = split_Hits h u s (cc) in (r, later en, k)
split_Hits (same f h) [] s e = (_, whole, subst (Hits _) e (same f h))
split_Hits (same f h) (c ∷ u) s e = let (r, en, k) = split_Hits h u s (cc) in (r, later en, k)

-- A star takes some bytes, and what follows it fits the rest.
star_inv :
    {a : ℕ} {p s : Str}
    → a ≡ b'*'
    → Hits (a ∷ p) s
    → (u : Str) × (t : Str) × (s ≡ u ++ t) × Hits p t
star_inv e (skip _ h) = ([], _, refl, h)
star_inv e (eat {c} _ h) = let (u, t, eq, k) = star_inv e h in (c ∷ u, t, ap (λ l. c ∷ l) eq, k)
star_inv e (any {c} {s} _ h) = (c ∷ [], s, refl, h)
star_inv e (same {c} {s} _ h) = (c ∷ [], s, refl, h)

-- Of two ends of one text, one ends the other.
ends_compare :
    (u v : Str) {s t : Str}
    → u ++ s ≡ v ++ t
    → ((w : Str) × (t ≡ w ++ s)) ⊎ ((w : Str) × (s ≡ w ++ t))
ends_compare [] v e = inr (v, e)
ends_compare (c ∷ u) [] e = inl (c ∷ u, sym e)
ends_compare (c ∷ u) (d ∷ v) e = ends_compare u v (cc)

byte_inv :
    {a c : ℕ} {p s : Str}
    → a ≢ b'*'
    → Hits (a ∷ p) (c ∷ s)
    → ((a ≡ b'?') ⊎ (to_upper a ≡ to_upper c)) × Hits p s
byte_inv n (skip e h) = absurd (n e)
byte_inv n (eat e h) = absurd (n e)
byte_inv n (any e h) = (inl e, h)
byte_inv n (same e h) = (inr e, h)

no_empty : {a : ℕ} {p : Str} → a ≢ b'*' → ¬ Hits (a ∷ p) []
no_empty n (skip e h) = n e

-- A pattern that fits the empty text and has no two stars in a row is a star, or empty.
only_star : (q : Str) → Spaced q → Hits q [] → (q ≡ []) ⊎ (is_star q ≡ true)
unfolding str_case_eq
only_star [] sp done = inl refl
only_star (a ∷ []) sp (skip e h) = inr (ground arith)
only_star (a ∷ b ∷ q) sp (skip e (skip f h)) = absurd (sp.0 e f)

no_star_ends :
    (p q : Str) → (is_star p || is_star q) ≡ false → (ends_in_star p q || ends_in_star q p) ≡ false
unfolding str_case_eq
no_star_ends [] [] h = ground arith
no_star_ends [] (b ∷ q) h = ground arith
no_star_ends (a ∷ p) [] h = ground arith
no_star_ends (a ∷ p) (b ∷ q) h = ground arith

module _ (x : Str → Str → Bool) (n : ℕ)
    (x_finds : (p q : Str)
      → length p + length q < n
      → Spaced p
      → Spaced q
      → Meet p q
      → x p q ≡ true) where
  match_x_end : (p : Str) {r q : Str} → Ends r q → x p r ≡ true → match_x x p q ≡ true
  unfolding match_x
  match_x_end p {q = []} whole h = h
  match_x_end p {q = c ∷ q} whole h = ground arith
  match_x_end p (later e) h = ground (arith, match_x_end p e h)

  -- A star and another pattern.
  match_x_finds :
      (a : ℕ) (p q : Str)
      → length p + length q < n
      → Spaced p
      → Spaced q
      → a ≡ b'*'
      → Meet (a ∷ p) q
      → match_x x p q ≡ true
  match_x_finds a p q m sp sq e (s, hp, hq) =
      let (u, t, eq, kp) = star_inv e hp in
      let (r, en, kr) = split_Hits hq u t eq in
      match_x_end p en
        (x_finds p r (omega (arith, Ends-length en)) sp (Ends-Spaced en sq) (t, kp, kr))

  -- Two stars.
  stars_find :
      (a b : ℕ) (p q : Str)
      → length p + length q < n
      → Spaced p
      → Spaced q
      → a ≡ b'*'
      → b ≡ b'*'
      → Meet (a ∷ p) (b ∷ q)
      → (match_x x p q || match_x x q p) ≡ true
  stars_find a b p q m sp sq ea eb (s, hp, hq) =
      let (u, s1, e1, kp) = star_inv ea hp in
      let (v, s2, e2, kq) = star_inv eb hq in
      elim (ends_compare u v (sym e1 ∙ e2)) [
        | inl (w, e) ↦
            let found = match_x_finds a p q m sp sq ea (s2, rw e (eat_many w s1 ea kp), kq) in
            ground arith
        | inr (w, e) ↦
            let found =
              match_x_finds b q p (omega arith) sq sp eb (s1, rw e (eat_many w s2 eb kq), kp) in
            ground arith
      ]

  -- Two patterns that begin with bytes other than stars.
  bytes_find :
      (a b : ℕ) (p q : Str)
      → (a == b'*') ≡ false
      → (b == b'*') ≡ false
      → Meet (a ∷ p) (b ∷ q)
      → ((ends_in_star p q || ends_in_star q p) ≡ false → Meet p q → xmatch_loop x p q ≡ true)
      → xmatch_loop x (a ∷ p) (b ∷ q) ≡ true
  unfolding xmatch_loop
  bytes_find a b p q na nb ([], hp, hq) rest = absurd (no_empty (ground arith) hp)
  bytes_find a b p q na nb (c ∷ s, hp, hq) rest =
      let (fa, kp) = byte_inv (ground arith) hp in
      let (fb, kq) = byte_inv (ground arith) hq in
      elim (Bool-cases (ends_in_star p q || ends_in_star q p)) [
        | inl e ↦ ground arith
        | inr e ↦ ground (arith, rest e (s, kp, kq))
      ]

  xmatch_loop_finds :
      (p q : Str)
      → length p + length q ≤ n
      → Spaced p
      → Spaced q
      → (ends_in_star p q || ends_in_star q p) ≡ false
      → Meet p q
      → xmatch_loop x p q ≡ true
  unfolding xmatch_loop
  xmatch_loop_finds [] [] m sp sq ns h = refl
  xmatch_loop_finds [] (b ∷ q) m sp sq ns (_, done, hq) = elim (only_star (b ∷ q) sq hq) [
    | inl e ↦ absurd (cc)
    | inr e ↦ ground arith
  ]
  xmatch_loop_finds (a ∷ p) [] m sp sq ns (_, hp, done) = elim (only_star (a ∷ p) sp hp) [
    | inl e ↦ absurd (cc)
    | inr e ↦ ground arith
  ]
  xmatch_loop_finds (a ∷ p) (b ∷ q) m sp sq ns h = elim (Bool-cases (a == b'*')) [
    | inl ea ↦ elim (Bool-cases (b == b'*')) [
      | inl eb ↦
          rw (ea, eb)
            (stars_find a b p q (omega arith) (Spaced-tail a p sp) (Spaced-tail b q sq)
              ((==_iff a b'*').0 ea) ((==_iff b b'*').0 eb) h)
      | inr nb ↦
          rw (ea, nb)
            (match_x_finds a p (b ∷ q) (omega arith) (Spaced-tail a p sp) sq ((==_iff a b'*').0 ea)
              h)
    ]
    | inr na ↦ elim (Bool-cases (b == b'*')) [
      | inl eb ↦
          rw (na, eb)
            (match_x_finds b q (a ∷ p) (omega arith) (Spaced-tail b q sq) sp ((==_iff b b'*').0 eb)
              (Meet-sym h))
      | inr nb ↦
          bytes_find a b p q na nb h
            (xmatch_loop_finds p q (omega arith) (Spaced-tail a p sp) (Spaced-tail b q sq))
    ]
  ]

xmatch_fuel_finds :
    (f : ℕ) (p q : Str)
    → length p + length q < f
    → Spaced p
    → Spaced q
    → Meet p q
    → xmatch_fuel f p q ≡ true
unfolding xmatch_fuel
xmatch_fuel_finds zero p q m sp sq h = absurd (omega arith)
xmatch_fuel_finds (suc f) p q m sp sq h = elim (Bool-cases (is_star p || is_star q)) [
  | inl e ↦ rw e
  | inr e ↦ rw e (
      xmatch_loop_finds (xmatch_fuel f) f (xmatch_fuel_finds f) p q (omega arith) sp sq
        (no_star_ends p q e) h)
]

-- On patterns without two stars in a row, `xmatch` answers 1 exactly when some text fits both.
pub xmatch_iff : (p q : Str) → Spaced p → Spaced q → (xmatch p q ≡ true) ↔ Meet p q
unfolding xmatch
xmatch_iff p q sp sq =
    (xmatch-Meet p q, xmatch_fuel_finds (suc (length p + length q)) p q (omega arith) sp sq)
