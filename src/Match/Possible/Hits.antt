-- ===== src/Match/Possible/Hits.antt =====
-- What it means that a text fits a pattern of `xmatch`, where `*` stands for any bytes, `?` for
-- any byte, and a byte for itself in either case.
use undernet_cservice_p.Prelude.{
  ℕ, ◌≡◌, refl, [], ◌∷◌, ◌++◌, Str, to_upper, arith, str_case_eq, true,
}
use undernet_cservice_p.Match.Possible.{is_star}

pub data Hits : Str → Str → Type 0 where
  done : Hits [] []
  skip : {a : ℕ} {p s : Str} → a ≡ b'*' → Hits p s → Hits (a ∷ p) s
  eat : {a c : ℕ} {p s : Str} → a ≡ b'*' → Hits (a ∷ p) s → Hits (a ∷ p) (c ∷ s)
  any : {a c : ℕ} {p s : Str} → a ≡ b'?' → Hits p s → Hits (a ∷ p) (c ∷ s)
  same : {a c : ℕ} {p s : Str} → to_upper a ≡ to_upper c → Hits p s → Hits (a ∷ p) (c ∷ s)

-- Some text fits both patterns.
abbrev pub Meet : Str → Str → Type 0
Meet p q = (s : Str) × Hits p s × Hits q s

-- A pattern fits itself, read as a text.
pub Hits-refl : (p : Str) → Hits p p
Hits-refl [] = done
Hits-refl (a ∷ p) = same refl (Hits-refl p)

pub star-Hits : (s : Str) → Hits (b'*' ∷ []) s
star-Hits [] = skip refl done
star-Hits (c ∷ s) = eat refl (star-Hits s)

pub eat_many : {a : ℕ} {p : Str} (u s : Str) → a ≡ b'*' → Hits p s → Hits (a ∷ p) (u ++ s)
eat_many [] s e h = skip e h
eat_many (c ∷ u) s e h = eat e (eat_many u s e h)

pub is_star_eq : (p : Str) → is_star p ≡ true → p ≡ b'*' ∷ []
unfolding str_case_eq to_upper
is_star_eq [] h = cc
is_star_eq (a ∷ []) h = ground arith
is_star_eq (a ∷ b ∷ p) h = ground arith

pub Meet-sym : {p q : Str} → Meet p q → Meet q p
Meet-sym (s, h, k) = (s, k, h)
