-- ===== src/Match/Case.antt =====
-- Sources/match.c: mycasecmp, mystrcasestr and key_match, which compare text without case.
use undernet_cservice_p.Prelude.{
  ℕ, ◌≡◌, ◌≢◌, ◌↔◌, refl, ap, ◌∙◌, Bool, true, false, Option, none, some, List, [], ◌∷◌, ◌++◌, map,
  arith, ◌==◌, if◌then◌else◌, Str, to_upper, to_upper_zero, ℤ, pos, sub_ℕ, All, Bool-cases,
  Option-cases, inl, inr,
}

-- A byte of a C string is not zero.
abbrev pub NoNul : Str → Type 0
NoNul s = All (λ c. c ≢ 0) s

-- The loop of `mycasecmp`: at the end of a string the byte read is zero.
unfoldable pub mycasecmp : Str → Str → ℤ
mycasecmp [] [] = pos 0
mycasecmp [] (d ∷ t) = sub_ℕ 0 (to_upper d)
mycasecmp (c ∷ s) [] = sub_ℕ (to_upper c) 0
mycasecmp (c ∷ s) (d ∷ t) =
    if to_upper c == to_upper d then mycasecmp s t else sub_ℕ (to_upper c) (to_upper d)

-- The inner loop of `mystrcasestr`: whether `b` is used up.
unfoldable pub case_prefix : Str → Str → Bool
case_prefix [] a = true
case_prefix (c ∷ b) [] = false
case_prefix (c ∷ b) (d ∷ a) = if to_upper d == to_upper c then case_prefix b a else false

-- The pointer returned is the rest of the text from there on.
unfoldable pub mystrcasestr : Str → Str → Option Str
mystrcasestr [] s2 = none
mystrcasestr (c ∷ s1) s2 = if case_prefix s2 (c ∷ s1) then some (c ∷ s1) else mystrcasestr s1 s2

-- `tok` is the array up to its NULL.
pub key_match : Str → List Str → Bool
key_match s [] = true
key_match s (t ∷ tok) = elim (mystrcasestr s t) [ none ↦ false | some _ ↦ key_match s tok ]

-- On two strings without a zero byte, the result of `mycasecmp` is zero exactly when they are equal
-- up to the case of their letters.
pub mycasecmp_zero_iff :
    (s t : Str) → NoNul s → NoNul t → (mycasecmp s t ≡ pos 0) ↔ (map to_upper s ≡ map to_upper t)
unfolding mycasecmp
mycasecmp_zero_iff [] [] hs ht = ground arith
mycasecmp_zero_iff [] (d ∷ t) hs ht = ground (arith, ht.0, to_upper_zero d)
mycasecmp_zero_iff (c ∷ s) [] hs ht = ground (arith, hs.0, to_upper_zero c)
mycasecmp_zero_iff (c ∷ s) (d ∷ t) hs ht = ground (arith, mycasecmp_zero_iff s t hs.1 ht.1)

-- The text `r` begins with `t`, up to the case of letters.
abbrev pub BeginsWith : Str → Str → Type 0
BeginsWith t r = (q : Str) × (map to_upper r ≡ map to_upper t ++ q)

case_prefix→BeginsWith : (t r : Str) → case_prefix t r ≡ true → BeginsWith t r
unfolding case_prefix
case_prefix→BeginsWith [] r h = (map to_upper r, refl)
case_prefix→BeginsWith (c ∷ t) [] h = ground arith
case_prefix→BeginsWith (c ∷ t) (d ∷ r) h =
    let rest = case_prefix→BeginsWith t r (ground arith) in (rest.0, ground (arith, rest.1))

BeginsWith→case_prefix :
    (t r q : Str) → map to_upper r ≡ map to_upper t ++ q → case_prefix t r ≡ true
unfolding case_prefix
BeginsWith→case_prefix [] r q h = refl
BeginsWith→case_prefix (c ∷ t) [] q h = cc
BeginsWith→case_prefix (c ∷ t) (d ∷ r) q h = ground (arith, BeginsWith→case_prefix t r q)

-- What a search that finds `r` promises: `r` ends the text, it begins with the key, and no
-- earlier place of the text does.
pub record FirstOccurrence (s t r : Str) : Type 0 where
  pub before : Str
  pub splits : s ≡ before ++ r
  pub here : BeginsWith t r
  pub first : (p : Str) (c : ℕ) (q : Str) → before ≡ p ++ c ∷ q → ¬ BeginsWith t (c ∷ q ++ r)

-- Some place of the text, before its end, begins with the key.
abbrev pub Occurs : Str → Str → Type 0
Occurs t s = (p : Str) × (c : ℕ) × (q : Str) × (s ≡ p ++ c ∷ q) × BeginsWith t (c ∷ q)

nil_ne_middle : (p : Str) (x : ℕ) (q : Str) → ◌≢◌ {A = Str} [] (p ++ x ∷ q)
nil_ne_middle [] x q e = cc
nil_ne_middle (y ∷ p) x q e = cc

first_step :
    {s1 r before : Str} {c : ℕ} (t : Str)
    → case_prefix t (c ∷ s1) ≡ false
    → s1 ≡ before ++ r
    → ((p : Str) (x : ℕ) (q : Str) → before ≡ p ++ x ∷ q → ¬ BeginsWith t (x ∷ q ++ r))
    → (p : Str) (x : ℕ) (q : Str) → c ∷ before ≡ p ++ x ∷ q
    → ¬ BeginsWith t (x ∷ q ++ r)
first_step {s1} {r} {before} {c} t no_prefix splits first [] x q e b =
    let whole : c ∷ s1 ≡ x ∷ q ++ r = cc in
    let yes_prefix = BeginsWith→case_prefix t (c ∷ s1) b.0 (ap (map to_upper) whole ∙ b.1) in cc
first_step t no_prefix splits first (y ∷ p) x q e b = first p x q (cc) b

-- When `mystrcasestr` returns a pointer, it points at the first place where the text begins with
-- the key, case ignored.
pub mystrcasestr_first : (s t r : Str) → mystrcasestr s t ≡ some r → FirstOccurrence s t r
unfolding mystrcasestr
mystrcasestr_first [] t r h = cc
mystrcasestr_first (c ∷ s1) t r h = elim (Bool-cases (case_prefix t (c ∷ s1))) [
  | inl e ↦
      let same : c ∷ s1 ≡ r = ground arith in
      rw (← same) (record {
        before = [];
        splits = refl;
        here = case_prefix→BeginsWith t (c ∷ s1) e;
        first = λ p x q eq. absurd (nil_ne_middle p x q eq);
      })
  | inr e ↦
      let found = mystrcasestr_first s1 t r (ground arith) in
      record {
        before = c ∷ found.before;
        splits = ap (λ l. c ∷ l) found.splits;
        here = found.here;
        first = first_step t e found.splits found.first;
      }
]

-- When `mystrcasestr` returns NULL, the text begins with the key at none of its places.
pub mystrcasestr-none : (s t : Str) → mystrcasestr s t ≡ none → ¬ Occurs t s
unfolding mystrcasestr
mystrcasestr-none [] t h (p, x, q, e, b) = nil_ne_middle p x q e
mystrcasestr-none (c ∷ s1) t h ([], x, q, e, b) =
    let whole : c ∷ s1 ≡ x ∷ q = e in
    let yes_prefix = BeginsWith→case_prefix t (c ∷ s1) b.0 (ap (map to_upper) whole ∙ b.1) in
    ground arith
mystrcasestr-none (c ∷ s1) t h (y ∷ p, x, q, e, b) =
    mystrcasestr-none s1 t (ground arith) (p, x, q, cc, b)

found→Occurs : (s t r : Str) → mystrcasestr s t ≡ some r → Occurs t s
unfolding mystrcasestr
found→Occurs [] t r h = cc
found→Occurs (c ∷ s1) t r h = elim (Bool-cases (case_prefix t (c ∷ s1))) [
  | inl e ↦ ([], c, s1, refl, case_prefix→BeginsWith t (c ∷ s1) e)
  | inr e ↦
      let (p, x, q, eq, b) = found→Occurs s1 t r (ground arith) in
      (c ∷ p, x, q, ap (λ l. c ∷ l) eq, b)
]

-- `key_match` answers 1 exactly when every key occurs in the text, case ignored.
pub key_match_iff :
    (s : Str) (tok : List Str) → (key_match s tok ≡ true) ↔ All (λ t. Occurs t s) tok
unfolding key_match
key_match_iff s [] = (λ _. tt, λ _. refl)
key_match_iff s (t ∷ tok) = elim (Option-cases (mystrcasestr s t)) [
  | inl e ↦ (λ h. ground arith, λ h. absurd (mystrcasestr-none s t e h.0))
  | inr (r, e) ↦ (
    λ h. (found→Occurs s t r e, (key_match_iff s tok).0 (ground arith)),
    λ h. ground (arith, (key_match_iff s tok).1 h.1),
  )
]
