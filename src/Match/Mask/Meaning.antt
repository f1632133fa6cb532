-- ===== src/Match/Mask/Meaning.antt =====
-- What a mask means: its items, and the texts that fit them, with no search order in it.
use undernet_cservice_p.Prelude.{
  ℕ, suc, ◌≡◌, ◌≢◌, ◌↔◌, ◌≤◌, refl, true, false, Option, none, some, List, [], ◌∷◌, ◌==◌,
  if◌then◌else◌, Str, to_upper, length, arith, Bool-cases, ==_iff, inl, inr,
}
use undernet_cservice_p.Match.Mask.{backslash, skip_stars, read_mask}

-- A star, any byte, a byte in either case, or a `\` at the end of the mask, which fits nothing.
pub data Item : Type 0 where
  star wild never : Item
  lit : ℕ → Item

unfoldable pub items : Str → List Item
items [] = []
items (a ∷ []) =
    if a == b'*'
    then star ∷ []
    else if a == backslash
    then never ∷ []
    else if a == b'?'
    then wild ∷ []
    else lit a ∷ []
items (a ∷ d ∷ p) =
    let rest = items (d ∷ p) in
    let quoted = items p in
    if a == b'*'
    then star ∷ rest
    else if a == backslash
    then lit d ∷ quoted
    else if a == b'?'
    then wild ∷ rest
    else lit a ∷ rest

abbrev pub Accepts : Item → ℕ → Type 0
Accepts star c = ⊥
Accepts wild c = Unit
Accepts never c = ⊥
Accepts (lit d) c = to_upper c ≡ to_upper d

-- `Fits p s`: the text `s` fits the items `p`.
pub data Fits : List Item → Str → Type 0 where
  nothing : Fits [] []
  skip : {p : List Item} {s : Str} → Fits p s → Fits (star ∷ p) s
  take_byte : {c : ℕ} {p : List Item} {s : Str} → Fits (star ∷ p) s → Fits (star ∷ p) (c ∷ s)
  byte :
      {i : Item} {c : ℕ} {p : List Item} {s : Str} → Accepts i c → Fits p s → Fits (i ∷ p) (c ∷ s)

pub at_end : {p : List Item} → Fits (star ∷ p) [] → Fits p []
at_end (skip h) = h

no_byte : {i : Item} {p : List Item} → i ≢ star → ¬ Fits (i ∷ p) []
no_byte n (skip h) = n refl

module _ {p : List Item} where
  pub fold_stars : {s : Str} → Fits (star ∷ star ∷ p) s → Fits (star ∷ p) s
  fold_stars (skip h) = h
  fold_stars (take_byte h) = take_byte (fold_stars h)
  fold_stars (byte a h) = absurd a

  pub take_one : {c : ℕ} {s : Str} → Fits (star ∷ p) (c ∷ s) → ¬ Fits p (c ∷ s) → Fits (star ∷ p) s
  take_one (skip h) n = absurd (n h)
  take_one (take_byte h) n = h
  take_one (byte a h) n = absurd a

  pub byte_inv :
      {i : Item} {c : ℕ} {s : Str} → i ≢ star → Fits (i ∷ p) (c ∷ s) → Accepts i c × Fits p s
  byte_inv n (skip h) = absurd (n refl)
  byte_inv n (take_byte h) = absurd (n refl)
  byte_inv n (byte a h) = (a, h)

  -- After a star, giving up an item and the byte in front loses nothing.
  pub drop_item :
      {i : Item} {c : ℕ} (s : Str) → i ≢ star → Fits (star ∷ i ∷ p) (c ∷ s) → Fits (star ∷ p) s
  drop_item s n (skip h) = skip (byte_inv n h).1
  drop_item [] n (take_byte h) = absurd (no_byte n (at_end h))
  drop_item (d ∷ s) n (take_byte h) = take_byte (drop_item s n h)
  drop_item s n (byte a h) = absurd a

pub items-star : (a : ℕ) (p : Str) → (a == b'*') ≡ true → items (a ∷ p) ≡ star ∷ items p
unfolding items
items-star a [] h = ground arith
items-star a (d ∷ p) h = ground arith

pub Fits-skip_stars :
    (p : Str) {s : Str} → Fits (star ∷ items p) s ↔ Fits (star ∷ items (skip_stars p)) s
unfolding skip_stars
Fits-skip_stars [] = (λ h. h, λ h. h)
Fits-skip_stars (a ∷ p) = elim (Bool-cases (a == b'*')) [
  | inl e ↦
      let (to, back) = Fits-skip_stars p in
      rw (e, items-star a p e) (λ h. to (fold_stars h), λ h. skip (back h))
  | inr e ↦ rw e (λ h. h, λ h. h)
]

pub length-skip_stars-le : (p : Str) → length (skip_stars p) ≤ length p
unfolding skip_stars
length-skip_stars-le [] = omega arith
length-skip_stars-le (a ∷ p) = ground (arith, length-skip_stars-le p)

-- What `match` reads of a mask that does not begin with a star.
abbrev pub read : ℕ → Str → ℕ → Option Str
read d p c = if d == backslash then read_mask true p c else read_mask false (d ∷ p) c

-- The first item of a mask, and what follows it.
pub record FirstItem (d : ℕ) (p : Str) : Type 0 where
  pub item : Item
  pub rest : Str
  pub no_star : item ≢ star
  pub splits : items (d ∷ p) ≡ item ∷ items rest
  pub shorter : length rest ≤ length p
  pub reads : (c : ℕ) (mask : Str) → read d p c ≡ some mask → Accepts item c × (mask ≡ rest)
  pub refuses : (c : ℕ) → read d p c ≡ none → ¬ Accepts item c

first_escaped : (d : ℕ) (p : Str) → (d == backslash) ≡ true → FirstItem d p
unfolding items read_mask
first_escaped d [] e = record {
  item = never;
  rest = [];
  no_star = λ h. cc;
  splits = ground arith;
  shorter = omega arith;
  reads = λ c mask h. ground arith;
  refuses = λ c h a. a;
}
first_escaped d (x ∷ p) e = record {
  item = lit x;
  rest = p;
  no_star = λ h. cc;
  splits = ground arith;
  shorter = omega arith;
  reads = λ c mask h. (ground arith, ground arith);
  refuses = λ c h a. ground arith;
}

items-wild : (d : ℕ) (p : Str) → (d == b'?') ≡ true → items (d ∷ p) ≡ wild ∷ items p
unfolding items
items-wild d [] e = ground arith
items-wild d (x ∷ p) e = ground arith

pub items-lit :
    (d : ℕ) (p : Str)
    → (d == b'*') ≡ false
    → (d == backslash) ≡ false
    → (d == b'?') ≡ false
    → items (d ∷ p) ≡ lit d ∷ items p
unfolding items
items-lit d [] n e w = ground arith
items-lit d (x ∷ p) n e w = ground arith

first_wild : (d : ℕ) (p : Str) → (d == b'?') ≡ true → FirstItem d p
unfolding read_mask
first_wild d p w = record {
  item = wild;
  rest = p;
  no_star = λ h. cc;
  splits = items-wild d p w;
  shorter = omega arith;
  reads = λ c mask h. (tt, ground arith);
  refuses = λ c h a. ground arith;
}

first_lit :
    (d : ℕ) (p : Str)
    → (d == b'*') ≡ false
    → (d == backslash) ≡ false
    → (d == b'?') ≡ false
    → FirstItem d p
unfolding read_mask
first_lit d p n e w = record {
  item = lit d;
  rest = p;
  no_star = λ h. cc;
  splits = items-lit d p n e w;
  shorter = omega arith;
  reads = λ c mask h. (ground arith, ground arith);
  refuses = λ c h a. ground arith;
}

pub first_item : (d : ℕ) (p : Str) → (d == b'*') ≡ false → FirstItem d p
first_item d p n = elim (Bool-cases (d == backslash)) [
  | inl e ↦ first_escaped d p e
  | inr e ↦ elim (Bool-cases (d == b'?')) [ inl w ↦ first_wild d p w | inr w ↦ first_lit d p n e w ]
]

pub items-nil : items [] ≡ []
unfolding items
items-nil = refl

pub skip_stars_end : (p : Str) → ((length (skip_stars p) == 0) ≡ true) ↔ Fits (items p) []
unfolding skip_stars
skip_stars_end [] = rw items-nil (λ _. nothing, λ _. refl)
skip_stars_end (a ∷ p) = elim (Bool-cases (a == b'*')) [
  | inl e ↦
      let (to, back) = skip_stars_end p in
      rw (e, items-star a p e) (λ h. skip (to h), λ h. back (at_end h))
  | inr n ↦
      let f = first_item a p n in
      rw (n, f.splits)
        (
          λ h. absurd (omega (arith, (==_iff (suc (length p)) 0).0 h)),
          λ h. absurd (no_byte f.no_star h),
        )
]
