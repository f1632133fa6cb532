-- ===== src/Modes/Bans.antt =====
-- The ban list is a set of masks, which are told apart by their first 79 bytes, case ignored.
use undernet_cservice_p.Prelude.{
  ℕ, zero, suc, ◌≡◌, ◌↔◌, refl, ap, sym, ◌∙◌, true, false, false≢true, not, ◌&&◌, ◌||◌, Bool-cases,
  inl, inr, List, [], ◌∷◌, map, Str, take, to_upper, str_case_eq_iff, arith, length, ◌≤◌,
  length-take,
}
use undernet_cservice_p.Modes.{same_ban, has_ban, add_to_bans, rem_from_bans}

-- What of a mask is compared.
abbrev key : Str → Str
key a = map to_upper (take 79 a)

same_ban_iff : (a b : Str) → (same_ban a b ≡ true) ↔ (key a ≡ key b)
unfolding same_ban
same_ban_iff a b = str_case_eq_iff (take 79 a) (take 79 b)

take-take : (n : ℕ) (s : Str) → take n (take n s) ≡ take n s
take-take zero s = refl
take-take (suc n) [] = refl
take-take (suc n) (c ∷ s) = ap (λ l. c ∷ l) (take-take n s)

same_ban-take : (p q : Str) → same_ban (take 79 p) q ≡ same_ban p q
unfolding same_ban
same_ban-take p q = rw take-take

same_ban_sym : (a b : Str) → same_ban a b ≡ same_ban b a
same_ban_sym a b = elim (Bool-cases (same_ban b a)) [
  | inl h ↦ (same_ban_iff a b).1 (sym ((same_ban_iff b a).0 h)) ∙ sym h
  | inr h ↦ elim (Bool-cases (same_ban a b)) [
    | inl k ↦ absurd (false≢true (sym h ∙ (same_ban_iff b a).1 (sym ((same_ban_iff a b).0 k))))
    | inr k ↦ k ∙ sym h
  ]
]

same_ban_refl : (a : Str) → same_ban a a ≡ true
same_ban_refl a = (same_ban_iff a a).1 refl

-- Whether two masks are compared equal depends on their keys alone.
same_ban_cong : (a b q : Str) → same_ban a b ≡ true → same_ban a q ≡ same_ban b q
same_ban_cong a b q e =
    let eq = (same_ban_iff a b).0 e in
    elim (Bool-cases (same_ban b q)) [
      | inl h ↦ (same_ban_iff a q).1 (eq ∙ (same_ban_iff b q).0 h) ∙ sym h
      | inr h ↦ elim (Bool-cases (same_ban a q)) [
        | inl k ↦
            absurd (false≢true (sym h ∙ (same_ban_iff b q).1 (sym eq ∙ (same_ban_iff a q).0 k)))
        | inr k ↦ k ∙ sym h
      ]
    ]

-- No two bans are the same, and each fits its field.
abbrev pub IsBanList : List Str → Type 0
IsBanList [] = Unit
IsBanList (b ∷ bans) = (has_ban b bans ≡ false) × (length b ≤ 79) × IsBanList bans

has_ban_cong : (a b : Str) (bans : List Str) → same_ban a b ≡ true → has_ban a bans ≡ has_ban b bans
unfolding has_ban
has_ban_cong a b [] e = refl
has_ban_cong a b (x ∷ bans) e =
    ground
      (arith, same_ban_sym x a, same_ban_sym x b, same_ban_cong a b x e, has_ban_cong a b bans e)

has_old :
    (p q : Str) (bans : List Str)
    → has_ban p bans ≡ true
    → has_ban q bans ≡ (same_ban p q || has_ban q bans)
has_old p q bans e = elim (Bool-cases (same_ban p q)) [
  | inl s ↦ rw s (sym (has_ban_cong p q bans s) ∙ e)
  | inr s ↦ rw s
]

has_ban-take : (p : Str) (bans : List Str) → has_ban (take 79 p) bans ≡ has_ban p bans
has_ban-take p bans = has_ban_cong (take 79 p) p bans (same_ban-take p p ∙ same_ban_refl p)

-- On a list without doubles whose masks have at most 79 bytes, after `AddBan` a mask is on the list
-- exactly when it was, or is the one added; the list stays one of that kind.
pub has_ban-add :
    (p q : Str) (bans : List Str)
    → IsBanList bans
    → (has_ban q (add_to_bans p bans) ≡ (same_ban p q || has_ban q bans))
      × IsBanList (add_to_bans p bans)
unfolding add_to_bans
has_ban-add p q bans h = elim (Bool-cases (has_ban p bans)) [
  | inl e ↦ rw e (has_old p q bans e, h)
  | inr e ↦ rw e (
    unfold has_ban in (ground (arith, same_ban-take p q)),
    (has_ban-take p bans ∙ e, omega (arith, length-take 79 p), h),
  )
]

-- On a list without doubles whose masks have at most 79 bytes, after `RemBan` a mask is on the list
-- exactly when it was and is not the one removed; the list stays one of that kind.
pub has_ban-rem :
    (p q : Str) (bans : List Str)
    → IsBanList bans
    → (has_ban q (rem_from_bans p bans) ≡ (not (same_ban p q) && has_ban q bans))
      × IsBanList (rem_from_bans p bans)
unfolding rem_from_bans has_ban
has_ban-rem p q [] h = (ground arith, tt)
has_ban-rem p q (b ∷ bans) h = elim (Bool-cases (same_ban b p)) [
  | inl e ↦ rw e (
    ground (arith, same_ban_cong b p q e, has_ban_cong b p bans e, h.0, has_ban_cong p q bans),
    h.2,
  )
  | inr e ↦
      let (law, kept) = has_ban-rem p q bans h.2 in
      let (own, _) = has_ban-rem p b bans h.2 in
      rw e (
        ground (arith, law, same_ban_cong b q p, same_ban_sym q p),
        (ground (arith, own, h.0), h.1, kept),
      )
]
