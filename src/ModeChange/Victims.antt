-- ===== src/ModeChange/Victims.antt =====
-- The history of deops of a user, which the protection against mass deops counts.
use undernet_cservice_p.Prelude.{
  ℕ, ◌+◌, ◌≡◌, refl, ◌≤◌, Bool, false, ap, leb, not, ◌&&◌, if◌then◌else◌, ◌||◌, Bool-cases, inl,
  inr, List, [], ◌∷◌, ltb, arith, All, Str, str_eq, remove_if,
}
use undernet_cservice_p.World.{Adeop}
use undernet_cservice_p.ModeChange.Opping.{is_old_deop, record_deop}

-- Nobody in the list is `num`.
abbrev pub Without : Str → List Adeop → Type 0
Without num ds = All (λ (d : Adeop). str_eq d.num num ≡ false) ds

-- The deops of others than `target` in the last 15 seconds.
unfoldable pub recent_others : ℕ → Str → List Adeop → List Adeop
unfolding str_eq
recent_others now target [] = []
recent_others now target (d ∷ ds) =
    let rest = recent_others now target ds in
    if leb now (d.time + 15) && not (str_eq d.num target) then d ∷ rest else rest

-- Every victim once.
abbrev pub AreVictims : List Adeop → Type 0
AreVictims [] = Unit
AreVictims (d ∷ ds) = Without d.num ds × AreVictims ds

module _ (now : ℕ) (target : Str) where
  remove-Without :
      (num : Str) (ds : List Adeop)
      → Without num ds
      → Without num (remove_if (is_old_deop now target) ds)
  unfolding remove_if
  remove-Without num [] h = tt
  remove-Without num (d ∷ ds) h = elim (Bool-cases (is_old_deop now target d)) [
    | inl e ↦ rw e (remove-Without num ds h.1)
    | inr e ↦ rw e (h.0, remove-Without num ds h.1)
  ]

  remove-AreVictims :
      (ds : List Adeop) → AreVictims ds → AreVictims (remove_if (is_old_deop now target) ds)
  unfolding remove_if
  remove-AreVictims [] h = tt
  remove-AreVictims (d ∷ ds) h = elim (Bool-cases (is_old_deop now target d)) [
    | inl e ↦ rw e (remove-AreVictims ds h.1)
    | inr e ↦ rw e (remove-Without d.num ds h.0, remove-AreVictims ds h.1)
  ]

  or_right : (a b : Bool) → (a || b) ≡ false → b ≡ false
  or_right a b h = ground arith

  remove-target : (ds : List Adeop) → Without target (remove_if (is_old_deop now target) ds)
  unfolding remove_if
  remove-target [] = tt
  remove-target (d ∷ ds) = elim (Bool-cases (is_old_deop now target d)) [
    | inl e ↦ rw e (remove-target ds)
    | inr e ↦ rw e (or_right (ltb (d.time + 15) now) (str_eq d.num target) e, remove-target ds)
  ]

  remove-recent :
      (ds : List Adeop)
      → All (λ (d : Adeop). now ≤ d.time + 15) (remove_if (is_old_deop now target) ds)
  unfolding remove_if
  remove-recent [] = tt
  remove-recent (d ∷ ds) = elim (Bool-cases (is_old_deop now target d)) [
    | inl e ↦ rw e (remove-recent ds)
    | inr e ↦ rw e (ground (arith, e), remove-recent ds)
  ]

  remove-recent_others :
      (ds : List Adeop) → remove_if (is_old_deop now target) ds ≡ recent_others now target ds
  unfolding remove_if recent_others
  remove-recent_others [] = refl
  remove-recent_others (d ∷ ds) = ground (arith, remove-recent_others ds)

  -- After a deop the history is that deop, now and of its victim, and behind it exactly the deops of
  -- other victims in the last 15 seconds, in their order; where each victim stood in the history once
  -- at most, that is still so, and nothing in it is more than 15 seconds old.
  pub record_deop-AreVictims :
      (ds : List Adeop)
      → AreVictims ds
      → (record_deop now target ds
          ≡ record { time = now; num = target } ∷ recent_others now target ds)
        × AreVictims (record_deop now target ds)
        × All (λ (d : Adeop). now ≤ d.time + 15) (record_deop now target ds)
  unfolding record_deop
  record_deop-AreVictims ds h = (
    ap (◌∷◌ (record { time = now; num = target })) (remove-recent_others ds),
    (remove-target ds, remove-AreVictims ds h),
    (omega arith, remove-recent ds),
  )
