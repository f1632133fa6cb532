-- ===== src/ShitList/Entries.antt =====
-- What AddToShitList leaves in the chain of its channel.
use undernet_cservice_p.Prelude.{
  ◌⊎◌, sym, false, false≢true, ◌≡◌, ◌∙◌, ◌≤◌, refl, Bool, true, Bool-cases, inl, inr, Option, none,
  some, List, [], ◌∷◌, arith, Str, str_case_eq, str_case_eq_iff, find,
}
use undernet_cservice_p.World.{ShitUser}
use undernet_cservice_p.ShitList.Commands.{is_entry, write_entry, merge_entry, put_entry}

-- The entry found holds at least the level and the expiration of the new one.
unfoldable pub Holds : ShitUser → Option ShitUser → Type 0
Holds new none = ⊥
Holds new (some e) = (new.level ≤ e.level) × (new.expiration ≤ e.expiration)

-- What was found before, and what is found after.
unfoldable pub Keeps : ShitUser → Option ShitUser → Option ShitUser → Type 0
unfolding Holds
Keeps new none after = after ≡ some new
Keeps new (some old) none = ⊥
Keeps new (some old) (some e) =
    ((new.level ≡ 0) ⊎ Holds old (some e))
    × ((e.level ≡ old.level) ⊎ (e.level ≡ new.level))
    × ((e.expiration ≡ old.expiration) ⊎ (e.expiration ≡ new.expiration))

str_case_eq_refl : (s : Str) → str_case_eq s s ≡ true
str_case_eq_refl s = (str_case_eq_iff s s).1 refl

merge_entry-Holds : (new curr : ShitUser) → Holds new (some (merge_entry new curr))
unfolding Holds merge_entry
merge_entry-Holds new curr = ground arith

merge_entry-Keeps : (new curr : ShitUser) → Keeps new (some curr) (some (merge_entry new curr))
unfolding Keeps Holds merge_entry
merge_entry-Keeps new curr = ground arith

merge_entry-is_entry :
    (pattern channel : Str) (new curr : ShitUser)
    → is_entry true pattern channel (merge_entry new curr) ≡ is_entry true pattern channel curr
unfolding is_entry merge_entry
merge_entry-is_entry pattern channel new curr = refl

module _ (new : ShitUser) where
  abbrev stop : ShitUser → Bool
  stop = is_entry true new.match new.channel

  abbrev Stored : List ShitUser → List ShitUser → Type 0
  Stored before after = Holds new (find stop after) × Keeps new (find stop before) (find stop after)

  write_entry-found :
      (list : List ShitUser)
      → (write_entry stop (merge_entry new) list).0 ≡ true
      → Stored list (write_entry stop (merge_entry new) list).1
  unfolding write_entry find
  write_entry-found [] h = ground (arith, h)
  write_entry-found (curr ∷ list) h = elim (Bool-cases (stop curr)) [
    | inl e ↦
        rw (e, merge_entry-is_entry new.match new.channel new curr ∙ e)
          (merge_entry-Holds new curr, merge_entry-Keeps new curr)
    | inr e ↦ rw (e, e) (write_entry-found list (rw e at h))
  ]

  write_entry-missing :
      (list : List ShitUser)
      → (write_entry stop (merge_entry new) list).0 ≡ false
      → find stop list ≡ none
  unfolding write_entry find
  write_entry-missing [] h = refl
  write_entry-missing (curr ∷ list) h = elim (Bool-cases (stop curr)) [
    | inl e ↦ absurd (false≢true (sym (rw e at h)))
    | inr e ↦ rw e (write_entry-missing list (rw e at h))
  ]

  stop_new : stop new ≡ true
  unfolding is_entry
  stop_new = rw (str_case_eq_refl new.match, str_case_eq_refl new.channel) refl

-- Once AddToShitList has put a ban by address into the chain, the entry that it finds there for that
-- address and that channel has at least the level and the expiration of the new ban. Where there was
-- none before, it is the new ban; where there was one, its level and its expiration are each that of
-- the old entry or of the new ban, and at least those of the old entry unless the new level is 0.
pub put_entry-Holds :
    (new : ShitUser) (list : List ShitUser)
    → Holds new (find (is_entry true new.match new.channel) (put_entry true new list))
      × Keeps new
          (find (is_entry true new.match new.channel) list)
          (find (is_entry true new.match new.channel) (put_entry true new list))
unfolding put_entry find Holds Keeps
put_entry-Holds new list =
    elim (Bool-cases (write_entry (is_entry true new.match new.channel) (merge_entry new) list).0) [
      | inl e ↦ rw e (write_entry-found new list e)
      | inr e ↦
          rw (e, stop_new new, write_entry-missing new list e) ((omega arith, omega arith), refl)
    ]
