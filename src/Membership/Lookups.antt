-- ===== src/Membership/Lookups.antt =====
-- What ToChannel and ToLuser find after the writes of the modelled parts.
use undernet_cservice_p.Prelude.{
  ◌≡◌, refl, sym, ◌∙◌, true, false, Bool-cases, inl, inr, false≢true, Option, none, some, List, [],
  ◌∷◌, map, ==_iff, ◌==◌, arith, Str, find, str_eq, str_eq_iff, str_case_eq, str_case_eq_iff,
}
use undernet_cservice_p.World.{World, Aluser, Achannel}
use undernet_cservice_p.World.Lookup.{
  lu_hash, cl_hash, to_channel, to_luser, update_first, set_channel, update_luser, see_in_channel,
  set_luser,
}
use undernet_cservice_p.World.Channels.{map_option, str_case_eq-case}

abbrev pub map_luser : (Aluser → Aluser) → Option Aluser → Option Aluser
map_luser f none = none
map_luser f (some u) = some (f u)

pub str_case_eq-sym : (s t : Str) → str_case_eq s t ≡ str_case_eq t s
unfolding str_case_eq
str_case_eq-sym [] [] = refl
str_case_eq-sym [] (b ∷ t) = refl
str_case_eq-sym (a ∷ s) [] = refl
str_case_eq-sym (a ∷ s) (b ∷ t) = ground (arith, str_case_eq-sym s t)

pub str_eq-sym : (s t : Str) → str_eq s t ≡ str_eq t s
unfolding str_eq
str_eq-sym [] [] = refl
str_eq-sym [] (b ∷ t) = refl
str_eq-sym (a ∷ s) [] = refl
str_eq-sym (a ∷ s) (b ∷ t) = ground (arith, str_eq-sym s t)

-- Names that strcasecmp takes for the same are the same to every name.
pub str_case_eq-same : (s t x : Str) → str_case_eq s t ≡ true → str_case_eq x s ≡ str_case_eq x t
str_case_eq-same s t x h = str_case_eq-case x s t ((str_case_eq_iff s t).0 h)

pub str_case_eq-apart :
    (s t x : Str) → str_case_eq s t ≡ false → str_case_eq x s ≡ true → str_case_eq x t ≡ false
str_case_eq-apart s t x h e = elim (Bool-cases (str_case_eq x t)) [
  | inr z ↦ z
  | inl z ↦ absurd (
      false≢true
        (sym h ∙ str_case_eq-sym s t ∙ sym (str_case_eq-same x s t e) ∙ str_case_eq-sym t x ∙ z))
]

module _ (channel other : Str) (f : Achannel → Achannel) (h : (c : Achannel) → (f c).name ≡ c.name)
    (d : str_case_eq channel other ≡ false) where
  find-update_first-other :
      (cs : List Achannel)
      → find (λ c. str_case_eq c.name other) (update_first channel f cs)
        ≡ find (λ c. str_case_eq c.name other) cs
  unfolding find update_first
  find-update_first-other [] = refl
  find-update_first-other (c ∷ cs) = elim (Bool-cases (str_case_eq c.name channel)) [
    | inl e ↦ rw (e, h c, str_case_eq-apart channel other c.name d e) refl
    | inr e ↦ rw e (elim (Bool-cases (str_case_eq c.name other)) [
      | inl z ↦ rw (z) refl
      | inr z ↦ rw z (find-update_first-other cs)
    ])
  ]

  -- Another channel is found as it was.
  pub to_channel-set_channel-other :
      (w : World) → to_channel other (set_channel channel f w) ≡ to_channel other w
  unfolding to_channel set_channel
  to_channel-set_channel-other w = elim (Bool-cases (cl_hash other == cl_hash channel)) [
    | inl e ↦ rw e (find-update_first-other (w.channel_list (cl_hash other)))
    | inr e ↦ rw e refl
  ]

-- Under a write through the pointer of a user the channels stay, with what they see of the user.
find-see :
    (channel num : Str) (f : Aluser → Aluser) (cs : List Achannel)
    → find (λ c. str_case_eq c.name channel) (map (see_in_channel num f) cs)
      ≡ map_option (see_in_channel num f) (find (λ c. str_case_eq c.name channel) cs)
unfolding find
find-see channel num f [] = refl
find-see channel num f (c ∷ cs) = elim (Bool-cases (str_case_eq c.name channel)) [
  | inl e ↦ rw e refl
  | inr e ↦ rw e (find-see channel num f cs)
]

pub to_channel-set_luser :
    (channel num : Str) (f : Aluser → Aluser) (w : World)
    → to_channel channel (set_luser num f w)
      ≡ map_option (see_in_channel num f) (to_channel channel w)
unfolding to_channel set_luser
to_channel-set_luser channel num f w = find-see channel num f (w.channel_list (cl_hash channel))

module _ (num : Str) (f : Aluser → Aluser) (h : (u : Aluser) → (f u).num ≡ u.num) where
  find-update_luser :
      (us : List Aluser)
      → find (λ u. str_eq num u.num) (update_luser num f us)
        ≡ map_luser f (find (λ u. str_eq num u.num) us)
  unfolding find update_luser
  find-update_luser [] = refl
  find-update_luser (u ∷ us) = elim (Bool-cases (str_eq num u.num)) [
    | inl e ↦ rw (e, h u, e) refl
    | inr e ↦ rw (e, e) (find-update_luser us)
  ]

  pub to_luser-set_luser :
      (w : World) → to_luser num (set_luser num f w) ≡ map_luser f (to_luser num w)
  unfolding to_luser set_luser
  to_luser-set_luser w =
      rw ((==_iff (lu_hash num) (lu_hash num)).1 refl) (find-update_luser (w.lusers (lu_hash num)))

  find-update_luser-other :
      (other : Str)
      → str_eq other num ≡ false
      → (us : List Aluser)
      → find (λ u. str_eq other u.num) (update_luser num f us) ≡ find (λ u. str_eq other u.num) us
  unfolding find update_luser
  find-update_luser-other other d [] = refl
  find-update_luser-other other d (u ∷ us) = elim (Bool-cases (str_eq num u.num)) [
    | inl e ↦ rw (e, h u, sym ((str_eq_iff num u.num).0 e), d) refl
    | inr e ↦ rw e (elim (Bool-cases (str_eq other u.num)) [
      | inl z ↦ rw z refl
      | inr z ↦ rw z (find-update_luser-other other d us)
    ])
  ]

  pub to_luser-set_luser-other :
      (other : Str) (w : World)
      → str_eq other num ≡ false
      → to_luser other (set_luser num f w) ≡ to_luser other w
  unfolding to_luser set_luser
  to_luser-set_luser-other other w d = elim (Bool-cases (lu_hash other == lu_hash num)) [
    | inl e ↦ rw e (find-update_luser-other other d (w.lusers (lu_hash other)))
    | inr e ↦ rw e refl
  ]
