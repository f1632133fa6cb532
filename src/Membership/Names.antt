-- ===== src/Membership/Names.antt =====
-- No two channels of a bucket have names that strcasecmp takes for the same.
use undernet_cservice_p.Prelude.{
  ℕ, ◌≡◌, refl, sym, ◌∙◌, true, false, Bool-cases, inl, inr, some≢none, none, List, [], ◌∷◌, map,
  ==_iff, ◌==◌, All, Str, find, str_case_eq,
}
use undernet_cservice_p.World.{World, Aluser, Achannel}
use undernet_cservice_p.World.Lookup.{
  cl_hash, to_channel, update_first, set_channel, see_in_channel, set_luser,
}
use undernet_cservice_p.Membership.Leaving.{unlink, is_channel, del_channel}
use undernet_cservice_p.Membership.Creating.{link_channel}
use undernet_cservice_p.Membership.Lookups.{str_case_eq-same, str_case_eq-apart}

-- No channel of the list has that name.
abbrev pub Apart : Str → List Achannel → Type 0
Apart name cs = All (λ (d : Achannel). str_case_eq d.name name ≡ false) cs

abbrev pub AreDistinct : List Achannel → Type 0
AreDistinct [] = Unit
AreDistinct (c ∷ cs) = Apart c.name cs × AreDistinct cs

abbrev pub IsDistinct : World → Type 0
IsDistinct w = (i : ℕ) → AreDistinct (w.channel_list i)

find-Apart : (name : Str) (cs : List Achannel) → Apart name cs → find (is_channel name) cs ≡ none
unfolding find
find-Apart name [] h = refl
find-Apart name (c ∷ cs) h = rw h.0 (find-Apart name cs h.1)

Apart-find : (name : Str) (cs : List Achannel) → find (is_channel name) cs ≡ none → Apart name cs
unfolding find
Apart-find name [] h = tt
Apart-find name (c ∷ cs) h = elim (Bool-cases (str_case_eq c.name name)) [
  | inl e ↦ absurd (some≢none c (sym (rw e refl) ∙ h))
  | inr e ↦ (e, Apart-find name cs (sym (rw e refl) ∙ h))
]

Apart-same : (s t : Str) (cs : List Achannel) → str_case_eq s t ≡ true → Apart s cs → Apart t cs
Apart-same s t [] e h = tt
Apart-same s t (c ∷ cs) e h = (sym (str_case_eq-same s t c.name e) ∙ h.0, Apart-same s t cs e h.1)

module _ (channel : Str) (f : Achannel → Achannel) (h : (c : Achannel) → (f c).name ≡ c.name) where
  Apart-update :
      (name : Str) (cs : List Achannel) → Apart name cs → Apart name (update_first channel f cs)
  unfolding update_first
  Apart-update name [] a = tt
  Apart-update name (c ∷ cs) a = elim (Bool-cases (str_case_eq c.name channel)) [
    | inl e ↦ rw (e, h c) a
    | inr e ↦ rw e (a.0, Apart-update name cs a.1)
  ]

  AreDistinct-update :
      (cs : List Achannel) → AreDistinct cs → AreDistinct (update_first channel f cs)
  unfolding update_first
  AreDistinct-update [] d = tt
  AreDistinct-update (c ∷ cs) d = elim (Bool-cases (str_case_eq c.name channel)) [
    | inl e ↦ rw (e, h c) d
    | inr e ↦ rw e (Apart-update c.name cs d.0, AreDistinct-update cs d.1)
  ]

  pub IsDistinct-set_channel : (w : World) → IsDistinct w → IsDistinct (set_channel channel f w)
  unfolding set_channel
  IsDistinct-set_channel w d i = elim (Bool-cases (i == cl_hash channel)) [
    | inl e ↦ rw e (AreDistinct-update (w.channel_list i) (d i))
    | inr e ↦ rw e (d i)
  ]

module _ (num : Str) (f : Aluser → Aluser) where
  Apart-see :
      (name : Str) (cs : List Achannel) → Apart name cs → Apart name (map (see_in_channel num f) cs)
  Apart-see name [] a = tt
  Apart-see name (c ∷ cs) a = (a.0, Apart-see name cs a.1)

  AreDistinct-see :
      (cs : List Achannel) → AreDistinct cs → AreDistinct (map (see_in_channel num f) cs)
  AreDistinct-see [] d = tt
  AreDistinct-see (c ∷ cs) d = (Apart-see c.name cs d.0, AreDistinct-see cs d.1)

  pub IsDistinct-set_luser : (w : World) → IsDistinct w → IsDistinct (set_luser num f w)
  unfolding set_luser
  IsDistinct-set_luser w d i = AreDistinct-see (w.channel_list i) (d i)

module _ (channel : Str) where
  Apart-unlink :
      (name : Str) (cs : List Achannel)
      → Apart name cs
      → Apart name (unlink (is_channel channel) cs)
  unfolding unlink
  Apart-unlink name [] a = tt
  Apart-unlink name (c ∷ cs) a = elim (Bool-cases (str_case_eq c.name channel)) [
    | inl e ↦ rw e a.1
    | inr e ↦ rw e (a.0, Apart-unlink name cs a.1)
  ]

  AreDistinct-unlink :
      (cs : List Achannel) → AreDistinct cs → AreDistinct (unlink (is_channel channel) cs)
  unfolding unlink
  AreDistinct-unlink [] d = tt
  AreDistinct-unlink (c ∷ cs) d = elim (Bool-cases (str_case_eq c.name channel)) [
    | inl e ↦ rw e d.1
    | inr e ↦ rw e (Apart-unlink c.name cs d.0, AreDistinct-unlink cs d.1)
  ]

  pub IsDistinct-del_channel : (w : World) → IsDistinct w → IsDistinct (del_channel channel w)
  unfolding del_channel
  IsDistinct-del_channel w d i = elim (Bool-cases (i == cl_hash channel)) [
    | inl e ↦ rw e (AreDistinct-unlink (w.channel_list i) (d i))
    | inr e ↦ rw e (d i)
  ]

  Apart-unlinked :
      (cs : List Achannel) → AreDistinct cs → Apart channel (unlink (is_channel channel) cs)
  unfolding unlink
  Apart-unlinked [] d = tt
  Apart-unlinked (c ∷ cs) d = elim (Bool-cases (str_case_eq c.name channel)) [
    | inl e ↦ rw e (Apart-same c.name channel cs e d.0)
    | inr e ↦ rw e (e, Apart-unlinked cs d.1)
  ]

  -- The channel is not found any more.
  pub to_channel-del_channel :
      (w : World) → IsDistinct w → to_channel channel (del_channel channel w) ≡ none
  unfolding to_channel del_channel
  to_channel-del_channel w d = rw ((==_iff (cl_hash channel) (cl_hash channel)).1 refl) (
      find-Apart channel _
        (Apart-unlinked (w.channel_list (cl_hash channel)) (d (cl_hash channel))))

  find-unlink-other :
      (other : Str) (cs : List Achannel)
      → str_case_eq channel other ≡ false
      → find (is_channel other) (unlink (is_channel channel) cs) ≡ find (is_channel other) cs
  unfolding find unlink
  find-unlink-other other [] d = refl
  find-unlink-other other (c ∷ cs) d = elim (Bool-cases (str_case_eq c.name channel)) [
    | inl e ↦ rw (e, str_case_eq-apart channel other c.name d e) refl
    | inr e ↦ rw e (elim (Bool-cases (str_case_eq c.name other)) [
      | inl z ↦ rw z refl
      | inr z ↦ rw z (find-unlink-other other cs d)
    ])
  ]

  -- Another channel is found as it was.
  pub to_channel-del_channel-other :
      (other : Str) (w : World)
      → str_case_eq channel other ≡ false
      → to_channel other (del_channel channel w) ≡ to_channel other w
  unfolding to_channel del_channel
  to_channel-del_channel-other other w d = elim (Bool-cases (cl_hash other == cl_hash channel)) [
    | inl e ↦ rw e (find-unlink-other other (w.channel_list (cl_hash other)) d)
    | inr e ↦ rw e refl
  ]

-- A channel that is not found yet may be linked.
pub IsDistinct-link_channel :
    (c : Achannel) (w : World)
    → to_channel c.name w ≡ none
    → IsDistinct w
    → IsDistinct (link_channel c w)
unfolding to_channel link_channel
IsDistinct-link_channel c w n d i = elim (Bool-cases (i == cl_hash c.name)) [
  | inl e ↦
      rw (e, (==_iff i (cl_hash c.name)).0 e)
        (Apart-find c.name (w.channel_list (cl_hash c.name)) n, d (cl_hash c.name))
  | inr e ↦ rw e (d i)
]
