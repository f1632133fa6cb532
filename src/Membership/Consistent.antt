-- ===== src/Membership/Consistent.antt =====
-- The users that a channel lists are those who list the channel.
use undernet_cservice_p.Prelude.{
  ℕ, suc, ◌-◌, ◌≡◌, refl, ap, sym, ◌∙◌, Bool, true, false, Bool-cases, inl, inr, Option, none, some,
  List, [], ◌∷◌, map, if◌then◌else◌, arith, Str, str_eq, str_eq_iff, str_case_eq,
}
use undernet_cservice_p.World.{World, Aluser, Auser, Achannel}
use undernet_cservice_p.World.Lookup.{
  to_channel, to_luser, set_channel, see_luser, see_in_channel, set_luser,
}
use undernet_cservice_p.World.Channels.{map_option, to_channel-set_channel, to_channel-case}
use undernet_cservice_p.Membership.Leaving.{unlink, is_user, is_node, drop_user, drop_node}
use undernet_cservice_p.Membership.Lookups.{
  map_luser, str_eq-sym, str_case_eq-sym, str_case_eq-same, str_case_eq-apart,
  to_channel-set_channel-other, to_channel-set_luser, to_luser-set_luser, to_luser-set_luser-other,
}

unfoldable pub count {ℓ} : {A : Type ℓ} → (A → Bool) → List A → ℕ
count p [] = 0
count p (x ∷ xs) = let rest = count p xs in if p x then suc rest else rest

-- How often a channel lists a user.
abbrev pub listed : Str → Option Achannel → ℕ
listed num none = 0
listed num (some c) = count (is_user num) c.users

-- How often a user lists a channel.
abbrev pub lists : Str → Option Aluser → ℕ
lists channel none = 0
lists channel (some u) = count (is_node channel) u.channel

-- Each user lists each channel as often as the channel lists the user.
abbrev pub IsBalanced : World → Type 0
IsBalanced w =
    (num channel : Str) → listed num (to_channel channel w) ≡ lists channel (to_luser num w)

count-unlink :
    {A : Type 0} (p q : A → Bool) (xs : List A)
    → ((x : A) → q x ≡ p x)
    → count q (unlink p xs) ≡ count q xs - 1
unfolding count unlink
count-unlink p q [] h = omega arith
count-unlink p q (x ∷ xs) h = elim (Bool-cases (p x)) [
  | inl e ↦ rw (h x, e) (omega arith)
  | inr e ↦ rw (e, h x, e) (count-unlink p q xs h)
]

count-unlink-other :
    {A : Type 0} (p q : A → Bool) (xs : List A)
    → ((x : A) → p x ≡ true → q x ≡ false)
    → count q (unlink p xs) ≡ count q xs
unfolding count unlink
count-unlink-other p q [] h = refl
count-unlink-other p q (x ∷ xs) h = elim (Bool-cases (p x)) [
  | inl e ↦ rw (e, h x e) refl
  | inr e ↦ rw (e, count-unlink-other p q xs h) refl
]

count-same :
    {A : Type 0} (p q : A → Bool) (xs : List A) → ((x : A) → p x ≡ q x) → count p xs ≡ count q xs
unfolding count
count-same p q [] h = refl
count-same p q (x ∷ xs) h = rw (h x, count-same p q xs h) refl

count-see :
    (other num : Str) (f : Aluser → Aluser)
    → ((u : Aluser) → (f u).num ≡ u.num)
    → (us : List Auser)
    → count (is_user other) (map (see_luser num f) us) ≡ count (is_user other) us
unfolding count
count-see other num f h [] = refl
count-see other num f h (u ∷ us) = elim (Bool-cases (str_eq num u.user.num)) [
  | inl e ↦ rw (e, h u.user, count-see other num f h us) refl
  | inr e ↦ rw (e, count-see other num f h us) refl
]

-- A write through the pointer of a user that keeps the number changes no count.
pub listed-see :
    (other num : Str) (f : Aluser → Aluser) (c : Option Achannel)
    → ((u : Aluser) → (f u).num ≡ u.num)
    → listed other (map_option (see_in_channel num f) c) ≡ listed other c
listed-see other num f none h = refl
listed-see other num f (some c) h = count-see other num f h c.users

listed-drop :
    (now : ℕ) (num : Str) (c : Option Achannel)
    → listed num (map_option (drop_user now num) c) ≡ listed num c - 1
listed-drop now num none = omega arith
listed-drop now num (some c) = count-unlink (is_user num) (is_user num) c.users (λ x. refl)

listed-drop-other :
    (now : ℕ) (num other : Str) (c : Option Achannel)
    → str_eq other num ≡ false
    → listed other (map_option (drop_user now num) c) ≡ listed other c
listed-drop-other now num other none d = refl
listed-drop-other now num other (some c) d =
    count-unlink-other (is_user num) (is_user other) c.users
      (λ x e. rw ((str_eq_iff x.user.num num).0 e) (str_eq-sym num other ∙ d))

lists-drop :
    (channel other : Str) (u : Option Aluser)
    → str_case_eq channel other ≡ true
    → lists other (map_luser (drop_node channel) u) ≡ lists other u - 1
lists-drop channel other none e = omega arith
lists-drop channel other (some u) e = count-unlink (is_node channel) (is_node other) u.channel (λ x.
    str_case_eq-sym other x.name
    ∙ sym (str_case_eq-same channel other x.name e)
    ∙ str_case_eq-sym x.name channel)

lists-drop-other :
    (channel other : Str) (u : Option Aluser)
    → str_case_eq channel other ≡ false
    → lists other (map_luser (drop_node channel) u) ≡ lists other u
lists-drop-other channel other none e = refl
lists-drop-other channel other (some u) e =
    count-unlink-other (is_node channel) (is_node other) u.channel (λ x h.
      str_case_eq-sym other x.name
      ∙ str_case_eq-apart channel other x.name e (str_case_eq-sym x.name channel ∙ h))

module _ (num channel : Str) (w : World) where
  abbrev pub left : World
  left = set_luser num (drop_node channel) (set_channel channel (drop_user w.now num) w)

  listed-left-same :
      (n c : Str)
      → str_case_eq channel c ≡ true
      → listed n (to_channel c left) ≡ listed n (map_option (drop_user w.now num) (to_channel c w))
  listed-left-same n c e =
      let w1 : World = set_channel channel (drop_user w.now num) w in
      ap (listed n) (to_channel-set_luser c num (drop_node channel) w1)
      ∙ listed-see n num (drop_node channel) (to_channel c w1) (λ u. refl)
      ∙ ap (listed n) (
          sym (to_channel-case channel c w1 e)
          ∙ to_channel-set_channel channel (drop_user w.now num) w (λ u. refl)
          ∙ ap (map_option (drop_user w.now num)) (to_channel-case channel c w e))

  listed-left-other :
      (n c : Str)
      → str_case_eq channel c ≡ false
      → listed n (to_channel c left) ≡ listed n (to_channel c w)
  listed-left-other n c e =
      let w1 : World = set_channel channel (drop_user w.now num) w in
      ap (listed n) (to_channel-set_luser c num (drop_node channel) w1)
      ∙ listed-see n num (drop_node channel) (to_channel c w1) (λ u. refl)
      ∙ ap (listed n) (to_channel-set_channel-other channel c (drop_user w.now num) (λ u. refl) e w)

  to_luser-left : to_luser num left ≡ map_luser (drop_node channel) (to_luser num w)
  unfolding to_luser set_channel
  to_luser-left =
      to_luser-set_luser num (drop_node channel) (λ u. refl)
        (set_channel channel (drop_user w.now num) w)

  to_luser-left-other : (n : Str) → str_eq n num ≡ false → to_luser n left ≡ to_luser n w
  unfolding to_luser set_channel
  to_luser-left-other n e =
      to_luser-set_luser-other num (drop_node channel) (λ u. refl) n
        (set_channel channel (drop_user w.now num) w) e

  -- Unlinking a user and a channel from each other keeps the balance.
  pub left-IsBalanced : IsBalanced w → IsBalanced left
  left-IsBalanced b n c = elim (Bool-cases (str_eq n num)) [
    | inr d ↦ elim (Bool-cases (str_case_eq channel c)) [
      | inl e ↦
          listed-left-same n c e
          ∙ listed-drop-other w.now num n (to_channel c w) d
          ∙ b n c
          ∙ ap (lists c) (sym (to_luser-left-other n d))
      | inr e ↦ listed-left-other n c e ∙ b n c ∙ ap (lists c) (sym (to_luser-left-other n d))
    ]
    | inl q ↦ elim (Bool-cases (str_case_eq channel c)) [
      | inl e ↦ rw ((str_eq_iff n num).0 q) (
          listed-left-same num c e
          ∙ listed-drop w.now num (to_channel c w)
          ∙ ap (λ k. k - 1) (b num c)
          ∙ sym (ap (lists c) to_luser-left ∙ lists-drop channel c (to_luser num w) e))
      | inr e ↦ rw ((str_eq_iff n num).0 q) (
          listed-left-other num c e
          ∙ b num c
          ∙ sym (ap (lists c) to_luser-left ∙ lists-drop-other channel c (to_luser num w) e))
    ]
  ]
