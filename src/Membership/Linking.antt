-- ===== src/Membership/Linking.antt =====
-- JoinUser keeps the balance of users and channels.
use undernet_cservice_p.Prelude.{
  ℕ, suc, ◌≡◌, refl, ap, sym, ◌∙◌, Bool, true, false, Bool-cases, inl, inr, Option, some,
  if◌then◌else◌, Str, str_eq, str_eq_iff, str_case_eq,
}
use undernet_cservice_p.World.{World, Aluser, Achannel}
use undernet_cservice_p.World.Lookup.{to_channel, to_luser, set_channel, see_in_channel, set_luser}
use undernet_cservice_p.World.Channels.{map_option, to_channel-set_channel, to_channel-case}
use undernet_cservice_p.Membership.{add_node, add_user, link_user}
use undernet_cservice_p.Membership.Lookups.{
  map_luser, str_eq-sym, str_case_eq-sym, to_channel-set_channel-other, to_channel-set_luser,
  to_luser-set_luser, to_luser-set_luser-other,
}
use undernet_cservice_p.Membership.Consistent.{count, listed, lists, IsBalanced, listed-see}
use undernet_cservice_p.Membership.Names.{IsDistinct, IsDistinct-set_channel, IsDistinct-set_luser}
use undernet_cservice_p.Membership.Opening.{IsConsistent}

listed-add :
    (num : Str) (user : Aluser) (is_op : Bool) (c : Achannel)
    → listed num (some (add_user user is_op c))
      ≡ (if str_eq user.num num then suc (listed num (some c)) else listed num (some c))
unfolding add_user count
listed-add num user is_op c = refl

lists-add :
    (channel other : Str) (u : Aluser)
    → lists other (some (add_node channel u))
      ≡ (if str_case_eq other channel then suc (lists other (some u)) else lists other (some u))
unfolding add_node count
lists-add channel other u = refl

module _ (user : Aluser) (is_op : Bool) (channel : Str) (w : World) where
  abbrev seen : World
  seen = set_luser user.num (add_node channel) w

  add_node-num : (u : Aluser) → (add_node channel u).num ≡ u.num
  unfolding add_node
  add_node-num u = refl

  add_user-name : (c : Achannel) → (add_user (add_node channel user) is_op c).name ≡ c.name
  unfolding add_user
  add_user-name c = refl

  abbrev grown : Str → ℕ → ℕ
  grown num n = if str_eq user.num num then suc n else n

  listed-grown :
      (num : Str) (c : Option Achannel) (d : Achannel)
      → c ≡ some d
      → listed num (map_option (add_user (add_node channel user) is_op) c)
        ≡ grown num (listed num c)
  unfolding add_node
  listed-grown num c d e = rw e (listed-add num (add_node channel user) is_op d)

  linked-same :
      (num other : Str) (c : Achannel)
      → to_channel channel w ≡ some c
      → str_case_eq channel other ≡ true
      → listed num (to_channel other (link_user user is_op channel w))
        ≡ grown num (listed num (to_channel other w))
  unfolding link_user
  linked-same num other c e s =
      let there = to_channel-set_luser channel user.num (add_node channel) w in
      ap (listed num) (
        sym (to_channel-case channel other (link_user user is_op channel w) s)
        ∙ to_channel-set_channel channel (add_user (add_node channel user) is_op) seen
            add_user-name)
      ∙ listed-grown num (to_channel channel seen) (see_in_channel user.num (add_node channel) c)
          (there ∙ ap (map_option (see_in_channel user.num (add_node channel))) e)
      ∙ ap (grown num) (
          ap (listed num) there
          ∙ listed-see num user.num (add_node channel) (to_channel channel w) add_node-num
          ∙ ap (listed num) (to_channel-case channel other w s))

  linked-other :
      (num other : Str)
      → str_case_eq channel other ≡ false
      → listed num (to_channel other (link_user user is_op channel w))
        ≡ listed num (to_channel other w)
  unfolding link_user
  linked-other num other s =
      ap (listed num) (
        to_channel-set_channel-other channel other (add_user (add_node channel user) is_op)
          add_user-name s seen
        ∙ to_channel-set_luser other user.num (add_node channel) w)
      ∙ listed-see num user.num (add_node channel) (to_channel other w) add_node-num

  to_luser-linked :
      to_luser user.num (link_user user is_op channel w)
      ≡ map_luser (add_node channel) (to_luser user.num w)
  unfolding link_user set_channel to_luser
  to_luser-linked = to_luser-set_luser user.num (add_node channel) add_node-num w

  to_luser-linked-other :
      (num : Str)
      → str_eq num user.num ≡ false
      → to_luser num (link_user user is_op channel w) ≡ to_luser num w
  unfolding link_user set_channel to_luser
  to_luser-linked-other num d =
      to_luser-set_luser-other user.num (add_node channel) add_node-num num w d

  lists-linked :
      (other : Str)
      → to_luser user.num w ≡ some user
      → lists other (to_luser user.num (link_user user is_op channel w)) ≡ (
          if str_case_eq other channel
          then suc (lists other (some user))
          else lists other (some user))
  lists-linked other e =
      ap (lists other) (to_luser-linked ∙ ap (map_luser (add_node channel)) e)
      ∙ lists-add channel other user

  grown-not : (num : Str) (n : ℕ) → str_eq user.num num ≡ false → grown num n ≡ n
  grown-not num n d = rw d refl

  grown-me : (n : ℕ) → grown user.num n ≡ suc n
  grown-me n = rw ((str_eq_iff user.num user.num).1 refl) refl

  joiner-IsBalanced :
      (c : Achannel)
      → to_luser user.num w ≡ some user
      → to_channel channel w ≡ some c
      → IsBalanced w
      → (other : Str)
      → listed user.num (to_channel other (link_user user is_op channel w))
        ≡ lists other (to_luser user.num (link_user user is_op channel w))
  joiner-IsBalanced c eu ec b other = elim (Bool-cases (str_case_eq channel other)) [
    | inl s ↦
        linked-same user.num other c ec s
        ∙ grown-me (listed user.num (to_channel other w))
        ∙ ap suc (b user.num other ∙ ap (lists other) eu)
        ∙ sym (lists-linked other eu ∙ rw (str_case_eq-sym other channel ∙ s) refl)
    | inr s ↦
        linked-other user.num other s
        ∙ b user.num other
        ∙ ap (lists other) eu
        ∙ sym (lists-linked other eu ∙ rw (str_case_eq-sym other channel ∙ s) refl)
  ]

  linked-IsBalanced :
      (c : Achannel)
      → to_luser user.num w ≡ some user
      → to_channel channel w ≡ some c
      → IsBalanced w
      → IsBalanced (link_user user is_op channel w)
  linked-IsBalanced c eu ec b num other = elim (Bool-cases (str_eq num user.num)) [
    | inr d ↦ elim (Bool-cases (str_case_eq channel other)) [
      | inl s ↦
          linked-same num other c ec s
          ∙ grown-not num (listed num (to_channel other w)) (str_eq-sym user.num num ∙ d)
          ∙ b num other
          ∙ ap (lists other) (sym (to_luser-linked-other num d))
      | inr s ↦
          linked-other num other s
          ∙ b num other
          ∙ ap (lists other) (sym (to_luser-linked-other num d))
    ]
    | inl q ↦ rw ((str_eq_iff num user.num).0 q) (joiner-IsBalanced c eu ec b other)
  ]

  linked-IsDistinct : IsDistinct w → IsDistinct (link_user user is_op channel w)
  unfolding link_user
  linked-IsDistinct d =
      IsDistinct-set_channel channel (add_user (add_node channel user) is_op) add_user-name seen
        (IsDistinct-set_luser user.num (add_node channel) w d)

  -- JoinUser of a user and a channel that are known, up to its checks.
  pub link_user-IsConsistent :
      (c : Achannel)
      → to_luser user.num w ≡ some user
      → to_channel channel w ≡ some c
      → IsConsistent w
      → IsConsistent (link_user user is_op channel w)
  link_user-IsConsistent c eu ec k = record {
    balanced = linked-IsBalanced c eu ec k.balanced;
    distinct = linked-IsDistinct k.distinct;
  }
