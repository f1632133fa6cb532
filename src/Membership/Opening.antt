-- ===== src/Membership/Opening.antt =====
-- onpart, DelChannel and NewChannel keep the balance of users and channels.
use undernet_cservice_p.Prelude.{
  ℕ, ◌≡◌, refl, ap, sym, ◌∙◌, Bool, true, false, Bool-cases, Option-cases, inl, inr, false≢true,
  none, some, List, [], ◌∷◌, ==_iff, ◌==◌, arith, Str, codes, str_case_eq_iff, find, str_case_eq,
  not, ◌&&◌,
}
use undernet_cservice_p.World.{World, Auser, Achannel}
use undernet_cservice_p.World.Text.{put_log}
use undernet_cservice_p.World.Lookup.{cl_hash, to_channel, to_luser, set_channel}
use undernet_cservice_p.World.Channels.{to_channel-case, cl_hash-case}
use undernet_cservice_p.Membership.Leaving.{
  is_user, drop_user, drop_node, no_users, del_channel, del_if_empty, part_one,
}
use undernet_cservice_p.Membership.Creating.{
  find_defs, fresh_channel, with_defs, link_channel, new_channel,
}
use undernet_cservice_p.Bans.Commands.{is_empty}
use undernet_cservice_p.Membership.Consistent.{
  count, listed, lists, IsBalanced, left, left-IsBalanced,
}
use undernet_cservice_p.Membership.Names.{
  IsDistinct, IsDistinct-set_channel, IsDistinct-set_luser, IsDistinct-del_channel,
  to_channel-del_channel, to_channel-del_channel-other, IsDistinct-link_channel,
}

-- Each user lists each channel as often as the channel lists the user, and no two channels of a
-- bucket have the same name.
pub record IsConsistent (w : World) : Type 0 where
  pub balanced : IsBalanced w
  pub distinct : IsDistinct w

count-no_users : (num : Str) (us : List Auser) → no_users us ≡ true → count (is_user num) us ≡ 0
unfolding count
count-no_users num [] h = refl
count-no_users num (u ∷ us) h = absurd (false≢true h)

to_luser-del_channel :
    (num channel : Str) (w : World) → to_luser num (del_channel channel w) ≡ to_luser num w
unfolding to_luser del_channel
to_luser-del_channel num channel w = refl

del_channel-IsConsistent :
    (channel : Str) (c : Achannel) (w : World)
    → to_channel channel w ≡ some c
    → no_users c.users ≡ true
    → IsConsistent w
    → IsConsistent (del_channel channel w)
del_channel-IsConsistent channel c w f e k = record {
  balanced = λ num other. elim (Bool-cases (str_case_eq channel other)) [
    | inl s ↦
        ap (listed num) (
          sym (to_channel-case channel other (del_channel channel w) s)
          ∙ to_channel-del_channel channel w k.distinct)
        ∙ sym (count-no_users num c.users e)
        ∙ sym (ap (listed num) f)
        ∙ ap (listed num) (to_channel-case channel other w s)
        ∙ k.balanced num other
        ∙ ap (lists other) (sym (to_luser-del_channel num channel w))
    | inr s ↦
        ap (listed num) (to_channel-del_channel-other channel other w s)
        ∙ k.balanced num other
        ∙ ap (lists other) (sym (to_luser-del_channel num channel w))
  ];
  distinct = IsDistinct-del_channel channel w k.distinct;
}

and_first : (a b : Bool) → (a && b) ≡ true → a ≡ true
and_first a b h = ground arith

del_if_empty-IsConsistent :
    (channel : Str) (w : World) → IsConsistent w → IsConsistent (del_if_empty channel w)
unfolding del_if_empty
del_if_empty-IsConsistent channel w k = elim (Option-cases (to_channel channel w)) [
  | inl n ↦ rw (del_if_empty, n) k
  | inr (c, f) ↦
      rw (del_if_empty, f)
        (elim (Bool-cases (no_users c.users && not c.on)) [
          | inr e ↦ rw e k
          | inl e ↦
              rw e (
                del_channel-IsConsistent channel c w f (and_first (no_users c.users) (not c.on) e)
                  k)
        ])
]

pub put_log-IsConsistent : (text : Str) (w : World) → IsConsistent w → IsConsistent (put_log text w)
unfolding to_channel to_luser
put_log-IsConsistent text w k = record { balanced = k.balanced; distinct = k.distinct }

logs-IsConsistent :
    (a b c : Str) (w : World) → IsConsistent w → IsConsistent (put_log a (put_log b (put_log c w)))
logs-IsConsistent a b c w k =
    put_log-IsConsistent a (put_log b (put_log c w))
      (put_log-IsConsistent b (put_log c w) (put_log-IsConsistent c w k))

-- onpart on one channel
pub part_one-IsConsistent :
    (num channel : Str) (w : World) → IsConsistent w → IsConsistent (part_one num channel w)
unfolding part_one
part_one-IsConsistent num channel w k = elim (Bool-cases (is_empty channel)) [
  | inl e ↦ rw (part_one, e) (logs-IsConsistent channel num _ w k)
  | inr e ↦
      rw (part_one, e)
        (elim (Option-cases (to_channel channel w)) [
          | inl n ↦ rw n (logs-IsConsistent channel num _ w k)
          | inr (c, f) ↦ rw f (
              del_if_empty-IsConsistent channel (left num channel w) record {
                balanced = left-IsBalanced num channel w k.balanced;
                distinct =
                    IsDistinct-set_luser num (drop_node channel)
                      (set_channel channel (drop_user w.now num) w)
                      (IsDistinct-set_channel channel (drop_user w.now num) (λ u. refl) w
                        k.distinct);
              })
        ])
]

-- The chain of a bucket with a new channel in front.
to_channel-link_channel :
    (c : Achannel) (other : Str) (w : World)
    → str_case_eq c.name other ≡ true
    → to_channel other (link_channel c w) ≡ some c
unfolding to_channel link_channel find
to_channel-link_channel c other w e =
    rw
      (
        (==_iff (cl_hash other) (cl_hash c.name)).1
            (sym (cl_hash-case c.name other ((str_case_eq_iff c.name other).0 e))),
        e,
      )
      refl

to_channel-link_channel-other :
    (c : Achannel) (other : Str) (w : World)
    → str_case_eq c.name other ≡ false
    → to_channel other (link_channel c w) ≡ to_channel other w
unfolding to_channel link_channel find
to_channel-link_channel-other c other w e = elim (Bool-cases (cl_hash other == cl_hash c.name)) [
  | inl h ↦ rw (h, e) refl
  | inr h ↦ rw h refl
]

to_luser-link_channel :
    (num : Str) (c : Achannel) (w : World) → to_luser num (link_channel c w) ≡ to_luser num w
unfolding to_luser link_channel
to_luser-link_channel num c w = refl

link_channel-IsConsistent :
    (c : Achannel) (w : World)
    → to_channel c.name w ≡ none
    → c.users ≡ []
    → IsConsistent w
    → IsConsistent (link_channel c w)
link_channel-IsConsistent c w n u k = record {
  balanced = λ num other. elim (Bool-cases (str_case_eq c.name other)) [
    | inl s ↦
        ap (listed num) (to_channel-link_channel c other w s)
        ∙ count-no_users num c.users (ap no_users u)
        ∙ sym (ap (listed num) (sym (to_channel-case c.name other w s) ∙ n))
        ∙ k.balanced num other
        ∙ ap (lists other) (sym (to_luser-link_channel num c w))
    | inr s ↦
        ap (listed num) (to_channel-link_channel-other c other w s)
        ∙ k.balanced num other
        ∙ ap (lists other) (sym (to_luser-link_channel num c w))
  ];
  distinct = IsDistinct-link_channel c w n k.distinct;
}

fresh-name :
    (channel : Str) (ts now : ℕ) (w : World)
    → (with_defs (find_defs channel w) (fresh_channel channel ts false now)).name ≡ channel
unfolding with_defs fresh_channel
fresh-name channel ts now w = elim (Option-cases (find_defs channel w)) [
  | inl n ↦ rw n refl
  | inr (d, h) ↦ rw h refl
]

abbrev opened : Str → ℕ → World → Achannel
opened channel ts w = with_defs (find_defs channel w) (fresh_channel channel ts false w.now)

opened-users : (channel : Str) (ts : ℕ) (w : World) → (opened channel ts w).users ≡ []
unfolding with_defs fresh_channel
opened-users channel ts w = elim (Option-cases (find_defs channel w)) [
  | inl n ↦ rw n refl
  | inr (d, h) ↦ rw h refl
]

open_channel-IsConsistent :
    (channel : Str) (ts : ℕ) (w : World)
    → to_channel channel w ≡ none
    → IsConsistent w
    → IsConsistent (link_channel (opened channel ts w) w)
open_channel-IsConsistent channel ts w n k =
    link_channel-IsConsistent (opened channel ts w) w
      (ap (λ name. to_channel name w) (fresh-name channel ts w.now w) ∙ n)
      (opened-users channel ts w) k

-- NewChannel of a channel that is not known, which the bot is not on.
pub new_channel-IsConsistent :
    (channel : Str) (ts : ℕ) (w : World)
    → to_channel channel w ≡ none
    → IsConsistent w
    → IsConsistent (new_channel channel ts false w)
unfolding new_channel to_channel
new_channel-IsConsistent channel ts w n k = elim (Bool-cases (is_empty channel)) [
  | inr e ↦ rw (new_channel, e) (open_channel-IsConsistent channel ts w n k)
  | inl e ↦
      rw (new_channel, e)
        (open_channel-IsConsistent channel ts
          (put_log channel (put_log (codes "ERROR: NewChannel(): empty channel string!!!") w)) n
          (put_log-IsConsistent channel _
            (put_log-IsConsistent (codes "ERROR: NewChannel(): empty channel string!!!") w k)))
]
