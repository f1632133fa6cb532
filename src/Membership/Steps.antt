-- ===== src/Membership/Steps.antt =====
-- The steps that change who is on which channel, and what they keep.
use undernet_cservice_p.Prelude.{
  ℕ, ◌≡◌, refl, sym, ap, ◌∙◌, Bool, false, Bool-cases, inl, inr, Option, none, some, Str,
  str_case_eq,
}
use undernet_cservice_p.World.{World, Aluser, Achannel}
use undernet_cservice_p.World.Text.{put_log}
use undernet_cservice_p.World.Lookup.{to_channel, to_luser, set_channel}
use undernet_cservice_p.World.Channels.{map_option, to_channel-set_channel, to_channel-case}
use undernet_cservice_p.Membership.Lookups.{to_channel-set_channel-other}
use undernet_cservice_p.Membership.Consistent.{count, listed, lists}
use undernet_cservice_p.Membership.Names.{IsDistinct-set_channel}
use undernet_cservice_p.Membership.Leaving.{part_one, is_user}
use undernet_cservice_p.Membership.Creating.{new_channel}
use undernet_cservice_p.Membership.{link_user}
use undernet_cservice_p.Membership.Opening.{
  IsConsistent, put_log-IsConsistent, part_one-IsConsistent, new_channel-IsConsistent,
}
use undernet_cservice_p.Membership.Linking.{link_user-IsConsistent}

-- A write to a channel that keeps its name and its users.
abbrev pub Keeps : (Achannel → Achannel) → Type 0
Keeps f = (c : Achannel) → ((f c).name ≡ c.name) × ((f c).users ≡ c.users)

-- What onburst, onjoin, onpart and onkick do to the lists of users and channels: NewChannel of a channel that
-- is not known, JoinUser of a user and a channel that are, and onpart of one channel,
-- with the other writes to a channel and the log between them.
pub data Step : World → World → Type 0 where
  opens :
      (channel : Str) (ts : ℕ) (w : World)
      → to_channel channel w ≡ none
      → Step w (new_channel channel ts false w)
  joins :
      (user : Aluser) (is_op : Bool) (channel : Str) (c : Achannel) (w : World)
      → to_luser user.num w ≡ some user
      → to_channel channel w ≡ some c
      → Step w (link_user user is_op channel w)
  parts : (num channel : Str) (w : World) → Step w (part_one num channel w)
  touches :
      (channel : Str) (f : Achannel → Achannel) (w : World)
      → Keeps f
      → Step w (set_channel channel f w)
  logs : (text : Str) (w : World) → Step w (put_log text w)

pub data Steps : World → World → Type 0 where
  here : (w : World) → Steps w w
  after : (w v u : World) → Steps w v → Step v u → Steps w u

listed-kept :
    (num : Str) (f : Achannel → Achannel) (c : Option Achannel)
    → Keeps f
    → listed num (map_option f c) ≡ listed num c
listed-kept num f none h = refl
listed-kept num f (some c) h = ap (count (is_user num)) (h c).1

to_luser-kept :
    (num channel : Str) (f : Achannel → Achannel) (w : World)
    → to_luser num (set_channel channel f w) ≡ to_luser num w
unfolding to_luser set_channel
to_luser-kept num channel f w = refl

kept-listed :
    (num channel other : Str) (f : Achannel → Achannel) (w : World)
    → Keeps f
    → listed num (to_channel other (set_channel channel f w)) ≡ listed num (to_channel other w)
kept-listed num channel other f w h = elim (Bool-cases (str_case_eq channel other)) [
  | inr s ↦ ap (listed num) (to_channel-set_channel-other channel other f (λ c. (h c).0) s w)
  | inl s ↦
      ap (listed num) (
        sym (to_channel-case channel other (set_channel channel f w) s)
        ∙ to_channel-set_channel channel f w (λ c. (h c).0))
      ∙ listed-kept num f (to_channel channel w) h
      ∙ ap (listed num) (to_channel-case channel other w s)
]

touch-IsConsistent :
    (channel : Str) (f : Achannel → Achannel) (w : World)
    → Keeps f
    → IsConsistent w
    → IsConsistent (set_channel channel f w)
touch-IsConsistent channel f w h k = record {
  balanced = λ num other.
      kept-listed num channel other f w h
      ∙ k.balanced num other
      ∙ ap (lists other) (sym (to_luser-kept num channel f w));
  distinct = IsDistinct-set_channel channel f (λ c. (h c).0) w k.distinct;
}

Step-IsConsistent : (w v : World) → Step w v → IsConsistent w → IsConsistent v
Step-IsConsistent _ _ (opens channel ts w n) k = new_channel-IsConsistent channel ts w n k
Step-IsConsistent _ _ (joins user is_op channel c w eu ec) k =
    link_user-IsConsistent user is_op channel w c eu ec k
Step-IsConsistent _ _ (parts num channel w) k = part_one-IsConsistent num channel w k
Step-IsConsistent _ _ (touches channel f w h) k = touch-IsConsistent channel f w h k
Step-IsConsistent _ _ (logs text w) k = put_log-IsConsistent text w k

-- However channels are opened, joined and left, in any order: where each user listed each channel as
-- often as the channel listed the user, and no two channels had the same name, that is still so.
pub Steps-IsConsistent : (w v : World) → Steps w v → IsConsistent w → IsConsistent v
Steps-IsConsistent w v (here _) k = k
Steps-IsConsistent w v (after _ u _ s t) k = Step-IsConsistent u v t (Steps-IsConsistent w u s k)
