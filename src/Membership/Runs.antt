-- ===== src/Membership/Runs.antt =====
-- Runs of those steps: onpart is one, and no run changes whether the network is joined.
use undernet_cservice_p.Prelude.{
  ℕ, ◌≡◌, refl, ◌∙◌, false, Bool-cases, Option-cases, ◌&&◌, not, inl, inr, List, [], ◌∷◌, Str,
}
use undernet_cservice_p.World.{World}
use undernet_cservice_p.World.Lookup.{to_channel, to_luser, set_channel, set_luser}
use undernet_cservice_p.Bans.Commands.{is_empty}
use undernet_cservice_p.Membership.Leaving.{
  del_channel, del_if_empty, no_users, part_one, part_all, onpart, split_commas, drop_node,
  drop_user,
}
use undernet_cservice_p.Membership.Creating.{new_channel, link_channel}
use undernet_cservice_p.Membership.{link_user}
use undernet_cservice_p.Membership.Steps.{
  Step, Steps, here, after, opens, joins, parts, touches, logs,
}

pub one : (w v : World) → Step w v → Steps w v
one w v s = after w w v (here w) s

pub Steps-trans : (w v u : World) → Steps w v → Steps v u → Steps w u
Steps-trans w v u s (here _) = s
Steps-trans w v u s (after _ x _ t r) = after w x u (Steps-trans w v x s t) r

part_all-Steps : (num : Str) (channels : List Str) (w : World) → Steps w (part_all num channels w)
unfolding part_all
part_all-Steps num [] w = here w
part_all-Steps num (channel ∷ channels) w =
    Steps-trans w (part_one num channel w) _ (one w _ (parts num channel w))
      (part_all-Steps num channels (part_one num channel w))

-- onpart, of one channel or of several, is a run of steps.
pub onpart-Steps : (num channel : Str) (w : World) → Steps w (onpart num channel w)
unfolding onpart
onpart-Steps num channel w = elim (Option-cases (to_luser num w)) [
  | inl n ↦ rw (onpart, n) (one w _ (logs _ w))
  | inr (u, e) ↦ rw (onpart, e) (part_all-Steps num (split_commas [] channel) w)
]

del_if_empty-bursting : (channel : Str) (w : World) → (del_if_empty channel w).bursting ≡ w.bursting
unfolding del_if_empty del_channel
del_if_empty-bursting channel w = elim (Option-cases (to_channel channel w)) [
  | inl n ↦ rw (del_if_empty, n) refl
  | inr (c, e) ↦
      rw (del_if_empty, e)
        (elim (Bool-cases (no_users c.users && not c.on)) [ inl z ↦ rw z refl | inr z ↦ rw z refl ])
]

part_one-bursting : (num channel : Str) (w : World) → (part_one num channel w).bursting ≡ w.bursting
unfolding part_one set_luser set_channel
part_one-bursting num channel w = elim (Bool-cases (is_empty channel)) [
  | inl e ↦ rw (part_one, e) refl
  | inr e ↦
      rw (part_one, e)
        (elim (Option-cases (to_channel channel w)) [
          | inl n ↦ rw n refl
          | inr (c, f) ↦ rw f (
              del_if_empty-bursting channel
                (set_luser num (drop_node channel) (set_channel channel (drop_user w.now num) w)))
        ])
]

new_channel-bursting :
    (channel : Str) (ts : ℕ) (w : World) → (new_channel channel ts false w).bursting ≡ w.bursting
unfolding new_channel link_channel
new_channel-bursting channel ts w = elim (Bool-cases (is_empty channel)) [
  | inl e ↦ rw (new_channel, e) refl
  | inr e ↦ rw (new_channel, e) refl
]

Step-bursting : (w v : World) → Step w v → v.bursting ≡ w.bursting
unfolding set_channel set_luser link_user
Step-bursting _ _ (opens channel ts w n) = new_channel-bursting channel ts w
Step-bursting _ _ (joins user is_op channel c w eu ec) = refl
Step-bursting _ _ (parts num channel w) = part_one-bursting num channel w
Step-bursting _ _ (touches channel f w h) = refl
Step-bursting _ _ (logs text w) = refl

pub Steps-bursting : (w v : World) → Steps w v → v.bursting ≡ w.bursting
Steps-bursting w v (here _) = refl
Steps-bursting w v (after _ u _ s t) = Step-bursting u v t ∙ Steps-bursting w u s
