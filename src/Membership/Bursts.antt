-- ===== src/Membership/Bursts.antt =====
-- onburst is made of those steps.
use undernet_cservice_p.Prelude.{
  ℕ, zero, suc, ◌-◌, ◌≡◌, refl, sym, ap, ◌∙◌, Bool, true, false, Bool-cases, Option-cases, inl, inr,
  List, [], ◌∷◌, take, head_byte, ltb, ◌==◌, Str,
}
use undernet_cservice_p.World.{World}
use undernet_cservice_p.World.Text.{atoi}
use undernet_cservice_p.World.Lookup.{to_channel, to_luser, set_channel}
use undernet_cservice_p.World.Channels.{to_channel-case}
use undernet_cservice_p.Words.{get_word, getn_word, to_word}
use undernet_cservice_p.Modes.{add_ban, add_to_bans}
use undernet_cservice_p.Bans.Commands.{is_empty}
use undernet_cservice_p.Membership.Leaving.{split_commas}
use undernet_cservice_p.Membership.{nat_of}
use undernet_cservice_p.Membership.Bursting.{
  save_modes, split_spaces, burst_bans, drop_byte, from_colon, burst_op, burst_user, burst_users,
  burst_words, burst_channel, string_size, onburst,
}
use undernet_cservice_p.Membership.Steps.{Steps, here, after, opens, touches, logs}
use undernet_cservice_p.Membership.Runs.{one, Steps-trans, Steps-bursting}
use undernet_cservice_p.Membership.Joins.{join_user-Steps, to_luser-num, to_channel-name}

add_ban-Steps : (channel pattern : Str) (w : World) → Steps w (add_ban channel pattern w)
unfolding add_ban
add_ban-Steps channel pattern w = elim (Option-cases (to_channel channel w)) [
  | inl n ↦ rw (add_ban, n) (one w _ (logs _ w))
  | inr (c, e) ↦
      rw (add_ban, e)
        (one w _ (
          touches channel (λ d. record d { bans = add_to_bans pattern d.bans }) w
            (λ d. (refl, refl))))
]

burst_bans-Steps :
    (channel : Str) (bans : List Str) (w : World) → Steps w (burst_bans channel bans w)
unfolding burst_bans
burst_bans-Steps channel [] w = here w
burst_bans-Steps channel (ban ∷ bans) w =
    Steps-trans w (add_ban channel ban w) _ (add_ban-Steps channel ban w)
      (burst_bans-Steps channel bans (add_ban channel ban w))

burst_user-Steps :
    (channel num : Str) (is_op : Bool) (w : World)
    → w.bursting ≡ true
    → Steps w (burst_user channel num is_op w)
unfolding burst_user
burst_user-Steps channel num is_op w b = elim (Option-cases (to_luser num w)) [
  | inl n ↦ rw (burst_user, n) (one w _ (logs _ w))
  | inr (u, eu) ↦
      rw (burst_user, eu)
        (elim (Option-cases (to_channel channel w)) [
          | inl n ↦ rw n (here w)
          | inr (c, ec) ↦ rw ec (
              join_user-Steps u is_op c w b
                (ap (λ n. to_luser n w) (sym (to_luser-num num u w eu)) ∙ eu)
                (to_channel-case c.name channel w (to_channel-name channel c w ec) ∙ ec))
        ])
]

burst_users-Steps :
    (channel : Str) (users : List Str) (is_op : Bool) (w : World)
    → w.bursting ≡ true
    → Steps w (burst_users channel users is_op w).0
unfolding burst_users
burst_users-Steps channel [] is_op w b = here w
burst_users-Steps channel (sptr ∷ users) is_op w b = elim (Bool-cases (is_empty sptr)) [
  | inl e ↦ rw e (here w)
  | inr e ↦ rw e (
      let op : Bool = burst_op (from_colon sptr) is_op in
      let v : World = burst_user channel (take 5 sptr) op w in
      let run = burst_user-Steps channel (take 5 sptr) op w b in
      Steps-trans w v _ run (burst_users-Steps channel users op v (Steps-bursting w v run ∙ b)))
]

burst_words-Steps :
    (n : ℕ) (channel args : Str) (token_pos : ℕ) (is_op : Bool) (w : World)
    → w.bursting ≡ true
    → Steps w (burst_words n channel args token_pos is_op w)
unfolding burst_words
burst_words-Steps zero channel args token_pos is_op w b = here w
burst_words-Steps (suc n) channel args token_pos is_op w b =
    let sptr : Str = drop_byte b':' (getn_word token_pos args 600) in
    elim (Bool-cases (head_byte sptr == b'~')) [
      | inl t ↦ rw t (burst_words-Steps n channel args (suc token_pos) is_op w b)
      | inr t ↦ rw t (elim (Bool-cases (head_byte sptr == b'%')) [
        | inl p ↦ rw p (
            burst_bans-Steps channel
              (split_spaces [] (drop_byte b'%' (drop_byte b':' (to_word token_pos args)))) w)
        | inr p ↦ rw p (
            let users : List Str = split_commas [] sptr in
            let v : World = (burst_users channel users is_op w).0 in
            let run = burst_users-Steps channel users is_op w b in
            Steps-trans w v _ run (
              burst_words-Steps n channel args (suc token_pos) (burst_users channel users is_op w).1
                v (Steps-bursting w v run ∙ b)))
      ])
    ]

burst_channel-Steps :
    (channel : Str) (timestamp : ℕ) (w : World) → Steps w (burst_channel channel timestamp w)
unfolding burst_channel
burst_channel-Steps channel timestamp w = elim (Option-cases (to_channel channel w)) [
  | inl n ↦ rw (burst_channel, n) (one w _ (opens channel _ w n))
  | inr (c, e) ↦
      rw (burst_channel, e)
        (elim (Bool-cases (ltb timestamp c.ts)) [
          | inl l ↦
              rw l
                (one w _ (touches channel (λ d. record d { ts = timestamp }) w (λ d. (refl, refl))))
          | inr l ↦ rw l (here w)
        ])
]

save_modes-Steps : (channel args : Str) (w : World) → Steps w (save_modes channel args w).0
unfolding save_modes
save_modes-Steps channel args w = elim (Bool-cases (head_byte (get_word 1 args) == b'+')) [
  | inl e ↦ rw e (one w _ (touches channel _ w (λ d. (refl, refl))))
  | inr e ↦ rw e (here w)
]

-- During the burst onburst is a run of steps, whatever modes, bans and users the line has.
pub onburst-Steps :
    (source chanarg args : Str) (w : World)
    → w.bursting ≡ true
    → Steps w (onburst source chanarg args w)
unfolding onburst
onburst-Steps source chanarg args w b =
    let channel : Str = take 200 chanarg in
    let v : World = burst_channel channel (nat_of (atoi (get_word 0 args))) w in
    let u : World = set_channel channel (λ c. record c { lastact = v.now }) v in
    let t : World = (save_modes channel args u).0 in
    let pos' : ℕ = (save_modes channel args u).1 in
    let run : Steps w t =
      Steps-trans w u t
        (after w v u (burst_channel-Steps channel (nat_of (atoi (get_word 0 args))) w)
          (touches channel (λ c. record c { lastact = v.now }) v (λ c. (refl, refl))))
        (save_modes-Steps channel args u) in
    Steps-trans w t _ run (
      burst_words-Steps (string_size args - pos') channel args pos' false t
        (Steps-bursting w t run ∙ b))
