-- ===== src/ModeChange/Opping.antt =====
-- onop and ondeop of Sources/modes.c, without NICKSERV.
use undernet_cservice_p.Prelude.{
  ℕ, ◌+◌, Bool, true, false, not, ◌&&◌, ◌||◌, none, some, List, [], ◌∷◌, ◌++◌, ◌==◌, ltb, leb,
  if◌then◌else◌, Str, codes, length, str_eq, remove_if,
}
use undernet_cservice_p.World.{
  World, Aluser, Auser, Achannel, Adeop, Reply, rpl_no_op, rpl_cant_be_op, rpl_cant_be_opped,
  replied, emit, has_flag, cfl_noop, cfl_strictop, lfl_isservice,
}
use undernet_cservice_p.World.Text.{notice, put_log, decimal}
use undernet_cservice_p.World.Lookup.{
  to_channel, set_channel, to_luser, to_user, set_user, log_to_user, access,
}
use undernet_cservice_p.Modes.{changemode}
use undernet_cservice_p.Bans.Commands.{unban}
use undernet_cservice_p.Kicks.{kick}
use undernet_cservice_p.ShitList.Table.{is_shit}
use undernet_cservice_p.ShitList.Commands.{add_to_shit_list}
use undernet_cservice_p.Suspend.{suspend}
use undernet_cservice_p.Ops.{op_level, no_op_shit_level}

-- ACCESS_BAN_PRIORITY, SUSPEND_TIME_FOR_OPPING_A_SHITLISTED_USER and the constants of the
-- protection against mass deops.
abbrev access_ban_priority : ℕ
access_ban_priority = 450

abbrev suspend_time_for_opping_a_shitlisted_user : ℕ
suspend_time_for_opping_a_shitlisted_user = 600

abbrev massdeop_immune_level : ℕ
massdeop_immune_level = 450

abbrev massdeop_suspend_time : ℕ
massdeop_suspend_time = 600

abbrev massdeop_shitlist_time : ℕ
massdeop_shitlist_time = 1

abbrev massdeop_shitlist_level : ℕ
massdeop_shitlist_level = 20

-- user->chanop = …, of the user with that number.
unfoldable pub set_chanop : Bool → Str → Str → World → World
unfolding set_user
set_chanop value channel num w = set_user channel num (λ u. record u { chanop = value }) w

-- The operator that is taken back, in the queue and in the state.
unfoldable pub take_op : Str → Str → World → World
unfolding changemode set_chanop
take_op channel num w = set_chanop false channel num (changemode channel b'-' b'o' num 0 w)

abbrev both_told : Str → Str → Reply → Reply → ℕ → World → World
both_told source target rpl1 rpl2 lang w =
    emit (replied source rpl2 lang []) (emit (replied target rpl1 lang []) w)

abbrev strict_text : Str
strict_text = codes "Only authenticated users may be op in StrictOp mode"

unfoldable pub strict_op : Str → Str → Str → Str → Str → World → World
unfolding take_op access
strict_op source channel target nick opper w =
    let w1 = notice source strict_text (
      notice target strict_text
        (put_log (codes "StrictOp MODE! deopping " ++ nick ++ codes " and " ++ opper) w)) in
    let w2 = take_op channel target w1 in
    if ltb (access channel source w2) op_level then take_op channel source w2 else w2

-- An operator whom the ban list keeps from being one.
unfoldable pub shitlisted_op : Str → Str → Str → ℕ → Str → Str → World → World
unfolding take_op access suspend unban decimal
shitlisted_op source channel target lang nick opper w =
    if ltb (access channel source w) access_ban_priority
    then (let w1 =
          put_log
            (nick
              ++ codes " is shitlisted (NO-OP LEVEL)!Deopping "
              ++ nick
              ++ codes " and "
              ++ opper)
            w in
        let w2 = both_told source target rpl_cant_be_op rpl_cant_be_opped lang w1 in
        suspend [] channel (opper ++ b' ' ∷ decimal suspend_time_for_opping_a_shitlisted_user)
          (take_op channel source (take_op channel target w2)))
    else unban source channel target w

-- The tests on a user `user` whom the user `luser` makes operator.
unfoldable pub check_op : Str → Achannel → Str → Str → Aluser → Aluser → World → World
unfolding take_op strict_op shitlisted_op access is_shit
check_op source chan channel target user luser w =
    if has_flag luser.mode lfl_isservice || has_flag user.mode lfl_isservice || not chan.on
    then w
    else if has_flag chan.flags cfl_noop
    then take_op channel source (
        take_op channel target (
          both_told source target rpl_no_op rpl_no_op chan.lang
            (put_log (codes "NoOp MODE! deopping " ++ user.nick ++ codes " and " ++ luser.nick) w)))
    else if has_flag chan.flags cfl_strictop && ltb (access channel target w) op_level
    then strict_op source channel target user.nick luser.nick w
    else if leb no_op_shit_level (is_shit channel user w).0
    then shitlisted_op source channel target chan.lang user.nick luser.nick w
    else w

unfoldable pub op_me : Str → World → World
unfolding to_channel set_channel
op_me channel w = elim (to_channel channel w) [
  | none ↦ put_log (codes "ERROR: onop() channel not found!") w
  | some chan ↦ set_channel channel (λ c. record c { am_chan_op = true }) w
]

-- A source that is a server is no `luser`, and then nothing is tested.
unfoldable pub op_other : Str → Str → Str → World → World
unfolding to_channel to_luser to_user set_chanop check_op
op_other source channel target w = elim (to_user channel target w) [
  | none ↦ put_log (codes "ERROR: onop() user not found (" ++ target ++ codes ")") w
  | some user ↦
      let w1 = set_chanop true channel target w in
      elim (to_channel channel w) [
        | none ↦ w1
        | some chan ↦ elim (to_luser source w) [
          | none ↦ w1
          | some luser ↦ check_op source chan channel target user.user luser w1
        ]
      ]
]

unfoldable pub onop : Str → Str → Str → World → World
unfolding log_to_user op_me op_other str_eq
onop source channel target w0 =
    let w = log_to_user channel target w0 in
    if str_eq w.my_yyxxx target then op_me channel w else op_other source channel target w

-- curr->time < (now - 15) || strcmp(curr->num, target) == 0
abbrev pub is_old_deop : ℕ → Str → Adeop → Bool
is_old_deop now target curr = ltb (curr.time + 15) now || str_eq curr.num target

-- The history without the old deops and those of `target`, with the new one.
unfoldable pub record_deop : ℕ → Str → List Adeop → List Adeop
unfolding remove_if str_eq
record_deop now target deophist =
    record { time = now; num = target } ∷ remove_if (is_old_deop now target) deophist

unfoldable pub punish_deop : Str → Str → Str → World → World
unfolding access suspend add_to_shit_list kick decimal
punish_deop source channel nick w =
    let w1 =
      notice source (codes "### MASSDEOP PROTECTION ACTIVATED ###")
        (put_log (codes "MASSDEOP from " ++ nick ++ codes " on " ++ channel) w) in
    if leb massdeop_immune_level (access channel source w1)
    then notice source (codes "You are lucky your access is so high :P") w1
    else (let w2 = suspend [] channel (nick ++ b' ' ∷ decimal massdeop_suspend_time) w1 in
        let w3 =
          add_to_shit_list [] channel
            (nick
              ++ b' ' ∷ decimal massdeop_shitlist_time
              ++ b' ' ∷ decimal massdeop_shitlist_level
              ++ codes " *** MASSDEOP ***")
            0 w2 in
        kick [] channel (nick ++ codes " ### MASSDEOP PROTECTION ###") w3)

-- The history of `user1` on a channel that the bot is on.
unfoldable pub count_deop : Str → Achannel → Str → Str → Auser → World → World
unfolding record_deop set_user punish_deop
count_deop source chan channel target user1 w =
    let deophist = record_deop w.now target user1.deophist in
    let w1 = set_user channel source (λ u. record u { deophist = deophist }) w in
    if length deophist == chan.mass_deop_pro
      && not (chan.mass_deop_pro == 0)
      && not (has_flag user1.user.mode lfl_isservice)
    then punish_deop source channel user1.user.nick w1
    else w1

unfoldable pub ondeop : Str → Str → Str → World → World
unfolding to_channel to_user set_chanop count_deop
ondeop source channel target w = elim (to_channel channel w) [
  | none ↦ put_log (codes "ERROR: ondeop() channel not found!") w
  | some chan ↦ elim (to_user channel source w) [
    | none ↦ w
    | some user1 ↦
        let w1 = set_chanop false channel target w in
        if chan.on then count_deop source chan channel target user1 w1 else w1
  ]
]
