-- ===== src/Membership/Leaving.antt =====
-- DelChannel, IsOpless, part, onpart and onkick of Sources/channels.c.
use undernet_cservice_p.Prelude.{
  ℕ, Bool, true, false, not, ◌&&◌, ◌||◌, none, some, List, [], ◌∷◌, ◌++◌, ◌==◌, ltb, if◌then◌else◌,
  Str, codes, head_byte, str_eq, str_case_eq,
}
use undernet_cservice_p.World.{
  World, Aluser, Auser, Achannel, Achannelnode, rpl_not_on_channel, replied, not_access, emit,
}
use undernet_cservice_p.World.Text.{notice, put_log, send_to_serv, decimal, line_end}
use undernet_cservice_p.World.Lookup.{
  cl_hash, to_channel, set_channel, to_luser, set_luser, to_user, log_to_user, guess_channel,
  gethost, full_mask, access, broadcast,
}
use undernet_cservice_p.Words.{get_word, to_word}
use undernet_cservice_p.Bans.Commands.{is_empty}
use undernet_cservice_p.Floodpro.{check_flood}

-- LEVEL_PART
abbrev level_part : ℕ
level_part = 450

-- The list without the first element that the test finds: a node that is unlinked.
unfoldable pub unlink {ℓ} : {A : Type ℓ} → (A → Bool) → List A → List A
unlink p [] = []
unlink p (x ∷ xs) = let rest = unlink p xs in if p x then xs else x ∷ rest

abbrev pub is_channel : Str → Achannel → Bool
is_channel channel c = str_case_eq c.name channel

unfoldable pub del_channel : Str → World → World
unfolding cl_hash unlink str_case_eq
del_channel channel w = record w {
  channel_list = λ i.
      if i == cl_hash channel
      then unlink (is_channel channel) (w.channel_list i)
      else w.channel_list i;
}

unfoldable pub any_op : List Auser → Bool
any_op [] = false
any_op (u ∷ users) = u.chanop || any_op users

unfoldable pub is_opless : Str → World → Bool
unfolding to_channel any_op
is_opless channel w = elim (to_channel channel w) [
  | none ↦ false
  | some chan ↦ not (any_op chan.users || chan.am_chan_op)
]

abbrev pub no_users : List Auser → Bool
no_users [] = true
no_users (u ∷ users) = false

abbrev leave_channel : Achannel → Achannel
leave_channel c = record c { on = false; am_chan_op = false }

abbrev part_name : Str → Str → Str → World → Str
unfolding get_word guess_channel
part_name source chan arg w =
    if head_byte arg == b'#' then get_word 0 arg else guess_channel source (get_word 0 chan) w

unfoldable pub part : Str → Str → Str → World → World
unfolding get_word guess_channel to_channel access set_channel del_channel str_eq
part source chan arg w =
    let channel = part_name source chan arg w in
    if str_eq channel (codes "*")
    then notice source (codes "SYNTAX: part <channel>") w
    else elim (to_channel channel w) [
      | none ↦ emit (replied source rpl_not_on_channel 0 []) w
      | some ch ↦
          if not (is_empty source) && ltb (access channel source w) level_part
          then emit (not_access source channel) w
          else (let w1 = set_channel channel leave_channel w in
              let w2 = if no_users ch.users then del_channel channel w1 else w1 in
              send_to_serv (w.my_yyxxx ++ codes " L " ++ channel ++ line_end)
                (put_log (codes "I LEAVE " ++ channel) w2))
    ]

-- The parts of a text between its commas.
unfoldable pub split_commas : Str → Str → List Str
split_commas word [] = word ∷ []
split_commas word (c ∷ s) =
    let more = split_commas [] s in
    let same = split_commas (word ++ c ∷ []) s in if c == b',' then word ∷ more else same

abbrev pub is_user : Str → Auser → Bool
is_user num u = str_eq u.user.num num

abbrev pub is_node : Str → Achannelnode → Bool
is_node channel c = str_case_eq channel c.name

abbrev pub drop_user : ℕ → Str → Achannel → Achannel
drop_user now num c = record c { lastact = now; users = unlink (is_user num) c.users }

abbrev pub drop_node : Str → Aluser → Aluser
drop_node channel u = record u { channel = unlink (is_node channel) u.channel }

-- A channel that nobody is on any more, the bot included.
unfoldable pub del_if_empty : Str → World → World
unfolding to_channel del_channel
del_if_empty channel w = elim (to_channel channel w) [
  | none ↦ w
  | some chan ↦ if no_users chan.users && not chan.on then del_channel channel w else w
]

-- One channel of `onpart`.
unfoldable pub part_one : Str → Str → World → World
unfolding to_channel set_channel set_luser del_if_empty unlink str_eq str_case_eq
part_one num channel w =
    if is_empty channel
    then put_log channel (put_log num (put_log (codes "ERROR: onpart(): PART to null channel!") w))
    else elim (to_channel channel w) [
      | none ↦
          put_log channel
            (put_log num (put_log (codes "ERROR: onpart(): null channel!? /*core dumped*/") w))
      | some chan ↦
          del_if_empty channel
            (set_luser num (drop_node channel) (set_channel channel (drop_user w.now num) w))
    ]

unfoldable pub part_all : Str → List Str → World → World
unfolding part_one
part_all num [] w = w
part_all num (channel ∷ channels) w = part_all num channels (part_one num channel w)

unfoldable pub onpart : Str → Str → World → World
unfolding to_luser split_commas part_all
onpart num channel w = elim (to_luser num w) [
  | none ↦ put_log (codes "ERROR: onpart(): Unknown USER " ++ num ++ codes "!") w
  | some luser ↦ part_all num (split_commas [] channel) w
]

-- Who kicked the bot, for the log.
abbrev kick_log : Str → Str → Str → World → Str
unfolding to_user gethost access to_word decimal
kick_log source channel body w = elim (to_user channel source w) [
  | none ↦ codes "I'M KICKED OFF " ++ channel ++ codes " by " ++ source
  | some user ↦
      codes "I'M KICKED OFF "
      ++ channel
      ++ codes " BY "
      ++ full_mask user.user (gethost user.user)
      ++ codes " ("
      ++ decimal (access channel source w)
      ++ codes ") "
      ++ to_word 1 body
]

unfoldable pub onkick : Str → Str → Str → World → World
unfolding get_word check_flood log_to_user to_user gethost access to_word decimal broadcast part
    onpart str_eq
onkick source channel body w0 =
    let num = get_word 0 body in
    let w = (check_flood source channel 80 w0).0 in
    if str_eq w.my_yyxxx num
    then (let w1 = log_to_user channel source w in
        let text = kick_log source channel body w in
        part [] channel [] (broadcast text false (put_log text w1)))
    else onpart num channel w
