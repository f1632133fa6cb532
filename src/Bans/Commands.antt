-- ===== src/Bans/Commands.antt =====
-- ban, mban, unban and showbanlist of Sources/bans.c.
use undernet_cservice_p.Prelude.{
  ℕ, zero, suc, Bool, true, false, not, ◌&&◌, none, some, List, [], ◌∷◌, ◌++◌, map, ◌==◌, ltb,
  if◌then◌else◌, Str, codes, length, find, head_byte, str_eq, str_case_eq,
}
use undernet_cservice_p.World.{World, Aluser, Auser, crash, has_flag, lfl_isservice}
use undernet_cservice_p.World.Text.{notice, put_log}
use undernet_cservice_p.World.Lookup.{
  to_luser_nick, to_channel, set_channel, to_user, log_to_user, to_user_nick, guess_channel,
  gethost, full_mask, access,
}
use undernet_cservice_p.Words.{get_word, to_word}
use undernet_cservice_p.Match.Mask.{matches}
use undernet_cservice_p.Modes.{changemode, flushmode, rem_ban}
use undernet_cservice_p.Bans.Masks.{make_ban_mask}

-- How a command finds its channel, and the rest of its arguments.
unfoldable pub channel_of : Str → Str → Str → World → Str × Str
unfolding get_word to_word guess_channel
channel_of source chan args w =
    if head_byte args == b'#'
    then (get_word 0 args, to_word 1 args)
    else (guess_channel source chan w, args)

-- BAN_LEVEL and MASS_BAN_LEVEL
abbrev ban_level : ℕ
ban_level = 75

abbrev mass_ban_level : ℕ
mass_ban_level = 200

abbrev pub is_empty : Str → Bool
is_empty [] = true
is_empty (c ∷ s) = false

abbrev is_service : Aluser → Bool
is_service u = has_flag u.mode lfl_isservice

-- One user of `ban`.
unfoldable pub ban_user : Str → Str → Aluser → World → World
unfolding gethost to_user_nick changemode make_ban_mask
ban_user channel nick luser w0 =
    let w1 =
      put_log (codes "I BAN " ++ full_mask luser (gethost luser) ++ codes " ON " ++ channel) w0 in
    let w2 : World = elim (to_user_nick channel nick w1) [
      | none ↦ w1
      | some user ↦ if user.chanop then changemode channel b'-' b'o' user.user.num 0 w1 else w1
    ] in
    elim (make_ban_mask luser) [
      | none ↦ crash w2
      | some mask ↦ changemode channel b'+' b'b' mask 0 w2
    ]

unfoldable pub ban_word : Str → Str → World → World
unfolding to_luser_nick ban_user
ban_word channel one_nick w = elim (to_luser_nick one_nick w) [
  | none ↦ w
  | some luser ↦ ban_user channel one_nick luser w
]

unfoldable pub ban_loop : ℕ → ℕ → Str → Str → World → World
ban_loop zero i channel nicklist w = w
ban_loop (suc f) i channel nicklist w =
    let rest = ban_loop f (suc i) channel nicklist (ban_word channel (get_word i nicklist) w) in
    if is_empty (get_word i nicklist) then w else rest

-- There is no word behind as many words as the list has bytes.
unfoldable pub ban : Str → Str → Str → World → World
unfolding channel_of access to_channel ban_loop flushmode str_eq
ban source chan args w =
    let (channel, nicklist) = channel_of source chan args w in
    if str_eq channel (codes "*")
    then notice source (codes "SYNTAX: ban <channel> <nick1|addr1> [nick2|addr2] [...]") w
    else if not (is_empty source) && ltb (access channel source w) ban_level
    then notice source (codes "Your Access on this channel is too low") w
    else elim (to_channel channel w) [
      | none ↦ notice source (codes "I'm NOT on that channel!") w
      | some ch ↦
          if not ch.on
          then notice source (codes "I'm NOT on that channel!") w
          else if not ch.am_chan_op
          then notice source (codes "I'm not channel operator!") w
          else if is_empty nicklist
          then notice source (codes "SYNTAX: ban <channel> <nick1|addr1> [nick2|addr2] [...]") w
          else flushmode channel (ban_loop (suc (length nicklist)) 0 channel nicklist w)
    ]

-- match(buffer, args) && !(user->N->mode & LFL_ISSERVICE)
unfoldable pub is_mban_hit : Str → Auser → Bool
unfolding matches gethost
is_mban_hit args user =
    matches (full_mask user.user (gethost user.user)) args && not (is_service user.user)

-- The loop of `mban`; its writes of `chanop` are `clear_ops`.
unfoldable pub mban_loop : Str → Str → List Auser → Bool → World → World × Bool
unfolding is_mban_hit changemode
mban_loop channel args [] found w = (w, found)
mban_loop channel args (user ∷ users) found w =
    if is_mban_hit args user
    then (let w1 =
          put_log
            (codes "I BAN "
              ++ full_mask user.user (gethost user.user)
              ++ codes " on "
              ++ channel
              ++ codes " ("
              ++ args
              ++ codes ")")
            w in
        let w2 = if user.chanop then changemode channel b'-' b'o' user.user.num 0 w1 else w1 in
        let w3 = if found then w2 else changemode channel b'+' b'b' args 0 w2 in
        mban_loop channel args users true w3)
    else mban_loop channel args users found w

unfoldable pub clear_ops : Str → List Auser → List Auser
unfolding is_mban_hit
clear_ops args users =
    map (λ u. if is_mban_hit args u then record u { chanop = false } else u) users

abbrev notice_if : Str → Str → World → World
notice_if source msg w = if is_empty source then w else notice source msg w

unfoldable pub mban : Str → Str → Str → World → World
unfolding channel_of access to_channel mban_loop clear_ops set_channel flushmode str_eq
mban source ch arguments w =
    let (channel, args) = channel_of source ch arguments w in
    if str_eq channel (codes "*")
    then notice source (codes "SYNTAX: mban <channel> <nick!username@hostname>") w
    else elim (to_channel channel w) [
      | none ↦ notice_if source (codes "I'm NOT on that channel!") w
      | some chan ↦
          if not chan.on
          then notice_if source (codes "I'm NOT on that channel!") w
          else if not chan.am_chan_op
          then notice_if source (codes "I am NOT channel operator!") w
          else if not (is_empty source) && ltb (access channel source w) mass_ban_level
          then notice source (codes "Your Access on this channel is too low!") w
          else if is_empty args
          then notice source (codes "SYNTAX: mban <channel> <nick!username@hostname>") w
          else (let (w1, found) = mban_loop channel args chan.users false w in
              let w2 = set_channel channel (λ c. record c { users = clear_ops args c.users }) w1 in
              if found then flushmode channel w2 else notice_if source (codes "No match.") w2)
    ]

abbrev is_unban_hit : Bool → Str → Str → Bool
is_unban_hit exact one pattern = if exact then str_case_eq one pattern else matches one pattern

-- The loop over the bans, which begins again after each ban that it removes; each round removes one.
unfoldable pub unban_loop : ℕ → Bool → Str → Str → Bool → World → World × Bool
unfolding to_channel find matches str_case_eq changemode rem_ban
unban_loop zero exact one channel found w = (w, found)
unban_loop (suc f) exact one channel found w = elim (to_channel channel w) [
  | none ↦ (w, found)
  | some chan ↦ elim (find (λ p. is_unban_hit exact one p) chan.bans) [
    | none ↦ (w, found)
    | some pattern ↦
        let w1 = put_log (codes "I UNBAN " ++ pattern ++ codes " ON " ++ chan.name) w in
        let w2 = rem_ban channel pattern (changemode channel b'-' b'b' pattern 0 w1) in
        if exact then (w2, true) else unban_loop f exact one channel true w2
  ]
]

abbrev ban_count : Str → World → ℕ
ban_count channel w = elim (to_channel channel w) [ none ↦ 0 | some chan ↦ length chan.bans ]

-- One word of `unban`.
unfoldable pub unban_one : Str → Str → Str → World → World
unfolding to_luser_nick gethost unban_loop to_channel
unban_one source channel word w =
    let (one, exact) = elim (to_luser_nick word w) as (λ _. Str × Bool) [
      | none ↦ (word, true)
      | some luser ↦ (full_mask luser (gethost luser), false)
    ] in
    let (w1, found) = unban_loop (suc (ban_count channel w)) exact one channel false w in
    if not (is_empty source) && not found
    then notice source (one ++ codes " is not in " ++ channel ++ codes "'s banlist!") w1
    else w1

unfoldable pub unban_words : ℕ → ℕ → Str → Str → Str → World → World
unban_words zero i source channel list w = w
unban_words (suc f) i source channel list w =
    let rest =
      unban_words f (suc i) source channel list (unban_one source channel (get_word i list) w) in
    if is_empty (get_word i list) then w else rest

unfoldable pub unban : Str → Str → Str → World → World
unfolding channel_of access to_channel unban_words flushmode
unban source ch args w =
    let (channel, list) = channel_of source ch args w in
    elim (to_channel channel w) [
      | none ↦ notice source (codes "I am NOT on that channel!") w
      | some chan ↦
          if not chan.on
          then notice source (codes "I am NOT on that channel!") w
          else if not chan.am_chan_op
          then notice source (codes "I am not channel operator!") w
          else if not (is_empty source) && ltb (access channel source w) ban_level
          then notice source (codes "You're Access on this channel is too low") w
          else if is_empty list
          then notice source (codes "SYNTAX: unban [#channel] <nick1|addr1> [<nick2|addr2>] [...]")
              w
          else flushmode channel (unban_words (suc (length list)) 0 source channel list w)
    ]

unfoldable pub notice_all : Str → List Str → World → World
notice_all source [] w = w
notice_all source (m ∷ ms) w = notice_all source ms (notice source m w)

unfoldable pub showbanlist : Str → Str → Str → World → World
unfolding channel_of to_user log_to_user to_channel notice_all str_eq
showbanlist source ch args w =
    let channel = (channel_of source ch args w).0 in
    if str_eq channel (codes "*")
    then notice source (codes "SYNTAX: banlist <channel>") w
    else elim (to_user channel source w) [
      | none ↦
          notice source (channel ++ codes ": You are not on that channel")
            (log_to_user channel source w)
      | some _ ↦ elim (to_channel channel w) [
        | none ↦ crash w
        | some chan ↦
            if length chan.bans == 0
            then notice source (channel ++ codes ": ban list is empty.") w
            else notice source (channel ++ codes ": End of ban list")
                (notice_all source chan.bans w)
      ]
    ]
