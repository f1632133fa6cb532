-- ===== src/Kicks.antt =====
-- Sources/kicks.c: the command that kicks a nick or, with wildcards, everyone who matches.
pub mod Refused
use undernet_cservice_p.Prelude.{
  ℕ, Bool, true, false, not, ◌&&◌, ◌||◌, Option, none, some, List, [], ◌∷◌, ◌++◌, ◌==◌, ltb,
  if◌then◌else◌, Str, codes, length, take, head_byte, str_eq, str_case_eq,
}
use undernet_cservice_p.World.{
  World, Aluser, Auser, Achannel, Reply, rpl_not_on_channel, rpl_not_chanop, rpl_op_only,
  rpl_no_match, rpl_is_service, replied, not_access, emit, has_flag, cfl_oponly, lfl_isservice,
}
use undernet_cservice_p.World.Text.{notice, put_log, send_to_serv, line_end}
use undernet_cservice_p.World.Lookup.{
  to_channel, to_user_nick, get_nick, guess_channel, gethost, full_mask, access,
}
use undernet_cservice_p.Words.{get_word, to_word}
use undernet_cservice_p.Match.Mask.{matches}
use undernet_cservice_p.Bans.Commands.{is_empty}

-- KICK_LEVEL and MASS_KICK_LEVEL
abbrev pub kick_level : ℕ
kick_level = 50

abbrev pub mass_kick_level : ℕ
mass_kick_level = 200

-- The channel, the nick and the comment.
abbrev pub kick_args : Str → Str → Str → World → Str × Str × Str
unfolding get_word to_word guess_channel
kick_args source chanarg args w =
    if head_byte args == b'#'
    then (get_word 0 args, get_word 1 args, to_word 2 args)
    else (guess_channel source chanarg w, get_word 0 args, to_word 1 args)

unfoldable pub has_wildcard : Str → Bool
has_wildcard [] = false
has_wildcard (c ∷ s) = c == b'*' || c == b'?' || has_wildcard s

-- GetNick of a source that is not empty.
abbrev pub kicker : Str → World → Option Str
unfolding get_nick
kicker source w = if is_empty source then none else get_nick source w

abbrev pub kick_reason : Option Str → Str → World → Str
kick_reason none comment w = if is_empty comment then w.my_nick else comment
kick_reason (some nick) comment w =
    if is_empty comment then codes "From " ++ nick else codes "(" ++ nick ++ codes ") " ++ comment

-- The line of one kick.
unfoldable pub send_kick : Str → Str → Str → Str → World → World
unfolding get_nick
send_kick source channel num comment w =
    send_to_serv
      (w.my_yyxxx
        ++ codes " K "
        ++ channel
        ++ codes " "
        ++ num
        ++ codes " :"
        ++ kick_reason (kicker source w) comment w
        ++ line_end)
      w

abbrev reply_if : Str → Reply → ℕ → Str → World → World
reply_if source rpl lang arg w = if is_empty source then w else emit (replied source rpl lang arg) w

abbrev is_service : Aluser → Bool
is_service u = has_flag u.mode lfl_isservice

unfoldable pub kick_one : Str → Achannel → Str → Str → Str → World → World
unfolding to_user_nick send_kick
kick_one source chan channel nick comment w = elim (to_user_nick channel nick w) [
  | none ↦ w
  | some user ↦
      if is_service user.user
      then reply_if source rpl_is_service chan.lang user.user.nick w
      else put_log (codes "I KICK " ++ nick ++ codes " OFF " ++ channel)
          (send_kick source channel user.user.num comment w)
]

-- match(buffer, nick) && (!*source || strcasecmp(user->N->num, source))
unfoldable pub is_kick_hit : Str → Str → Auser → Bool
unfolding matches gethost str_case_eq
is_kick_hit source nick user =
    matches (full_mask user.user (gethost user.user)) nick
    && (is_empty source || not (str_case_eq user.user.num source))

-- The loop over the users, which ends at the first service that matches.
unfoldable pub mass_kick : Str → Achannel → Str → Str → Str → List Auser → Bool → World → World
unfolding is_kick_hit send_kick
mass_kick source chan channel nick comment [] found w =
    if found then w else reply_if source rpl_no_match chan.lang [] w
mass_kick source chan channel nick comment (user ∷ users) found w =
    if is_kick_hit source nick user
    then (if is_service user.user
        then emit (replied source rpl_is_service chan.lang user.user.nick) w
        else mass_kick source chan channel nick comment users true (
            put_log (codes "I KICK " ++ user.user.nick ++ codes " OFF " ++ channel)
              (send_kick source channel user.user.num comment w)))
    else mass_kick source chan channel nick comment users found w

abbrev too_low : Str → Str → ℕ → World → Bool
unfolding access
too_low source channel level w = not (is_empty source) && ltb (access channel source w) level

unfoldable pub kick_on : Str → Achannel → Str → Str → Str → World → World
unfolding has_wildcard access kick_one mass_kick
kick_on source chan channel nick comment w =
    if not (is_empty source) && has_flag chan.flags cfl_oponly
    then emit (replied source rpl_op_only chan.lang []) w
    else if not chan.am_chan_op
    then reply_if source rpl_not_chanop chan.lang [] w
    else if not (has_wildcard nick)
    then (if too_low source channel kick_level w
        then emit (not_access source channel) w
        else kick_one source chan channel nick comment w)
    else if too_low source channel mass_kick_level w
    then emit (not_access source channel) w
    else mass_kick source chan channel nick comment chan.users false w

unfoldable pub kick : Str → Str → Str → World → World
unfolding get_word to_word guess_channel to_channel kick_on str_eq
kick source chanarg args w =
    let (channel, nick, text) = kick_args source chanarg args w in
    let comment = take 200 text in
    if str_eq channel (codes "*") || is_empty nick
    then notice source (codes "SYNTAX: kick [#channel] <nick|pattern> [reason]") w
    else elim (to_channel channel w) [
      | none ↦ reply_if source rpl_not_on_channel 0 [] w
      | some chan ↦
          if not chan.on
          then reply_if source rpl_not_on_channel 0 [] w
          else kick_on source chan channel nick comment w
    ]
