-- ===== src/Ops.antt =====
-- op, deop and massdeop of Sources/ops.c.
pub mod Services
use undernet_cservice_p.Prelude.{
  ℕ, zero, suc, ◌+◌, Bool, true, false, not, ◌&&◌, ◌||◌, Option, none, some, List, [], ◌∷◌, ◌++◌,
  map, ◌==◌, ltb, leb, if◌then◌else◌, Str, codes, length, take, head_byte, str_eq, str_case_eq,
}
use undernet_cservice_p.World.{
  World, Aluser, Auser, Achannel, Reply, rpl_not_on_channel, rpl_not_chanop, rpl_op_self_only,
  rpl_no_op, rpl_op_only, rpl_is_service, rpl_youre_opped_by, rpl_youre_deopped_by,
  rpl_cant_be_opped, rpl_user_not_on_channel, replied, replied_for, not_access, emit, crash,
  has_flag, cfl_oponly, cfl_noop, cfl_strictop, lfl_isservice,
}
use undernet_cservice_p.World.Text.{notice}
use undernet_cservice_p.World.Lookup.{
  to_channel, set_channel, to_user_nick, set_user_nick, get_nick, guess_channel, access,
}
use undernet_cservice_p.Words.{get_word, to_word}
use undernet_cservice_p.Event.{add_event, flush_modebuff}
use undernet_cservice_p.Modes.{changemode, flushmode}
use undernet_cservice_p.Bans.Commands.{is_empty}
use undernet_cservice_p.ShitList.Table.{is_shit}

-- OP_LEVEL, NO_OP_SHIT_LEVEL and MODE_DELAY
abbrev pub op_level : ℕ
op_level = 100

abbrev pub no_op_shit_level : ℕ
no_op_shit_level = 20

abbrev pub mode_delay : ℕ
mode_delay = 2

abbrev op_args : Str → Str → Str → World → Str × Str
unfolding get_word to_word guess_channel
op_args source chan nicklist w =
    if head_byte nicklist == b'#'
    then (get_word 0 nicklist, to_word 1 nicklist)
    else (guess_channel source (take 79 chan) w, nicklist)

-- AddEvent(EVENT_FLUSHMODEBUFF, now + MODE_DELAY, channel)
unfoldable pub flush_later : Str → World → World
unfolding add_event
flush_later channel w = record w {
  event_list = add_event flush_modebuff (w.now + mode_delay) channel w.event_list;
}

-- GetNick(source), which glibc prints as (null) where it is NULL.
abbrev nick_or_null : Str → World → Str
unfolding get_nick
nick_or_null source w = elim (get_nick source w) [ none ↦ codes "(null)" | some nick ↦ nick ]

-- A source that is another user is named to `num`.
abbrev tell_other : Str → Reply → ℕ → Str → World → World
unfolding str_eq get_nick
tell_other source rpl lang num w =
    if not (is_empty source) && not (str_eq source num)
    then emit (replied num rpl lang (nick_or_null source w)) w
    else w

abbrev notice_if : Str → Str → World → World
notice_if source msg w = if is_empty source then w else notice source msg w

-- One round of the loop of `op`, a user that was found.
unfoldable pub op_user : Str → Achannel → Str → Str → Auser → World → World
unfolding access is_shit set_user_nick changemode str_eq get_nick
op_user source ch channel nick user w =
    if has_flag ch.flags cfl_strictop && ltb (access channel user.user.num w) op_level
    then notice_if source (codes "StrictOp is active and user is not authenticated") w
    else if ltb (is_shit channel user.user w).0 no_op_shit_level
    then (if user.chanop
        then w
        else tell_other source rpl_youre_opped_by ch.lang user.user.num (
            changemode channel b'+' b'o' user.user.num 0
              (set_user_nick channel nick (λ u. record u { chanop = true }) w)))
    else if is_empty source
    then w
    else emit (replied_for source nick rpl_cant_be_opped ch.lang) w

unfoldable pub op_word : Str → Achannel → Str → Str → World → World
unfolding to_user_nick op_user
op_word source ch channel nick w = elim (to_user_nick channel nick w) [
  | some user ↦ op_user source ch channel nick user w
  | none ↦
      if is_empty source
      then w
      else emit (replied source rpl_user_not_on_channel ch.lang (nick ++ b' ' ∷ channel)) w
]

-- `nick` is the word before word `i`.
unfoldable pub op_loop : ℕ → ℕ → Str → Achannel → Str → Str → Str → World → World
unfolding op_word get_word
op_loop zero i source ch channel nicklist nick w = w
op_loop (suc f) i source ch channel nicklist nick w =
    let rest =
      op_loop f (suc i) source ch channel nicklist (get_word i nicklist)
        (op_word source ch channel nick w) in
    if is_empty nick then w else rest

-- *source && (ch->flags & CFL_OPONLY) && *nicklist && strcasecmp(nicklist, GetNick(source)): none
-- where GetNick returns NULL.
abbrev not_self : Str → Achannel → Str → World → Option Bool
unfolding str_case_eq get_nick
not_self source ch nicklist w =
    if not (is_empty source) && has_flag ch.flags cfl_oponly && not (is_empty nicklist)
    then elim (get_nick source w) [
      | none ↦ none
      | some nick ↦ some (not (str_case_eq nicklist nick))
    ]
    else some false

-- The first nick: that of the source where no nick is named, none where GetNick returns NULL.
abbrev first_nick : Str → Str → World → Option Str
unfolding get_word get_nick
first_nick source nicklist w =
    if is_empty nicklist then get_nick source w else some (get_word 0 nicklist)

-- There is no word behind as many words as the list has bytes.
unfoldable pub op_on : Str → Achannel → Str → Str → World → World
unfolding access op_loop flush_later get_nick get_word str_case_eq
op_on source ch channel nicklist w = elim (not_self source ch nicklist w) [
  | none ↦ crash w
  | some true ↦ emit (replied source rpl_op_self_only ch.lang []) w
  | some false ↦
      if not (is_empty source) && has_flag ch.flags cfl_noop
      then emit (replied source rpl_no_op ch.lang []) w
      else if not (is_empty source) && ltb (access channel source w) op_level
      then emit (not_access source channel) w
      else elim (first_nick source nicklist w) [
        | none ↦ crash w
        | some nick ↦
            flush_later channel
              (op_loop (suc (suc (length nicklist))) 1 source ch channel nicklist nick w)
      ]
]

unfoldable pub op : Str → Str → Str → World → World
unfolding to_channel op_on get_word to_word guess_channel str_eq
op source chan arguments w =
    let (channel, nicklist) = op_args source chan arguments w in
    if str_eq channel (codes "*")
    then notice source (codes "SYNTAX: op <channel> <nick1> [nick2] [nick3] [...]") w
    else elim (to_channel channel w) [
      | none ↦ emit (replied source rpl_not_on_channel 0 []) w
      | some ch ↦
          if not ch.on
          then emit (replied source rpl_not_on_channel 0 []) w
          else if not ch.am_chan_op
          then emit (replied source rpl_not_chanop ch.lang []) w
          else op_on source ch channel nicklist w
    ]

unfoldable pub deop_user : Str → Achannel → Str → Str → Auser → World → World
unfolding set_user_nick changemode str_eq get_nick
deop_user source ch channel nick user w =
    if user.chanop
    then tell_other source rpl_youre_deopped_by ch.lang user.user.num (
        changemode channel b'-' b'o' user.user.num 0
          (set_user_nick channel nick (λ u. record u { chanop = false }) w))
    else w

-- The loop of `deop`, and whether it came to its end: a network service ends the command.
unfoldable pub deop_loop : ℕ → ℕ → Str → Achannel → Str → Str → World → World × Bool
unfolding to_user_nick deop_user get_word
deop_loop zero i source ch channel nicklist w = (w, true)
deop_loop (suc f) i source ch channel nicklist w =
    let nick = get_word i nicklist in
    let go : (World → World × Bool) = deop_loop f (suc i) source ch channel nicklist in
    if is_empty nick then (w, true) else elim (to_user_nick channel nick w) [
      | none ↦ go w
      | some user ↦
          if has_flag user.user.mode lfl_isservice
          then (emit (replied source rpl_is_service ch.lang user.user.nick) w, false)
          else go (deop_user source ch channel nick user w)
    ]

unfoldable pub deop_on : Str → Achannel → Str → Str → World → World
unfolding access deop_loop flush_later
deop_on source chan channel nicklist w =
    if not (is_empty source) && has_flag chan.flags cfl_oponly
    then emit (replied source rpl_op_only chan.lang []) w
    else if not chan.am_chan_op
    then emit (replied source rpl_not_chanop chan.lang []) w
    else if not (is_empty source) && ltb (access channel source w) op_level
    then emit (not_access source channel) w
    else if is_empty nicklist
    then notice source (codes "SYNTAX: deop [channel] <nick1> [nick2] [nick3] [...]") w
    else (let (w1, done) = deop_loop (suc (length nicklist)) 0 source chan channel nicklist w in
        if done then flush_later channel w1 else w1)

unfoldable pub deop : Str → Str → Str → World → World
unfolding to_channel deop_on get_word to_word guess_channel str_eq
deop source ch arguments w =
    let (channel, nicklist) = op_args source ch arguments w in
    if str_eq channel (codes "*")
    then notice source (codes "SYNTAX: deop <channel> <nick1> [nick2] [nick3] [...]") w
    else elim (to_channel channel w) [
      | none ↦ emit (replied source rpl_not_on_channel 0 []) w
      | some chan ↦
          if not chan.on
          then emit (replied source rpl_not_on_channel 0 []) w
          else deop_on source chan channel nicklist w
    ]

-- user->chanop && !(user->N->mode & LFL_ISSERVICE)
unfoldable pub is_mass_hit : Auser → Bool
is_mass_hit user = user.chanop && not (has_flag user.user.mode lfl_isservice)

unfoldable pub massdeop_loop : Str → List Auser → World → World
unfolding is_mass_hit changemode
massdeop_loop channel [] w = w
massdeop_loop channel (user ∷ users) w =
    massdeop_loop channel users
      (if is_mass_hit user then changemode channel b'-' b'o' user.user.num 0 w else w)

-- The writes of `chanop` of the loop.
unfoldable pub drop_ops : List Auser → List Auser
unfolding is_mass_hit
drop_ops users = map (λ u. if is_mass_hit u then record u { chanop = false } else u) users

unfoldable pub massdeop : Str → World → World
unfolding to_channel massdeop_loop set_channel drop_ops flushmode
massdeop channel w = elim (to_channel channel w) [
  | none ↦ w
  | some chan ↦
      if not chan.on || not chan.am_chan_op
      then w
      else flushmode channel (
          set_channel channel (λ c. record c { users = drop_ops c.users })
            (massdeop_loop channel chan.users w))
]
