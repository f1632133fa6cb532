-- ===== src/Membership/Topics.antt =====
-- topic of Sources/channels.c.
use undernet_cservice_p.Prelude.{
  ℕ, none, some, [], ◌++◌, ◌==◌, ltb, if◌then◌else◌, Str, codes, take, head_byte, str_eq,
}
use undernet_cservice_p.World.{
  World, rpl_not_on_channel, rpl_op_only, replied, not_access, emit, has_flag, cfl_oponly,
}
use undernet_cservice_p.World.Text.{notice, put_log, send_to_serv, line_end}
use undernet_cservice_p.World.Lookup.{to_channel, set_channel, guess_channel, access}
use undernet_cservice_p.Words.{get_word, to_word}
use undernet_cservice_p.Bans.Commands.{is_empty}

-- TOPIC_LEVEL
abbrev topic_level : ℕ
topic_level = 50

abbrev topic_args : Str → Str → Str → World → Str × Str
unfolding get_word to_word guess_channel
topic_args source chan args w =
    if is_empty source
    then (take 80 chan, args)
    else if head_byte args == b'#'
    then (get_word 0 args, to_word 1 args)
    else (guess_channel source chan w, args)

unfoldable pub set_topic : Str → Str → Str → World → World
unfolding to_channel set_channel
set_topic source channel args w = elim (to_channel channel w) [
  | none ↦ emit (replied source rpl_not_on_channel 0 []) w
  | some ch ↦
      if has_flag ch.flags cfl_oponly
      then emit (replied source rpl_op_only ch.lang []) w
      else send_to_serv (w.my_yyxxx ++ codes " T " ++ channel ++ codes " :" ++ args ++ line_end) (
          put_log (codes "I CHANGED TOPIC on " ++ channel ++ codes " to " ++ args)
            (set_channel channel (λ c. record c { lastact = w.now }) w))
]

unfoldable pub topic : Str → Str → Str → World → World
unfolding get_word to_word guess_channel access set_topic str_eq
topic source chan arguments w =
    let (channel, args) = topic_args source chan arguments w in
    if is_empty source
    then set_topic source channel args w
    else if str_eq channel (codes "*")
    then notice source (codes "SYNTAX: topic <channel> <new topic>") w
    else if ltb (access channel source w) topic_level
    then emit (not_access source channel) w
    else if is_empty args
    then notice source (codes "SYNTAX: topic [channel] <new topic>") w
    else set_topic source channel args w
