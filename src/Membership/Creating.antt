-- ===== src/Membership/Creating.antt =====
-- NewChannel of Sources/channels.c.
use undernet_cservice_p.Prelude.{
  ℕ, Bool, Option, none, some, [], ◌∷◌, ◌==◌, if◌then◌else◌, Str, codes, find, str_case_eq,
}
use undernet_cservice_p.World.{World, Achannel, Adefchan, cfl_alwaysop}
use undernet_cservice_p.World.Text.{put_log}
use undernet_cservice_p.World.Lookup.{cl_hash}
use undernet_cservice_p.Modes.{changemode, flushmode}
use undernet_cservice_p.Bans.Commands.{is_empty}
use undernet_cservice_p.ModeChange.{bounce}

-- MAX_DEOP_RATE, MAX_NICKCHANGE_RATE and MAX_PUBLIC_MSG_RATE
abbrev max_deop_rate : ℕ
max_deop_rate = 3

abbrev max_nickchange_rate : ℕ
max_nickchange_rate = 5

abbrev max_public_msg_rate : ℕ
max_public_msg_rate = 7

-- The defaults of a channel.
unfoldable pub find_defs : Str → World → Option Adefchan
unfolding find str_case_eq
find_defs channel w = find (λ d. str_case_eq d.name channel) w.def_chan_list

unfoldable pub fresh_channel : Str → ℕ → Bool → ℕ → Achannel
fresh_channel channel ts on now = record {
  name = channel;
  am_chan_op = on;
  on = on;
  mass_deop_pro = max_deop_rate;
  nick_flood_pro = max_nickchange_rate;
  msg_flood_pro = max_public_msg_rate;
  lang = 0;
  ts = ts;
  lastact = now;
  lasttopic = now;
  flags = cfl_alwaysop;
  uflags = 0;
  mode = [];
  lastjoin = [];
  modebuff = [];
  bans = [];
  users = [];
}

unfoldable pub with_defs : Option Adefchan → Achannel → Achannel
with_defs none c = c
with_defs (some defs) c = record c {
  mass_deop_pro = defs.mass_deop_pro;
  nick_flood_pro = defs.nick_flood_pro;
  msg_flood_pro = defs.msg_flood_pro;
  flags = defs.flags;
  uflags = defs.uflags;
  ts = defs.ts;
  mode = defs.mode;
}

unfoldable pub link_channel : Achannel → World → World
unfolding cl_hash
link_channel c w = record w {
  channel_list = λ i. if i == cl_hash c.name then c ∷ w.channel_list i else w.channel_list i;
}

-- The bot's own operator mode and the bounce of the default modes.
unfoldable pub enter_channel : Achannel → World → World
unfolding changemode bounce flushmode
enter_channel c w =
    let w1 = changemode c.name b'+' b'o' w.my_yyxxx 1 w in
    let w2 = if is_empty c.mode then w1 else bounce c.name (b'-' ∷ c.mode) w1 in flushmode c.name w2

unfoldable pub new_channel : Str → ℕ → Bool → World → World
unfolding find_defs fresh_channel with_defs link_channel enter_channel
new_channel channel ts on w0 =
    let w =
      if is_empty channel
      then put_log channel (put_log (codes "ERROR: NewChannel(): empty channel string!!!") w0)
      else w0 in
    let c = with_defs (find_defs channel w) (fresh_channel channel ts on w.now) in
    let w1 = link_channel c w in if on then enter_channel c w1 else w1
