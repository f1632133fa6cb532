-- ===== src/Settings.antt =====
-- SetChanFlag of Sources/channels.c: the settings of a channel.
pub mod Denied
use undernet_cservice_p.Prelude.{
  ℕ, ◌+◌, Bool, true, false, not, ◌&&◌, ◌||◌, Option, none, some, List, [], ◌∷◌, ◌++◌, ◌==◌, ltb,
  leb, if◌then◌else◌, Str, codes, length, take, find, head_byte, str_eq, str_case_eq, ℤ, pos,
  negsuc,
}
use undernet_cservice_p.World.{
  World, Achannel, Adefchan, Reply, rpl_chan_not_exist, rpl_bad_flood_limit, rpl_set_flood_limit,
  rpl_bad_nick_flood_limit, rpl_set_nick_flood_limit, rpl_bad_massdeop_limit,
  rpl_set_massdeop_limit, rpl_noop_on, rpl_noop_off, rpl_bad_noop, rpl_alwaysop_on,
  rpl_alwaysop_off, rpl_bad_alwaysop, rpl_oponly_on, rpl_oponly_off, rpl_bad_oponly,
  rpl_autotopic_on, rpl_autotopic_off, rpl_bad_autotopic, rpl_strictop_on, rpl_strictop_off,
  rpl_bad_strictop, rpl_bad_userflags, rpl_set_userflags, rpl_known_lang, rpl_set_lang, replied,
  not_access, emit, set_flag, clear_flag, cfl_noop, cfl_alwaysop, cfl_oponly, cfl_strictop,
  cfl_autotopic,
}
use undernet_cservice_p.World.Text.{notice, put_log, atoi, decimal}
use undernet_cservice_p.World.Lookup.{to_channel, set_channel, get_nick, access}
use undernet_cservice_p.Words.{get_word, to_word}
use undernet_cservice_p.Modes.Flags.{has_byte}
use undernet_cservice_p.Bans.Commands.{channel_of, is_empty}
use undernet_cservice_p.Ops.{massdeop}
use undernet_cservice_p.Membership.Entering.{get_ops}

-- What a setting is changed by: the user, the channel, the word of the value and the arguments.
pub record Request : Type 0 where
  pub source : Str
  pub channel : Str
  pub svalue : Str
  pub args : Str

-- A branch of the command: the names that choose it, its level, and what it does.
pub record Setting : Type 0 where
  pub names : List Str
  pub level : ℕ
  pub change : Request → Achannel → World → World

-- GetNick(source), which glibc prints as (null) where it is NULL.
abbrev nick_or_null : Str → World → Str
nick_or_null source w = elim (get_nick source w) [ none ↦ codes "(null)" | some nick ↦ nick ]

unfoldable pub log_set : Request → Str → World → World
unfolding get_nick
log_set r text w = put_log (nick_or_null r.source w ++ codes " SET " ++ text) w

abbrev answer : Request → Achannel → Reply → Str → World → World
answer r chan rpl arg w = emit (replied r.source rpl chan.lang arg) w

-- value != 0 && (value < 3 || value > most): none; else the limit.
unfoldable pub limit_of : ℕ → ℤ → Option ℕ
limit_of most (pos n) = if n == 0 || (leb 3 n && leb n most) then some n else none
limit_of most (negsuc n) = none

unfoldable pub change_limit :
    Str → ℕ → Reply → Reply → (ℕ → Achannel → Achannel) → Request → Achannel → World → World
unfolding limit_of atoi set_channel log_set decimal
change_limit name most bad done store r chan w = elim (limit_of most (atoi r.svalue)) [
  | none ↦ answer r chan bad [] w
  | some n ↦
      log_set r (name ++ codes " ON " ++ r.channel ++ codes " TO " ++ decimal n)
        (answer r chan done (decimal n) (set_channel r.channel (store n) w))
]

-- The words ON and EIN, OFF and AUS.
unfoldable pub switch_of : Str → Option Bool
unfolding str_case_eq
switch_of svalue =
    if str_case_eq svalue (codes "ON") || str_case_eq svalue (codes "EIN")
    then some true
    else if str_case_eq svalue (codes "OFF") || str_case_eq svalue (codes "AUS")
    then some false
    else none

abbrev turn_on : ℕ → Achannel → Achannel
turn_on bit c = record c { flags = set_flag c.flags bit }

abbrev turn_off : ℕ → Achannel → Achannel
turn_off bit c = record c { flags = clear_flag c.flags bit }

-- `between` stands before the log of ON, `behind` after it.
unfoldable pub change_flag :
    Str
    → ℕ
    → Reply
    → Reply
    → Reply
    → (World → World)
    → (World → World)
    → Request
    → Achannel
    → World
    → World
unfolding switch_of set_channel log_set
change_flag name bit on_rpl off_rpl bad between behind r chan w = elim (switch_of r.svalue) [
  | none ↦ answer r chan bad [] w
  | some true ↦ behind (
      log_set r (name ++ codes " ON " ++ r.channel ++ codes " ON")
        (between (answer r chan on_rpl [] (set_channel r.channel (turn_on bit) w))))
  | some false ↦
      log_set r (name ++ codes " ON " ++ r.channel ++ codes " OFF")
        (answer r chan off_rpl [] (set_channel r.channel (turn_off bit) w))
]

abbrev as_is : World → World
as_is w = w

unfoldable pub change_noop : Request → Achannel → World → World
unfolding change_flag massdeop
change_noop r chan w =
    change_flag (codes "NOOP") cfl_noop rpl_noop_on rpl_noop_off rpl_bad_noop (massdeop r.channel)
      as_is r chan w

unfoldable pub change_alwaysop : Request → Achannel → World → World
unfolding change_flag get_ops
change_alwaysop r chan w =
    change_flag (codes "ALWAYSOP") cfl_alwaysop rpl_alwaysop_on rpl_alwaysop_off rpl_bad_alwaysop
      as_is (if chan.am_chan_op then as_is else get_ops chan.name) r chan w

-- 0 ≤ value ≤ 3
unfoldable pub user_flags_of : ℤ → Option ℕ
user_flags_of (pos n) = if leb n 3 then some n else none
user_flags_of (negsuc n) = none

unfoldable pub change_user_flags : Request → Achannel → World → World
unfolding user_flags_of atoi set_channel log_set decimal
change_user_flags r chan w = elim (user_flags_of (atoi r.svalue)) [
  | none ↦ answer r chan rpl_bad_userflags [] w
  | some n ↦ log_set r (codes "USERFLAGS TO " ++ decimal n ++ codes " on " ++ r.channel) (
      answer r chan rpl_set_userflags (decimal n)
        (set_channel r.channel (λ c. record c { uflags = n }) w))
]

-- Lang: the abbreviation and the name.
abbrev pub langs : List (Str × Str)
langs =
    (codes "en", codes "english")
    ∷ (codes "nl", codes "dutch")
    ∷ (codes "fr", codes "fran" ++ 231 ∷ codes "ais")
    ∷ (codes "es", codes "espa" ++ 241 ∷ codes "ol")
    ∷ (codes "de", codes "deutsch")
    ∷ []

unfoldable pub find_lang : Str → ℕ → List (Str × Str) → Option (ℕ × Str × Str)
unfolding str_case_eq
find_lang svalue i [] = none
find_lang svalue i ((abbr, name) ∷ rest) =
    let more = find_lang svalue (i + 1) rest in
    if str_case_eq svalue abbr || str_case_eq svalue name then some (i, abbr, name) else more

unfoldable pub lang_list : List (Str × Str) → Str
lang_list [] = []
lang_list ((abbr, name) ∷ rest) = b' ' ∷ abbr ++ codes " (" ++ name ++ codes ")" ++ lang_list rest

-- The answer is in the new language.
unfoldable pub change_lang : Request → Achannel → World → World
unfolding find_lang lang_list set_channel
change_lang r chan w = elim (find_lang r.svalue 0 langs) [
  | none ↦ answer r chan rpl_known_lang (lang_list langs) w
  | some (i, abbr, name) ↦
      emit (replied r.source rpl_set_lang i (abbr ++ b' ' ∷ name))
        (set_channel r.channel (λ c. record c { lang = i }) w)
]

-- A write to the first defaults with that name.
unfoldable pub update_def : Str → (Adefchan → Adefchan) → List Adefchan → List Adefchan
unfolding str_case_eq
update_def channel f [] = []
update_def channel f (d ∷ defs) =
    let rest = update_def channel f defs in
    if str_case_eq d.name channel then f d ∷ defs else d ∷ rest

unfoldable pub has_def : Str → List Adefchan → Bool
unfolding str_case_eq
has_def channel [] = false
has_def channel (d ∷ defs) = str_case_eq d.name channel || has_def channel defs

unfoldable pub change_def : (Adefchan → Adefchan) → Str → Request → World → World
unfolding update_def
change_def f text r w =
    notice r.source text (record w { def_chan_list = update_def r.channel f w.def_chan_list })

unfoldable pub change_topic : Request → Achannel → World → World
unfolding has_def change_def to_word
change_topic r chan w =
    if has_def r.channel w.def_chan_list
    then change_def (λ d. record d { topic = take 79 (to_word 1 r.args) })
        (codes "New description set") r w
    else notice r.source (codes "You must use 'addchan' first.") w

-- A byte that a URL may not have.
unfoldable pub is_bad_byte : ℕ → Bool
unfolding has_byte
is_bad_byte c = leb 128 c || ltb c 32 || has_byte c (codes "<>;" ++ 34 ∷ codes "&" ++ 92 ∷ [])

unfoldable pub has_bad_byte : Str → Bool
unfolding is_bad_byte
has_bad_byte [] = false
has_bad_byte (c ∷ s) = is_bad_byte c || has_bad_byte s

unfoldable pub change_url : Request → Achannel → World → World
unfolding has_def has_bad_byte change_def
change_url r chan w =
    if not (has_def r.channel w.def_chan_list)
    then notice r.source (codes "You must use 'addchan' first.") w
    else if has_bad_byte r.svalue
    then notice r.source (codes "Invalid URL") w
    else change_def (λ d. record d { url = take 79 r.svalue }) (codes "New URL set") r w

abbrev setting : Str → ℕ → (Request → Achannel → World → World) → Setting
setting name level change = record { names = name ∷ []; level = level; change = change }

abbrev flag_setting : Str → ℕ → ℕ → Reply → Reply → Reply → Setting
flag_setting name level bit on_rpl off_rpl bad =
    setting name level (change_flag name bit on_rpl off_rpl bad as_is as_is)

-- The branches in their order, with the CH_..._LEVEL of each.
unfoldable pub settings : List Setting
unfolding change_limit change_noop change_alwaysop change_flag change_user_flags change_lang
    change_topic change_url
settings =
    setting (codes "FLOODPRO") 500 (
      change_limit (codes "FLOODPRO") 20 rpl_bad_flood_limit rpl_set_flood_limit
        (λ n c. record c { msg_flood_pro = n }))
    ∷ setting (codes "NICKFLOODPRO") 450 (
        change_limit (codes "NICKFLOODPRO") 10 rpl_bad_nick_flood_limit rpl_set_nick_flood_limit
          (λ n c. record c { nick_flood_pro = n }))
    ∷ setting (codes "MASSDEOPPRO") 450 (
        change_limit (codes "MASSDEOPPRO") 10 rpl_bad_massdeop_limit rpl_set_massdeop_limit
          (λ n c. record c { mass_deop_pro = n }))
    ∷ setting (codes "NOOP") 500 change_noop
    ∷ setting (codes "ALWAYSOP") 450 change_alwaysop
    ∷ flag_setting (codes "OPONLY") 500 cfl_oponly rpl_oponly_on rpl_oponly_off rpl_bad_oponly
    ∷ flag_setting (codes "STRICTOP") 500 cfl_strictop rpl_strictop_on rpl_strictop_off
        rpl_bad_strictop
    ∷ setting (codes "USERFLAGS") 450 change_user_flags
    ∷ setting (codes "LANGUAGE") 500 change_lang
    ∷ record {
      names = codes "TOPIC" ∷ codes "DESCRIPTION" ∷ [];
      level = 450;
      change = change_topic;
    }
    ∷ setting (codes "URL") 450 change_url
    ∷ flag_setting (codes "AUTOTOPIC") 450 cfl_autotopic rpl_autotopic_on rpl_autotopic_off
        rpl_bad_autotopic
    ∷ []

-- !strncasecmp(variable, name, strlen(variable))
unfoldable pub is_short_for : Str → Str → Bool
unfolding str_case_eq
is_short_for variable name = str_case_eq variable (take (length variable) name)

unfoldable pub any_short_for : Str → List Str → Bool
unfolding is_short_for
any_short_for variable [] = false
any_short_for variable (name ∷ names) = is_short_for variable name || any_short_for variable names

-- The chain of `else if`.
unfoldable pub run_settings : Str → List Setting → ℕ → Request → Achannel → World → World
unfolding any_short_for
run_settings variable [] acc r chan w = w
run_settings variable (s ∷ rest) acc r chan w =
    let others = run_settings variable rest acc r chan w in
    if any_short_for variable s.names
    then (if ltb acc s.level then emit (not_access r.source r.channel) w else s.change r chan w)
    else others

unfoldable pub set_chan_flag : Str → Str → Str → World → World
unfolding channel_of access get_word to_channel run_settings settings str_eq
set_chan_flag source ch arguments w =
    let (channel, args) = channel_of source ch arguments w in
    let variable = get_word 0 args in
    let r : Request = record {
      source = source;
      channel = channel;
      svalue = get_word 1 args;
      args = args;
    } in
    if str_eq channel (codes "*") || is_empty variable
    then notice source (codes "SYNTAX: set [#channel] <variable> <value>") w
    else elim (to_channel channel w) [
      | none ↦ emit (replied source rpl_chan_not_exist 0 []) w
      | some chan ↦ run_settings variable settings (access channel source w) r chan w
    ]
