-- ===== src/World.antt =====
-- The state that the parts of the bot share (Sources/struct.h and Sources/globalvar.h), and its
-- output: lines to the server, notices and the log.
pub mod Text
pub mod Lookup
pub mod Channels
use undernet_cservice_p.Prelude.{
  ℕ, suc, ◌+◌, ◌*◌, ◌/◌, ◌%◌, ◌-◌, Bool, true, false, Option, none, some, List, [], ◌∷◌, ◌++◌, ◌==◌,
  if◌then◌else◌, Str, codes, ℤ,
}
use undernet_cservice_p.Event.{EventList}

-- What the code reads of a `RegUser`.
pub record RegUser : Type 0 where
  pub realname : Str
  pub match : Str
  pub channel : Str
  pub passwd : Str
  pub access : ℕ
  pub flags : ℕ
  pub suspend : ℕ

-- struct avalchan
pub record AvalChan : Type 0 where
  pub name : Str
  pub reg : RegUser

-- struct anickchange
pub record Anickchange : Type 0 where
  pub num : Str
  pub time : ℕ

-- struct achannelnode; `name` is that of the channel that it points at.
pub record Achannelnode : Type 0 where
  pub name : Str
  pub nickhist : List Anickchange

-- struct aluser; a text that is NULL is empty, and `server_name` is that of its server.
pub record Aluser : Type 0 where
  pub num : Str
  pub nick : Str
  pub username : Str
  pub site : Str
  pub account : Str
  pub hiddenhost : Str
  pub time : ℕ
  pub mode : ℕ
  pub server_name : Str
  pub valchan : List AvalChan
  pub channel : List Achannelnode

-- struct adeop
pub record Adeop : Type 0 where
  pub time : ℕ
  pub num : Str

-- struct amsg
pub record Amsg : Type 0 where
  pub time : ℕ
  pub length : ℕ

-- struct auser; `user` is what its pointer `N` leads to.
pub record Auser : Type 0 where
  pub user : Aluser
  pub chanop : Bool
  pub msghist : List Amsg
  pub deophist : List Adeop

-- struct modequeue: a flag is a sign and a letter.
pub record ModeQueue : Type 0 where
  pub as_server : ℕ
  pub sign : ℕ
  pub letter : ℕ
  pub arg : Str

-- struct achannel; a ban is its pattern.
pub record Achannel : Type 0 where
  pub name : Str
  pub am_chan_op : Bool
  pub on : Bool
  pub mass_deop_pro : ℕ
  pub nick_flood_pro : ℕ
  pub msg_flood_pro : ℕ
  pub lang : ℕ
  pub ts : ℕ
  pub lastact : ℕ
  pub lasttopic : ℕ
  pub flags : ℕ
  pub uflags : ℕ
  pub mode : Str
  pub lastjoin : Str
  pub modebuff : List ModeQueue
  pub bans : List Str
  pub users : List Auser

-- What the code reads of a `struct adefchan`.
pub record Adefchan : Type 0 where
  pub name : Str
  pub mass_deop_pro : ℕ
  pub nick_flood_pro : ℕ
  pub msg_flood_pro : ℕ
  pub ts : ℕ
  pub flags : ℕ
  pub uflags : ℕ
  pub mode : Str
  pub topic : Str
  pub url : Str

-- struct ShitUser; its level is never negative.
pub record ShitUser : Type 0 where
  pub time : ℕ
  pub expiration : ℕ
  pub match : Str
  pub from : Str
  pub reason : Str
  pub channel : Str
  pub level : ℕ

-- struct aprivmsg of Sources/ignore.c
pub record Aprivmsg : Type 0 where
  pub user : Str
  pub time : ℕ
  pub length : ℕ

-- struct aignore of Sources/ignore.c
pub record Aignore : Type 0 where
  pub mask : Str
  pub time : ℕ

-- The entries of `replies` that the modelled parts send.
pub data Reply : Type 0 where
  rpl_not_on_channel rpl_not_chanop rpl_op_only rpl_no_match rpl_is_service : Reply
  rpl_no_op rpl_cant_be_op rpl_cant_be_opped rpl_op_self_only rpl_youre_opped_by : Reply
  rpl_youre_deopped_by rpl_user_not_on_channel rpl_already_on_channel rpl_i_invited : Reply
  rpl_you_are_invited rpl_chan_not_exist rpl_bad_flood_limit rpl_set_flood_limit : Reply
  rpl_bad_nick_flood_limit rpl_set_nick_flood_limit rpl_bad_massdeop_limit : Reply
  rpl_set_massdeop_limit rpl_noop_on rpl_noop_off rpl_bad_noop rpl_alwaysop_on : Reply
  rpl_alwaysop_off rpl_bad_alwaysop rpl_oponly_on rpl_oponly_off rpl_bad_oponly : Reply
  rpl_autotopic_on rpl_autotopic_off rpl_bad_autotopic rpl_strictop_on rpl_strictop_off : Reply
  rpl_bad_strictop rpl_bad_userflags rpl_set_userflags rpl_known_lang rpl_set_lang : Reply

-- The actions of db_fetch that the modelled parts ask for.
pub data DbAction : Type 0 where
  dbgetallcmp dbgetnick : DbAction

-- What leaves the program. `replied_for` puts a nick and a colon before the entry, and `not_access` is a line of ReplyNotAccess, chosen by rand().
pub data Out : Type 0 where
  sent : Str → Out
  logged : Str → Out
  replied : Str → Reply → ℕ → Str → Out
  replied_for : Str → Str → Reply → ℕ → Out
  not_access : Str → Str → Out
  db_fetch : Str → DbAction → Str → ℕ → Str → Out

-- The hash tables are functions from the hash to a bucket. `crashed` is set where the code follows
-- a NULL pointer or runs past a buffer.
pub record World : Type 0 where
  pub now : ℕ
  pub my_yyxxx : Str
  pub my_yy : Str
  pub my_nick : Str
  pub log_ts : ℕ
  pub ts_offset : ℤ
  pub bursting : Bool
  pub def_chan_list : List Adefchan
  pub user_list : ℕ → List RegUser
  pub lusers : ℕ → List Aluser
  pub channel_list : ℕ → List Achannel
  pub event_list : EventList
  pub shit_list : ℕ → List ShitUser
  pub message_list : List Aprivmsg
  pub flood_list : List Aprivmsg
  pub add_user_flood_list : List Aprivmsg
  pub ignore_list : List Aignore
  pub out : List Out
  pub crashed : Bool

abbrev pub emit : Out → World → World
emit o w = record w { out = w.out ++ o ∷ [] }

abbrev pub crash : World → World
crash w = record w { crashed = true }

-- A flag of a word of flags, `bit` a power of two.
abbrev pub has_flag : ℕ → ℕ → Bool
has_flag flags bit = flags / bit % 2 == 1

-- mode |= bit and mode &= ~bit
abbrev pub set_flag : ℕ → ℕ → ℕ
set_flag flags bit = if has_flag flags bit then flags else flags + bit

abbrev pub clear_flag : ℕ → ℕ → ℕ
clear_flag flags bit = if has_flag flags bit then flags - bit else flags

-- Sources/flags.h
abbrev pub cfl_oponly : ℕ
cfl_oponly = 4

abbrev pub cfl_noop : ℕ
cfl_noop = 1

abbrev pub cfl_alwaysop : ℕ
cfl_alwaysop = 2

abbrev pub cfl_strictop : ℕ
cfl_strictop = 8

abbrev pub cfl_autotopic : ℕ
cfl_autotopic = 16

abbrev pub ufl_autoop : ℕ
ufl_autoop = 1

abbrev pub lfl_isoper : ℕ
lfl_isoper = 1

abbrev pub lfl_isservice : ℕ
lfl_isservice = 2

abbrev pub lfl_ismodex : ℕ
lfl_ismodex = 4

abbrev pub lfl_registered : ℕ
lfl_registered = 8
