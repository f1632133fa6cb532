-- ===== src/World/Lookup.antt =====
-- How users and channels are found: lu_hash, ToLuser, ToLuserNick, GetNick and gethost of
-- Sources/users.c, cl_hash, ToChannel, ToUser, ToUserNick and GuessChannel of Sources/channels.c, and
-- IsValid, LAccess and Access of Sources/userlist.c.
use undernet_cservice_p.Prelude.{
  ℕ, zero, suc, ◌+◌, ◌%◌, Bool, true, false, ◌&&◌, ◌||◌, Option, none, some, List, [], ◌∷◌, ◌++◌,
  map, ◌==◌, leb, if◌then◌else◌, Str, codes, length, find, str_eq, str_case_eq, to_upper, head_byte,
}
use undernet_cservice_p.World.{
  World, Aluser, Auser, Achannel, AvalChan, Achannelnode, RegUser, has_flag, lfl_registered,
  lfl_ismodex,
}
use undernet_cservice_p.World.Text.{put_log, servnotice, send_to_serv, line_end}

unfoldable pub sum_bytes : Str → ℕ
sum_bytes [] = 0
sum_bytes (c ∷ s) = c + sum_bytes s

unfoldable pub sum_upper : Str → ℕ
unfolding to_upper
sum_upper [] = 0
sum_upper (c ∷ s) = to_upper c + sum_upper s

unfoldable pub lu_hash : Str → ℕ
unfolding sum_bytes
lu_hash num = sum_bytes num % 1000

unfoldable pub cl_hash : Str → ℕ
unfolding sum_upper
cl_hash channel = sum_upper channel % 1000

unfoldable pub to_luser : Str → World → Option Aluser
unfolding lu_hash str_eq find
to_luser num w = find (λ curr. str_eq num curr.num) (w.lusers (lu_hash num))

-- The buckets from `i` on, `n` of them.
unfoldable pub find_nick : ℕ → ℕ → Str → World → Option Aluser
unfolding str_case_eq find
find_nick zero i nick w = none
find_nick (suc n) i nick w = elim (find (λ curr. str_case_eq nick curr.nick) (w.lusers i)) [
  | some u ↦ some u
  | none ↦ find_nick n (suc i) nick w
]

unfoldable pub to_luser_nick : Str → World → Option Aluser
unfolding find_nick
to_luser_nick nick w = find_nick 1000 0 nick w

-- NULL is none.
unfoldable pub get_nick : Str → World → Option Str
unfolding to_luser
get_nick num w = elim (to_luser num w) [ none ↦ none | some u ↦ some u.nick ]

abbrev pub hidden : Aluser → Bool
hidden user = has_flag user.mode lfl_registered && has_flag user.mode lfl_ismodex

unfoldable pub gethost : Aluser → Str
gethost user = if hidden user then user.hiddenhost else user.site

-- nick!user@host
abbrev pub full_mask : Aluser → Str → Str
full_mask u host = u.nick ++ b'!' ∷ u.username ++ b'@' ∷ host

unfoldable pub to_channel : Str → World → Option Achannel
unfolding cl_hash str_case_eq find
to_channel channel w =
    find (λ curr. str_case_eq curr.name channel) (w.channel_list (cl_hash channel))

-- A write through the pointer that ToChannel returns.
unfoldable pub update_first : Str → (Achannel → Achannel) → List Achannel → List Achannel
unfolding str_case_eq
update_first channel f [] = []
update_first channel f (c ∷ cs) =
    let rest = update_first channel f cs in
    if str_case_eq c.name channel then f c ∷ cs else c ∷ rest

unfoldable pub set_channel : Str → (Achannel → Achannel) → World → World
unfolding update_first cl_hash
set_channel channel f w = record w {
  channel_list = λ i.
      if i == cl_hash channel then update_first channel f (w.channel_list i) else w.channel_list i;
}

-- A write through the pointer that ToUser returns.
unfoldable pub update_user : Str → (Auser → Auser) → List Auser → List Auser
unfolding str_eq
update_user num f [] = []
update_user num f (u ∷ us) =
    let rest = update_user num f us in if str_eq num u.user.num then f u ∷ us else u ∷ rest

unfoldable pub set_user : Str → Str → (Auser → Auser) → World → World
unfolding set_channel update_user
set_user channel num f w =
    if length num == 5
    then set_channel channel (λ c. record c { users = update_user num f c.users }) w
    else w

-- A write through the pointer that ToUserNick returns.
unfoldable pub update_user_nick : Str → (Auser → Auser) → List Auser → List Auser
unfolding str_case_eq
update_user_nick nick f [] = []
update_user_nick nick f (u ∷ us) =
    let rest = update_user_nick nick f us in
    if str_case_eq nick u.user.nick then f u ∷ us else u ∷ rest

unfoldable pub set_user_nick : Str → Str → (Auser → Auser) → World → World
unfolding set_channel update_user_nick
set_user_nick channel nick f w =
    set_channel channel (λ c. record c { users = update_user_nick nick f c.users }) w

-- A write through the pointer that ToLuser returns, which every `auser` of that user sees.
unfoldable pub update_luser : Str → (Aluser → Aluser) → List Aluser → List Aluser
unfolding str_eq
update_luser num f [] = []
update_luser num f (u ∷ us) =
    let rest = update_luser num f us in if str_eq num u.num then f u ∷ us else u ∷ rest

abbrev pub see_luser : Str → (Aluser → Aluser) → Auser → Auser
see_luser num f u = if str_eq num u.user.num then record u { user = f u.user } else u

abbrev pub see_in_channel : Str → (Aluser → Aluser) → Achannel → Achannel
see_in_channel num f c = record c { users = map (see_luser num f) c.users }

unfoldable pub set_luser : Str → (Aluser → Aluser) → World → World
unfolding lu_hash update_luser str_eq
set_luser num f w = record w {
  lusers = λ i. if i == lu_hash num then update_luser num f (w.lusers i) else w.lusers i;
  channel_list = λ i. map (see_in_channel num f) (w.channel_list i);
}

-- What ToUser returns.
unfoldable pub to_user : Str → Str → World → Option Auser
unfolding to_channel find str_eq
to_user channel num w =
    if length num == 5
    then elim (to_channel channel w) [
      | none ↦ none
      | some chan ↦ find (λ u. str_eq num u.user.num) chan.users
    ]
    else none

-- What ToUser logs on a missing channel.
unfoldable pub log_to_user : Str → Str → World → World
unfolding to_channel
log_to_user channel num w =
    if length num == 5
    then elim (to_channel channel w) [
      | none ↦
          put_log num (put_log channel (put_log (codes "ERROR ToUser(): Channel not found!") w))
      | some chan ↦ w
    ]
    else w

-- Its callers know the channel, so that it logs nothing.
unfoldable pub to_user_nick : Str → Str → World → Option Auser
unfolding to_channel find str_case_eq
to_user_nick channel nick w = elim (to_channel channel w) [
  | none ↦ none
  | some chan ↦ find (λ u. str_case_eq nick u.user.nick) chan.users
]

-- The channels of a user that the bot is on, last first.
unfoldable pub guess_names : List Achannelnode → World → List Str → List Str
unfolding to_channel
guess_names [] w found = found
guess_names (node ∷ names) w found = guess_names names w (elim (to_channel node.name w) [
  | none ↦ found
  | some chan ↦ if chan.on then chan.name ∷ found else found
])

abbrev one_name : List Str → Str → Str
one_name (name ∷ []) output = name
one_name _ output = output

abbrev pub guess_valid : List AvalChan → List Achannelnode → World → Str → Str
guess_valid (v ∷ []) names w output = v.name
guess_valid _ names w output = one_name (guess_names names w []) output

abbrev pub drop_global : List AvalChan → List AvalChan
drop_global [] = []
drop_global (v ∷ vs) = if str_eq v.name (b'*' ∷ []) then vs else v ∷ vs

-- What GuessChannel leaves in `output`, which holds `channel` before.
unfoldable pub guess_channel : Str → Str → World → Str
unfolding to_luser guess_names str_eq
guess_channel num channel w = elim (to_luser num w) [
  | none ↦ channel
  | some u ↦ guess_valid (drop_global u.valchan) u.channel w channel
]

unfoldable pub is_valid : Aluser → Str → Bool
unfolding find str_case_eq
is_valid user channel = elim (find (λ v. str_case_eq v.name channel) user.valchan) [
  | none ↦ false
  | some v ↦ true
]

-- vchan->reg->suspend >= now || vchan->reg->passwd[0] == '\0'
abbrev pub reg_access : RegUser → ℕ → ℕ
reg_access reg now = if leb now reg.suspend || head_byte reg.passwd == 0 then 0 else reg.access

unfoldable pub laccess : Str → Option Aluser → World → ℕ
unfolding find str_case_eq
laccess channel none w = 0
laccess channel (some user) w = elim (find (λ v. str_case_eq channel v.name) user.valchan) [
  | none ↦ 0
  | some v ↦ reg_access v.reg w.now
]

unfoldable pub access : Str → Str → World → ℕ
unfolding laccess to_luser
access channel num w = laccess channel (to_luser num w) w

-- BROADCAST_CHANNEL of config.h.dist
abbrev pub broadcast_channel : Str
broadcast_channel = codes "#cservice_info"

unfoldable pub broadcast : Str → Bool → World → World
unfolding to_channel
broadcast msg evenwallop w = elim (to_channel broadcast_channel w) [
  | some chan ↦ servnotice broadcast_channel (b'[' ∷ w.my_nick ++ codes "] " ++ msg) w
  | none ↦ if evenwallop then send_to_serv (w.my_yy ++ codes " WA :" ++ msg ++ line_end) w else w
]
