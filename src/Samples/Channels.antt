-- ===== src/Samples/Channels.antt =====
-- Channels, their bans and modes, and the commands.
use undernet_cservice_p.Prelude.{
  ◌≡◌, refl, inl, inr, true, false, not, ◌&&◌, ◌||◌, some, Str, pos, List, [], ◌∷◌, ◌==◌,
  if◌then◌else◌, codes, str_eq, find, str_case_eq, arith,
}
use undernet_cservice_p.World.{Aluser}
use undernet_cservice_p.World.{World, Achannel, ModeQueue, ShitUser, Aignore, Aprivmsg}
use undernet_cservice_p.World.Lookup.{full_mask, to_channel, access}
use undernet_cservice_p.World.Channels.{to_channel-case}
use undernet_cservice_p.Modes.{
  add_to_bans, rem_from_bans, has_ban, same_ban, queue_mode, flush_pass, start_pass,
}
use undernet_cservice_p.Modes.Bans.{IsBanList, has_ban-add, has_ban-rem}
use undernet_cservice_p.Modes.Queue.{wanted, IsSettled, wanted-queue_mode}
use undernet_cservice_p.Modes.Room.{bare}
use undernet_cservice_p.Modes.Flush.{Sends, flush_pass-Sends}
use undernet_cservice_p.Bans.Commands.{unban_words}
use undernet_cservice_p.Match.Mask.{match}
use undernet_cservice_p.Bans.Masks.{make_ban_mask}
use undernet_cservice_p.Bans.Hits.{make_ban_mask-matches}
use undernet_cservice_p.Bans.Fuel.{UnbanRun, unban_words-Runs}
use undernet_cservice_p.Ignore.{clean_ignore_list}
use undernet_cservice_p.Ignore.Expiry.{Cleaned, clean_ignore_list-Cleaned}
use undernet_cservice_p.Kicks.{kick}
use undernet_cservice_p.Kicks.Refused.{Refused, kick-Refused}
use undernet_cservice_p.ShitList.Commands.{is_entry, put_entry}
use undernet_cservice_p.ShitList.Entries.{Keeps, Holds, put_entry-Holds}

abbrev op : ModeQueue
op = record { as_server = 0; sign = b'+'; letter = b'o'; arg = codes "AAAAA" }

abbrev deop : ModeQueue
deop = record { as_server = 0; sign = b'-'; letter = b'o'; arg = codes "AAAAA" }

abbrev ban_mode : ModeQueue
ban_mode = record { as_server = 1; sign = b'-'; letter = b'b'; arg = codes "*!*@x" }

abbrev chan : Achannel
chan = record {
  name = codes "#Chan";
  am_chan_op = true;
  on = true;
  mass_deop_pro = 0;
  nick_flood_pro = 0;
  msg_flood_pro = 0;
  lang = 0;
  ts = 12;
  lastact = 0;
  lasttopic = 0;
  flags = 0;
  uflags = 0;
  mode = [];
  lastjoin = [];
  modebuff = op ∷ [];
  bans = codes "*!*@x" ∷ [];
  users = [];
}

abbrev old_ignore : Aignore
old_ignore = record { mask = codes "*!*@old"; time = 90 }

abbrev new_ignore : Aignore
new_ignore = record { mask = codes "*!*@new"; time = 200 }

abbrev world : World
world = record {
  now = 100;
  my_yyxxx = codes "AXAAA";
  my_yy = codes "AX";
  my_nick = codes "X";
  log_ts = 5;
  ts_offset = pos 0;
  bursting = false;
  def_chan_list = [];
  user_list = λ i. [];
  lusers = λ i. [];
  channel_list = λ i. chan ∷ [];
  event_list = [];
  shit_list = λ i. [];
  message_list = [];
  flood_list = [];
  add_user_flood_list = [];
  ignore_list = new_ignore ∷ old_ignore ∷ [];
  out = [];
  crashed = false;
}

to_channel-case_example : to_channel (codes "#chAN") world ≡ to_channel (codes "#CHan") world
unfolding str_case_eq
to_channel-case_example = to_channel-case (codes "#chAN") (codes "#CHan") world refl

abbrev switch_off : Achannel → Achannel
switch_off c = record c { on = false }

has_ban-add_example :
    (has_ban (codes "*!*@y") (add_to_bans (codes "*!*@Y") chan.bans)
      ≡ (same_ban (codes "*!*@Y") (codes "*!*@y") || has_ban (codes "*!*@y") chan.bans))
    × IsBanList (add_to_bans (codes "*!*@Y") chan.bans)
unfolding has_ban
has_ban-add_example = has_ban-add (codes "*!*@Y") (codes "*!*@y") chan.bans (refl, omega arith, tt)

has_ban-rem_example :
    (has_ban (codes "*!*@x") (rem_from_bans (codes "*!*@X") chan.bans)
      ≡ (not (same_ban (codes "*!*@X") (codes "*!*@x")) && has_ban (codes "*!*@x") chan.bans))
    × IsBanList (rem_from_bans (codes "*!*@X") chan.bans)
unfolding has_ban
has_ban-rem_example = has_ban-rem (codes "*!*@X") (codes "*!*@x") chan.bans (refl, omega arith, tt)

wanted-queue_mode_example :
    (wanted b'o' (codes "AAAAA") (queue_mode deop (op ∷ [])) ≡ (
      if str_eq (codes "AAAAA") deop.arg && b'o' == deop.letter
      then some deop.sign
      else wanted b'o' (codes "AAAAA") (op ∷ [])))
    × IsSettled (queue_mode deop (op ∷ []))
unfolding wanted
wanted-queue_mode_example =
    wanted-queue_mode deop (op ∷ []) b'o' (codes "AAAAA") (inr refl) (inl refl, refl, tt)

flush_pass-Sends_example :
    Sends 0 (op ∷ ban_mode ∷ []) (flush_pass true 0 (op ∷ ban_mode ∷ []) (start_pass []))
unfolding bare
flush_pass-Sends_example =
    flush_pass-Sends 0 (op ∷ ban_mode ∷ []) []
      (
        (inl refl, (λ e. ground arith), (λ e. ground arith)),
        ((inr refl, (λ e. ground arith), (λ e. ground arith)), tt),
      )
      (omega arith)

unban_words-Runs_example :
    UnbanRun
      (codes "AAAAA")
      (codes "#chan")
      (codes "a b")
      0
      world
      (unban_words 4 0 (codes "AAAAA") (codes "#chan") (codes "a b") world)
unban_words-Runs_example =
    unban_words-Runs 3 0 (codes "AAAAA") (codes "#chan") (codes "a b") world (omega arith)

clean_ignore_list-Cleaned_example : Cleaned world (clean_ignore_list world)
clean_ignore_list-Cleaned_example = clean_ignore_list-Cleaned world

clean_ignore_list_test : (clean_ignore_list world).ignore_list ≡ new_ignore ∷ []
unfolding clean_ignore_list
clean_ignore_list_test = refl

abbrev messages : List Aprivmsg
messages = record { user = codes "u@h"; time = 60; length = 3 } ∷ []

kick-Refused_example :
    Refused (codes "AAAAA") world (kick (codes "AAAAA") (codes "*") (codes "#chan nick") world)
unfolding access kick
kick-Refused_example = kick-Refused b'A' (codes "AAAA") (codes "*") (codes "#chan nick") world refl

abbrev new_ban : ShitUser
new_ban = record {
  time = 100;
  expiration = 500;
  match = codes "*!*@x";
  from = codes "n!u@h";
  reason = [];
  channel = codes "#chan";
  level = 75;
}

abbrev old_ban : ShitUser
old_ban = record new_ban { match = codes "*!*@X"; expiration = 900; level = 20 }

put_entry-Holds_example :
    Holds new_ban
      (find (is_entry true new_ban.match new_ban.channel) (put_entry true new_ban (old_ban ∷ [])))
    × Keeps new_ban
        (find (is_entry true new_ban.match new_ban.channel) (old_ban ∷ []))
        (find (is_entry true new_ban.match new_ban.channel) (put_entry true new_ban (old_ban ∷ [])))
put_entry-Holds_example = put_entry-Holds new_ban (old_ban ∷ [])

abbrev hidden_user : Aluser
hidden_user = record {
  num = codes "AAAAA";
  nick = codes "n";
  username = codes "u";
  site = codes "h";
  account = [];
  hiddenhost = codes "x";
  time = 7;
  mode = 12;
  server_name = codes "s";
  valchan = [];
  channel = [];
}

make_ban_mask-matches_example :
    (mask : Str) × (make_ban_mask hidden_user ≡ some mask)
    × (match (full_mask hidden_user hidden_user.hiddenhost) mask ≡ some true)
make_ban_mask-matches_example =
    make_ban_mask-matches hidden_user refl
      (((λ e. ground arith), (λ e. ground arith), (λ e. ground arith), (λ e. ground arith)), tt)
      (((λ e. ground arith), (λ e. ground arith), (λ e. ground arith), (λ e. ground arith)), tt)
      (((λ e. ground arith), (λ e. ground arith), (λ e. ground arith), (λ e. ground arith)), tt)
      (omega arith)
