-- ===== src/Samples/Commands.antt =====
-- The commands and the protections.
use undernet_cservice_p.Prelude.{
  ◌+◌, ◌≡◌, ◌≤◌, refl, true, false, some, codes, str_eq, pos, List, [], ◌∷◌, arith, All, inr,
}
use undernet_cservice_p.World.{
  World, Aluser, Auser, Achannel, Adeop, Amsg, emit, db_fetch, dbgetnick,
}
use undernet_cservice_p.Event.{flush_modebuff}
use undernet_cservice_p.Calls.{Files, check_events}
use undernet_cservice_p.World.Text.{notice}
use undernet_cservice_p.World.Lookup.{to_channel, to_user, access}
use undernet_cservice_p.Words.Laws.{IsWord, unwords}
use undernet_cservice_p.Suspend.{suspend, unsuspend, suspend_action, times_int}
use undernet_cservice_p.Suspend.Bounds.{unsuspend-zero}
use undernet_cservice_p.ModeChange.Opping.{record_deop}
use undernet_cservice_p.ModeChange.Victims.{AreVictims, recent_others, record_deop-AreVictims}
use undernet_cservice_p.Ops.{massdeop}
use undernet_cservice_p.Ops.Services.{AllDeopped, users_of, massdeop-services}
use undernet_cservice_p.Bans.Commands.{channel_of}
use undernet_cservice_p.Settings.{set_chan_flag}
use undernet_cservice_p.Settings.Denied.{Unchanged, set_chan_flag-Unchanged}
use undernet_cservice_p.Servers.{Aserver, null, Net, to_server, onserver, showserv}
use undernet_cservice_p.Servers.Tree.{Found, announced, onserver-Found}
use undernet_cservice_p.Floodpro.{check_flood}
use undernet_cservice_p.Floodpro.Window.{is_flood, outcome, check_flood-recent}

abbrev alice : Aluser
alice = record {
  num = codes "AAAAA";
  nick = codes "alice";
  username = codes "u";
  site = codes "h";
  account = [];
  hiddenhost = [];
  time = 7;
  mode = 0;
  server_name = codes "s";
  valchan = [];
  channel = [];
}

abbrev old_msg : Amsg
old_msg = record { time = 10; length = 3 }

abbrev new_msg : Amsg
new_msg = record { time = 90; length = 3 }

abbrev alice_here : Auser
alice_here = record { user = alice; chanop = true; msghist = new_msg ∷ old_msg ∷ []; deophist = [] }

abbrev service : Aluser
service = record alice { num = codes "AAAAB"; nick = codes "serv"; mode = 2 }

abbrev service_here : Auser
service_here = record alice_here { user = service }

abbrev club : Achannel
club = record {
  name = codes "#club";
  am_chan_op = true;
  on = true;
  mass_deop_pro = 0;
  nick_flood_pro = 0;
  msg_flood_pro = 2;
  lang = 0;
  ts = 12;
  lastact = 0;
  lasttopic = 0;
  flags = 0;
  uflags = 0;
  mode = [];
  lastjoin = [];
  modebuff = [];
  bans = [];
  users = alice_here ∷ service_here ∷ [];
}

abbrev world : World
world = record {
  now = 100;
  my_yyxxx = codes "AXAAA";
  my_yy = codes "AX";
  my_nick = codes "X";
  log_ts = 5;
  ts_offset = pos 0;
  bursting = false;
  def_chan_list = [];
  user_list = λ i. [];
  lusers = λ i. alice ∷ [];
  channel_list = λ i. club ∷ [];
  event_list = [];
  shit_list = λ i. [];
  message_list = [];
  flood_list = [];
  add_user_flood_list = [];
  ignore_list = [];
  out = [];
  crashed = false;
}

suspend_test :
    suspend [] (codes "*") (codes "#club alice 2 h") world
    ≡ emit (db_fetch (codes "#club") dbgetnick (codes "alice") 7200 []) world
unfolding suspend
suspend_test = refl

-- 49711 days wrap around to 63104 seconds, which is in range.
times_int_test : times_int (pos 49711) 86400 ≡ pos 63104
unfolding times_int
times_int_test = refl

club_IsWord : IsWord (codes "#club")
club_IsWord = record {
  first = b'#';
  others = codes "club";
  splits = refl;
  spaceless = (
    (λ e. ground arith),
    ((λ e. ground arith), ((λ e. ground arith), ((λ e. ground arith), ((λ e. ground arith), tt)))),
  );
  short = omega arith;
}

al_IsWord : IsWord (codes "al")
al_IsWord = record {
  first = b'a';
  others = codes "l";
  splits = refl;
  spaceless = ((λ e. ground arith), ((λ e. ground arith), tt));
  short = omega arith;
}

unsuspend-zero_example :
    unsuspend [] (codes "*") (unwords (codes "#club" ∷ codes "al" ∷ [])) world
    ≡ emit (db_fetch (codes "#club") (suspend_action (codes "al")) (codes "al") 0 []) world
unsuspend-zero_example =
    unsuspend-zero [] (codes "*") (codes "al") (codes "club") world club_IsWord al_IsWord refl

massdeop-services_example :
    (after : List Auser) × (users_of (to_channel (codes "#club") (massdeop (codes "#club") world))
      ≡ some after)
    × AllDeopped club.users after
unfolding to_channel
massdeop-services_example = massdeop-services (codes "#club") world club refl refl refl

check_flood-recent_example :
    check_flood (codes "AAAAA") (codes "#club") 5 world
    ≡ outcome
        (is_flood world.now club alice_here)
        (codes "AAAAA")
        (codes "#club")
        5
        alice_here
        world
unfolding to_channel to_user
check_flood-recent_example =
    check_flood-recent (codes "AAAAA") (codes "#club") 5 world club alice_here refl refl refl refl

check_flood_test : is_flood world.now club alice_here ≡ true
unfolding is_flood
check_flood_test = refl

abbrev deops : List Adeop
deops = record { time = 95; num = codes "AAAAA" } ∷ record { time = 90; num = codes "AAAAB" } ∷ []

record_deop-AreVictims_example :
    (record_deop 100 (codes "AAAAA") deops
      ≡ record { time = 100; num = codes "AAAAA" } ∷ recent_others 100 (codes "AAAAA") deops)
    × AreVictims (record_deop 100 (codes "AAAAA") deops)
    × All (λ (d : Adeop). 100 ≤ d.time + 15) (record_deop 100 (codes "AAAAA") deops)
unfolding str_eq
record_deop-AreVictims_example =
    record_deop-AreVictims 100 (codes "AAAAA") deops ((refl, tt), (tt, tt))

set_chan_flag-Unchanged_example :
    Unchanged
      (codes "AAAAA")
      world
      (set_chan_flag (codes "AAAAA") (codes "*") (codes "#club noop on") world)
unfolding access channel_of
set_chan_flag-Unchanged_example =
    set_chan_flag-Unchanged (codes "AAAAA") (codes "*") (codes "#club noop on") world refl

abbrev alone : Net
alone = record { server_list = null; my_uplink_yy = []; my_uplink_name = []; world = world }

abbrev linked : Net
unfolding onserver
linked =
    onserver (codes "SERVER") (codes "hub") (codes "1") (codes "20 30 J10 ABP]] +h6 :hub") alone

abbrev hub : Aserver
hub = record { name = codes "hub"; yy = codes "AB"; ts = pos 30; users = λ i. [] }

onserver-Found_example :
    Found
      (announced (codes "AB") (codes "S") (codes "leaf") (codes "2 0 40 P10 AKAB] +h6 :leaf"))
      (codes "AB")
      linked
      (onserver (codes "AB") (codes "S") (codes "leaf") (codes "2 0 40 P10 AKAB] +h6 :leaf") linked)
unfolding to_server announced linked
onserver-Found_example =
    onserver-Found (codes "AB") (codes "S") (codes "leaf") (codes "2 0 40 P10 AKAB] +h6 :leaf")
      (codes "AB") linked (inr (hub, refl)) refl refl

showserv_test :
    showserv [] []
      (onserver
        (codes "AB")
        (codes "S")
        (codes "leaf")
        (codes "2 0 40 P10 AKAB] :l")
        linked).server_list
      (0, world)
    ≡ (2, notice [] (codes "  `-leaf  (0 clients)") (notice [] (codes "`-hub  (0 clients)") world))
unfolding showserv onserver linked
showserv_test = refl

abbrev files : Files
files = record { save_shit_list = λ w. w; save_defs = λ w. w; check_idle_channels = λ w. w }

-- A flush of a channel that is not known, which is due, and one that is not.
check_events_test :
    check_events files (record world {
      event_list =
          record { time = 50; event = flush_modebuff; param = codes "#none" }
          ∷ record { time = 101; event = flush_modebuff; param = codes "#club" }
          ∷ [];
    })
    ≡ some (record world {
      event_list = record { time = 101; event = flush_modebuff; param = codes "#club" } ∷ [];
    })
unfolding check_events
check_events_test = refl
