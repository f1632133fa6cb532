-- ===== src/Servers.antt =====
-- The tree of servers of Sources/servers.c: FindServer, FindServerName, ToServer, onserver and
-- showserv.
pub mod Tree
use undernet_cservice_p.Prelude.{
  ℕ, zero, suc, ◌+◌, Bool, true, false, Option, none, some, [], ◌∷◌, ◌++◌, ◌==◌, if◌then◌else◌, Str,
  List, codes, length, take, str_eq, str_case_eq, ℤ, pos, negsuc, sub_ℕ,
}
use undernet_cservice_p.World.{World, crash}
use undernet_cservice_p.World.Text.{notice, atoi, decimal}
use undernet_cservice_p.Words.{get_word}

-- struct aserver without its links; `users` are the buckets of the numerics of its users.
pub record Aserver : Type 0 where
  pub name : Str
  pub yy : Str
  pub ts : ℤ
  pub users : ℕ → List Str

-- A pointer to a server: its first child is `down`, its sibling `next`. The link `up` is the path to it.
pub data Servers : Type 0 where
  null : Servers
  server : (it : Aserver) (down next : Servers) → Servers

-- The globals that the functions of the file share.
pub record Net : Type 0 where
  pub server_list : Servers
  pub my_uplink_yy : Str
  pub my_uplink_name : Str
  pub world : World

abbrev pub first_of : Option Aserver → Option Aserver → Option Aserver
first_of (some found) other = some found
first_of none other = other

-- The search of FindServer and FindServerName: the server, what is below it, then what is beside it.
-- The pointer that they return is the server that it leads to.
unfoldable pub find_by : (Aserver → Bool) → Servers → Option Aserver
find_by test null = none
find_by test (server it down next) =
    let below = find_by test down in
    let beside = find_by test next in if test it then some it else first_of below beside

abbrev pub has_yy : Str → Aserver → Bool
has_yy yy it = str_eq it.yy yy

unfoldable pub find_server : Str → Servers → Option Aserver
unfolding find_by str_eq
find_server yy head = find_by (has_yy yy) head

unfoldable pub find_server_name : Str → Servers → Option Aserver
unfolding find_by str_case_eq
find_server_name name head = find_by (λ it. str_case_eq it.name name) head

-- head->down = a server with the old head->down beside it, for the head that FindServer finds.
unfoldable pub add_down : Str → Aserver → Servers → Servers
unfolding find_server
add_down yy new null = null
add_down yy new (server it down next) =
    let below = add_down yy new down in
    let beside = add_down yy new next in
    if str_eq it.yy yy then server it (server new null down) next else elim (find_server yy down) [
      | some found ↦ server it below next
      | none ↦ server it down beside
    ]

abbrev no_users : ℕ → List Str
no_users i = []

-- SERVER_NAME_LENGTH
abbrev server_name_length : ℕ
server_name_length = 80

-- The new server, with its name, the word of its time stamp and that of its numeric.
unfoldable pub new_server : Str → Str → Str → Aserver
unfolding atoi
new_server name ts yyxxx = record {
  name = take server_name_length name;
  yy = take 2 yyxxx;
  ts = atoi ts;
  users = no_users;
}

-- tmp->TS - now
unfoldable pub minus_now : ℤ → ℕ → ℤ
minus_now (pos n) now = sub_ℕ n now
minus_now (negsuc n) now = negsuc (n + now)

-- The branch of the uplink: the server stands first in ServerList.
unfoldable pub on_uplink : Aserver → Net → Net
unfolding minus_now
on_uplink new s = record s {
  my_uplink_yy = new.yy;
  my_uplink_name = new.name;
  server_list = server new null s.server_list;
  world = record s.world { ts_offset = minus_now new.ts s.world.now };
}

-- ToServer reads through the pointer, also where it is NULL: none.
unfoldable pub to_server : Str → Net → Option Aserver
unfolding find_server
to_server yy s = find_server yy s.server_list

-- The branch of the other servers: the server stands first below its parent.
unfoldable pub on_child : Str → Aserver → Net → Net
unfolding add_down to_server
on_child parent new s = elim (to_server parent s) [
  | none ↦ record s { world = crash s.world }
  | some head ↦ record s { server_list = add_down parent new s.server_list }
]

unfoldable pub onserver : Str → Str → Str → Str → Net → Net
unfolding on_uplink on_child new_server get_word str_eq
onserver arg1 arg2 arg3 args s =
    if str_eq arg1 (codes "SERVER")
    then on_uplink (new_server arg2 (get_word 1 args) (get_word 3 args)) s
    else on_child arg1 (new_server arg3 (get_word 2 args) (get_word 4 args)) s

-- The users of the buckets from `i` on, `n` of them.
unfoldable pub count_users : ℕ → ℕ → (ℕ → List Str) → ℕ
count_users zero i users = 0
count_users (suc n) i users = length (users i) + count_users n (suc i) users

abbrev is_last : Servers → Bool
is_last null = true
is_last (server it down next) = false

-- A line of the map.
unfoldable pub server_line : Str → Bool → Aserver → Str
unfolding count_users decimal
server_line prefix last it =
    let nbusers = count_users 100 0 it.users in
    prefix
    ++ (if last then codes "`-" else codes "|-")
    ++ it.name
    ++ codes "  ("
    ++ decimal nbusers
    ++ codes " client"
    ++ (if nbusers == 1 then [] else codes "s")
    ++ codes ")"

-- The static prefix up to offset is an argument; the count is of the servers shown.
unfoldable pub showserv : Str → Str → Servers → ℕ × World → ℕ × World
unfolding server_line
showserv source prefix null (count, w) = (count, w)
showserv source prefix (server it down next) (count, w) =
    let last = is_last next in
    let shown = notice source (server_line prefix last it) w in
    let inner = prefix ++ (if last then codes "  " else codes "| ") in
    showserv source prefix next (showserv source inner down (count + 1, shown))
