-- ===== src/Modes.antt =====
-- Sources/modes.c: the ban list of a channel (AddBan, RemBan) and its queue of mode changes
-- (changemode, flushmode), without FAKE_UWORLD.
pub mod Bans
pub mod Flags
pub mod Queue
pub mod Lines
pub mod Room
pub mod Flush
use undernet_cservice_p.Prelude.{
  ℕ, zero, suc, ◌+◌, ◌≡◌, Bool, true, false, not, ◌&&◌, ◌||◌, Option, none, some, List, [], ◌∷◌,
  ◌++◌, ◌==◌, leb, if◌then◌else◌, Str, codes, length, take, str_eq, str_case_eq,
}
use undernet_cservice_p.World.{World, Achannel, ModeQueue, Out, emit, crash}
use undernet_cservice_p.World.Text.{put_log, send_to_serv, decimal, line_end}
use undernet_cservice_p.World.Lookup.{to_channel, set_channel}

-- !strncasecmp(a, b, 79)
unfoldable pub same_ban : Str → Str → Bool
unfolding str_case_eq
same_ban a b = str_case_eq (take 79 a) (take 79 b)

unfoldable pub has_ban : Str → List Str → Bool
unfolding same_ban
has_ban pattern [] = false
has_ban pattern (b ∷ bans) = if same_ban b pattern then true else has_ban pattern bans

unfoldable pub add_to_bans : Str → List Str → List Str
unfolding has_ban
add_to_bans pattern bans = if has_ban pattern bans then bans else take 79 pattern ∷ bans

-- The first ban that is the pattern is unlinked.
unfoldable pub rem_from_bans : Str → List Str → List Str
unfolding same_ban
rem_from_bans pattern [] = []
rem_from_bans pattern (b ∷ bans) =
    let rest = rem_from_bans pattern bans in if same_ban b pattern then bans else b ∷ rest

unfoldable pub add_ban : Str → Str → World → World
unfolding to_channel set_channel add_to_bans
add_ban channel pattern w = elim (to_channel channel w) [
  | none ↦ put_log (codes "ERROR: AddBan(): can't find " ++ channel) w
  | some chan ↦ set_channel channel (λ c. record c { bans = add_to_bans pattern c.bans }) w
]

unfoldable pub rem_ban : Str → Str → World → World
unfolding to_channel set_channel rem_from_bans
rem_ban channel pattern w = elim (to_channel channel w) [
  | none ↦ crash w
  | some chan ↦ set_channel channel (λ c. record c { bans = rem_from_bans pattern c.bans }) w
]

abbrev pub same_key : ModeQueue → ModeQueue → Bool
same_key a b = str_eq a.arg b.arg && a.letter == b.letter

abbrev pub opposite : ModeQueue → ModeQueue → Bool
opposite a b = (a.sign == b'+' && b.sign == b'-') || (a.sign == b'-' && b.sign == b'+')

-- The `while` loop of `changemode`: the queue without the changes that the new one cancels, and
-- whether the new one was found there.
unfoldable pub cancel : ModeQueue → List ModeQueue → List ModeQueue × Bool
unfolding str_eq
cancel new [] = ([], false)
cancel new (m ∷ ms) =
    let (rest, found) = cancel new ms in
    if same_key new m && opposite new m
    then (rest, found)
    else if same_key new m && new.sign == m.sign
    then (m ∷ ms, true)
    else (m ∷ rest, found)

unfoldable pub queue_mode : ModeQueue → List ModeQueue → List ModeQueue
unfolding cancel
queue_mode new ms = let (rest, found) = cancel new ms in if found then rest else rest ++ new ∷ []

-- `flag` is the sign and the letter.
unfoldable pub changemode : Str → ℕ → ℕ → Str → ℕ → World → World
unfolding to_channel set_channel queue_mode
changemode channel sign letter arg as_server w =
    let new : ModeQueue = record {
      as_server = as_server;
      sign = sign;
      letter = letter;
      arg = arg;
    } in
    elim (to_channel channel w) [
      | none ↦ if as_server == 0 then w else crash w
      | some chan ↦
          if as_server == 0 && not chan.on
          then w
          else set_channel channel (λ c. record c { modebuff = queue_mode new c.modebuff }) w
    ]

-- MAX_MODE_PER_LINE
abbrev pub max_mode_per_line : ℕ
max_mode_per_line = 6

-- A line to be sent: its flags, and its arguments, each with a space before it.
pub record ModeLine : Type 0 where
  pub flags : Str
  pub args : List Str

-- The variables of `flushmode`, with the queue and the lines so far; `count` is `length args`, and
-- `overrun` is set where the flags run past flags[20].
pub record Flushing : Type 0 where
  pub bans : List Str
  pub kept : List ModeQueue
  pub lastsign : ℕ
  pub flags : Str
  pub args : List Str
  pub lines : List ModeLine
  pub overrun : Bool

abbrev flush_bans : ModeQueue → List Str → List Str
flush_bans m bans =
    if m.letter == b'b'
    then (if m.sign == b'-'
        then rem_from_bans m.arg bans
        else if m.sign == b'+'
        then add_to_bans m.arg bans
        else bans)
    else bans

abbrev pub next_flags : ModeQueue → ℕ → Str → Str
next_flags m lastsign flags =
    if lastsign == m.sign then flags ++ m.letter ∷ [] else flags ++ m.sign ∷ m.letter ∷ []

-- One round of the inner loop up to its last test.
unfoldable pub flush_one : ℕ → ModeQueue → Flushing → Flushing
unfolding add_to_bans rem_from_bans
flush_one as_server m s =
    if as_server == m.as_server
    then record {
      bans = flush_bans m s.bans;
      kept = s.kept;
      lastsign = m.sign;
      flags = next_flags m s.lastsign s.flags;
      args = if length m.arg == 0 then s.args else s.args ++ m.arg ∷ [];
      lines = s.lines;
      overrun = s.overrun || leb 20 (length (next_flags m s.lastsign s.flags));
    }
    else record s { bans = flush_bans m s.bans; kept = s.kept ++ m ∷ [] }

-- count == MAX_MODE_PER_LINE || !mode: the line is sent unless it has no flags, or the bot is not
-- channel operator (`may_send`), and the variables are reset.
unfoldable pub end_line : Bool → Bool → Flushing → Flushing
end_line may_send last s =
    if length s.args == max_mode_per_line || last
    then record s {
      lastsign = b'+';
      flags = [];
      args = [];
      lines =
          if may_send && not (length s.flags == 0)
          then s.lines ++ record { flags = s.flags; args = s.args } ∷ []
          else s.lines;
    }
    else s

abbrev pub is_nil {ℓ} : {A : Type ℓ} → List A → Bool
is_nil [] = true
is_nil (x ∷ xs) = false

unfoldable pub flush_pass : Bool → ℕ → List ModeQueue → Flushing → Flushing
unfolding flush_one end_line
flush_pass may_send as_server [] s = s
flush_pass may_send as_server (m ∷ ms) s =
    flush_pass may_send as_server ms (end_line may_send (is_nil ms) (flush_one as_server m s))

unfoldable pub args_text : List Str → Str
args_text [] = []
args_text (a ∷ args) = b' ' ∷ a ++ args_text args

abbrev mode_text : Str → Str → ℕ → ModeLine → Str
mode_text from channel ts l =
    from
    ++ codes " M "
    ++ channel
    ++ b' ' ∷ l.flags
    ++ args_text l.args
    ++ b' ' ∷ decimal ts
    ++ line_end

unfoldable pub send_lines : Str → Str → ℕ → List ModeLine → World → World
unfolding args_text decimal
send_lines from channel ts [] w = w
send_lines from channel ts (l ∷ ls) w =
    send_lines from channel ts ls (send_to_serv (mode_text from channel ts l) w)

abbrev pub start_pass : List Str → Flushing
start_pass bans = record {
  bans = bans;
  kept = [];
  lastsign = 0;
  flags = [];
  args = [];
  lines = [];
  overrun = false;
}

-- The pass for changes that the server makes, then that for those of the bot.
unfoldable pub server_pass : Achannel → Flushing
unfolding flush_pass
server_pass chan = flush_pass true 1 chan.modebuff (start_pass chan.bans)

unfoldable pub bot_pass : Achannel → Flushing
unfolding flush_pass server_pass
bot_pass chan =
    flush_pass chan.am_chan_op 0 (server_pass chan).kept (start_pass (server_pass chan).bans)

-- Whether a pass runs past flags[20].
unfoldable pub run_over : Achannel → World → World
unfolding server_pass bot_pass
run_over chan w = record w {
  crashed = w.crashed || (server_pass chan).overrun || (bot_pass chan).overrun;
}

unfoldable pub flushmode : Str → World → World
unfolding to_channel set_channel bot_pass send_lines run_over
flushmode channel w = elim (to_channel channel w) [
  | none ↦ w
  | some chan ↦ run_over chan (
      send_lines w.my_yyxxx channel chan.ts (bot_pass chan).lines (
        send_lines w.my_yy channel chan.ts (server_pass chan).lines (
          set_channel channel
            (λ c. record c { modebuff = (bot_pass chan).kept; bans = (bot_pass chan).bans }) w)))
]
