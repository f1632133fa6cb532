-- ===== src/Suspend.antt =====
-- suspend and unsuspend of Sources/userlist.c, up to the query that suspend_callback answers.
pub mod Bounds
use undernet_cservice_p.Prelude.{
  ℕ, suc, ◌+◌, ◌-◌, ◌*◌, ◌%◌, ◌^◌, Bool, true, false, not, ◌&&◌, ◌||◌, Option, none, some, [], ◌∷◌,
  ◌++◌, ◌==◌, ltb, leb, if◌then◌else◌, Str, codes, head_byte, str_case_eq, ℤ, pos, negsuc, sub_ℕ,
}
use undernet_cservice_p.World.{
  World, DbAction, dbgetallcmp, dbgetnick, Out, not_access, db_fetch, emit,
}
use undernet_cservice_p.World.Text.{notice, atoi}
use undernet_cservice_p.World.Lookup.{to_luser, guess_channel, is_valid, access}
use undernet_cservice_p.Words.{get_word, to_word}
use undernet_cservice_p.Bans.Commands.{is_empty}

-- IsValid(ToLuser(source), channel)
unfoldable pub source_valid : Str → Str → World → Bool
unfolding to_luser is_valid
source_valid source channel w = elim (to_luser source w) [
  | none ↦ false
  | some user ↦ is_valid user channel
]

-- The channel, and the rest of the arguments.
unfoldable pub suspend_args : Str → Str → Str → World → Str × Str
unfolding source_valid get_word to_word guess_channel
suspend_args source ch args w =
    if head_byte args == b'#' || (head_byte args == b'*' && source_valid source ch w)
    then (get_word 0 args, to_word 1 args)
    else (guess_channel source ch w, args)

-- LEVEL_SUSPEND and MASTER_ACCESS
abbrev pub level_suspend : ℕ
level_suspend = 100

abbrev master_access : ℕ
master_access = 1000

abbrev pub suspend_access : Str → Str → World → ℕ
suspend_access source channel w =
    if is_empty source then master_access + 1 else access channel source w

-- The seconds of a unit; none is the `default` of the `switch`.
unfoldable pub unit_seconds : ℕ → Option ℕ
unit_seconds c =
    if c == b's' || c == b'S' || c == 0
    then some 1
    else if c == b'm' || c == b'M'
    then some 60
    else if c == b'h' || c == b'H'
    then some 3600
    else if c == b'd' || c == b'D' || c == b'j' || c == b'J'
    then some 86400
    else none

-- The int with these 32 bits.
abbrev pub signed_int : ℕ → ℤ
signed_int bits = if ltb bits (2 ^ 31) then pos bits else sub_ℕ bits (2 ^ 32)

-- timeint *= unit, in an int that wraps around.
unfoldable pub times_int : ℤ → ℕ → ℤ
times_int (pos n) unit = signed_int (n * unit % 2 ^ 32)
times_int (negsuc n) unit = signed_int ((2 ^ 32 - suc n * unit % 2 ^ 32) % 2 ^ 32)

-- The duration, unless it is negative or above a year.
abbrev pub in_range : ℤ → Option ℕ
in_range (pos n) = if ltb 31536000 n then none else some n
in_range (negsuc n) = none

-- strpbrk(s, "!@") != NULL
unfoldable pub has_address : Str → Bool
has_address [] = false
has_address (c ∷ s) = c == b'!' || c == b'@' || has_address s

abbrev pub suspend_action : Str → DbAction
unfolding has_address
suspend_action target = if has_address target then dbgetallcmp else dbgetnick

unfoldable pub suspend_for : Str → Str → Str → ℤ → Str → World → World
unfolding unit_seconds times_int has_address
suspend_for source channel target timeint unit w = elim (unit_seconds (head_byte unit)) [
  | none ↦ notice source (codes "Bogus time units") w
  | some seconds ↦ elim (in_range (times_int timeint seconds)) [
    | none ↦ notice source (codes "Invalid time") w
    | some time ↦ emit (db_fetch channel (suspend_action target) target time source) w
  ]
]

-- strcasecmp(channel, "*") == 0, of a source that is not valid there, or a missing argument.
abbrev pub no_target : Str → Str → Str → Str → World → Bool
unfolding source_valid str_case_eq
no_target source channel target timestring w =
    (str_case_eq channel (codes "*") && not (source_valid source channel w))
    || is_empty target
    || is_empty timestring

unfoldable pub suspend : Str → Str → Str → World → World
unfolding suspend_args access get_word to_word source_valid suspend_for str_case_eq atoi
suspend source ch arguments w =
    let (channel, args) = suspend_args source ch arguments w in
    let target = get_word 0 args in
    let timestring = get_word 1 args in
    if ltb (suspend_access source channel w) level_suspend
    then emit (not_access source channel) w
    else if no_target source channel target timestring w
    then notice source (codes "SYNTAX: suspend [channel] <nick|userhost> <duration> [s|m|d]") w
    else suspend_for source channel target (atoi timestring) (to_word 2 args) w

unfoldable pub unsuspend : Str → Str → Str → World → World
unfolding suspend_args get_word suspend str_case_eq
unsuspend source ch arguments w =
    let (channel, args) = suspend_args source ch arguments w in
    let target = get_word 0 args in
    if str_case_eq channel (codes "*") || is_empty target
    then notice source (codes "SYNTAX: unsuspend [#channel] <NICK|ADDRESS>") w
    else suspend source ch (channel ++ b' ' ∷ target ++ codes " 0") w
