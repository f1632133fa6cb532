-- ===== src/ModeChange.antt =====
-- ModeChange, onban, onunban, clearmode, onclearmode and bounce of Sources/modes.c.
pub mod Opping
pub mod Fuel
pub mod Victims
use undernet_cservice_p.Prelude.{
  ℕ, zero, suc, ◌+◌, Bool, true, false, not, ◌&&◌, ◌||◌, Option, none, some, List, [], ◌∷◌, ◌++◌,
  map, ◌==◌, ltb, leb, if◌then◌else◌, Str, codes, length, str_eq, str_case_eq, ℤ, pos, negsuc,
}
use undernet_cservice_p.World.{
  World, Aluser, Auser, Achannel, crash, emit, has_flag, set_flag, clear_flag, lfl_isservice,
  lfl_isoper, lfl_ismodex, lfl_registered,
}
use undernet_cservice_p.World.Text.{put_log, send_to_serv, atoi, line_end}
use undernet_cservice_p.World.Lookup.{
  to_channel, set_channel, to_luser, set_luser, to_user, log_to_user,
}
use undernet_cservice_p.Words.{get_word, to_word}
use undernet_cservice_p.Modes.{changemode, flushmode, add_ban, rem_ban}
use undernet_cservice_p.Modes.Flags.{
  takes_word, has_byte, add_flag, fits_mode, fits_set, rem_flag, is_set,
}
use undernet_cservice_p.Bans.Commands.{is_empty}
use undernet_cservice_p.Floodpro.{check_flood}
use undernet_cservice_p.Ops.{flush_later}
use undernet_cservice_p.ModeChange.Opping.{set_chanop, onop, ondeop}

unfoldable pub onban : Str → Str → Str → World → World
unfolding add_ban
onban nick channel pattern w = add_ban channel pattern w

unfoldable pub onunban : Str → Str → Str → World → World
unfolding rem_ban
onunban source channel pattern w = rem_ban channel pattern w

-- A write of chan->mode by AddFlag or RemFlag, which run past newmode[15] where the modes before or
-- after it do not fit.
unfoldable pub change_mode : Str → (Str → Str) → World → World
unfolding to_channel set_channel fits_mode
change_mode channel f w = elim (to_channel channel w) [
  | none ↦ w
  | some chan ↦
      if fits_mode chan.mode && fits_mode (f chan.mode)
      then set_channel channel (λ c. record c { mode = f c.mode }) w
      else crash w
]

-- HIDDEN_HOST_SUFFIX
abbrev hidden_host_suffix : Str
hidden_host_suffix = codes ".users.undernet.org"

-- The modes of a user that `c` sets.
unfoldable pub user_plus : ℕ → Aluser → Aluser
user_plus c u =
    if c == b'o'
    then record u { mode = set_flag u.mode lfl_isoper }
    else if c == b'k'
    then record u { mode = set_flag u.mode lfl_isservice }
    else if c == b'x'
    then record u {
      mode = set_flag u.mode lfl_ismodex;
      hiddenhost =
          if has_flag u.mode lfl_registered then u.account ++ hidden_host_suffix else u.hiddenhost;
    }
    else u

unfoldable pub user_minus : ℕ → Aluser → Aluser
user_minus c u =
    if c == b'o'
    then record u { mode = clear_flag u.mode lfl_isoper }
    else if c == b'k'
    then record u { mode = clear_flag u.mode lfl_isservice }
    else u

-- The letters that AddFlag and RemFlag are called with.
abbrev plain_letters : Str
plain_letters = codes "imntpsrDdRCcuM"

-- The letter of a channel's mode and its argument, which is empty where the letter takes none.
unfoldable pub store_mode : ℕ → ℕ → Str → Str → World → World
unfolding has_byte change_mode add_flag rem_flag
store_mode sign c arg channel w =
    if sign == b'+'
    then (if takes_word c && not (is_empty arg)
        then change_mode channel (add_flag c (some arg)) w
        else if has_byte c plain_letters
        then change_mode channel (add_flag c none) w
        else w)
    else if has_byte c (codes "lk" ++ plain_letters)
    then change_mode channel (rem_flag c) w
    else w

-- atoi(arg) < 2
abbrev is_below_two : ℤ → Bool
is_below_two (pos n) = ltb n 2
is_below_two (negsuc n) = true

unfoldable pub small_limit : Str → Str → World → World
unfolding to_channel changemode change_mode rem_flag atoi
small_limit arg channel w =
    if is_below_two (atoi arg)
    then elim (to_channel channel w) [
      | none ↦ w
      | some chan ↦
          if chan.on && chan.am_chan_op
          then change_mode channel (rem_flag b'l') (changemode channel b'-' b'l' [] 0 w)
          else w
    ]
    else w

-- What follows the store of a letter of a channel's mode.
unfoldable pub mode_tests : Str → Str → ℕ → ℕ → Str → World → World
unfolding onop ondeop onban onunban small_limit
mode_tests source channel sign c arg w =
    if c == b'o'
    then (if sign == b'+' then onop source channel arg w else ondeop source channel arg w)
    else if c == b'b'
    then (if sign == b'+' then onban source channel arg w else onunban source channel arg w)
    else if c == b'l' && sign == b'+'
    then small_limit arg channel w
    else w

-- strchr("blkov", c) under a plus, strchr("bkov", c) under a minus
unfoldable pub takes_arg : ℕ → ℕ → Bool
takes_arg sign c = c == b'b' || c == b'k' || c == b'o' || c == b'v' || (sign == b'+' && c == b'l')

-- A letter, its argument found by GetWord where it takes one.
unfoldable pub mode_letter : Bool → Str → Str → ℕ → ℕ → Str → World → World
unfolding store_mode mode_tests set_luser user_plus user_minus
mode_letter of_channel source channel sign c arg w =
    if of_channel
    then mode_tests source channel sign c arg (store_mode sign c arg channel w)
    else set_luser source (if sign == b'+' then user_plus c else user_minus c) w

-- The end of a round: `change` behind its first byte, and `count`.
unfoldable pub next_change : ℕ → Str → Str × ℕ
unfolding to_word
next_change count [] = ([], count)
next_change count (c ∷ s) = if c == b' ' then (to_word count (c ∷ s), 1) else (c ∷ s, count)

-- The `while` loop; each round leaves a shorter text.
unfoldable pub mode_loop : ℕ → Bool → Str → Str → ℕ → ℕ → Str → World → World
unfolding next_change takes_arg mode_letter get_word
mode_loop zero of_channel source channel sign count change w = w
mode_loop (suc f) of_channel source channel sign count [] w = w
mode_loop (suc f) of_channel source channel sign count (c ∷ s) w =
    let go : (ℕ → ℕ → World → World) = λ sign' count' w'.
      let (rest, next) = next_change count' s in
      mode_loop f of_channel source channel sign' next rest w' in
    if c == b' '
    then w
    else if c == b'+' || c == b'-'
    then go c count w
    else if of_channel && takes_arg sign c
    then go sign (suc count)
        (mode_letter of_channel source channel sign c (get_word count (c ∷ s)) w)
    else go sign count (mode_letter of_channel source channel sign c [] w)

unfoldable pub mode_change : Str → Str → Str → World → World
unfolding to_channel to_luser set_channel mode_loop check_flood flushmode
mode_change source channel change w = elim (to_channel channel w) [
  | some chan ↦
      let w1 = set_channel channel (λ c. record c { lastact = w.now }) w in
      let w2 = mode_loop (suc (length change)) true source channel b'+' 1 change w1 in
      flushmode channel (check_flood source channel 80 w2).0
  | none ↦ elim (to_luser source w) [
    | none ↦
        put_log
          (codes "ModeChange(): WARNING: Mode change for neither user nor channel: "
            ++ source
            ++ codes " - "
            ++ channel
            ++ codes " - "
            ++ change)
          w
    | some u ↦ mode_loop (suc (length change)) false source channel b'+' 1 change w
  ]
]

unfoldable pub clearmode : Str → Str → Bool → World → World
unfolding to_channel
clearmode channel flag as_uworld w =
    let sent = send_to_serv (w.my_yyxxx ++ codes " CM " ++ channel ++ b' ' ∷ flag ++ line_end) w in
    elim (to_channel channel w) [
      | none ↦ if as_uworld then sent else w
      | some chan ↦ if as_uworld || chan.on then sent else w
    ]

-- strcat(modestring, &change[i]): all of the text from the letter on.
unfoldable pub clear_text : Str → Str
clear_text [] = []
clear_text (c ∷ change) =
    let rest = clear_text change in
    if c == b'o' || c == b'v' || c == b'b' then rest else c ∷ change ++ rest

unfoldable pub clear_chanops : Achannel → Achannel
clear_chanops c = record c {
  am_chan_op = if c.on then false else c.am_chan_op;
  users = map (λ (u : Auser). record u { chanop = false }) c.users;
}

unfoldable pub onclearmode : Str → Str → Str → World → World
unfolding to_channel clear_text mode_change has_byte set_channel clear_chanops
onclearmode source channel change w = elim (to_channel channel w) [
  | none ↦ put_log (codes "ERROR OnClearMode(): Cannot find channel " ++ channel) w
  | some chan ↦
      let w1 =
        if is_empty (clear_text change)
        then w
        else mode_change source channel (b'-' ∷ clear_text change) w in
      let w2 = if has_byte b'o' change then set_channel channel clear_chanops w1 else w1 in
      if has_byte b'b' change then set_channel channel (λ c. record c { bans = [] }) w2 else w2
]

-- A letter `o` of `bounce`.
unfoldable pub bounce_op : Str → ℕ → Str → World → World
unfolding to_user log_to_user changemode set_chanop
bounce_op channel sign arg w0 =
    let w = log_to_user channel arg w0 in
    elim (to_user channel arg w) [
      | none ↦ w
      | some user ↦
          if sign == b'+'
          then (if user.chanop
              then w
              else set_chanop false channel arg (changemode channel b'-' b'o' arg 1 w))
          else set_chanop false channel arg w
    ]

abbrev flipped : ℕ → ℕ
flipped sign = if sign == b'+' then b'-' else b'+'

-- A letter of `bounce` with the argument that it has, or the last one that was read. A call of IsSet
-- runs past setflags[20] where the flags of the channel do not fit.
unfoldable pub bounce_letter : Str → ℕ → ℕ → Str → World → World
unfolding bounce_op changemode is_set fits_set
bounce_letter channel sign c arg w =
    if c == b'o'
    then bounce_op channel sign arg w
    else if c == b'v'
    then changemode channel (flipped sign) b'v' arg 1 w
    else if not (c == b'l' && sign == b'-') && not (fits_set channel w)
    then crash w
    else if c == b'k'
    then (if sign == b'+'
        then (if is_set channel b'k' arg w then w else changemode channel b'-' b'k' arg 1 w)
        else if is_set channel b'k' arg w
        then changemode channel b'+' b'k' arg 1 w
        else w)
    else if c == b'l'
    then (if sign == b'+' && not (is_set channel b'l' arg w)
        then changemode channel b'-' b'l' [] 1 w
        else w)
    else if (is_set channel c [] w && sign == b'-') || (not (is_set channel c [] w) && sign == b'+')
    then changemode channel (flipped sign) c [] 1 w
    else w

-- The loop of `bounce` over the letters before the first space; `place` counts (`pos` of the source) arguments.
unfoldable pub bounce_loop : Str → ℕ → ℕ → Str → Str → Str → World → World
unfolding bounce_letter get_word
bounce_loop channel sign place arg change [] w = w
bounce_loop channel sign place arg change (c ∷ s) w =
    let go : (ℕ → ℕ → Str → World → World) =
      λ sign' place' arg' w'. bounce_loop channel sign' place' arg' change s w' in
    let word = get_word place change in
    if c == b' '
    then w
    else if c == b'+' || c == b'-'
    then go c place arg w
    else if c == b'o' || c == b'v' || c == b'k'
    then go sign (suc place) word (bounce_letter channel sign c word w)
    else if c == b'l'
    then go sign (suc place) arg (bounce_letter channel sign c arg w)
    else go sign place arg (bounce_letter channel sign c arg w)

unfoldable pub bounce : Str → Str → World → World
unfolding bounce_loop flush_later
bounce channel change w = flush_later channel (bounce_loop channel b'+' 1 [] change change w)
