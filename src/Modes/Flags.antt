-- ===== src/Modes/Flags.antt =====
-- setchanmode, AddFlag, RemFlag and IsSet of Sources/modes.c: the modes of a channel, kept as the text
-- of its flags, a space, and the arguments of `l` and `k` with a space behind each.
pub mod Args
pub mod Meaning
use undernet_cservice_p.Prelude.{
  ℕ, zero, suc, ◌+◌, ◌-◌, Bool, true, false, not, ◌&&◌, ◌||◌, Option, none, some, List, [], ◌∷◌,
  ◌++◌, ◌==◌, leb, if◌then◌else◌, Str, length, take, drop, str_eq,
}
use undernet_cservice_p.World.{World, crash}
use undernet_cservice_p.World.Lookup.{to_channel, set_channel}
use undernet_cservice_p.Words.{get_word, to_word}

-- strchr(s, c) != NULL
unfoldable pub has_byte : ℕ → Str → Bool
has_byte c [] = false
has_byte c (d ∷ s) = c == d || has_byte c s

-- strchr("lk", c)
abbrev pub takes_word : ℕ → Bool
takes_word c = c == b'l' || c == b'k'

-- memmove(ToWord(count, newarg), ToWord(count + 1, newarg), …)
unfoldable pub drop_word : ℕ → Str → Str
unfolding to_word
drop_word count s = take (length s - length (to_word count s)) s ++ to_word (suc count) s

-- The `while` loop: the flags and the arguments that stay.
unfoldable pub rem_loop : ℕ → Str → ℕ → Str → Str × Str
unfolding drop_word
rem_loop flag [] count newarg = ([], newarg)
rem_loop flag (c ∷ mode) count newarg =
    let gone = rem_loop flag mode count (if takes_word c then drop_word count newarg else newarg) in
    let (kept, arg) = rem_loop flag mode (if takes_word c then suc count else count) newarg in
    if c == flag then gone else (c ∷ kept, arg)

unfoldable pub rem_flag : ℕ → Str → Str
unfolding get_word to_word rem_loop
rem_flag flag string =
    let (newmode, newarg) = rem_loop flag (get_word 0 string) 0 (to_word 1 string) in
    newmode ++ b' ' ∷ newarg

-- strcat(newarg, arg); strcat(newarg, " ");
abbrev pub arg_text : Option Str → Str
arg_text none = []
arg_text (some arg) = arg ++ b' ' ∷ []

abbrev pub append_flag : ℕ → Option Str → Str → Str
append_flag flag arg string =
    (get_word 0 string ++ flag ∷ []) ++ b' ' ∷ (to_word 1 string ++ arg_text arg)

unfoldable pub add_flag : ℕ → Option Str → Str → Str
unfolding has_byte rem_flag get_word to_word
add_flag flag arg string =
    append_flag flag arg (if has_byte flag string then rem_flag flag string else string)

-- The flags from `flag` on, and how many before it have an argument.
unfoldable pub flag_place : ℕ → Str → ℕ → Option ℕ
flag_place flag [] j = none
flag_place flag (c ∷ flags) j =
    let rest = flag_place flag flags (if takes_word c then suc j else j) in
    if c == flag then some j else rest

unfoldable pub is_mode_set : Str → ℕ → Str → Bool
unfolding get_word flag_place str_eq
is_mode_set setmode flag param = elim (flag_place flag (get_word 0 setmode) 0) [
  | none ↦ false
  | some j ↦ if takes_word flag then str_eq (get_word (suc j) setmode) param else true
]

unfoldable pub is_set : Str → ℕ → Str → World → Bool
unfolding to_channel is_mode_set
is_set channel flag param w = elim (to_channel channel w) [
  | none ↦ false
  | some chan ↦ is_mode_set chan.mode flag param
]

-- What setflags[20] of IsSet can hold.
unfoldable pub fits_set : Str → World → Bool
unfolding to_channel get_word
fits_set channel w = elim (to_channel channel w) [
  | none ↦ true
  | some chan ↦ leb (length (get_word 0 chan.mode)) 19
]

-- What newmode[15] and chan->mode[80] can hold.
unfoldable pub fits_mode : Str → Bool
unfolding get_word
fits_mode string = leb (length (get_word 0 string)) 14 && leb (length string) 79

-- The text before the first space, and the rest behind it.
unfoldable pub cut_space : Str → Str × Option Str
cut_space [] = ([], none)
cut_space (c ∷ s) =
    let (name, rest) = cut_space s in if c == b' ' then ([], some s) else (c ∷ name, rest)

-- The byte behind the space is passed over; without a space the code copies from a NULL pointer.
unfoldable pub setchanmode : Str → World → World
unfolding cut_space to_channel set_channel
setchanmode line w =
    let (name, mode) = cut_space line in
    elim (to_channel name w) [
      | none ↦ w
      | some chan ↦ elim mode [
        | none ↦ crash w
        | some m ↦ set_channel name (λ c. record c { mode = drop 1 m }) w
      ]
    ]
