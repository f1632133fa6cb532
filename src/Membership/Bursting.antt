-- ===== src/Membership/Bursting.antt =====
-- onburst of Sources/channels.c, and StringSize of Sources/main.c.
use undernet_cservice_p.Prelude.{
  ℕ, zero, suc, ◌-◌, Bool, true, false, ◌||◌, Option, none, some, List, [], ◌∷◌, ◌++◌, ◌==◌, ltb,
  if◌then◌else◌, Str, codes, take, drop, head_byte, str_eq,
}
use undernet_cservice_p.World.{World}
use undernet_cservice_p.World.Text.{put_log, atoi}
use undernet_cservice_p.World.Lookup.{to_channel, set_channel, to_luser}
use undernet_cservice_p.Words.{get_word, getn_word, to_word}
use undernet_cservice_p.Modes.{add_ban}
use undernet_cservice_p.Bans.Commands.{is_empty}
use undernet_cservice_p.Membership.Leaving.{split_commas}
use undernet_cservice_p.Membership.Creating.{new_channel}
use undernet_cservice_p.Membership.{join_user, add_int, nat_of}

-- ' ', '\t', '\n' and '\r'
abbrev is_space : ℕ → Bool
is_space c = c == b' ' || c == 9 || c == 10 || c == 13

unfoldable pub words_from : Bool → Str → ℕ
words_from inword [] = if inword then 1 else 0
words_from inword (c ∷ s) =
    let outside = words_from false s in
    let inside = words_from true s in
    if is_space c then (if inword then suc outside else outside) else inside

unfoldable pub string_size : Str → ℕ
unfolding words_from
string_size sentence = words_from false sentence

-- The letters of the modes: an `l` or a `k` takes the next word, cut at the end of modestring.
unfoldable pub burst_modes : Str → ℕ → Str → Str → Str × ℕ
unfolding get_word
burst_modes args token_pos [] modestring = (modestring, token_pos)
burst_modes args token_pos (c ∷ s) modestring =
    let plain = burst_modes args token_pos s modestring in
    let more =
      burst_modes args (suc token_pos) s
        (take 49 (modestring ++ b' ' ∷ get_word (suc token_pos) args)) in
    if c == b'l' || c == b'k' then more else plain

-- The modes of the channel and the place of the next word.
unfoldable pub save_modes : Str → Str → World → World × ℕ
unfolding get_word burst_modes set_channel
save_modes channel args w =
    let string = get_word 1 args in
    if head_byte string == b'+'
    then (let (modestring, token_pos) = burst_modes args 1 (drop 1 string) (take 49 string) in
        (set_channel channel (λ c. record c { mode = drop 1 modestring }) w, suc token_pos))
    else (w, 1)

-- The parts of a text between its spaces, without an empty one at the end.
unfoldable pub split_spaces : Str → Str → List Str
split_spaces [] [] = []
split_spaces (b ∷ word) [] = (b ∷ word) ∷ []
split_spaces word (c ∷ s) =
    let more = split_spaces [] s in
    let same = split_spaces (word ++ c ∷ []) s in if c == b' ' then word ∷ more else same

unfoldable pub burst_bans : Str → List Str → World → World
unfolding add_ban
burst_bans channel [] w = w
burst_bans channel (ban ∷ bans) w = burst_bans channel bans (add_ban channel ban w)

abbrev pub drop_byte : ℕ → Str → Str
drop_byte c s = if head_byte s == c then drop 1 s else s

-- strchr(s, ':')
unfoldable pub from_colon : Str → Option Str
from_colon [] = none
from_colon (c ∷ s) = let rest = from_colon s in if c == b':' then some (c ∷ s) else rest

-- isOp behind a user: it stays where the numeric has no modes.
unfoldable pub burst_op : Option Str → Bool → Bool
unfolding str_eq
burst_op none is_op = is_op
burst_op (some mode) is_op = str_eq mode (codes ":o") || str_eq mode (codes ":vo")

unfoldable pub burst_user : Str → Str → Bool → World → World
unfolding to_luser to_channel join_user
burst_user channel num is_op w = elim (to_luser num w) [
  | none ↦ put_log (codes "ERROR onburst(): Unknown USER " ++ num ++ codes "!") w
  | some user ↦ elim (to_channel channel w) [ none ↦ w | some chan ↦ join_user user is_op chan w ]
]

-- The users of a word, up to an empty one, and isOp behind them.
unfoldable pub burst_users : Str → List Str → Bool → World → World × Bool
unfolding from_colon burst_op burst_user
burst_users channel [] is_op w = (w, is_op)
burst_users channel (sptr ∷ users) is_op w =
    let op = burst_op (from_colon sptr) is_op in
    let rest = burst_users channel users op (burst_user channel (take 5 sptr) op w) in
    if is_empty sptr then (w, is_op) else rest

-- What follows the modes, `n` words of it. The list of bans takes all of the text that is left: its
-- first space becomes the end of the text.
unfoldable pub burst_words : ℕ → Str → Str → ℕ → Bool → World → World
unfolding getn_word to_word split_spaces burst_bans split_commas burst_users
burst_words zero channel args token_pos is_op w = w
burst_words (suc n) channel args token_pos is_op w =
    let sptr = drop_byte b':' (getn_word token_pos args 600) in
    let (w1, op) = burst_users channel (split_commas [] sptr) is_op w in
    let skipped = burst_words n channel args (suc token_pos) is_op w in
    let joined = burst_words n channel args (suc token_pos) op w1 in
    if head_byte sptr == b'~'
    then skipped
    else if head_byte sptr == b'%'
    then burst_bans channel
        (split_spaces [] (drop_byte b'%' (drop_byte b':' (to_word token_pos args)))) w
    else joined

-- The channel, new or with the older time stamp.
unfoldable pub burst_channel : Str → ℕ → World → World
unfolding to_channel new_channel set_channel
burst_channel channel timestamp w = elim (to_channel channel w) [
  | none ↦
      new_channel channel (if timestamp == 0 then add_int w.now w.ts_offset else timestamp) false w
  | some chan ↦
      if ltb timestamp chan.ts then set_channel channel (λ c. record c { ts = timestamp }) w else w
]

unfoldable pub onburst : Str → Str → Str → World → World
unfolding get_word atoi burst_channel set_channel save_modes burst_words string_size
onburst source chanarg args w0 =
    let channel = take 200 chanarg in
    let w = burst_channel channel (nat_of (atoi (get_word 0 args))) w0 in
    let w1 = set_channel channel (λ c. record c { lastact = w.now }) w in
    let (w2, token_pos) = save_modes channel args w1 in
    burst_words (string_size args - token_pos) channel args token_pos false w2
