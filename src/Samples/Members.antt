-- ===== src/Samples/Members.antt =====
-- Users who come and go, and the texts of modes.
use undernet_cservice_p.Prelude.{
  remove_if, ◌≡◌, refl, sym, true, false, false≢true, Bool-cases, inl, inr, none, some, Option, Str,
  codes, str_eq, find, pos, [], ◌∷◌, ◌++◌, arith, length,
}
use undernet_cservice_p.World.{World, Aluser, Achannel}
use undernet_cservice_p.World.Lookup.{to_channel, to_luser}
use undernet_cservice_p.Words.Laws.{IsWord}
use undernet_cservice_p.Modes.Flags.{add_flag, rem_flag, is_mode_set}
use undernet_cservice_p.Modes.Flags.Meaning.{
  SetMode, mode_text, without, holds, word_of, add_flag-mode_text, rem_flag-mode_text,
  is_mode_set-mode_text, IsModeList,
}
use undernet_cservice_p.Membership.Creating.{new_channel}
use undernet_cservice_p.Membership.{onjoin}
use undernet_cservice_p.Membership.Consistent.{count, listed, lists}
use undernet_cservice_p.Membership.Opening.{IsConsistent}
use undernet_cservice_p.Membership.Steps.{Steps, here, after, opens, Steps-IsConsistent}
use undernet_cservice_p.Membership.Joins.{onjoin-Steps}
use undernet_cservice_p.Membership.Bursting.{onburst}
use undernet_cservice_p.Membership.Bursts.{onburst-Steps}
use undernet_cservice_p.Numerics.{inttobase64}
use undernet_cservice_p.Numerics.Digits.{base64_value, inttobase64-value}

abbrev alice : Aluser
alice = record {
  num = codes "AAAAA";
  nick = codes "alice";
  username = codes "u";
  site = codes "h";
  account = [];
  hiddenhost = [];
  time = 7;
  mode = 0;
  server_name = codes "s";
  valchan = [];
  channel = [];
}

abbrev world : World
world = record {
  now = 100;
  my_yyxxx = codes "AXAAA";
  my_yy = codes "AX";
  my_nick = codes "X";
  log_ts = 5;
  ts_offset = pos 0;
  bursting = true;
  def_chan_list = [];
  user_list = λ i. [];
  lusers = λ i. alice ∷ [];
  channel_list = λ i. [];
  event_list = [];
  shit_list = λ i. [];
  message_list = [];
  flood_list = [];
  add_user_flood_list = [];
  ignore_list = [];
  out = [];
  crashed = false;
}

first_of :
    (u : Aluser) (channel num : Str)
    → u.channel ≡ []
    → lists channel (find (λ (v : Aluser). str_eq num v.num) (u ∷ [])) ≡ 0
unfolding find count
first_of u channel num h = elim (Bool-cases (str_eq num u.num)) [
  | inl e ↦ rw (e, h) refl
  | inr e ↦ rw e refl
]

world-IsConsistent : IsConsistent world
unfolding to_channel to_luser find
world-IsConsistent = record {
  balanced = λ num channel. sym (first_of alice channel num refl);
  distinct = λ i. tt;
}

abbrev opened : World
opened = new_channel (codes "#chan") 5 false world

not_known : to_channel (codes "#chan") world ≡ none
unfolding to_channel
not_known = refl

Steps-IsConsistent_example : IsConsistent opened
Steps-IsConsistent_example =
    Steps-IsConsistent world opened
      (after world world opened (here world) (opens (codes "#chan") 5 world not_known))
      world-IsConsistent

onjoin-Steps_example :
    Steps world (onjoin (codes "C") (codes "AAAAA") (codes "#a,#b") (codes "12") world)
onjoin-Steps_example =
    onjoin-Steps (codes "C") (codes "AAAAA") (codes "#a,#b") (codes "12") world refl

-- A channel that is created lists its creator as its operator.
onjoin_test :
    listed (codes "AAAAA") (
      to_channel
        (codes "#A")
        (onjoin (codes "C") (codes "AAAAA") (codes "#a,#b") (codes "12") world))
    ≡ 1
unfolding onjoin to_channel count
onjoin_test = refl

abbrev burst_line : Str
burst_line = codes "12 +ntk pass AAAAA:o,AAAAB :%*!*@x *!*@y"

onburst-Steps_example : Steps world (onburst (codes "AB") (codes "#a") burst_line world)
onburst-Steps_example = onburst-Steps (codes "AB") (codes "#a") burst_line world refl

mode_of : Option Achannel → Str
mode_of none = []
mode_of (some c) = c.mode

onburst_test :
    mode_of (to_channel (codes "#A") (onburst (codes "AB") (codes "#a") burst_line world))
    ≡ codes "ntk pass"
unfolding onburst to_channel mode_of
onburst_test = refl

-- Behind such modes AddFlag puts the new argument without a space.
add_flag_test : add_flag b'l' (some (codes "10")) (codes "ntk pass") ≡ codes "ntkl pass10 "
unfolding add_flag
add_flag_test = refl

abbrev limit : SetMode
limit = record { letter = b'l'; arg = codes "10" }

abbrev key : SetMode
key = record { letter = b'k'; arg = codes "pass" }

abbrev secret : SetMode
secret = record { letter = b's'; arg = [] }

ten_IsWord : IsWord (codes "10")
ten_IsWord = record {
  first = b'1';
  others = codes "0";
  splits = refl;
  spaceless = ((λ e. ground arith), ((λ e. ground arith), tt));
  short = omega arith;
}

modes_fit : IsModeList (secret ∷ limit ∷ [])
unfolding mode_text
modes_fit = record {
  modes = (
    ((λ e. ground arith), (λ e. absurd (false≢true e))),
    (((λ e. ground arith), (λ e. ten_IsWord)), tt),
  );
  letters_fit = omega arith;
  text_fits = omega arith;
}

pass_IsWord : IsWord (codes "pass")
pass_IsWord = record {
  first = b'p';
  others = codes "ass";
  splits = refl;
  spaceless = (
    (λ e. ground arith),
    ((λ e. ground arith), ((λ e. ground arith), ((λ e. ground arith), tt))),
  );
  short = omega arith;
}

after_fit : IsModeList (without b'k' (secret ∷ limit ∷ []) ++ key ∷ [])
unfolding mode_text remove_if
after_fit = record {
  modes = (
    ((λ e. ground arith), (λ e. absurd (false≢true e))),
    (((λ e. ground arith), (λ e. ten_IsWord)), (((λ e. ground arith), (λ e. pass_IsWord)), tt)),
  );
  letters_fit = omega arith;
  text_fits = omega arith;
}

add_flag-mode_text_example :
    add_flag b'k' (word_of key) (mode_text (secret ∷ limit ∷ []))
    ≡ mode_text (without b'k' (secret ∷ limit ∷ []) ++ key ∷ [])
add_flag-mode_text_example = add_flag-mode_text key (secret ∷ limit ∷ []) modes_fit after_fit

rem_flag-mode_text_example :
    rem_flag b's' (mode_text (secret ∷ limit ∷ [])) ≡ mode_text (without b's' (secret ∷ limit ∷ []))
rem_flag-mode_text_example = rem_flag-mode_text b's' (secret ∷ limit ∷ []) modes_fit

is_mode_set-mode_text_example :
    is_mode_set (mode_text (secret ∷ limit ∷ [])) b'l' (codes "10")
    ≡ holds b'l' (codes "10") (secret ∷ limit ∷ [])
is_mode_set-mode_text_example =
    is_mode_set-mode_text b'l' (codes "10") (secret ∷ limit ∷ []) modes_fit

rem_flag_test : rem_flag b'l' (codes "nlk 10 pass ") ≡ codes "nk pass "
unfolding rem_flag
rem_flag_test = refl

inttobase64-value_example :
    (base64_value 0 (inttobase64 200 3) ≡ 200) × (length (inttobase64 200 3) ≡ 3)
inttobase64-value_example = inttobase64-value 200 3 (omega arith)

inttobase64_test : inttobase64 200 3 ≡ codes "ADI"
unfolding inttobase64
inttobase64_test = refl
