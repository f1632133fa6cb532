-- ===== src/Suspend/Bounds.antt =====
-- suspend and unsuspend: who they answer, and the durations that they ask for.
use undernet_cservice_p.Prelude.{
  lt→ltb, ℕ, ◌*◌, ◌%◌, ◌^◌, ◌≤◌, ◌<◌, ◌≡◌, refl, ap, ◌∙◌, Bool, true, false, not, Option, none,
  if◌then◌else◌, some, List, [], ◌∷◌, ◌++◌, append_assoc, ltb, Str, codes, head_byte, pos, All,
  arith, str_case_eq,
}
use undernet_cservice_p.World.{World, not_access, db_fetch, emit}
use undernet_cservice_p.World.Text.{notice, atoi}
use undernet_cservice_p.World.Lookup.{access}
use undernet_cservice_p.Words.{get_word, to_word, next_word}
use undernet_cservice_p.Words.Laws.{IsWord, unwords, nth_word, get_word-unwords, to_word-unwords}
use undernet_cservice_p.Bans.Commands.{is_empty}
use undernet_cservice_p.Suspend.{
  suspend_args, suspend_access, unit_seconds, signed_int, times_int, in_range, suspend_action,
  suspend_for, no_target, suspend, unsuspend,
}

-- The channel, the target and the rest that the source names.
abbrev pub channel_named : Str → Str → Str → World → Str
unfolding suspend_args
channel_named source ch args w = (suspend_args source ch args w).0

abbrev pub target_named : Str → Str → Str → World → Str
unfolding suspend_args get_word
target_named source ch args w = get_word 0 (suspend_args source ch args w).1

-- The duration that the source asks for: none without a target, a known unit or a time in range.
unfoldable pub duration : Str → Str → Str → World → Option ℕ
unfolding suspend_args get_word to_word unit_seconds times_int atoi
duration source ch args w =
    let rest = (suspend_args source ch args w).1 in
    if no_target source (channel_named source ch args w) (get_word 0 rest) (get_word 1 rest) w
    then none
    else elim (unit_seconds (head_byte (to_word 2 rest))) [
      | none ↦ none
      | some seconds ↦ in_range (times_int (atoi (get_word 1 rest)) seconds)
    ]

abbrev pub allowed : Str → Str → Str → World → Bool
unfolding access suspend_args
allowed source ch args w = not (ltb (suspend_access source (suspend_args source ch args w).0 w) 100)

-- The world with one more answer to the source or one more query, and nothing else.
pub data Answered (source ch args : Str) (w : World) : World → Type 0 where
  denied :
      allowed source ch args w ≡ false
      → Answered source ch args w (emit (not_access source (channel_named source ch args w)) w)
  told :
      (msg : Str)
      → allowed source ch args w ≡ true
      → duration source ch args w ≡ none
      → Answered source ch args w (notice source msg w)
  asked :
      (time : ℕ)
      → allowed source ch args w ≡ true
      → duration source ch args w ≡ some time
      → time ≤ 31536000
      → Answered source ch args w (
          emit
            (db_fetch
              (channel_named source ch args w)
              (suspend_action (target_named source ch args w))
              (target_named source ch args w)
              time
              source)
            w)

mod-small : (m : ℕ) → m < 4294967296 → m % 4294967296 ≡ m
mod-small m h = omega (arith, h)

small_int : (m : ℕ) → m < 2 ^ 31 → signed_int (m % 2 ^ 32) ≡ pos m
small_int m h = rw (mod-small m (omega (arith, h)), lt→ltb m (2 ^ 31) h) refl

-- A duration that an int can hold is multiplied by its unit exactly.
pub times_int-exact : (n unit : ℕ) → n * unit < 2 ^ 31 → times_int (pos n) unit ≡ pos (n * unit)
unfolding times_int
times_int-exact n unit h = small_int (n * unit) h

-- The words of a line that `unsuspend` builds.
abbrev zero_line : Str → Str → List Str
zero_line channel target = channel ∷ target ∷ codes "0" ∷ []

zero_IsWord : IsWord (codes "0")
zero_IsWord = record {
  first = b'0';
  others = [];
  splits = refl;
  spaceless = ((λ e. ground arith), tt);
  short = omega arith;
}

line_head : (c target : Str) (ws : List Str) → head_byte (unwords ((b'#' ∷ c) ∷ target ∷ ws)) ≡ b'#'
unfolding unwords
line_head c target ws = refl

suspend_args-line :
    (source ch target c : Str) (ws : List Str) (w : World)
    → IsWord (b'#' ∷ c)
    → IsWord target
    → All IsWord ws
    → suspend_args source ch (unwords ((b'#' ∷ c) ∷ target ∷ ws)) w
      ≡ (b'#' ∷ c, unwords (target ∷ ws))
unfolding suspend_args nth_word
suspend_args-line source ch target c ws w h k l =
    rw
      (
        suspend_args,
        line_head c target ws,
        get_word-unwords ((b'#' ∷ c) ∷ target ∷ ws) 0 (h, (k, l)),
        to_word-unwords (b'#' ∷ c) target ws h k,
      )
      refl

is_empty-word : (w : Str) → IsWord w → is_empty w ≡ false
is_empty-word w h = rw h.splits refl

-- The line that `unsuspend` builds.
line_text :
    (c target : Str)
    → (b'#' ∷ c) ++ b' ' ∷ target ++ codes " 0" ≡ unwords ((b'#' ∷ c) ∷ target ∷ codes "0" ∷ [])
unfolding unwords
line_text c target = ap (◌∷◌ b'#') (append_assoc c (b' ' ∷ target) (codes " 0"))

to_word-end : (target : Str) → IsWord target → to_word 2 (unwords (target ∷ codes "0" ∷ [])) ≡ []
unfolding to_word unwords next_word
to_word-end target k = ap next_word (to_word-unwords target (codes "0") [] k zero_IsWord)

suspend_for-zero :
    (source channel target : Str) (w : World)
    → suspend_for source channel target (atoi (codes "0")) [] w
      ≡ emit (db_fetch channel (suspend_action target) target 0 source) w
unfolding suspend_for atoi unit_seconds times_int
suspend_for-zero source channel target w = refl

suspend-zero :
    (source ch target c : Str) (w : World)
    → IsWord (b'#' ∷ c)
    → IsWord target
    → ltb (suspend_access source (b'#' ∷ c) w) 100 ≡ false
    → suspend source ch (unwords ((b'#' ∷ c) ∷ target ∷ codes "0" ∷ [])) w
      ≡ emit (db_fetch (b'#' ∷ c) (suspend_action target) target 0 source) w
unfolding suspend nth_word
suspend-zero source ch target c w h k a =
    rw
      (
        suspend,
        suspend_args-line source ch target c (codes "0" ∷ []) w h k (zero_IsWord, tt),
        get_word-unwords (target ∷ codes "0" ∷ []) 0 (k, (zero_IsWord, tt)),
        get_word-unwords (target ∷ codes "0" ∷ []) 1 (k, (zero_IsWord, tt)),
        a,
      )
      (rw (is_empty-word target k, to_word-end target k)
        (suspend_for-zero source (b'#' ∷ c) target w))

unsuspend-step :
    (source ch target c : Str) (w : World)
    → IsWord (b'#' ∷ c)
    → IsWord target
    → unsuspend source ch (unwords ((b'#' ∷ c) ∷ target ∷ [])) w
      ≡ suspend source ch ((b'#' ∷ c) ++ b' ' ∷ target ++ codes " 0") w
unfolding unsuspend nth_word str_case_eq
unsuspend-step source ch target c w h k =
    rw
      (
        unsuspend,
        suspend_args-line source ch target c [] w h k tt,
        get_word-unwords (target ∷ []) 0 (k, tt),
        is_empty-word target k,
      )
      refl

-- A source that may suspend
pub unsuspend-zero :
    (source ch target c : Str) (w : World)
    → IsWord (b'#' ∷ c)
    → IsWord target
    → ltb (suspend_access source (b'#' ∷ c) w) 100 ≡ false
    → unsuspend source ch (unwords ((b'#' ∷ c) ∷ target ∷ [])) w
      ≡ emit (db_fetch (b'#' ∷ c) (suspend_action target) target 0 source) w
unsuspend-zero source ch target c w h k a =
    unsuspend-step source ch target c w h k
    ∙ ap (λ line. suspend source ch line w) (line_text c target)
    ∙ suspend-zero source ch target c w h k a
