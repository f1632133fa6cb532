-- ===== src/ModeChange/Fuel.antt =====
-- The loop of ModeChange ends within its fuel.
use undernet_cservice_p.Prelude.{ℕ, suc, ◌≡◌, Bool, true, false, ◌&&◌, ◌||◌, [], ◌∷◌, ◌==◌, Str}
use undernet_cservice_p.World.{World}
use undernet_cservice_p.Words.{get_word}
use undernet_cservice_p.ModeChange.{next_change, takes_arg, mode_letter}

-- The finished runs of the loop of ModeChange: it stops at the end of the text or at a space; a sign is
-- stored, a letter is treated with its argument or without, and the run goes on behind that byte.
pub data ModeRun (of_channel : Bool) (source channel : Str)
    : ℕ → ℕ → Str → World → World → Type 0 where
  ended : (sign count : ℕ) (w : World) → ModeRun of_channel source channel sign count [] w w
  spaced :
      (sign count c : ℕ) (s : Str) (w : World)
      → (c == b' ') ≡ true
      → ModeRun of_channel source channel sign count (c ∷ s) w w
  signed :
      (sign count c : ℕ) (s : Str) (w t : World)
      → (c == b' ') ≡ false
      → (c == b'+' || c == b'-') ≡ true
      → ModeRun of_channel source channel c (next_change count s).1 (next_change count s).0 w t
      → ModeRun of_channel source channel sign count (c ∷ s) w t
  with_arg :
      (sign count c : ℕ) (s : Str) (w t : World)
      → (c == b' ') ≡ false
      → (c == b'+' || c == b'-') ≡ false
      → (of_channel && takes_arg sign c) ≡ true
      → ModeRun of_channel source channel sign
          (next_change (suc count) s).1
          (next_change (suc count) s).0
          (mode_letter of_channel source channel sign c (get_word count (c ∷ s)) w)
          t
      → ModeRun of_channel source channel sign count (c ∷ s) w t
  without_arg :
      (sign count c : ℕ) (s : Str) (w t : World)
      → (c == b' ') ≡ false
      → (c == b'+' || c == b'-') ≡ false
      → (of_channel && takes_arg sign c) ≡ false
      → ModeRun of_channel source channel sign
          (next_change count s).1
          (next_change count s).0
          (mode_letter of_channel source channel sign c [] w)
          t
      → ModeRun of_channel source channel sign count (c ∷ s) w t
