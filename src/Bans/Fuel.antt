-- ===== src/Bans/Fuel.antt =====
-- The loops of `ban` and `unban` over the words of a list: they end within their fuel.
use undernet_cservice_p.Prelude.{
  ℕ, zero, suc, ◌+◌, ◌≡◌, ◌≤◌, refl, true, false, Bool-cases, inl, inr, [], ◌∷◌, arith, ◌==◌, Str,
  length,
}
use undernet_cservice_p.World.{World}
use undernet_cservice_p.Words.{skip_spaces, next_word, to_word, word_bytes, get_word}
use undernet_cservice_p.Bans.Commands.{ban_word, is_empty, unban_words, unban_one}

pub skip_spaces-length : (s : Str) → length (skip_spaces s) ≤ length s
unfolding skip_spaces
skip_spaces-length [] = omega arith
skip_spaces-length (c ∷ s) = elim (Bool-cases (c == b' ')) [
  | inl e ↦ rw e (omega (arith, skip_spaces-length s))
  | inr e ↦ rw e (omega arith)
]

pub next_word-length : (c : ℕ) (s : Str) → length (next_word (c ∷ s)) ≤ length s
unfolding next_word
next_word-length c [] = elim (Bool-cases (c == b' ')) [
  | inl e ↦ rw e (skip_spaces-length [])
  | inr e ↦ rw e (omega arith)
]
next_word-length c (d ∷ s) = elim (Bool-cases (c == b' ')) [
  | inl e ↦ rw e (skip_spaces-length (d ∷ s))
  | inr e ↦ rw e (omega (arith, next_word-length d s))
]

to_word-nil : (n : ℕ) → to_word n [] ≡ []
unfolding to_word next_word
to_word-nil zero = refl
to_word-nil (suc n) = to_word-nil n

to_word-past : (n : ℕ) (s : Str) → length s ≤ n → to_word n s ≡ []
unfolding to_word
to_word-past zero [] h = refl
to_word-past zero (c ∷ s) h = ground arith
to_word-past (suc n) [] h = to_word-nil (suc n)
to_word-past (suc n) (c ∷ s) h =
    to_word-past n (next_word (c ∷ s)) (omega (arith, h, next_word-length c s))

pub get_word-past : (n : ℕ) (s : Str) → length s ≤ n → get_word n s ≡ []
unfolding get_word word_bytes
get_word-past n s h = rw (to_word-past n s h) refl

-- The finished runs of the loop of `ban` from word `i` on: it stops at the first empty word, and
-- bans each word before it.
pub data BanRun (channel nicklist : Str) : ℕ → World → World → Type 0 where
  stop : (i : ℕ) (w : World) → is_empty (get_word i nicklist) ≡ true → BanRun channel nicklist i w w
  next :
      (i : ℕ) (w t : World)
      → is_empty (get_word i nicklist) ≡ false
      → BanRun channel nicklist (suc i) (ban_word channel (get_word i nicklist) w) t
      → BanRun channel nicklist i w t

-- The finished runs of the loop of `unban` from word `i` on: it stops at the first empty word, and
-- lifts the bans of each word before it.
pub data UnbanRun (source channel list : Str) : ℕ → World → World → Type 0 where
  stop :
      (i : ℕ) (w : World) → is_empty (get_word i list) ≡ true → UnbanRun source channel list i w w
  next :
      (i : ℕ) (w t : World)
      → is_empty (get_word i list) ≡ false
      → UnbanRun source channel list (suc i) (unban_one source channel (get_word i list) w) t
      → UnbanRun source channel list i w t

-- The loop of `unban` over the words, from any word on and with as much fuel as the list has bytes
-- behind that word and one more, ends at the first empty word and has lifted the bans of each word
-- before it.
pub unban_words-Runs :
    (f i : ℕ) (source channel list : Str) (w : World)
    → length list ≤ i + f
    → UnbanRun source channel list i w (unban_words (suc f) i source channel list w)
unfolding unban_words
unban_words-Runs zero i source channel list w h =
    let e : is_empty (get_word i list) ≡ true = rw (get_word-past i list (omega (arith, h))) refl in
    rw (unban_words, e) (stop i w e)
unban_words-Runs (suc f) i source channel list w h =
    elim (Bool-cases (is_empty (get_word i list))) [
      | inl e ↦ rw (unban_words, e) (stop i w e)
      | inr e ↦
          rw (unban_words, e)
            (next i w _ e (
              unban_words-Runs f (suc i) source channel list
                (unban_one source channel (get_word i list) w) (omega (arith, h))))
    ]
