-- ===== src/Words.antt =====
-- ToWord, GetWord and GetnWord of Sources/main.c: the words of a line.
pub mod Laws
use undernet_cservice_p.Prelude.{
  ℕ, zero, suc, Bool, Option, none, some, List, [], ◌∷◌, ◌==◌, if◌then◌else◌, Str, take,
}

-- Past the spaces at the front.
unfoldable pub skip_spaces : Str → Str
skip_spaces [] = []
skip_spaces (c ∷ s) = let rest = skip_spaces s in if c == b' ' then rest else c ∷ s

-- One turn of the loop of `ToWord`: behind the next space and those that follow it, or the end.
unfoldable pub next_word : Str → Str
unfolding skip_spaces
next_word [] = []
next_word (c ∷ s) = let rest = next_word s in if c == b' ' then skip_spaces s else rest

unfoldable pub to_word : ℕ → Str → Str
unfolding next_word
to_word zero string = string
to_word (suc nb) string = to_word nb (next_word string)

-- The bytes before the first space, at most `n`.
unfoldable pub word_bytes : ℕ → Str → Str
word_bytes zero s = []
word_bytes (suc n) [] = []
word_bytes (suc n) (c ∷ s) = let rest = word_bytes n s in if c == b' ' then [] else c ∷ rest

unfoldable pub getn_word : ℕ → Str → ℕ → Str
unfolding to_word word_bytes
getn_word nb string n = word_bytes n (to_word nb string)

unfoldable pub get_word : ℕ → Str → Str
unfolding to_word word_bytes
get_word nb string = word_bytes 75 (to_word nb string)
