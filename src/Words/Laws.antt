-- ===== src/Words/Laws.antt =====
-- The words of a line that joins words by single spaces are those words.
use undernet_cservice_p.Prelude.{
  ℕ, zero, suc, ◌≤◌, ◌≡◌, ◌≢◌, refl, ap, ◌∙◌, subst, List, [], ◌∷◌, ◌++◌, append-nil, Str, length,
  All, arith,
}
use undernet_cservice_p.Words.{skip_spaces, next_word, to_word, word_bytes, get_word}

-- A word: not empty, with no space, and no longer than the 75 bytes that `GetWord` copies.
pub record IsWord (w : Str) : Type 0 where
  pub first : ℕ
  pub others : Str
  pub splits : w ≡ first ∷ others
  pub spaceless : All (λ c. c ≢ b' ') w
  pub short : length w ≤ 75

-- The words with a space between two of them.
unfoldable pub unwords : List Str → Str
unwords [] = []
unwords (w ∷ []) = w
unwords (w ∷ v ∷ ws) = w ++ b' ' ∷ unwords (v ∷ ws)

-- Word `n` of the list, or the empty text.
unfoldable pub nth_word : ℕ → List Str → Str
nth_word n [] = []
nth_word zero (w ∷ ws) = w
nth_word (suc n) (w ∷ ws) = nth_word n ws

pub next_word-append :
    (w s : Str) → All (λ c. c ≢ b' ') w → next_word (w ++ b' ' ∷ s) ≡ skip_spaces s
unfolding next_word
next_word-append [] s h = refl
next_word-append (c ∷ w) s h = ground (arith, h.0, next_word-append w s h.1)

next_word-word : (w : Str) → All (λ c. c ≢ b' ') w → next_word w ≡ []
unfolding next_word
next_word-word [] h = refl
next_word-word (c ∷ w) h = ground (arith, h.0, next_word-word w h.1)

pub word_bytes-append :
    (n : ℕ) (w s : Str) → length w ≤ n → All (λ c. c ≢ b' ') w → word_bytes n (w ++ b' ' ∷ s) ≡ w
unfolding word_bytes
word_bytes-append zero [] s m h = refl
word_bytes-append (suc n) [] s m h = refl
word_bytes-append zero (c ∷ w) s m h = absurd (omega arith)
word_bytes-append (suc n) (c ∷ w) s m h =
    ground (arith, h.0, word_bytes-append n w s (omega arith) h.1)

word_bytes-word : (n : ℕ) (w : Str) → length w ≤ n → All (λ c. c ≢ b' ') w → word_bytes n w ≡ w
unfolding word_bytes
word_bytes-word zero [] m h = refl
word_bytes-word (suc n) [] m h = refl
word_bytes-word zero (c ∷ w) m h = absurd (omega arith)
word_bytes-word (suc n) (c ∷ w) m h = ground (arith, h.0, word_bytes-word n w (omega arith) h.1)

word_bytes-nil : (n : ℕ) → word_bytes n [] ≡ []
unfolding word_bytes
word_bytes-nil zero = refl
word_bytes-nil (suc n) = refl

pub to_word-nil : (n : ℕ) → to_word n [] ≡ []
unfolding to_word next_word
to_word-nil zero = refl
to_word-nil (suc n) = to_word-nil n

pub skip_spaces-byte : (c : ℕ) (s : Str) → c ≢ b' ' → skip_spaces (c ∷ s) ≡ c ∷ s
unfolding skip_spaces
skip_spaces-byte c s h = ground arith

-- A word at the front keeps the spaces away.
pub skip_spaces-IsWord : (w s : Str) → IsWord w → skip_spaces (w ++ s) ≡ w ++ s
skip_spaces-IsWord w s h =
    let no_space : h.first ≢ b' ' = (subst (All (λ c. c ≢ b' ')) h.splits h.spaceless).0 in
    rw h.splits (skip_spaces-byte h.first _ no_space)

-- A line of words begins with no space.
skip_spaces-unwords :
    (w : Str) (ws : List Str) → IsWord w → skip_spaces (unwords (w ∷ ws)) ≡ unwords (w ∷ ws)
unfolding unwords
skip_spaces-unwords w [] h =
    subst (λ s. skip_spaces s ≡ s) (append-nil w) (skip_spaces-IsWord w [] h)
skip_spaces-unwords w (v ∷ ws) h = skip_spaces-IsWord w (b' ' ∷ unwords (v ∷ ws)) h

-- Where no word is empty, has a space or more than 75 bytes, word `n` of the line that joins the
-- words by single spaces is word `n` of the list, and the empty text behind the last.
pub get_word-unwords :
    (ws : List Str) (n : ℕ) → All IsWord ws → get_word n (unwords ws) ≡ nth_word n ws
unfolding get_word to_word unwords nth_word
get_word-unwords [] n h = ap (word_bytes 75) (to_word-nil n) ∙ word_bytes-nil 75
get_word-unwords (w ∷ []) zero h = word_bytes-word 75 w h.0.short h.0.spaceless
get_word-unwords (w ∷ v ∷ ws) zero h =
    word_bytes-append 75 w (unwords (v ∷ ws)) h.0.short h.0.spaceless
get_word-unwords (w ∷ []) (suc n) h =
    rw (next_word-word w h.0.spaceless) (ap (word_bytes 75) (to_word-nil n) ∙ word_bytes-nil 75)
get_word-unwords (w ∷ v ∷ ws) (suc n) h =
    rw (next_word-append w (unwords (v ∷ ws)) h.0.spaceless, skip_spaces-unwords v ws h.1.0)
      (get_word-unwords (v ∷ ws) n h.1)

-- Past the first words of a line.
pub to_word-unwords :
    (w v : Str) (ws : List Str)
    → IsWord w
    → IsWord v
    → to_word 1 (unwords (w ∷ v ∷ ws)) ≡ unwords (v ∷ ws)
unfolding to_word unwords
to_word-unwords w v ws h k =
    rw (next_word-append w (unwords (v ∷ ws)) h.spaceless) (skip_spaces-unwords v ws k)

-- A word is not empty.
pub IsWord-nonempty : (w : Str) → IsWord w → length w ≢ 0
IsWord-nonempty w h e = ground (arith, e, ap length h.splits)
