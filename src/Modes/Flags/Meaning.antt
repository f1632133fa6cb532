-- ===== src/Modes/Flags/Meaning.antt =====
-- The text that RemFlag, AddFlag and IsSet of Sources/modes.c work on stands for a list of modes.
use undernet_cservice_p.Prelude.{
  ℕ, suc, ◌≤◌, ◌≡◌, ◌≢◌, refl, ap, ◌∙◌, sym, Bool, true, false, inl, inr, Bool-cases, Option, none,
  some, List, [], ◌∷◌, ◌++◌, append-nil, append_assoc, ◌==◌, if◌then◌else◌, Str, length, str_eq,
  All, remove_if, arith,
}
use undernet_cservice_p.Words.{skip_spaces, to_word, get_word}
use undernet_cservice_p.Words.Laws.{IsWord, next_word-append, word_bytes-append, skip_spaces-IsWord}
use undernet_cservice_p.Modes.Flags.{
  has_byte, takes_word, rem_loop, rem_flag, arg_text, append_flag, add_flag, flag_place,
  is_mode_set,
}
use undernet_cservice_p.Modes.Flags.Args.{
  to_word-suc, next_word-arg, Passes, Passes-arg, drop_word-arg,
}

-- A mode that is set; `arg` counts where the letter takes a word.
pub record SetMode : Type 0 where
  pub letter : ℕ
  pub arg : Str

abbrev pub word_of : SetMode → Option Str
word_of m = if takes_word m.letter then some m.arg else none

abbrev pub letters : List SetMode → Str
letters [] = []
letters (m ∷ ms) = m.letter ∷ letters ms

unfoldable pub args_text : List SetMode → Str
args_text [] = []
args_text (m ∷ ms) = arg_text (word_of m) ++ args_text ms

-- The text of a list of modes.
unfoldable pub mode_text : List SetMode → Str
unfolding args_text
mode_text ms = letters ms ++ b' ' ∷ args_text ms

abbrev pub IsMode : SetMode → Type 0
IsMode m = (m.letter ≢ b' ') × (takes_word m.letter ≡ true → IsWord m.arg)

-- Modes whose text GetWord reads whole.
abbrev IsReadable : List SetMode → Type 0
IsReadable ms = All IsMode ms × length (letters ms) ≤ 75

-- Modes whose letters fit newmode[15], and setflags[20] with it, and whose text fits chan->mode[80],
-- and newarg[200] with it.
pub record IsModeList (ms : List SetMode) : Type 0 where
  pub modes : All IsMode ms
  pub letters_fit : length (letters ms) ≤ 14
  pub text_fits : length (mode_text ms) ≤ 79

readable : (ms : List SetMode) → IsModeList ms → IsReadable ms
readable ms h = (h.modes, omega (arith, h.letters_fit))

abbrev pub without : ℕ → List SetMode → List SetMode
without flag ms = remove_if (λ m. m.letter == flag) ms

-- The first of the modes with that letter.
unfoldable pub holds : ℕ → Str → List SetMode → Bool
holds flag param [] = false
holds flag param (m ∷ ms) =
    let rest = holds flag param ms in
    if m.letter == flag then (if takes_word flag then str_eq m.arg param else true) else rest

unfoldable count_words : List SetMode → ℕ
count_words [] = 0
count_words (m ∷ ms) = let rest = count_words ms in if takes_word m.letter then suc rest else rest

letters-spaceless : (ms : List SetMode) → All IsMode ms → All (λ c. c ≢ b' ') (letters ms)
letters-spaceless [] h = tt
letters-spaceless (m ∷ ms) h = (h.0.0, letters-spaceless ms h.1)

args_text-word :
    (m : SetMode) (ms : List SetMode)
    → takes_word m.letter ≡ true
    → args_text (m ∷ ms) ≡ (m.arg ++ b' ' ∷ []) ++ args_text ms
unfolding args_text
args_text-word m ms t = rw t refl

args_text-plain :
    (m : SetMode) (ms : List SetMode)
    → takes_word m.letter ≡ false
    → args_text (m ∷ ms) ≡ args_text ms
unfolding args_text
args_text-plain m ms t = rw t refl

-- The text of arguments begins with no space.
args_text-skip : (ms : List SetMode) → All IsMode ms → skip_spaces (args_text ms) ≡ args_text ms
unfolding args_text skip_spaces
args_text-skip [] h = refl
args_text-skip (m ∷ ms) h = elim (Bool-cases (takes_word m.letter)) [
  | inr e ↦ rw e (args_text-skip ms h.1)
  | inl e ↦ rw e (
      rw (append_assoc m.arg (b' ' ∷ []) (args_text ms))
        (skip_spaces-IsWord m.arg (b' ' ∷ args_text ms) (h.0.1 e)))
]

to_word-word :
    (n : ℕ) (w s : Str)
    → IsWord w
    → skip_spaces s ≡ s
    → to_word (suc n) ((w ++ b' ' ∷ []) ++ s) ≡ to_word n s
unfolding to_word
to_word-word n w s h k = rw (append_assoc w (b' ' ∷ []) s, next_word-append w s h.spaceless, k) refl

to_word-letters :
    (n : ℕ) (ms : List SetMode)
    → All IsMode ms
    → to_word (suc n) (mode_text ms) ≡ to_word n (args_text ms)
unfolding to_word mode_text
to_word-letters n ms h =
    rw (next_word-append (letters ms) (args_text ms) (letters-spaceless ms h), args_text-skip ms h)
      refl

get_word-letters : (ms : List SetMode) → IsReadable ms → get_word 0 (mode_text ms) ≡ letters ms
unfolding get_word to_word mode_text
get_word-letters ms h =
    word_bytes-append 75 (letters ms) (args_text ms) h.1 (letters-spaceless ms h.0)

rem_loop-modes :
    (f : ℕ) (ms : List SetMode) (count : ℕ) (k : Str)
    → All IsMode ms
    → Passes count k
    → rem_loop f (letters ms) count (k ++ args_text ms)
      ≡ (letters (without f ms), k ++ args_text (without f ms))
unfolding rem_loop args_text remove_if
rem_loop-modes f [] count k h p = refl
rem_loop-modes f (m ∷ ms) count k h p = elim (Bool-cases (takes_word m.letter)) [
  | inl t ↦ elim (Bool-cases (m.letter == f)) [
    | inl e ↦
        rw (t, e, drop_word-arg count k m.arg (args_text ms) (h.0.1 t) p (args_text-skip ms h.1))
          (rem_loop-modes f ms count k h.1 p)
    | inr e ↦
        rw (t, e)
          (rw
            (
              sym (append_assoc k (m.arg ++ b' ' ∷ []) (args_text ms)),
              rem_loop-modes f ms (suc count) (k ++ (m.arg ++ b' ' ∷ [])) h.1
                  (Passes-arg count k m.arg (h.0.1 t) p),
            )
            (rw (args_text-word m (without f ms) t) (
              ap (λ z. (m.letter ∷ letters (without f ms), z))
                (append_assoc k (m.arg ++ b' ' ∷ []) (args_text (without f ms))))))
  ]
  | inr t ↦ elim (Bool-cases (m.letter == f)) [
    | inl e ↦ rw (t, e) (rem_loop-modes f ms count k h.1 p)
    | inr e ↦
        rw (t, e, rem_loop-modes f ms count k h.1 p) (rw (args_text-plain m (without f ms) t) refl)
  ]
]

-- Where the modes fit the buffers, removing a flag from their text removes the modes with that letter and their arguments.
pub rem_flag-mode_text :
    (f : ℕ) (ms : List SetMode)
    → IsModeList ms
    → rem_flag f (mode_text ms) ≡ mode_text (without f ms)
unfolding rem_flag mode_text
rem_flag-mode_text f ms h =
    rw
      (
        get_word-letters ms (readable ms h),
        to_word-letters 0 ms h.modes,
        rem_loop-modes f ms 0 [] h.modes (λ s e. refl),
      )
      refl

remove_if-without :
    (f : ℕ) (ms : List SetMode) → has_byte f (letters ms) ≡ false → without f ms ≡ ms
unfolding has_byte remove_if
remove_if-without f [] h = refl
remove_if-without f (m ∷ ms) h = elim (Bool-cases (m.letter == f)) [
  | inl e ↦ absurd (ground (arith, e, h))
  | inr e ↦ rw e (ap (◌∷◌ m) (remove_if-without f ms (ground (arith, h))))
]

args_text-append : (ms ns : List SetMode) → args_text (ms ++ ns) ≡ args_text ms ++ args_text ns
unfolding args_text
args_text-append [] ns = refl
args_text-append (m ∷ ms) ns =
    rw (args_text-append ms ns)
      (sym (append_assoc (arg_text (word_of m)) (args_text ms) (args_text ns)))

letters-append : (ms ns : List SetMode) → letters (ms ++ ns) ≡ letters ms ++ letters ns
letters-append [] ns = refl
letters-append (m ∷ ms) ns = ap (◌∷◌ m.letter) (letters-append ms ns)

append_flag-mode_text :
    (m : SetMode) (ms : List SetMode)
    → IsReadable ms
    → append_flag m.letter (word_of m) (mode_text ms) ≡ mode_text (ms ++ m ∷ [])
unfolding mode_text to_word
append_flag-mode_text m ms h =
    rw
      (
        get_word-letters ms h,
        to_word-letters 0 ms h.0,
        letters-append ms (m ∷ []),
        args_text-append ms (m ∷ []),
      )
      (rw (append-nil (arg_text (word_of m))) refl)

get_word-arg :
    (s : Str) (m : SetMode) (ms : List SetMode) (j : ℕ)
    → IsMode m
    → to_word j s ≡ args_text (m ∷ ms)
    → takes_word m.letter ≡ true
    → get_word j s ≡ m.arg
unfolding get_word
get_word-arg s m ms j h e t =
    let w = h.1 t in
    rw (e, args_text-word m ms t, append_assoc m.arg (b' ' ∷ []) (args_text ms))
      (word_bytes-append 75 m.arg (args_text ms) w.short w.spaceless)

next_word-step :
    (s : Str) (m : SetMode) (ms : List SetMode) (j : ℕ)
    → All IsMode (m ∷ ms)
    → to_word j s ≡ args_text (m ∷ ms)
    → takes_word m.letter ≡ true
    → to_word (suc j) s ≡ args_text ms
next_word-step s m ms j h e t =
    rw (to_word-suc j s, e, args_text-word m ms t)
      (next_word-arg m.arg (args_text ms) (h.0.1 t) (args_text-skip ms h.1))

flag_place-holds :
    (f : ℕ) (param s : Str) (ms : List SetMode) (j : ℕ)
    → All IsMode ms
    → to_word (suc j) s ≡ args_text ms
    → elim (flag_place f (letters ms) j) as (λ _. Bool) [
      | none ↦ false
      | some k ↦ if takes_word f then str_eq (get_word (suc k) s) param else true
    ]
      ≡ holds f param ms
unfolding flag_place holds
flag_place-holds f param s [] j h e = refl
flag_place-holds f param s (m ∷ ms) j h e = elim (Bool-cases (m.letter == f)) [
  | inl q ↦ rw q (elim (Bool-cases (takes_word f)) [
    | inr z ↦ rw z refl
    | inl z ↦ rw (z, get_word-arg s m ms (suc j) h.0 e (ground (arith, q, z))) refl
  ])
  | inr q ↦ elim (Bool-cases (takes_word m.letter)) [
    | inl t ↦
        rw (q, t) (flag_place-holds f param s ms (suc j) h.1 (next_word-step s m ms (suc j) h e t))
    | inr t ↦ rw (q, t) (flag_place-holds f param s ms j h.1 (e ∙ args_text-plain m ms t))
  ]
]

-- Where the modes fit the buffers, IsSet finds exactly the first mode of the list with the letter, and compares its argument.
pub is_mode_set-mode_text :
    (f : ℕ) (param : Str) (ms : List SetMode)
    → IsModeList ms
    → is_mode_set (mode_text ms) f param ≡ holds f param ms
unfolding is_mode_set
is_mode_set-mode_text f param ms h =
    rw (is_mode_set, get_word-letters ms (readable ms h))
      (flag_place-holds f param (mode_text ms) ms 0 h.modes (to_word-letters 0 ms h.modes))

IsMode-without : (f : ℕ) (ms : List SetMode) → All IsMode ms → All IsMode (without f ms)
unfolding remove_if
IsMode-without f [] h = tt
IsMode-without f (m ∷ ms) h = elim (Bool-cases (m.letter == f)) [
  | inl e ↦ rw e (IsMode-without f ms h.1)
  | inr e ↦ rw e (h.0, IsMode-without f ms h.1)
]

length-without : (f : ℕ) (ms : List SetMode) → length (letters (without f ms)) ≤ length (letters ms)
unfolding remove_if
length-without f [] = omega arith
length-without f (m ∷ ms) = elim (Bool-cases (m.letter == f)) [
  | inl e ↦ rw e (omega (arith, length-without f ms))
  | inr e ↦ rw e (omega (arith, length-without f ms))
]

IsReadable-without : (f : ℕ) (ms : List SetMode) → IsReadable ms → IsReadable (without f ms)
IsReadable-without f ms h = (IsMode-without f ms h.0, omega (arith, length-without f ms, h.1))

has_byte-front : (f : ℕ) (s t : Str) → has_byte f (s ++ b' ' ∷ t) ≡ false → has_byte f s ≡ false
unfolding has_byte
has_byte-front f [] t h = refl
has_byte-front f (c ∷ s) t h = ground (arith, h, has_byte-front f s t)

has_byte-letters :
    (f : ℕ) (ms : List SetMode)
    → has_byte f (mode_text ms) ≡ false
    → has_byte f (letters ms) ≡ false
unfolding mode_text
has_byte-letters f ms h = has_byte-front f (letters ms) (args_text ms) h

-- Where the modes before and after fit the buffers, adding a flag to their text removes the modes
-- with its letter and puts the new one behind the others.
pub add_flag-mode_text :
    (m : SetMode) (ms : List SetMode)
    → IsModeList ms
    → IsModeList (without m.letter ms ++ m ∷ [])
    → add_flag m.letter (word_of m) (mode_text ms) ≡ mode_text (without m.letter ms ++ m ∷ [])
unfolding add_flag
add_flag-mode_text m ms h after =
    let r : IsReadable ms = readable ms h in
    elim (Bool-cases (has_byte m.letter (mode_text ms))) [
      | inl b ↦
          rw (b, rem_flag-mode_text m.letter ms h)
            (append_flag-mode_text m (without m.letter ms) (IsReadable-without m.letter ms r))
      | inr b ↦
          rw (b, remove_if-without m.letter ms (has_byte-letters m.letter ms b))
            (append_flag-mode_text m ms r)
    ]
