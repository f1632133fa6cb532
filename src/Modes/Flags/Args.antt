-- ===== src/Modes/Flags/Args.antt =====
-- The arguments of modes: words of a text, each with a space behind it.
use undernet_cservice_p.Prelude.{
  ℕ, zero, suc, ◌-◌, ◌≡◌, refl, ap, [], ◌∷◌, ◌++◌, append_assoc, Str, length, length-append, take,
  arith,
}
use undernet_cservice_p.Words.{skip_spaces, next_word, to_word}
use undernet_cservice_p.Words.Laws.{IsWord, next_word-append, skip_spaces-IsWord}
use undernet_cservice_p.Modes.Flags.{drop_word}

pub to_word-suc : (n : ℕ) (s : Str) → to_word (suc n) s ≡ next_word (to_word n s)
unfolding to_word
to_word-suc zero s = refl
to_word-suc (suc n) s = to_word-suc n (next_word s)

-- Behind a word and its space.
pub next_word-arg :
    (w s : Str) → IsWord w → skip_spaces s ≡ s → next_word ((w ++ b' ' ∷ []) ++ s) ≡ s
next_word-arg w s h k = rw (append_assoc w (b' ' ∷ []) s, next_word-append w s h.spaceless) k

pub skip_spaces-arg :
    (w s : Str) → IsWord w → skip_spaces ((w ++ b' ' ∷ []) ++ s) ≡ (w ++ b' ' ∷ []) ++ s
skip_spaces-arg w s h = rw (append_assoc w (b' ' ∷ []) s) (skip_spaces-IsWord w (b' ' ∷ s) h)

pub take-append : (k s : Str) (n : ℕ) → n ≡ length k → take n (k ++ s) ≡ k
take-append [] s zero h = refl
take-append [] s (suc n) h = absurd (omega arith)
take-append (c ∷ k) s zero h = absurd (omega arith)
take-append (c ∷ k) s (suc n) h = ap (◌∷◌ c) (take-append k s n (omega arith))

-- `count` words of `k` lie before whatever follows `k`.
abbrev pub Passes : ℕ → Str → Type 0
Passes count k = (s : Str) → skip_spaces s ≡ s → to_word count (k ++ s) ≡ s

pub Passes-arg :
    (count : ℕ) (k w : Str) → IsWord w → Passes count k → Passes (suc count) (k ++ (w ++ b' ' ∷ []))
Passes-arg count k w h p s e =
    rw
      (
        append_assoc k (w ++ b' ' ∷ []) s,
        to_word-suc count (k ++ ((w ++ b' ' ∷ []) ++ s)),
        p ((w ++ b' ' ∷ []) ++ s) (skip_spaces-arg w s h),
      )
      (next_word-arg w s h e)

pub drop_word-arg :
    (count : ℕ) (k w s : Str)
    → IsWord w
    → Passes count k
    → skip_spaces s ≡ s
    → drop_word count (k ++ ((w ++ b' ' ∷ []) ++ s)) ≡ k ++ s
unfolding drop_word
drop_word-arg count k w s h p e =
    let rest : Str = (w ++ b' ' ∷ []) ++ s in
    let here : to_word count (k ++ rest) ≡ rest = p rest (skip_spaces-arg w s h) in
    rw
      (
        to_word-suc count (k ++ rest),
        here,
        next_word-arg w s h e,
        take-append k rest (length (k ++ rest) - length rest) (omega (arith, length-append k rest)),
      )
      refl
