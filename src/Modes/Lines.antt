-- ===== src/Modes/Lines.antt =====
-- The lines that `flushmode` sends, as the server reads them, and the changes of a queue.
use undernet_cservice_p.Prelude.{
  ℕ, ◌≡◌, ◌≢◌, ◌⊎◌, refl, ap, sym, ◌∙◌, ◌||◌, List, [], ◌∷◌, ◌++◌, append_assoc, Str, length, arith,
  if◌then◌else◌, ◌==◌,
}
use undernet_cservice_p.World.{ModeQueue}
use undernet_cservice_p.Modes.{ModeLine}

-- The changes that flags ask for, read from the sign `+` on.
unfoldable pub read_flags : ℕ → Str → List (ℕ × ℕ)
read_flags sign [] = []
read_flags sign (c ∷ s) =
    if c == b'+' || c == b'-' then read_flags c s else (sign, c) ∷ read_flags sign s

-- The sign in force behind some flags.
unfoldable pub sign_after : ℕ → Str → ℕ
sign_after sign [] = sign
sign_after sign (c ∷ s) = if c == b'+' || c == b'-' then sign_after c s else sign_after sign s

unfoldable pub read_lines : List ModeLine → List (ℕ × ℕ)
unfolding read_flags
read_lines [] = []
read_lines (l ∷ ls) = read_flags b'+' l.flags ++ read_lines ls

unfoldable pub line_args : List ModeLine → List Str
line_args [] = []
line_args (l ∷ ls) = l.args ++ line_args ls

-- The changes of a queue that one pass sends, and their arguments.
unfoldable pub changes_of : ℕ → List ModeQueue → List (ℕ × ℕ)
changes_of k [] = []
changes_of k (m ∷ ms) =
    let rest = changes_of k ms in if k == m.as_server then (m.sign, m.letter) ∷ rest else rest

unfoldable pub args_of : ℕ → List ModeQueue → List Str
args_of k [] = []
args_of k (m ∷ ms) =
    let rest = args_of k ms in
    if k == m.as_server then (if length m.arg == 0 then rest else m.arg ∷ rest) else rest

unfoldable pub others : ℕ → List ModeQueue → List ModeQueue
others k [] = []
others k (m ∷ ms) = let rest = others k ms in if k == m.as_server then rest else m ∷ rest

-- A change whose flag is a sign and a letter.
abbrev pub IsFlag : ModeQueue → Type 0
IsFlag m = ((m.sign ≡ b'+') ⊎ (m.sign ≡ b'-')) × (m.letter ≢ b'+') × (m.letter ≢ b'-')

pub read_flags-append :
    (sign : ℕ) (s t : Str)
    → read_flags sign (s ++ t) ≡ read_flags sign s ++ read_flags (sign_after sign s) t
unfolding read_flags sign_after
read_flags-append sign [] t = refl
read_flags-append sign (c ∷ s) t =
    ground (arith, read_flags-append c s t, read_flags-append sign s t)

pub sign_after-append :
    (sign : ℕ) (s t : Str) → sign_after sign (s ++ t) ≡ sign_after (sign_after sign s) t
unfolding sign_after
sign_after-append sign [] t = refl
sign_after-append sign (c ∷ s) t =
    ground (arith, sign_after-append c s t, sign_after-append sign s t)

pub read_lines-append :
    (ls ms : List ModeLine) → read_lines (ls ++ ms) ≡ read_lines ls ++ read_lines ms
unfolding read_lines
read_lines-append [] ms = refl
read_lines-append (l ∷ ls) ms =
    ap (λ r. read_flags b'+' l.flags ++ r) (read_lines-append ls ms)
    ∙ sym (append_assoc (read_flags b'+' l.flags) (read_lines ls) (read_lines ms))

pub line_args-append : (ls ms : List ModeLine) → line_args (ls ++ ms) ≡ line_args ls ++ line_args ms
unfolding line_args
line_args-append [] ms = refl
line_args-append (l ∷ ls) ms =
    ap (λ r. l.args ++ r) (line_args-append ls ms)
    ∙ sym (append_assoc l.args (line_args ls) (line_args ms))
