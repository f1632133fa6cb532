-- ===== src/Modes/Queue.antt =====
-- The queue of mode changes holds at most one change of each mode, the one asked for last.
use undernet_cservice_p.Prelude.{
  ℕ, ◌≡◌, ◌⊎◌, refl, ap, sym, ◌∙◌, Bool, true, false, false≢true, ◌&&◌, Bool-cases, inl, inr, List,
  [], ◌∷◌, ◌++◌, Option, none, some, Str, str_eq, str_eq_iff, and_true, ==_iff, arith,
  if◌then◌else◌, ◌==◌,
}
use undernet_cservice_p.World.{ModeQueue}
use undernet_cservice_p.Modes.{same_key, opposite, cancel, queue_mode}

-- The sign that a queue asks for a mode: that of its first change of the letter and argument.
unfoldable pub wanted : ℕ → Str → List ModeQueue → Option ℕ
wanted letter arg [] = none
wanted letter arg (m ∷ ms) =
    if str_eq arg m.arg && letter == m.letter then some m.sign else wanted letter arg ms

-- A sign is `+` or `-`.
abbrev pub IsSign : ℕ → Type 0
IsSign c = (c ≡ b'+') ⊎ (c ≡ b'-')

-- Each change has a sign, and no two are of one mode.
abbrev pub IsSettled : List ModeQueue → Type 0
IsSettled [] = Unit
IsSettled (m ∷ ms) = IsSign m.sign × (wanted m.letter m.arg ms ≡ none) × IsSettled ms

-- A change of the mode that is asked about.
abbrev of : ℕ → Str → ModeQueue → Bool
of letter arg m = str_eq arg m.arg && letter == m.letter

same_key_eq : (a b : ModeQueue) → same_key a b ≡ true → (a.arg ≡ b.arg) × (a.letter ≡ b.letter)
same_key_eq a b h =
    let (x, y) = and_true (str_eq a.arg b.arg) (a.letter == b.letter) h in
    ((str_eq_iff a.arg b.arg).0 x, (==_iff a.letter b.letter).0 y)

same_key_of :
    (letter : ℕ) (arg : Str) (a b : ModeQueue)
    → same_key a b ≡ true
    → of letter arg a ≡ of letter arg b
same_key_of letter arg a b h = let (x, y) = same_key_eq a b h in rw (x, y)

other_key_of :
    (letter : ℕ) (arg : Str) (a b : ModeQueue)
    → same_key a b ≡ false
    → of letter arg a ≡ true
    → of letter arg b ≡ false
other_key_of letter arg a b h k = elim (Bool-cases (of letter arg b)) [
  | inr e ↦ e
  | inl e ↦
      let (x, y) = and_true (str_eq arg a.arg) (letter == a.letter) k in
      let (z, t) = and_true (str_eq arg b.arg) (letter == b.letter) e in
      let args : str_eq a.arg b.arg ≡ true =
        (str_eq_iff a.arg b.arg).1
          (sym ((str_eq_iff arg a.arg).0 x) ∙ (str_eq_iff arg b.arg).0 z) in
      let letters : (a.letter == b.letter) ≡ true =
        (==_iff a.letter b.letter).1
          (sym ((==_iff letter a.letter).0 y) ∙ (==_iff letter b.letter).0 t) in
      absurd (false≢true (sym h ∙ (rw (args, letters))))
]

module _ (new m : ModeQueue) (ms : List ModeQueue) where
  cancel-opposite :
      same_key new m ≡ true → opposite new m ≡ true → cancel new (m ∷ ms) ≡ cancel new ms
  unfolding cancel
  cancel-opposite k o = rw (k, o)

  cancel_found :
      same_key new m ≡ true
      → opposite new m ≡ false
      → new.sign ≡ m.sign
      → cancel new (m ∷ ms) ≡ (m ∷ ms, true)
  unfolding cancel
  cancel_found k o s = rw (k, o, (==_iff new.sign m.sign).1 s)

  cancel_other :
      same_key new m ≡ false → cancel new (m ∷ ms) ≡ (m ∷ (cancel new ms).0, (cancel new ms).1)
  unfolding cancel
  cancel_other k = rw k

not_opposite :
    (a b : ModeQueue) → IsSign a.sign → IsSign b.sign → opposite a b ≡ false → a.sign ≡ b.sign
not_opposite a b ha hb o = ground arith

wanted-same :
    (letter : ℕ) (arg : Str) (m : ModeQueue) (ms : List ModeQueue)
    → of letter arg m ≡ true
    → wanted letter arg (m ∷ ms) ≡ some m.sign
unfolding wanted
wanted-same letter arg m ms h = rw h

wanted-other :
    (letter : ℕ) (arg : Str) (m : ModeQueue) (ms : List ModeQueue)
    → of letter arg m ≡ false
    → wanted letter arg (m ∷ ms) ≡ wanted letter arg ms
unfolding wanted
wanted-other letter arg m ms h = rw h

module _ (new : ModeQueue) (new_sign : IsSign new.sign) where
  abbrev Cancelled : ℕ → Str → List ModeQueue → List ModeQueue × Bool → Type 0
  Cancelled letter arg ms (rest, found) = wanted letter arg rest ≡ (
      if of letter arg new then (if found then some new.sign else none) else wanted letter arg ms)

  wanted-cancel :
      (letter : ℕ) (arg : Str) (ms : List ModeQueue)
      → IsSettled ms
      → Cancelled letter arg ms (cancel new ms)
  wanted-cancel letter arg [] h = unfold cancel wanted in ground arith
  wanted-cancel letter arg (m ∷ ms) h =
      let ih = wanted-cancel letter arg ms h.2 in
      elim (Bool-cases (same_key new m)) [
        | inl k ↦ elim (Bool-cases (opposite new m)) [
          | inl o ↦ rw (cancel-opposite new m ms k o) (elim (Bool-cases (of letter arg new)) [
            | inl e ↦ rw e (rw e at ih)
            | inr e ↦ rw e (
                (rw e at ih)
                ∙ sym (wanted-other letter arg m ms (sym (same_key_of letter arg new m k) ∙ e)))
          ])
          | inr o ↦
              let s = not_opposite new m new_sign h.0 o in
              rw (cancel_found new m ms k o s) (elim (Bool-cases (of letter arg new)) [
                | inl e ↦ rw e (
                    wanted-same letter arg m ms (sym (same_key_of letter arg new m k) ∙ e)
                    ∙ ap some (sym s))
                | inr e ↦ rw e
              ])
        ]
        | inr k ↦ rw (cancel_other new m ms k) (elim (Bool-cases (of letter arg new)) [
          | inl e ↦
              rw e (wanted-other letter arg m _ (other_key_of letter arg new m k e) ∙ (rw e at ih))
          | inr e ↦ rw e (elim (Bool-cases (of letter arg m)) [
            | inl f ↦ wanted-same letter arg m _ f ∙ sym (wanted-same letter arg m ms f)
            | inr f ↦
                wanted-other letter arg m _ f ∙ (rw e at ih) ∙ sym (wanted-other letter arg m ms f)
          ])
        ])
      ]

wanted-append :
    (letter : ℕ) (arg : Str) (ms : List ModeQueue) (new : ModeQueue)
    → wanted letter arg (ms ++ new ∷ []) ≡ elim (wanted letter arg ms) [
      | some s ↦ some s
      | none ↦ if of letter arg new then some new.sign else none
    ]
unfolding wanted
wanted-append letter arg [] new = refl
wanted-append letter arg (m ∷ ms) new = elim (Bool-cases (of letter arg m)) [
  | inl e ↦ rw e
  | inr e ↦ rw e (wanted-append letter arg ms new)
]

-- The key of one change asked of another is the same question the other way round.
of_sym : (a b : ModeQueue) → of a.letter a.arg b ≡ of b.letter b.arg a
of_sym a b = ground (arith, str_eq_iff a.arg b.arg, str_eq_iff b.arg a.arg)

of_refl : (a : ModeQueue) → of a.letter a.arg a ≡ true
of_refl a = ground (arith, str_eq_iff a.arg a.arg)

IsSettled-append :
    (ms : List ModeQueue) (new : ModeQueue)
    → IsSettled ms
    → IsSign new.sign
    → wanted new.letter new.arg ms ≡ none
    → IsSettled (ms ++ new ∷ [])
IsSettled-append [] new h s n = (s, unfold wanted in refl, tt)
IsSettled-append (m ∷ ms) new h s n =
    let off : of new.letter new.arg m ≡ false = unfold wanted in ground arith in
    let rest : wanted new.letter new.arg ms ≡ none =
      sym (wanted-other new.letter new.arg m ms off) ∙ n in
    (
      h.0,
      wanted-append m.letter m.arg ms new ∙ rw (h.1, of_sym m new, off),
      IsSettled-append ms new h.2 s rest,
    )

module _ (new : ModeQueue) (new_sign : IsSign new.sign) where
  cancel-IsSettled : (ms : List ModeQueue) → IsSettled ms → IsSettled (cancel new ms).0
  cancel-IsSettled [] h = unfold cancel in tt
  cancel-IsSettled (m ∷ ms) h = elim (Bool-cases (same_key new m)) [
    | inl k ↦ elim (Bool-cases (opposite new m)) [
      | inl o ↦ rw (cancel-opposite new m ms k o) (cancel-IsSettled ms h.2)
      | inr o ↦ rw (cancel_found new m ms k o (not_opposite new m new_sign h.0 o)) h
    ]
    | inr k ↦
        let off : of m.letter m.arg new ≡ false = of_sym m new ∙ k in
        let law = wanted-cancel new new_sign m.letter m.arg ms h.2 in
        rw (cancel_other new m ms k) (h.0, (rw off at law) ∙ h.1, cancel-IsSettled ms h.2)
  ]

-- On a queue with one change of each mode, a mode change makes the sign asked for the one wanted
-- of its mode, leaves what is wanted of every other mode, and leaves a queue of this kind.
pub wanted-queue_mode :
    (new : ModeQueue) (ms : List ModeQueue) (letter : ℕ) (arg : Str)
    → IsSign new.sign
    → IsSettled ms
    → (wanted letter arg (queue_mode new ms) ≡ (
        if str_eq arg new.arg && letter == new.letter then some new.sign else wanted letter arg ms))
      × IsSettled (queue_mode new ms)
unfolding queue_mode
wanted-queue_mode new ms letter arg s h =
    let law = wanted-cancel new s letter arg ms h in
    let own = wanted-cancel new s new.letter new.arg ms h in
    let kept = cancel-IsSettled new s ms h in
    elim (Bool-cases (cancel new ms).1) [
      | inl e ↦ rw e ((rw e at law), kept)
      | inr e ↦
          let none_own : wanted new.letter new.arg (cancel new ms).0 ≡ none =
            rw (of_refl new, e) at own in
          rw e (
            wanted-append letter arg (cancel new ms).0 new ∙ ground (arith, law, e),
            IsSettled-append (cancel new ms).0 new kept s none_own,
          )
    ]
