-- ===== src/Modes/Flush.antt =====
-- What `flushmode` sends is the queue: each change once, in order, in lines that the server reads
-- back as those changes.
use Prim.{absurd}
use undernet_cservice_p.Prelude.{
  ℕ, ◌≤◌, ◌<◌, ◌≡◌, ◌≢◌, refl, ap, sym, ◌∙◌, Bool, true, false, not, ◌&&◌, ◌||◌, Bool-cases, inl,
  inr, List, [], ◌∷◌, ◌++◌, append-nil, append_assoc, Str, length, length-append, arith, ◌==◌,
  ==_iff, All, All-append,
}
use undernet_cservice_p.World.{ModeQueue}
use undernet_cservice_p.Modes.Lines.{
  read_flags, sign_after, read_lines, line_args, changes_of, args_of, others, IsFlag,
  read_flags-append, sign_after-append, read_lines-append, line_args-append,
}
use undernet_cservice_p.Modes.Room.{bare, flush_pass-clear}
use undernet_cservice_p.Modes.{
  ModeLine, Flushing, next_flags, flush_one, end_line, flush_pass, is_nil, max_mode_per_line,
  start_pass,
}

-- The changes and the arguments that the state of a pass holds: in its lines and in those begun.
abbrev held : Flushing → List (ℕ × ℕ)
held s = read_lines s.lines ++ read_flags b'+' s.flags

abbrev held_args : Flushing → List Str
held_args s = line_args s.lines ++ s.args

-- `lastsign` is the sign in force, once there is one; the line begun has room.
record IsGoing (s : Flushing) : Type 0 where
  signed : s.lastsign ≢ 0 → sign_after b'+' s.flags ≡ s.lastsign
  room : length s.args < max_mode_per_line
  short : All (λ (l : ModeLine). length l.args ≤ max_mode_per_line) s.lines
  no_args : s.flags ≡ [] → s.args ≡ []

-- One more change behind some flags, whether or not its sign is written.
next_flags_lem :
    (m : ModeQueue) (last : ℕ) (flags : Str)
    → IsFlag m
    → (last ≢ 0 → sign_after b'+' flags ≡ last)
    → (read_flags b'+' (next_flags m last flags) ≡ read_flags b'+' flags ++ (m.sign, m.letter) ∷ [])
      × (sign_after b'+' (next_flags m last flags) ≡ m.sign)
unfolding read_flags sign_after
next_flags_lem m last flags (s, p, q) signed = elim (Bool-cases (last == m.sign)) [
  | inl e ↦
      let now : sign_after b'+' flags ≡ m.sign = signed (ground arith) ∙ (==_iff last m.sign).0 e in
      rw (e, read_flags-append, sign_after-append, now) (ground arith, ground arith)
  | inr e ↦ rw (e, read_flags-append, sign_after-append) (ground arith, ground arith)
]

module _ (k : ℕ) (m : ModeQueue) (flag : IsFlag m) (s : Flushing) (going : IsGoing s) where
  held-flush_one : held (flush_one k m s) ≡ held s ++ changes_of k (m ∷ [])
  unfolding flush_one changes_of
  held-flush_one = elim (Bool-cases (k == m.as_server)) [
    | inr e ↦ rw e (sym (append-nil _))
    | inl e ↦
        rw (e, (next_flags_lem m s.lastsign s.flags flag going.signed).0)
          (sym (append_assoc (read_lines s.lines) (read_flags b'+' s.flags) _))
  ]

  held_args-flush_one : held_args (flush_one k m s) ≡ held_args s ++ args_of k (m ∷ [])
  unfolding flush_one args_of
  held_args-flush_one = elim (Bool-cases (k == m.as_server)) [
    | inr e ↦ rw e (sym (append-nil _))
    | inl e ↦ rw e (elim (Bool-cases (length m.arg == 0)) [
      | inl z ↦ rw z (sym (append-nil _))
      | inr z ↦ rw z (sym (append_assoc (line_args s.lines) s.args _))
    ])
  ]

-- The line begun after a round: one argument more at most.
record IsFull (s : Flushing) : Type 0 where
  signed : s.lastsign ≢ 0 → sign_after b'+' s.flags ≡ s.lastsign
  room : length s.args ≤ max_mode_per_line
  short : All (λ (l : ModeLine). length l.args ≤ max_mode_per_line) s.lines
  no_args : s.flags ≡ [] → s.args ≡ []

not_nil : (xs ys : Str) (c : ℕ) → xs ++ c ∷ ys ≢ []
not_nil [] ys c e = cc
not_nil (x ∷ xs) ys c e = cc

flush_one-IsFull :
    (k : ℕ) (m : ModeQueue) (s : Flushing) → IsFlag m → IsGoing s → IsFull (flush_one k m s)
unfolding flush_one
flush_one-IsFull k m s flag g = elim (Bool-cases (k == m.as_server)) [
  | inr e ↦ rw e (record {
    signed = g.signed;
    room = omega (arith, g.room);
    short = g.short;
    no_args = g.no_args;
  })
  | inl e ↦ rw e (record {
    signed = λ _. (next_flags_lem m s.lastsign s.flags flag g.signed).1;
    room = elim (Bool-cases (length m.arg == 0)) [
      | inl z ↦ rw z (omega (arith, g.room))
      | inr z ↦ rw z (omega (arith, g.room, length-append s.args (m.arg ∷ [])))
    ];
    short = g.short;
    no_args = elim (Bool-cases (s.lastsign == m.sign)) [
      | inl z ↦ rw z (λ e. absurd (not_nil s.flags [] m.letter e))
      | inr z ↦ rw z (λ e. absurd (not_nil s.flags (m.letter ∷ []) m.sign e))
    ];
  })
]

is_short :
    (args : List Str) (last : Bool)
    → length args ≤ max_mode_per_line
    → (length args == max_mode_per_line || last) ≡ false
    → length args < max_mode_per_line
is_short args last room e = ground arith

nil_of : (s : Str) → (length s == 0) ≡ true → s ≡ []
nil_of [] e = refl
nil_of (c ∷ s) e = ground arith

end_line-IsGoing : (send last : Bool) (s : Flushing) → IsFull s → IsGoing (end_line send last s)
unfolding end_line sign_after
end_line-IsGoing send last s f = elim (Bool-cases (length s.args == max_mode_per_line || last)) [
  | inl e ↦ rw e (record {
    signed = λ _. refl;
    room = ground arith;
    short = elim (Bool-cases (send && not (length s.flags == 0))) [
      | inl z ↦ rw z (
          All-append (λ (l : ModeLine). length l.args ≤ max_mode_per_line) s.lines _ f.short
            (f.room, tt))
      | inr z ↦ rw z f.short
    ];
    no_args = λ _. refl;
  })
  | inr e ↦ rw e (record {
    signed = f.signed;
    room = is_short s.args last f.room e;
    short = f.short;
    no_args = f.no_args;
  })
]

held-end_line : (last : Bool) (s : Flushing) → IsFull s → held (end_line true last s) ≡ held s
unfolding end_line read_flags read_lines
held-end_line last s f = elim (Bool-cases (length s.args == max_mode_per_line || last)) [
  | inl e ↦ rw e (elim (Bool-cases (length s.flags == 0)) [
    | inl z ↦ rw (z, nil_of s.flags z) (ap (λ r. read_lines s.lines ++ r) refl)
    | inr z ↦
        rw (z, read_lines-append, append-nil)
          (ap (λ r. read_lines s.lines ++ r) (append-nil (read_flags b'+' s.flags)))
  ])
  | inr e ↦ rw e refl
]

held_args-end_line :
    (last : Bool) (s : Flushing) → IsFull s → held_args (end_line true last s) ≡ held_args s
unfolding end_line line_args
held_args-end_line last s f = elim (Bool-cases (length s.args == max_mode_per_line || last)) [
  | inl e ↦ rw e (elim (Bool-cases (length s.flags == 0)) [
    | inl z ↦ rw (z, f.no_args (nil_of s.flags z)) refl
    | inr z ↦
        rw (z, line_args-append, append-nil) (ap (λ r. line_args s.lines ++ r) (append-nil s.args))
  ])
  | inr e ↦ rw e refl
]

-- Nothing is left in a line that has not ended.
abbrev pub Ended : Flushing → Type 0
Ended s = (s.flags ≡ []) × (s.args ≡ [])

end_line-Ended : (s : Flushing) → Ended (end_line true true s)
unfolding end_line
end_line-Ended s = elim (Bool-cases (length s.args == max_mode_per_line)) [
  | inl e ↦ rw e (refl, refl)
  | inr e ↦ rw e (refl, refl)
]

flush_pass-Ended :
    (k : ℕ) (m : ModeQueue) (ms : List ModeQueue) (s : Flushing)
    → Ended (flush_pass true k (m ∷ ms) s)
unfolding flush_pass
flush_pass-Ended k m [] s = end_line-Ended (flush_one k m s)
flush_pass-Ended k m (n ∷ ms) s = flush_pass-Ended k n ms (end_line true false (flush_one k m s))

changes_of-cons :
    (k : ℕ) (m : ModeQueue) (ms : List ModeQueue)
    → changes_of k (m ∷ ms) ≡ changes_of k (m ∷ []) ++ changes_of k ms
unfolding changes_of
changes_of-cons k m ms = elim (Bool-cases (k == m.as_server)) [
  | inl e ↦ rw e refl
  | inr e ↦ rw e refl
]

args_of-cons :
    (k : ℕ) (m : ModeQueue) (ms : List ModeQueue)
    → args_of k (m ∷ ms) ≡ args_of k (m ∷ []) ++ args_of k ms
unfolding args_of
args_of-cons k m ms = elim (Bool-cases (k == m.as_server)) [
  | inl e ↦ rw e (elim (Bool-cases (length m.arg == 0)) [ inl z ↦ rw z refl | inr z ↦ rw z refl ])
  | inr e ↦ rw e refl
]

record Held (k : ℕ) (ms : List ModeQueue) (s t : Flushing) : Type 0 where
  changes : held t ≡ held s ++ changes_of k ms
  args : held_args t ≡ held_args s ++ args_of k ms
  short : All (λ (l : ModeLine). length l.args ≤ max_mode_per_line) t.lines

flush_pass-Held :
    (k : ℕ) (ms : List ModeQueue) (s : Flushing)
    → All IsFlag ms
    → IsGoing s
    → Held k ms s (flush_pass true k ms s)
unfolding flush_pass changes_of args_of
flush_pass-Held k [] s flags g = record {
  changes = sym (append-nil _);
  args = sym (append-nil _);
  short = g.short;
}
flush_pass-Held k (m ∷ ms) s flags g =
    let full = flush_one-IsFull k m s flags.0 g in
    let last = is_nil ms in
    let t = flush_one k m s in
    let ih =
      flush_pass-Held k ms (end_line true last t) flags.1 (end_line-IsGoing true last t full) in
    record {
      changes =
          ih.changes
          ∙ ap (λ r. r ++ changes_of k ms)
              (held-end_line last t full ∙ held-flush_one k m flags.0 s g)
          ∙ append_assoc (held s) (changes_of k (m ∷ [])) (changes_of k ms)
          ∙ ap (λ r. held s ++ r) (sym (changes_of-cons k m ms));
      args =
          ih.args
          ∙ ap (λ r. r ++ args_of k ms)
              (held_args-end_line last t full ∙ held_args-flush_one k m flags.0 s g)
          ∙ append_assoc (held_args s) (args_of k (m ∷ [])) (args_of k ms)
          ∙ ap (λ r. held_args s ++ r) (sym (args_of-cons k m ms));
      short = ih.short;
    }

end_line-kept : (send last : Bool) (s : Flushing) → (end_line send last s).kept ≡ s.kept
unfolding end_line
end_line-kept send last s = elim (Bool-cases (length s.args == max_mode_per_line || last)) [
  | inl e ↦ rw e refl
  | inr e ↦ rw e refl
]

flush_pass-kept :
    (send : Bool) (k : ℕ) (ms : List ModeQueue) (s : Flushing)
    → (flush_pass send k ms s).kept ≡ s.kept ++ others k ms
unfolding flush_pass others flush_one end_line
flush_pass-kept send k [] s = sym (append-nil _)
flush_pass-kept send k (m ∷ ms) s =
    flush_pass-kept send k ms (end_line send (is_nil ms) (flush_one k m s))
    ∙ ap (λ r. r ++ others k ms) (end_line-kept send (is_nil ms) (flush_one k m s))
    ∙ elim (Bool-cases (k == m.as_server)) [
      | inl e ↦ rw e refl
      | inr e ↦ rw e (append_assoc s.kept (m ∷ []) (others k ms))
    ]

-- What a pass of `flushmode` sends and keeps.
pub record Sends (k : ℕ) (ms : List ModeQueue) (t : Flushing) : Type 0 where
  changes : read_lines t.lines ≡ changes_of k ms
  args : line_args t.lines ≡ args_of k ms
  short : All (λ (l : ModeLine). length l.args ≤ max_mode_per_line) t.lines
  kept : t.kept ≡ others k ms
  fits : t.overrun ≡ false

unread : (t : Flushing) → t.flags ≡ [] → held t ≡ read_lines t.lines
unfolding read_flags
unread t e = rw e (append-nil (read_lines t.lines))

unheld : (t : Flushing) → t.args ≡ [] → held_args t ≡ line_args t.lines
unheld t e = rw e (append-nil (line_args t.lines))

start-IsGoing : (bans : List Str) → IsGoing (start_pass bans)
start-IsGoing bans = record {
  signed = λ n. absurd (n refl);
  room = ground arith;
  short = tt;
  no_args = λ _. refl;
}

-- A pass of flushmode over a queue whose flags are each a sign and a letter and of whose changes for
-- the sender at most three have no argument, for a sender that may change modes, stays within the
-- buffer of the flags and sends lines which the server reads back as exactly the queue's changes for
-- that sender, once each and in order, with their arguments in that order, no line with
-- more than six arguments; what it keeps is the rest of the queue.
pub flush_pass-Sends :
    (k : ℕ) (ms : List ModeQueue) (bans : List Str)
    → All IsFlag ms
    → bare k ms ≤ 3
    → Sends k ms (flush_pass true k ms (start_pass bans))
unfolding flush_pass changes_of args_of others read_lines line_args
flush_pass-Sends k [] bans flags few = record {
  changes = refl;
  args = refl;
  short = tt;
  kept = refl;
  fits = refl;
}
flush_pass-Sends k (m ∷ ms) bans flags few =
    let t = flush_pass true k (m ∷ ms) (start_pass bans) in
    let all = flush_pass-Held k (m ∷ ms) (start_pass bans) flags (start-IsGoing bans) in
    let end : Ended (flush_pass true k (m ∷ ms) (start_pass bans)) =
      flush_pass-Ended k m ms (start_pass bans) in
    record {
      changes = sym (unread t end.0) ∙ all.changes;
      args = sym (unheld t end.1) ∙ all.args;
      short = all.short;
      kept = flush_pass-kept true k (m ∷ ms) (start_pass bans);
      fits = flush_pass-clear true k (m ∷ ms) bans few;
    }
