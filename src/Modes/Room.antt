-- ===== src/Modes/Room.antt =====
-- The flags that flushmode collects stay within flags[20] where few changes are without argument.
use undernet_cservice_p.Prelude.{
  ℕ, suc, ◌+◌, ◌*◌, ◌≤◌, ◌<◌, ◌≡◌, refl, Bool, false, ◌&&◌, ◌||◌, Bool-cases, inl, inr, List, [],
  ◌∷◌, ◌==◌, leb, if◌then◌else◌, Str, length, length-append, arith,
}
use undernet_cservice_p.World.{ModeQueue}
use undernet_cservice_p.Modes.{
  Flushing, next_flags, flush_one, end_line, flush_pass, is_nil, max_mode_per_line, start_pass,
}

-- The changes without argument that a pass sends.
unfoldable pub bare : ℕ → List ModeQueue → ℕ
bare k [] = 0
bare k (m ∷ ms) =
    let rest = bare k ms in if k == m.as_server && length m.arg == 0 then suc rest else rest

-- Before a change: the flags of the line, and what the changes without argument may add to them.
record HasRoom (k : ℕ) (ms : List ModeQueue) (s : Flushing) : Type 0 where
  flags : length s.flags + 2 * bare k ms ≤ 2 * length s.args + 6
  args : length s.args < max_mode_per_line
  few : bare k ms ≤ 3
  clear : s.overrun ≡ false

-- Behind it.
record HasLess (k : ℕ) (ms : List ModeQueue) (s : Flushing) : Type 0 where
  flags : length s.flags + 2 * bare k ms ≤ 2 * length s.args + 6
  args : length s.args ≤ max_mode_per_line
  few : bare k ms ≤ 3
  clear : s.overrun ≡ false

next_flags-length :
    (m : ModeQueue) (last : ℕ) (flags : Str) → length (next_flags m last flags) ≤ length flags + 2
next_flags-length m last flags = elim (Bool-cases (last == m.sign)) [
  | inl e ↦ rw e (omega (arith, length-append flags (m.letter ∷ [])))
  | inr e ↦ rw e (omega (arith, length-append flags (m.sign ∷ m.letter ∷ [])))
]

small : (n : ℕ) → n < 20 → leb 20 n ≡ false
small n h = ground (arith, h)

flush_one-HasLess :
    (k : ℕ) (m : ModeQueue) (ms : List ModeQueue) (s : Flushing)
    → HasRoom k (m ∷ ms) s
    → HasLess k ms (flush_one k m s)
unfolding flush_one bare
flush_one-HasLess k m ms s r =
    let more = next_flags-length m s.lastsign s.flags in
    elim (Bool-cases (k == m.as_server)) [
      | inr e ↦ rw e (record {
        flags = omega (arith, rw e at r.flags);
        args = omega (arith, r.args);
        few = rw e at r.few;
        clear = r.clear;
      })
      | inl e ↦ elim (Bool-cases (length m.arg == 0)) [
        | inl z ↦
            let flags = rw (e, z) at r.flags in
            rw (e, z)
              (record {
                flags = omega (arith, flags, more);
                args = omega (arith, r.args);
                few = omega (arith, rw (e, z) at r.few);
                clear =
                    rw
                      (
                        r.clear,
                        small (length (next_flags m s.lastsign s.flags))
                            (omega (arith, flags, more, r.args)),
                      )
                      refl;
              })
        | inr z ↦
            let flags = rw (e, z) at r.flags in
            let args = length-append s.args (m.arg ∷ []) in
            rw (e, z)
              (record {
                flags = omega (arith, flags, more, args);
                args = omega (arith, r.args, args);
                few = rw (e, z) at r.few;
                clear =
                    rw
                      (
                        r.clear,
                        small (length (next_flags m s.lastsign s.flags))
                            (omega (arith, flags, more, r.args)),
                      )
                      refl;
              })
      ]
    ]

end_line-HasRoom :
    (send last : Bool) (k : ℕ) (ms : List ModeQueue) (s : Flushing)
    → HasLess k ms s
    → HasRoom k ms (end_line send last s)
unfolding end_line
end_line-HasRoom send last k ms s r =
    elim (Bool-cases (length s.args == max_mode_per_line || last)) [
      | inl e ↦ rw e (record {
        flags = omega (arith, r.few);
        args = omega arith;
        few = r.few;
        clear = r.clear;
      })
      | inr e ↦ rw e (record {
        flags = r.flags;
        args = ground (arith, r.args, e);
        few = r.few;
        clear = r.clear;
      })
    ]

flush_pass-HasRoom :
    (send : Bool) (k : ℕ) (ms : List ModeQueue) (s : Flushing)
    → HasRoom k ms s
    → (flush_pass send k ms s).overrun ≡ false
unfolding flush_pass
flush_pass-HasRoom send k [] s r = r.clear
flush_pass-HasRoom send k (m ∷ ms) s r =
    flush_pass-HasRoom send k ms (end_line send (is_nil ms) (flush_one k m s))
      (end_line-HasRoom send (is_nil ms) k ms (flush_one k m s) (flush_one-HasLess k m ms s r))

pub flush_pass-clear :
    (send : Bool) (k : ℕ) (ms : List ModeQueue) (bans : List Str)
    → bare k ms ≤ 3
    → (flush_pass send k ms (start_pass bans)).overrun ≡ false
flush_pass-clear send k ms bans h =
    flush_pass-HasRoom send k ms (start_pass bans)
      (record { flags = omega (arith, h); args = omega arith; few = h; clear = refl })
