-- ===== src/Kicks/Refused.antt =====
-- kick: what a source without the access for it can bring about.
use undernet_cservice_p.Prelude.{
  ℕ, ◌≡◌, true, ◌||◌, Bool-cases, inl, inr, Option-cases, ◌∷◌, arith, ltb, Str, codes, str_eq,
}
use undernet_cservice_p.World.{
  World, Achannel, Reply, replied, not_access, emit, has_flag, cfl_oponly,
}
use undernet_cservice_p.World.Text.{notice}
use undernet_cservice_p.World.Lookup.{to_channel, access}
use undernet_cservice_p.Bans.Commands.{is_empty}
use undernet_cservice_p.Kicks.{kick, kick_on, kick_args, kick_level, mass_kick_level, has_wildcard}

-- The world with one more answer to the source, and nothing else.
pub data Refused (source : Str) (w : World) : World → Type 0 where
  told : (msg : Str) → Refused source w (notice source msg w)
  answered :
      (rpl : Reply) (lang : ℕ) (arg : Str) → Refused source w (emit (replied source rpl lang arg) w)
  denied : (channel : Str) → Refused source w (emit (not_access source channel) w)

lower : (a : ℕ) → ltb a kick_level ≡ true → ltb a mass_kick_level ≡ true
lower a h = ground (arith, h)

module _ (c : ℕ) (s : Str) (w : World) where
  kick_on-Refused :
      (chan : Achannel) (channel nick comment : Str)
      → ltb (access channel (c ∷ s) w) kick_level ≡ true
      → Refused (c ∷ s) w (kick_on (c ∷ s) chan channel nick comment w)
  unfolding kick_on
  kick_on-Refused chan channel nick comment low =
      elim (Bool-cases (has_flag chan.flags cfl_oponly)) [
        | inl e ↦ rw e (answered _ _ _)
        | inr e ↦ rw e (elim (Bool-cases chan.am_chan_op) [
          | inr z ↦ rw z (answered _ _ _)
          | inl z ↦ rw z (elim (Bool-cases (has_wildcard nick)) [
            | inr x ↦ rw (x, low) (denied _)
            | inl x ↦ rw (x, lower (access channel (c ∷ s) w) low) (denied _)
          ])
        ])
      ]

-- A source whose access on the channel is below the kick level kicks nobody with `kick`, with
-- wildcards or without: all that happens is one answer to the source.
pub kick-Refused :
    (c : ℕ) (s chanarg args : Str) (w : World)
    → ltb (access (kick_args (c ∷ s) chanarg args w).0 (c ∷ s) w) kick_level ≡ true
    → Refused (c ∷ s) w (kick (c ∷ s) chanarg args w)
unfolding kick
kick-Refused c s chanarg args w low =
    let channel = (kick_args (c ∷ s) chanarg args w).0 in
    let nick = (kick_args (c ∷ s) chanarg args w).1 in
    elim (Bool-cases (str_eq channel (codes "*") || is_empty nick)) [
      | inl e ↦ rw e (told _)
      | inr e ↦ rw e (elim (Option-cases (to_channel channel w)) [
        | inl n ↦ rw n (answered _ _ _)
        | inr (chan, m) ↦ rw m (elim (Bool-cases chan.on) [
          | inr z ↦ rw z (answered _ _ _)
          | inl z ↦ rw z (kick_on-Refused c s w chan channel nick _ low)
        ])
      ])
    ]
