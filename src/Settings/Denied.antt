-- ===== src/Settings/Denied.antt =====
-- SetChanFlag changes nothing for a source whose access is below every level.
use undernet_cservice_p.Prelude.{
  ℕ, ◌≡◌, ◌≤◌, true, ◌||◌, Bool-cases, Option-cases, inl, inr, List, [], ◌∷◌, ltb, arith, All, Str,
  codes, str_eq,
}
use undernet_cservice_p.World.{World, Achannel, Reply, replied, not_access, emit}
use undernet_cservice_p.World.Text.{notice}
use undernet_cservice_p.World.Lookup.{to_channel, access}
use undernet_cservice_p.Words.{get_word}
use undernet_cservice_p.Bans.Commands.{channel_of, is_empty}
use undernet_cservice_p.Settings.{
  Request, Setting, settings, any_short_for, run_settings, set_chan_flag,
}

-- The world as it was, with one more answer to the source at most.
pub data Unchanged (source : Str) (w : World) : World → Type 0 where
  silent : Unchanged source w w
  told : (msg : Str) → Unchanged source w (notice source msg w)
  answered : (rpl : Reply) (lang : ℕ) → Unchanged source w (emit (replied source rpl lang []) w)
  denied : (channel : Str) → Unchanged source w (emit (not_access source channel) w)

abbrev IsGuarded : Setting → Type 0
IsGuarded s = 450 ≤ s.level

settings-IsGuarded : All IsGuarded settings
unfolding settings
settings-IsGuarded = (
  (omega arith),
  (
    (omega arith),
    (
      (omega arith),
      (
        (omega arith),
        (
          (omega arith),
          (
            (omega arith),
            (
              (omega arith),
              (
                (omega arith),
                ((omega arith), ((omega arith), ((omega arith), ((omega arith), tt)))),
              ),
            ),
          ),
        ),
      ),
    ),
  ),
)

below : (acc level : ℕ) → ltb acc 450 ≡ true → 450 ≤ level → ltb acc level ≡ true
below acc level h k = ground (arith, h, k)

run_settings-Unchanged :
    (variable : Str) (ss : List Setting) (acc : ℕ) (r : Request) (chan : Achannel) (w : World)
    → All IsGuarded ss
    → ltb acc 450 ≡ true
    → Unchanged r.source w (run_settings variable ss acc r chan w)
unfolding run_settings
run_settings-Unchanged variable [] acc r chan w g h = silent
run_settings-Unchanged variable (s ∷ ss) acc r chan w g h =
    elim (Bool-cases (any_short_for variable s.names)) [
      | inl e ↦ rw (e, below acc s.level h g.0) (denied r.channel)
      | inr e ↦ rw e (run_settings-Unchanged variable ss acc r chan w g.1 h)
    ]

-- A source whose access on the channel is below 450 changes no setting, whatever variable it names:
-- all that happens is one answer to the source, or nothing.
pub set_chan_flag-Unchanged :
    (source ch args : Str) (w : World)
    → ltb (access (channel_of source ch args w).0 source w) 450 ≡ true
    → Unchanged source w (set_chan_flag source ch args w)
unfolding set_chan_flag
set_chan_flag-Unchanged source ch args w h =
    let channel : Str = (channel_of source ch args w).0 in
    let rest : Str = (channel_of source ch args w).1 in
    let r : Request = record {
      source = source;
      channel = channel;
      svalue = get_word 1 rest;
      args = rest;
    } in
    elim (Bool-cases (str_eq channel (codes "*") || is_empty (get_word 0 rest))) [
      | inl e ↦ rw e (told _)
      | inr e ↦ rw e (elim (Option-cases (to_channel channel w)) [
        | inl n ↦ rw n (answered _ 0)
        | inr (c, m) ↦ rw m (
            run_settings-Unchanged (get_word 0 rest) settings (access channel source w) r c w
              settings-IsGuarded h)
      ])
    ]
