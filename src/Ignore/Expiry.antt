-- ===== src/Ignore/Expiry.antt =====
-- CleanIgnores: what stays on the ignore list, and what is sent.
use undernet_cservice_p.Prelude.{
  ℕ, ◌≡◌, refl, ◌<◌, ◌≤◌, ◌+◌, sym, ◌∙◌, Bool-cases, inl, inr, List, [], ◌∷◌, ◌++◌, append-nil,
  append_assoc, arith, All, remove_if, leb, ltb, ◌-◌, if◌then◌else◌, Str, codes,
}
use undernet_cservice_p.World.{World, Aignore, Aprivmsg, Out, logged, sent}
use undernet_cservice_p.World.Text.{line_end, put_log}
use undernet_cservice_p.Ignore.{clean_ignore_list, clean_loop, is_over, rem_silence}
use undernet_cservice_p.Ignore.Floods.{record_message}

-- What is logged and sent for the entries that are over.
unfoldable pub farewells : Str → ℕ → List Aignore → List Out
farewells yyxxx now [] = []
farewells yyxxx now (curr ∷ list) =
    let rest = farewells yyxxx now list in
    if leb curr.time now
    then logged (codes "Removing ignore for " ++ curr.mask)
      ∷ sent (yyxxx ++ codes " U * -" ++ curr.mask ++ line_end)
      ∷ rest
    else rest

clean_loop-out :
    (list : List Aignore) (w : World)
    → (clean_loop list w).out ≡ w.out ++ farewells w.my_yyxxx w.now list
unfolding clean_loop farewells rem_silence
clean_loop-out [] w = sym (append-nil w.out)
clean_loop-out (curr ∷ list) w = elim (Bool-cases (leb curr.time w.now)) [
  | inl e ↦
      rw
        (
          e,
          clean_loop-out list
              (rem_silence curr.mask (put_log (codes "Removing ignore for " ++ curr.mask) w)),
        )
        (append_assoc (w.out ++ _ ∷ []) (_ ∷ []) _ ∙ append_assoc w.out (_ ∷ []) _)
  | inr e ↦ rw e (clean_loop-out list w)
]

-- The entries that end later than now.
unfoldable pub lasting : ℕ → List Aignore → List Aignore
lasting now [] = []
lasting now (curr ∷ list) =
    let rest = lasting now list in if ltb now curr.time then curr ∷ rest else rest

remove_over-lasting :
    (now : ℕ) (list : List Aignore) → remove_if (is_over now) list ≡ lasting now list
unfolding remove_if lasting
remove_over-lasting now [] = refl
remove_over-lasting now (curr ∷ list) = ground (arith, remove_over-lasting now list)

remove_over-live :
    (now : ℕ) (list : List Aignore)
    → All (λ (e : Aignore). now < e.time) (remove_if (is_over now) list)
unfolding remove_if
remove_over-live now [] = tt
remove_over-live now (curr ∷ list) = elim (Bool-cases (leb curr.time now)) [
  | inl e ↦ rw e (remove_over-live now list)
  | inr e ↦ rw e (ground arith, remove_over-live now list)
]

pub record Cleaned (w t : World) : Type 0 where
  list : t.ignore_list ≡ lasting w.now w.ignore_list
  live : All (λ (e : Aignore). w.now < e.time) t.ignore_list
  out : t.out ≡ w.out ++ farewells w.my_yyxxx w.now w.ignore_list

-- After CleanIgnores the ignore list holds exactly the entries that end later than now, in their
-- order, and exactly the others have been logged and unsilenced, once each and in their order.
pub clean_ignore_list-Cleaned : (w : World) → Cleaned w (clean_ignore_list w)
unfolding clean_ignore_list
clean_ignore_list-Cleaned w = record {
  list = remove_over-lasting w.now w.ignore_list;
  live = remove_over-live w.now w.ignore_list;
  out = clean_loop-out w.ignore_list w;
}

module _ (now age : ℕ) where
  remove_old-window :
      (list : List Aprivmsg)
      → age ≤ now
      → All (λ (m : Aprivmsg). now ≤ m.time + age) (remove_if (λ m. ltb m.time (now - age)) list)
  unfolding remove_if
  remove_old-window [] h = tt
  remove_old-window (m ∷ list) h = elim (Bool-cases (ltb m.time (now - age))) [
    | inl e ↦ rw e (remove_old-window list h)
    | inr e ↦ rw e (ground arith, remove_old-window list h)
  ]

-- Once a message is recorded, the list holds only messages of the last `age` seconds, when `age`
-- seconds have passed since time 0.
pub record_message-window :
    (now age : ℕ) (user : Str) (length : ℕ) (list : List Aprivmsg)
    → age ≤ now
    → All (λ (m : Aprivmsg). now ≤ m.time + age) (record_message now age user length list)
unfolding record_message
record_message-window now age user length list h = (omega arith, remove_old-window now age list h)
