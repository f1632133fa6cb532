-- ===== src/Servers/Tree.antt =====
-- What ToServer finds after onserver.
use undernet_cservice_p.Prelude.{
  ◌≡◌, ◌⊎◌, refl, sym, ◌∙◌, false≢true, arith, if◌then◌else◌, codes, true, false, Bool-cases,
  Option-cases, Option, none, some, inl, inr, Str, str_eq, str_eq_iff,
}
use undernet_cservice_p.Words.{get_word}
use undernet_cservice_p.Servers.{
  Aserver, Servers, null, server, Net, first_of, find_by, find_server, add_down, new_server,
  on_uplink, on_child, to_server, onserver,
}

str_eq_refl : (s : Str) → str_eq s s ≡ true
str_eq_refl s = (str_eq_iff s s).1 refl

first_of-none : (a b : Option Aserver) → first_of a b ≡ none → (a ≡ none) × (b ≡ none)
first_of-none none b h = (refl, h)
first_of-none (some x) b h = ground (arith, h)

-- A search that finds nothing.
record IsMissing (yy : Str) (it : Aserver) (down next : Servers) : Type 0 where
  here : str_eq it.yy yy ≡ false
  below : find_server yy down ≡ none
  beside : find_server yy next ≡ none

missing :
    (yy : Str) (it : Aserver) (down next : Servers)
    → find_server yy (server it down next) ≡ none
    → IsMissing yy it down next
unfolding find_server find_by
missing yy it down next n = elim (Bool-cases (str_eq it.yy yy)) [
  | inl e ↦ ground (arith, rw e at n)
  | inr e ↦
      let parts = first_of-none (find_server yy down) (find_server yy next) (rw e at n) in
      record { here = e; below = parts.0; beside = parts.1 }
]

-- A server that is nowhere yet is found where it is put.
add_down-new :
    (yy : Str) (new head : Aserver) (t : Servers)
    → find_server yy t ≡ some head
    → find_server new.yy t ≡ none
    → find_server new.yy (add_down yy new t) ≡ some new
unfolding find_server find_by add_down
add_down-new yy new head null h n = ground (arith, h)
add_down-new yy new head (server it down next) h n =
    let m = missing new.yy it down next n in
    elim (Bool-cases (str_eq it.yy yy)) [
      | inl i ↦ rw (i, m.here, str_eq_refl new.yy) refl
      | inr i ↦ elim (Option-cases (find_server yy down)) [
        | inl o ↦
            rw (i, o, m.here, m.below) (add_down-new yy new head next (rw (i, o) at h) m.beside)
        | inr (found, o) ↦ rw (i, o, m.here, add_down-new yy new found down o m.below) refl
      ]
    ]

add_down-others :
    (yy : Str) (new : Aserver) (z : Str) (t : Servers)
    → str_eq new.yy z ≡ false
    → find_server z (add_down yy new t) ≡ find_server z t
unfolding find_server find_by add_down
add_down-others yy new z null d = refl
add_down-others yy new z (server it down next) d = elim (Bool-cases (str_eq it.yy yy)) [
  | inl i ↦ rw (i, d) refl
  | inr i ↦ elim (Option-cases (find_server yy down)) [
    | inl o ↦ rw (i, o, add_down-others yy new z next d) refl
    | inr (found, o) ↦ rw (i, o, add_down-others yy new z down d) refl
  ]
]

-- The new server is found in s', and another numeric leads where it led in s.
abbrev pub Found : Aserver → Str → Net → Net → Type 0
Found new z s s' = (to_server new.yy s' ≡ some new) × (to_server z s' ≡ to_server z s)

on_uplink-Found :
    (new : Aserver) (z : Str) (s : Net) → str_eq new.yy z ≡ false → Found new z s (on_uplink new s)
unfolding on_uplink to_server find_server find_by
on_uplink-Found new z s d = (rw (str_eq_refl new.yy) refl, rw d refl)

on_child-Found :
    (parent : Str) (new head : Aserver) (z : Str) (s : Net)
    → to_server parent s ≡ some head
    → to_server new.yy s ≡ none
    → str_eq new.yy z ≡ false
    → Found new z s (on_child parent new s)
unfolding on_child to_server
on_child-Found parent new head z s h n d =
    rw (on_child, h)
      (add_down-new parent new head s.server_list h n, add_down-others parent new z s.server_list d)

-- The server that the message is about.
unfoldable pub announced : Str → Str → Str → Str → Aserver
unfolding new_server str_eq get_word
announced arg1 arg2 arg3 args =
    if str_eq arg1 (codes "SERVER")
    then new_server arg2 (get_word 1 args) (get_word 3 args)
    else new_server arg3 (get_word 2 args) (get_word 4 args)

-- After onserver, of the uplink or of a server whose parent is known, and with a numeric that no
-- server has: ToServer finds the new server, and any other numeric leads where it led.
pub onserver-Found :
    (arg1 arg2 arg3 args z : Str) (s : Net)
    → (str_eq arg1 (codes "SERVER") ≡ true) ⊎ ((head : Aserver) × (to_server arg1 s ≡ some head))
    → to_server (announced arg1 arg2 arg3 args).yy s ≡ none
    → str_eq (announced arg1 arg2 arg3 args).yy z ≡ false
    → Found (announced arg1 arg2 arg3 args) z s (onserver arg1 arg2 arg3 args s)
unfolding onserver announced
onserver-Found arg1 arg2 arg3 args z s known n d =
    elim (Bool-cases (str_eq arg1 (codes "SERVER"))) [
      | inl e ↦
          rw e
            (on_uplink-Found (new_server arg2 (get_word 1 args) (get_word 3 args)) z s (rw e at d))
      | inr e ↦ elim known [
        | inl e' ↦ absurd (false≢true (sym e ∙ e'))
        | inr (head, h) ↦ rw e (
            on_child-Found arg1 (new_server arg3 (get_word 2 args) (get_word 4 args)) head z s h
              (rw e at n) (rw e at d))
      ]
    ]
