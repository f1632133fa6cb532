-- ===== src/Match/Hostmask/Fuel.antt =====
-- The fuel of `compare`: each round but the last uses up a separator of its first mask.
use undernet_cservice_p.Prelude.{
  ℕ, zero, suc, ◌≡◌, ◌≤◌, ◌<◌, Bool, true, false, ◌&&◌, not, Bool-cases, inl, inr, [], ◌∷◌, ◌==◌,
  Str, length, head_byte, arith,
}
use undernet_cservice_p.Match.Hostmask.{
  scan, tail, is_nil, Sides, read_sides, align, refuses, compare_loop, is_bang_or_at, is_at,
  is_star_byte, breaks_ip,
}

scan-rest :
    (stop star : ℕ → Bool) (first ip : Bool) (p : Str)
    → length (scan stop star first ip p).rest ≤ length p
unfolding scan
scan-rest stop star first ip [] = omega arith
scan-rest stop star first ip (c ∷ p) = elim (Bool-cases (stop c)) [
  | inl e ↦ rw e (omega arith)
  | inr e ↦
      rw e (omega (arith, scan-rest stop star false (ip && not (breaks_ip (star c) first c p)) p))
]

tail-length : (s : Str) → length (tail s) ≤ length s
tail-length [] = omega arith
tail-length (c ∷ s) = omega arith

tail_shorter : (s : Str) → is_nil (tail s) ≡ false → length (tail s) < length s
tail_shorter [] h = ground arith
tail_shorter (c ∷ s) h = omega arith

align-rest : (s : Sides) → length (align s).one.rest ≤ length s.one.rest
unfolding align
align-rest s = elim (Bool-cases (head_byte s.one.rest == head_byte s.two.rest)) [
  | inl e ↦ rw e (omega arith)
  | inr e ↦ rw e (elim (Bool-cases (head_byte s.one.rest == b'!')) [
    | inr z ↦ rw z (omega arith)
    | inl z ↦ rw z (
        omega (
          arith,
          scan-rest is_at is_star_byte true s.one.ip (tail s.one.rest),
          tail-length s.one.rest,
        ))
  ])
]

rest-length :
    (in_uh : Bool) (p1 p2 : Str) → length (align (read_sides in_uh p1 p2)).one.rest ≤ length p1
unfolding read_sides
rest-length in_uh p1 p2 =
    omega (
      arith,
      align-rest (read_sides in_uh p1 p2),
      scan-rest is_bang_or_at is_star_byte true true p1,
    )

-- The finished runs of the loop of `compare` and what they return: 0 at the first segments that do
-- not fit, and else 1 at the end of the first mask.
pub data CompareRun : Bool → Str → Str → Bool → Type 0 where
  refused :
      (in_uh : Bool) (p1 p2 : Str)
      → refuses (align (read_sides in_uh p1 p2)) ≡ true
      → CompareRun in_uh p1 p2 false
  finished :
      (in_uh : Bool) (p1 p2 : Str)
      → refuses (align (read_sides in_uh p1 p2)) ≡ false
      → is_nil (tail (align (read_sides in_uh p1 p2)).one.rest) ≡ true
      → CompareRun in_uh p1 p2 true
  onward :
      (in_uh : Bool) (p1 p2 : Str) (answer : Bool)
      → refuses (align (read_sides in_uh p1 p2)) ≡ false
      → is_nil (tail (align (read_sides in_uh p1 p2)).one.rest) ≡ false
      → CompareRun
          (align (read_sides in_uh p1 p2)).in_uh
          (tail (align (read_sides in_uh p1 p2)).one.rest)
          (tail (align (read_sides in_uh p1 p2)).two.rest)
          answer
      → CompareRun in_uh p1 p2 answer

-- The loop of `compare` ends within fuel that is more than the length of the first mask: what it
-- answers is the answer of a finished run, at a refusal or at the end of that mask.
pub compare_loop-Runs :
    (f : ℕ) (in_uh : Bool) (p1 p2 : Str)
    → length p1 < f
    → CompareRun in_uh p1 p2 (compare_loop f in_uh p1 p2)
unfolding compare_loop
compare_loop-Runs zero in_uh p1 p2 h = absurd (omega arith)
compare_loop-Runs (suc f) in_uh p1 p2 h =
    let s : Sides = align (read_sides in_uh p1 p2) in
    elim (Bool-cases (refuses s)) [
      | inl e ↦ rw (compare_loop, e) (refused in_uh p1 p2 e)
      | inr e ↦ elim (Bool-cases (is_nil (tail s.one.rest))) [
        | inl z ↦ rw (compare_loop, e, z) (finished in_uh p1 p2 e z)
        | inr z ↦
            rw (compare_loop, e, z)
              (onward in_uh p1 p2 _ e z (
                compare_loop-Runs f s.in_uh (tail s.one.rest) (tail s.two.rest)
                  (omega (arith, h, tail_shorter s.one.rest z, rest-length in_uh p1 p2))))
      ]
    ]
