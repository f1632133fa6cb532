-- ===== src/Buffer/Looking.antt =====
-- `look_in_buffer` and `find_char_in_buffer` read the contents and change none of them.
use undernet_cservice_p.Prelude.{
  ℕ, zero, suc, ◌+◌, ◌≡◌, refl, ap, sym, ◌∙◌, subst, [], ◌∷◌, Str, length, arith, if◌then◌else◌,
  ◌==◌, Bool, Bool-cases, inl, inr, true, false, take,
}
use undernet_cservice_p.Buffer.{
  BufferBlock, Chain, Pool, at_write, stops, look_in_loop, look_in_buffer, find_char_loop,
  find_char_in_buffer,
}
use undernet_cservice_p.Buffer.Contents.{contents, IsChain, unless_nil}
use undernet_cservice_p.Buffer.Reading.{up_to, read-Step, spent, full_after}

-- The block with its reading place moved to `i`.
abbrev from : BufferBlock → ℕ → BufferBlock
from b i = record b { offset_read = i }

up_to-nil : (stop max : ℕ) → [] ≡ up_to stop max (contents [])
unfolding up_to contents
up_to-nil stop zero = refl
up_to-nil stop (suc n) = refl

up_to_empty : (stop max : ℕ) → up_to stop max [] ≡ []
unfolding up_to
up_to_empty stop zero = refl
up_to_empty stop (suc n) = refl

look_in_loop-up_to :
    (stop n offset i : ℕ) (b : BufferBlock) (bs : Chain)
    → b.offset_read + offset ≡ i
    → IsChain (from b i ∷ bs)
    → look_in_loop stop n offset (b ∷ bs) ≡ up_to stop n (contents (from b i ∷ bs))
unfolding look_in_loop up_to
look_in_loop-up_to stop zero offset i b bs e h = refl
look_in_loop-up_to stop (suc n) offset i b bs e h =
    rw e (elim (Bool-cases (at_write i b.offset_write)) [
      | inl w ↦ rw (w, (spent (from b i) bs h w).0)
      | inr w ↦
          let st = read-Step (from b i) bs h w in
          elim (Bool-cases (stops stop (b.buf i))) [
            | inl q ↦ rw (w, q, st.holds, q)
            | inr q ↦
                rw (w, q, st.holds, q)
                  (ap (λ l. b.buf i ∷ l)
                    (let e' : b.offset_read + suc offset ≡ suc i = omega arith in
                      rw e' (elim (Bool-cases (full_after (from b i))) [
                        | inl full ↦
                            let (x, xs, eq) = st.more full in
                            let chain : IsChain bs = rw full at st.chain in
                            rw (full, eq)
                              (look_in_loop-up_to stop n 0 x.offset_read x xs (omega arith)
                                (rw eq at chain))
                        | inr room ↦ rw room (
                            look_in_loop-up_to stop n (suc offset) (suc i) b bs e'
                              (rw room at st.chain))
                      ])))
          ]
    ])

-- On a chain that the code builds, `look_in_buffer` returns -1 if it is NULL, and else the number
-- of bytes that it copies: the same bytes that `copy_from_buffer` would take. The contents of the
-- chain stay as they are.
pub look_in_buffer-up_to :
    (bs : Chain) (stop max : ℕ) (p : Pool)
    → IsChain bs
    → ((look_in_buffer bs stop max p).0
        ≡ unless_nil bs (length (look_in_buffer bs stop max p).1.string))
      × ((look_in_buffer bs stop max p).1.string ≡ up_to stop max (contents bs))
      × (contents (look_in_buffer bs stop max p).1.rest ≡ contents bs)
      × IsChain (look_in_buffer bs stop max p).1.rest
unfolding look_in_buffer
look_in_buffer-up_to [] stop max p h = (refl, up_to-nil stop max, refl, tt)
look_in_buffer-up_to (b ∷ bs) stop max p h =
    elim (Bool-cases (at_write b.offset_read b.offset_write)) [
      | inl w ↦
          let (empty, last) = spent b bs h w in
          rw (w, empty) (refl, sym (up_to_empty stop max), unfold contents in refl, tt)
      | inr w ↦
          rw w (refl, look_in_loop-up_to stop max 0 b.offset_read b bs (omega arith) h, refl, h)
    ]

-- Whether a text has a byte.
unfoldable pub has : ℕ → Str → Bool
has c [] = false
has c (d ∷ s) = if c == d then true else has c s

chain_from :
    (x : BufferBlock) (xs : Chain) → x.offset_read ≡ 0 → ◌≡◌ {A = Chain} (x ∷ xs) (from x 0 ∷ xs)
chain_from x xs z = ap (λ i. from x i ∷ xs) z

find_char_loop-has :
    (findit n i : ℕ) (b : BufferBlock) (bs : Chain)
    → IsChain (from b i ∷ bs)
    → find_char_loop findit n i (b ∷ bs) ≡ has findit (take (suc n) (contents (from b i ∷ bs)))
unfolding find_char_loop has
find_char_loop-has findit zero i b bs h = elim (Bool-cases (at_write i b.offset_write)) [
  | inl w ↦ rw (w, (spent (from b i) bs h w).0)
  | inr w ↦ rw (w, (read-Step (from b i) bs h w).holds) (ground arith)
]
find_char_loop-has findit (suc n) i b bs h = elim (Bool-cases (at_write i b.offset_write)) [
  | inl w ↦ rw (w, (spent (from b i) bs h w).0)
  | inr w ↦
      let st = read-Step (from b i) bs h w in
      elim (Bool-cases (findit == b.buf i)) [
        | inl q ↦ rw (w, st.holds, q)
        | inr q ↦
            rw (w, st.holds, q)
              (elim (Bool-cases (full_after (from b i))) [
                | inl full ↦
                    let (x, xs, eq) = st.more full in
                    let h' = subst (λ l. IsChain (from b i ∷ l)) eq h in
                    let same = chain_from x xs h'.2 in
                    rw (full, eq)
                      (find_char_loop-has findit n 0 x xs (subst IsChain same h'.3)
                        ∙ ap (λ l. has findit (take (suc n) (contents l))) (sym same))
                | inr room ↦
                    rw room (find_char_loop-has findit n (suc i) b bs (rw room at st.chain))
              ])
      ]
]

-- On a chain that the code builds, `find_char_in_buffer` answers 1 exactly when the byte is one of
-- the first `max + 1` bytes of the contents, which is one more than `max`.
pub find_char_in_buffer-has :
    (bs : Chain) (findit max : ℕ)
    → IsChain bs
    → find_char_in_buffer bs findit max ≡ has findit (take (suc max) (contents bs))
unfolding find_char_in_buffer
find_char_in_buffer-has [] findit max h = unfold contents has in refl
find_char_in_buffer-has (b ∷ bs) findit max h = find_char_loop-has findit max b.offset_read b bs h
