-- ===== src/Buffer/Reading.antt =====
-- `copy_from_buffer` and `skip_char_in_buffer` take bytes from the front of the contents.
use Prim.Native.Nat.{min}
use undernet_cservice_p.Prelude.{
  ℕ, zero, suc, ◌+◌, ◌-◌, ◌≤◌, ◌<◌, ◌≡◌, refl, ap, some, [], ◌∷◌, ◌++◌, append-nil, Str, length,
  arith, if◌then◌else◌, ◌==◌, Bool, Bool-cases, inl, inr, ==_iff, true, false, false≢true, drop,
}
use undernet_cservice_p.Buffer.{
  buffer_block_size, BufferBlock, Chain, Pool, Taken, at_write, stops, return_buffer_block,
  copy_from_loop, copy_from_buffer, skip_loop, skip_char_in_buffer, zap_buffer,
}
use undernet_cservice_p.Buffer.Contents.{seg, bytes, contents, IsChain, unless_nil, write_end}

-- One byte read of the first block.
abbrev pub advance : BufferBlock → BufferBlock
advance b = record b { offset_read = suc b.offset_read }

abbrev pub full_after : BufferBlock → Bool
full_after b = suc b.offset_read == buffer_block_size

abbrev pub behind : BufferBlock → Chain → Chain
behind b bs = if full_after b then bs else advance b ∷ bs

bytes-advance :
    (b : BufferBlock)
    → b.offset_read < write_end b.offset_write
    → bytes b ≡ b.buf b.offset_read ∷ bytes (advance b)
unfolding bytes seg
bytes-advance b h =
    let e : write_end b.offset_write - b.offset_read
        ≡ suc (write_end b.offset_write - suc b.offset_read) =
      omega arith in
    rw e

bytes-spent : (b : BufferBlock) → write_end b.offset_write ≤ b.offset_read → bytes b ≡ []
unfolding bytes seg
bytes-spent b h = let e : write_end b.offset_write - b.offset_read ≡ 0 = omega arith in rw e

-- What one read of the loops does to the contents of a chain.
pub record Step (b : BufferBlock) (bs : Chain) : Type 0 where
  pub holds : contents (b ∷ bs) ≡ b.buf b.offset_read ∷ contents (behind b bs)
  pub chain : IsChain (behind b bs)
  pub more : full_after b ≡ true → (x : BufferBlock) × (xs : Chain) × (bs ≡ x ∷ xs)

pub read-Step :
    (b : BufferBlock) (bs : Chain)
    → IsChain (b ∷ bs)
    → at_write b.offset_read b.offset_write ≡ false
    → Step b bs
unfolding contents
read-Step b [] (w, e, h, k) n =
    let unread : (b.offset_read == w) ≡ false = (rw e at n) in
    let room : full_after b ≡ false = ground arith in
    record {
      holds = rw (room, bytes-advance b (rw e (ground arith)));
      chain = rw room (w, e, ground arith, k);
      more = λ full. absurd (cc);
    }
read-Step b (x ∷ xs) (e, k, z, c) n = elim (Bool-cases (full_after b)) [
  | inl full ↦ record {
    holds = rw (
      full,
      bytes-advance b (rw e k),
      bytes-spent (advance b)
          (rw e (omega (arith, (==_iff (suc b.offset_read) buffer_block_size).0 full))),
    );
    chain = rw full c;
    more = λ _. (x, xs, refl);
  }
  | inr room ↦ record {
    holds = rw (room, bytes-advance b (rw e k));
    chain = rw room (e, ground arith, z, c);
    more = λ full. absurd (cc);
  }
]

-- A spent block is the last.
pub spent :
    (b : BufferBlock) (bs : Chain)
    → IsChain (b ∷ bs)
    → at_write b.offset_read b.offset_write ≡ true
    → (contents (b ∷ bs) ≡ []) × (bs ≡ [])
unfolding contents
spent b [] (w, e, h, k) n =
    let read : (b.offset_read == w) ≡ true = (rw e at n) in
    (rw (append-nil, bytes-spent b (rw e (ground arith))), refl)
spent b (x ∷ xs) (e, k, z, c) n = absurd (false≢true (rw e at n))

-- The first bytes of a text: at most `max`, and none behind the first `stop`.
unfoldable pub up_to : ℕ → ℕ → Str → Str
up_to stop zero s = []
up_to stop (suc n) [] = []
up_to stop (suc n) (c ∷ s) = let more = up_to stop n s in if stops stop c then c ∷ [] else c ∷ more

pub record Took (stop max : ℕ) (s : Str) (t : Taken) : Type 0 where
  pub string : t.string ≡ up_to stop max s
  pub left : s ≡ t.string ++ contents t.rest
  pub chain : IsChain t.rest

Took-nil :
    (stop max : ℕ) {p : Pool}
    → Took stop max (contents []) (record { string = []; rest = []; pool = p })
unfolding contents up_to
Took-nil stop zero = record { string = refl; left = refl; chain = tt }
Took-nil stop (suc n) = record { string = refl; left = refl; chain = tt }

copy_from_loop-Took :
    (stop n : ℕ) (bs : Chain) (p : Pool)
    → IsChain bs
    → Took stop n (contents bs) (copy_from_loop stop n bs p)
unfolding copy_from_loop up_to
copy_from_loop-Took stop zero bs p h = record { string = refl; left = refl; chain = h }
copy_from_loop-Took stop (suc n) [] p h = record {
  string = unfold contents in refl;
  left = unfold contents in refl;
  chain = h;
}
copy_from_loop-Took stop (suc n) (b ∷ bs) p h =
    elim (Bool-cases (at_write b.offset_read b.offset_write)) [
      | inl e ↦
          let (empty, last) = spent b bs h e in
          rw (e, empty, last) (record { string = refl; left = unfold contents in refl; chain = tt })
      | inr e ↦
          let st = read-Step b bs h e in
          let c = b.buf b.offset_read in
          elim (Bool-cases (stops stop c)) [
            | inl q ↦ rw (e, q, st.holds) (record { string = rw q; left = refl; chain = st.chain })
            | inr q ↦
                let r =
                  copy_from_loop-Took stop n (behind b bs)
                    (if full_after b then return_buffer_block (advance b) p else p) st.chain in
                rw (e, q, st.holds)
                  (record {
                    string = rw q (ap (λ l. c ∷ l) r.string);
                    left = ap (λ l. c ∷ l) r.left;
                    chain = r.chain;
                  })
          ]
    ]

-- On a chain that the code builds, `copy_from_buffer` returns -1 if it is NULL, and else the
-- number of bytes that it copies: at most `max` of the contents, up to the first `stop`. The chain
-- is left with the rest of the contents.
pub copy_from_buffer-Took :
    (bs : Chain) (stop max : ℕ) (p : Pool)
    → IsChain bs
    → Took stop max (contents bs) (copy_from_buffer bs stop max p).1
      × ((copy_from_buffer bs stop max p).0
          ≡ unless_nil bs (length (copy_from_buffer bs stop max p).1.string))
unfolding copy_from_buffer
copy_from_buffer-Took [] stop max p h = (Took-nil stop max, refl)
copy_from_buffer-Took (b ∷ bs) stop max p h = (copy_from_loop-Took stop max (b ∷ bs) p h, refl)

-- How many bytes `skip_loop` passes over, and what it leaves.
record Skipped (n : ℕ) (s : Str) (r : ℕ × Chain × Pool) : Type 0 where
  count : r.0 ≡ min n (length s)
  left : contents r.1 ≡ drop n s
  chain : IsChain r.1

drop-nil : (n : ℕ) → drop {A = ℕ} n [] ≡ []
drop-nil zero = refl
drop-nil (suc n) = refl

Skipped-suc :
    {n : ℕ} {c : ℕ} {s : Str} (r : ℕ × Chain × Pool)
    → Skipped n s r
    → Skipped (suc n) (c ∷ s) (suc r.0, r.1, r.2)
Skipped-suc r h = record { count = omega (arith, h.count); left = h.left; chain = h.chain }

skip_loop-Skipped :
    (n : ℕ) (b : BufferBlock) (bs : Chain) (p : Pool)
    → IsChain (b ∷ bs)
    → Skipped n (contents (b ∷ bs)) (skip_loop n b bs p)
unfolding skip_loop
skip_loop-Skipped zero b bs p h = record { count = omega arith; left = refl; chain = h }
skip_loop-Skipped (suc n) b [] p h = elim (Bool-cases (at_write b.offset_read b.offset_write)) [
  | inl e ↦
      rw (e, (spent b [] h e).0)
        (record { count = omega arith; left = unfold contents in refl; chain = tt })
  | inr e ↦
      let st = read-Step b [] h e in
      elim (Bool-cases (full_after b)) [
        | inl full ↦ let (x, xs, eq) = st.more full in absurd (cc)
        | inr room ↦
            rw (e, room, st.holds)
              (rw room (
                Skipped-suc (skip_loop n (advance b) [] p)
                  (skip_loop-Skipped n (advance b) [] p (rw room at st.chain))))
      ]
]
skip_loop-Skipped (suc n) b (x ∷ xs) p h =
    elim (Bool-cases (at_write b.offset_read b.offset_write)) [
      | inl e ↦ absurd (cc ((spent b (x ∷ xs) h e).1))
      | inr e ↦
          let st = read-Step b (x ∷ xs) h e in
          elim (Bool-cases (full_after b)) [
            | inl full ↦
                let p' = return_buffer_block (advance b) p in
                rw (e, full, st.holds)
                  (rw full (
                    Skipped-suc (skip_loop n x xs p')
                      (skip_loop-Skipped n x xs p' (rw full at st.chain))))
            | inr room ↦
                rw (e, room, st.holds)
                  (rw room (
                    Skipped-suc (skip_loop n (advance b) (x ∷ xs) p)
                      (skip_loop-Skipped n (advance b) (x ∷ xs) p (rw room at st.chain))))
          ]
    ]

-- On a chain that the code builds and that is not NULL, `skip_char_in_buffer` drops the first `n`
-- bytes of the contents, or all of them, and returns how many those were.
pub skip_char_in_buffer-drop :
    (b : BufferBlock) (bs : Chain) (n : ℕ) (p : Pool)
    → IsChain (b ∷ bs)
    → (l : Chain) × (q : Pool) × (skip_char_in_buffer (b ∷ bs) n p
        ≡ some (min n (length (contents (b ∷ bs))), l, q))
      × (contents l ≡ drop n (contents (b ∷ bs)))
      × IsChain l
unfolding skip_char_in_buffer
skip_char_in_buffer-drop b bs zero p h = (
  b ∷ bs,
  p,
  (let e : 0 ≡ min 0 (length (contents (b ∷ bs))) = omega arith in ap (λ k. some (k, b ∷ bs, p)) e),
  refl,
  h,
)
skip_char_in_buffer-drop b bs (suc n) p h =
    let r = skip_loop-Skipped (suc n) b bs p h in
    let (k, l, q) = skip_loop (suc n) b bs p in
    (l, q, ap (λ j. some (j, l, q)) r.count, r.left, r.chain)

-- Every block is with the pool or in use: the counter of free blocks is right.
abbrev pub IsCounted : Pool → Type 0
IsCounted p = p.nb_avail ≡ length p.avail

-- Where the pool counts its free blocks rightly and the blocks given out are at least those of the
-- chain, `zap_buffer` leaves no block and gives each one back: the free blocks are counted rightly
-- again, and the two counters go up and down by the length of the chain.
pub zap_buffer-counts :
    (bs : Chain) (p : Pool)
    → IsCounted p
    → length bs ≤ p.nb_alloc
    → ((zap_buffer bs p).0 ≡ [])
      × IsCounted (zap_buffer bs p).1
      × ((zap_buffer bs p).1.nb_avail ≡ p.nb_avail + length bs)
      × ((zap_buffer bs p).1.nb_alloc + length bs ≡ p.nb_alloc)
unfolding zap_buffer return_buffer_block
zap_buffer-counts [] p h k = (refl, h, omega arith, omega arith)
zap_buffer-counts (b ∷ bs) p h k =
    let (e, c, a, l) = zap_buffer-counts bs (return_buffer_block b p) (omega arith) (omega arith) in
    (e, c, omega (arith, a), omega (arith, l))
