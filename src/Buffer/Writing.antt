-- ===== src/Buffer/Writing.antt =====
-- `copy_to_buffer` appends to the contents of a chain and returns their length.
use undernet_cservice_p.Prelude.{
  ℕ, suc, ◌+◌, ◌-◌, ◌≤◌, ◌<◌, ◌≡◌, refl, ap, ap₂, sym, ◌∙◌, subst, none, some, [], ◌∷◌, ◌++◌,
  append-nil, append_assoc, Str, length, length-append, arith, ◌==◌, Bool-cases, inl, inr, ==_iff,
}
use undernet_cservice_p.Buffer.{
  buffer_block_size, BufferBlock, Chain, Pool, reset, take_avail, store, get_buffer_block, write_at,
  write_loop, write_place, append_loop, copy_to_buffer,
}
use undernet_cservice_p.Buffer.Contents.{
  seg, bytes, contents, IsChain, unless_nil, length-seg, seg_snoc, seg-store,
}

take_avail-reset : (l : Chain) (p : Pool) → (buf : ℕ → ℕ) × ((take_avail l p).0 ≡ reset buf)
take_avail-reset [] p = (p.raw, refl)
take_avail-reset (b ∷ bs) p = (b.buf, refl)

pub get_buffer_block-reset : (p : Pool) → (buf : ℕ → ℕ) × ((get_buffer_block p).0 ≡ reset buf)
unfolding get_buffer_block
get_buffer_block-reset p = take_avail-reset p.avail p

-- Behind place `w` of a block, one more byte.
bytes_snoc :
    (f : ℕ → ℕ) (r w c : ℕ) → r ≤ w → seg (store f w c) r (suc w - r) ≡ seg f r (w - r) ++ c ∷ []
bytes_snoc f r w c h =
    let e : suc w - r ≡ suc (w - r) = omega arith in
    let at : r + (w - r) ≡ w = omega arith in
    let wrote : store f w c (r + (w - r)) ≡ c = ground arith in
    rw (e, seg_snoc, wrote, seg-store f w c r (w - r) (omega arith))

-- The chain that a run of the loop leaves holds `held`, and its first block is read from `r` on.
record Wrote (held : Str) (r : ℕ) (l : Chain) : Type 0 where
  holds : contents l ≡ held
  chain : IsChain l
  first : BufferBlock
  rest : Chain
  splits : l ≡ first ∷ rest
  read : first.offset_read ≡ r

-- A full block in front.
IsChain-full :
    (b : BufferBlock) (l : Chain)
    → b.offset_write ≡ none
    → b.offset_read < buffer_block_size
    → (first : BufferBlock) (rest : Chain) → l ≡ first ∷ rest
    → first.offset_read ≡ 0
    → IsChain l
    → IsChain (b ∷ l)
IsChain-full b [] e k first rest eq z c = absurd (cc)
IsChain-full b (x ∷ l) e k first rest eq z c =
    let same : x ≡ first = cc in (e, k, ap (λ (y : BufferBlock). y.offset_read) same ∙ z, c)

bytes-full :
    (b : BufferBlock)
    → b.offset_write ≡ none
    → bytes b ≡ seg b.buf b.offset_read (512 - b.offset_read)
unfolding bytes
bytes-full b e = rw e

bytes-room :
    (b : BufferBlock) (w : ℕ)
    → b.offset_write ≡ some w
    → bytes b ≡ seg b.buf b.offset_read (w - b.offset_read)
unfolding bytes
bytes-room b w e = rw e

Wrote-full :
    (b : BufferBlock) (w c : ℕ) (string : Str) (l : Chain)
    → b.offset_read ≤ w
    → suc w ≡ buffer_block_size
    → Wrote string 0 l
    → Wrote
        (seg b.buf b.offset_read (w - b.offset_read) ++ c ∷ string)
        b.offset_read
        (record (write_at b w c) { offset_write = none } ∷ l)
unfolding contents
Wrote-full b w c string l h full r =
    let b' : BufferBlock = record (write_at b w c) { offset_write = none } in
    record {
      holds =
          ap₂ ◌++◌ (bytes-full b' refl ∙ rw (← full) (bytes_snoc b.buf b.offset_read w c h)) r.holds
          ∙ append_assoc (seg b.buf b.offset_read (w - b.offset_read)) (c ∷ []) string;
      chain = IsChain-full b' l refl (omega arith) r.first r.rest r.splits r.read r.chain;
      first = b';
      rest = l;
      splits = refl;
      read = refl;
    }

write_loop-Wrote :
    (string : Str) (b : BufferBlock) (w : ℕ) (p : Pool)
    → b.offset_write ≡ some w
    → b.offset_read ≤ w
    → w < buffer_block_size
    → Wrote
        (seg b.buf b.offset_read (w - b.offset_read) ++ string)
        b.offset_read
        (write_loop string b w p).0
unfolding write_loop contents
write_loop-Wrote [] b w p e h k = record {
  holds = ap (λ l. l ++ []) (bytes-room b w e);
  chain = (w, e, h, k);
  first = b;
  rest = [];
  splits = refl;
  read = refl;
}
write_loop-Wrote (c ∷ string) b w p e h k = elim (Bool-cases (suc w == buffer_block_size)) [
  | inl full ↦
      let (buf, fresh) = get_buffer_block-reset p in
      let b0 = (get_buffer_block p).0 in
      let r =
        write_loop-Wrote string b0 0 (get_buffer_block p).1 (rw fresh refl) (rw fresh (omega arith))
          (omega arith) in
      let read0 : b0.offset_read ≡ 0 = rw fresh refl in
      let held0 : seg b0.buf b0.offset_read (0 - b0.offset_read) ++ string ≡ string =
        rw fresh (unfold seg in refl) in
      let l = (write_loop string b0 0 (get_buffer_block p).1).0 in
      rw full (
        Wrote-full b w c string l h ((==_iff (suc w) buffer_block_size).0 full)
          (subst (λ x. Wrote string x l) read0 (subst (λ x. Wrote x b0.offset_read l) held0 r)))
  | inr room ↦
      rw
        (
          room,
          ← append_assoc (seg b.buf b.offset_read (w - b.offset_read)) (c ∷ []) string,
          ← bytes_snoc b.buf b.offset_read w c h,
        )
        (write_loop-Wrote string (write_at b w c) (suc w) p refl (omega arith) (ground arith))
]

length-bytes-full :
    (b : BufferBlock) → b.offset_write ≡ none → length (bytes b) ≡ buffer_block_size - b.offset_read
length-bytes-full b e = ap length (bytes-full b e) ∙ length-seg b.buf b.offset_read _

length-bytes-room :
    (b : BufferBlock) (w : ℕ) → b.offset_write ≡ some w → length (bytes b) ≡ w - b.offset_read
length-bytes-room b w e = ap length (bytes-room b w e) ∙ length-seg b.buf b.offset_read _

write_place-some : (b : BufferBlock) (w : ℕ) → b.offset_write ≡ some w → write_place b ≡ w
write_place-some b w e = rw e

append_loop-Wrote :
    (string : Str) (b : BufferBlock) (bs : Chain) (p : Pool)
    → IsChain (b ∷ bs)
    → Wrote (contents (b ∷ bs) ++ string) b.offset_read (append_loop string b bs p).1
unfolding append_loop contents
append_loop-Wrote string b [] p (w, e, h, k) =
    rw (append-nil, bytes-room b w e, write_place-some b w e) (write_loop-Wrote string b w p e h k)
append_loop-Wrote string b (b' ∷ bs) p (e, k, z, c) =
    let r = append_loop-Wrote string b' bs p c in
    record {
      holds = ap (λ l. bytes b ++ l) r.holds ∙ sym (append_assoc (bytes b) _ string);
      chain = IsChain-full b _ e k r.first r.rest r.splits (r.read ∙ z) r.chain;
      first = b;
      rest = _;
      splits = refl;
      read = refl;
    }

append_loop-count :
    (string : Str) (b : BufferBlock) (bs : Chain) (p : Pool)
    → IsChain (b ∷ bs)
    → (append_loop string b bs p).0 ≡ length (contents (b ∷ bs)) + length string
unfolding append_loop contents
append_loop-count string b [] p (w, e, h, k) =
    rw (append-nil, length-bytes-room b w e, write_place-some b w e)
append_loop-count string b (b' ∷ bs) p (e, k, z, c) = omega (
  arith,
  append_loop-count string b' bs p c,
  length-bytes-full b e,
  length-append (bytes b) (contents (b' ∷ bs)),
)

nil_contents : (s : Str) → s ≡ contents [] ++ s
unfolding contents
nil_contents s = refl

-- On a chain that the code builds, `copy_to_buffer` returns -1 and changes nothing if there are no
-- bytes to add; else the chain holds what it held and then the bytes, is one that the code builds,
-- and the result is the count of all bytes in it.
pub copy_to_buffer-contents :
    (bs : Chain) (string : Str) (p : Pool)
    → IsChain bs
    → (contents (copy_to_buffer bs string p).1 ≡ contents bs ++ string)
      × IsChain (copy_to_buffer bs string p).1
      × ((copy_to_buffer bs string p).0
          ≡ unless_nil string (length (contents (copy_to_buffer bs string p).1)))
unfolding copy_to_buffer
copy_to_buffer-contents bs [] p h = (sym (append-nil _), h, refl)
copy_to_buffer-contents [] (c ∷ string) p h =
    let b0 = (get_buffer_block p).0 in
    let (buf, fresh) = get_buffer_block-reset p in
    let ok : IsChain (b0 ∷ []) = rw fresh (0, refl, omega arith, omega arith) in
    let empty : contents (b0 ∷ []) ≡ [] = rw fresh (unfold contents bytes seg in refl) in
    let p' = (get_buffer_block p).1 in
    let r = append_loop-Wrote (c ∷ string) b0 [] p' ok in
    let holds = r.holds ∙ ap (λ l. l ++ c ∷ string) empty in
    (
      holds ∙ nil_contents (c ∷ string),
      r.chain,
      ap some (
          append_loop-count (c ∷ string) b0 [] p' ok
          ∙ (omega (arith, ap length r.holds, length-append (contents (b0 ∷ [])) (c ∷ string)))),
    )
copy_to_buffer-contents (b ∷ bs) (c ∷ string) p h =
    let r = append_loop-Wrote (c ∷ string) b bs p h in
    (
      r.holds,
      r.chain,
      ap some (
          append_loop-count (c ∷ string) b bs p h
          ∙ (omega (arith, ap length r.holds, length-append (contents (b ∷ bs)) (c ∷ string)))),
    )
