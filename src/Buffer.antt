-- ===== src/Buffer.antt =====
-- Sources/buffer.c: chains of buffer blocks, and the pool of free blocks.
pub mod Contents
pub mod Writing
pub mod Reading
pub mod Looking
use undernet_cservice_p.Prelude.{
  ℕ, zero, suc, ◌+◌, ◌-◌, Bool, true, false, ◌&&◌, not, Option, none, some, List, [], ◌∷◌, ◌==◌,
  ltb, if◌then◌else◌, Str, length,
}

-- BUFFER_BLOCK_SIZE
abbrev pub buffer_block_size : ℕ
buffer_block_size = 512

-- `offset_write` is none where the code stores -1, in a block that is full. The `next` pointers
-- are the order of a list of blocks.
pub record BufferBlock : Type 0 where
  pub buf : ℕ → ℕ
  pub offset_read : ℕ
  pub offset_write : Option ℕ

-- A `struct buffer_block *` that may be NULL.
abbrev pub Chain : Type 0
Chain = List BufferBlock

-- The list `avail` and the two counters; `raw` is what memory from malloc() holds.
pub record Pool : Type 0 where
  pub avail : Chain
  pub nb_avail : ℕ
  pub nb_alloc : ℕ
  pub raw : ℕ → ℕ

abbrev pub reset : (ℕ → ℕ) → BufferBlock
reset buf = record { buf = buf; offset_read = 0; offset_write = some 0 }

abbrev take_avail : Chain → Pool → BufferBlock × Pool
take_avail [] p = (reset p.raw, record p { nb_alloc = p.nb_alloc + 1 })
take_avail (b ∷ bs) p =
    (reset b.buf, record p { avail = bs; nb_avail = p.nb_avail - 1; nb_alloc = p.nb_alloc + 1 })

unfoldable pub get_buffer_block : Pool → BufferBlock × Pool
get_buffer_block p = take_avail p.avail p

unfoldable pub return_buffer_block : BufferBlock → Pool → Pool
return_buffer_block b p = record p {
  avail = b ∷ p.avail;
  nb_avail = p.nb_avail + 1;
  nb_alloc = p.nb_alloc - 1;
}

-- (*block)->offset_read + offset == (*block)->offset_write
abbrev pub at_write : ℕ → Option ℕ → Bool
at_write i none = false
at_write i (some w) = i == w

-- A byte equal to a `stop` that is not '\0'.
abbrev pub stops : ℕ → ℕ → Bool
stops stop c = not (stop == 0) && stop == c

-- What a read leaves: the bytes that it copied, the chain and the pool.
pub record Taken : Type 0 where
  pub string : Str
  pub rest : Chain
  pub pool : Pool

abbrev pub put_byte : ℕ → Taken → Taken
put_byte c t = record t { string = c ∷ t.string }

-- The loop of `copy_from_buffer` over the bytes that may still be read.
unfoldable pub copy_from_loop : ℕ → ℕ → Chain → Pool → Taken
unfolding return_buffer_block
copy_from_loop stop zero bs p = record { string = []; rest = bs; pool = p }
copy_from_loop stop (suc n) [] p = record { string = []; rest = []; pool = p }
copy_from_loop stop (suc n) (b ∷ bs) p =
    let c = b.buf b.offset_read in
    let full = suc b.offset_read == buffer_block_size in
    let b' = record b { offset_read = suc b.offset_read } in
    let rest = if full then bs else b' ∷ bs in
    let pool = if full then return_buffer_block b' p else p in
    let more = copy_from_loop stop n rest pool in
    if at_write b.offset_read b.offset_write
    then record { string = []; rest = bs; pool = return_buffer_block b p }
    else if stops stop c
    then record { string = c ∷ []; rest = rest; pool = pool }
    else put_byte c more

-- The result is -1, here none, on a NULL chain, and else the count of bytes, which are `string`.
unfoldable pub copy_from_buffer : Chain → ℕ → ℕ → Pool → Option ℕ × Taken
unfolding copy_from_loop
copy_from_buffer [] stop max p = (none, record { string = []; rest = []; pool = p })
copy_from_buffer (b ∷ bs) stop max p =
    let t = copy_from_loop stop max (b ∷ bs) p in (some (length t.string), t)

-- The loop of `look_in_buffer`, `offset` bytes into the first block.
unfoldable pub look_in_loop : ℕ → ℕ → ℕ → Chain → Str
look_in_loop stop zero offset bs = []
look_in_loop stop (suc n) offset [] = []
look_in_loop stop (suc n) offset (b ∷ bs) =
    let c = b.buf (b.offset_read + offset) in
    let full = b.offset_read + suc offset == buffer_block_size in
    let more = look_in_loop stop n (if full then 0 else suc offset) (if full then bs else b ∷ bs) in
    if at_write (b.offset_read + offset) b.offset_write
    then []
    else if stops stop c
    then c ∷ []
    else c ∷ more

unfoldable pub look_in_buffer : Chain → ℕ → ℕ → Pool → Option ℕ × Taken
unfolding look_in_loop return_buffer_block
look_in_buffer [] stop max p = (none, record { string = []; rest = []; pool = p })
look_in_buffer (b ∷ bs) stop max p =
    if at_write b.offset_read b.offset_write
    then (some 0, record { string = []; rest = []; pool = return_buffer_block b p })
    else let s = look_in_loop stop max 0 (b ∷ bs) in
      (some (length s), record { string = s; rest = b ∷ bs; pool = p })

abbrev pub store : (ℕ → ℕ) → ℕ → ℕ → ℕ → ℕ
store buf i c j = if i == j then c else buf j

-- (*block)->buf[(*block)->offset_write++] = c, at a place `w`
abbrev pub write_at : BufferBlock → ℕ → ℕ → BufferBlock
write_at b w c = record b { buf = store b.buf w c; offset_write = some (suc w) }

-- The loop of `copy_to_buffer` from the last block on, whose place to write is `w`.
unfoldable pub write_loop : Str → BufferBlock → ℕ → Pool → Chain × Pool
unfolding get_buffer_block
write_loop [] b w p = (b ∷ [], p)
write_loop (c ∷ string) b w p =
    let full : Chain × Pool =
      let (fresh, p') = get_buffer_block p in
      let (bs, p'') = write_loop string fresh 0 p' in
      (record (write_at b w c) { offset_write = none } ∷ bs, p'') in
    let room = write_loop string (write_at b w c) (suc w) p in
    if suc w == buffer_block_size then full else room

abbrev pub write_place : BufferBlock → ℕ
write_place b = elim b.offset_write [ none ↦ 0 | some w ↦ w ]

-- The walk to the last block, which counts the bytes on its way, and the writes there.
unfoldable pub append_loop : Str → BufferBlock → Chain → Pool → ℕ × Chain × Pool
unfolding write_loop
append_loop string b [] p =
    let (bs, p') = write_loop string b (write_place b) p in
    (write_place b - b.offset_read + length string, bs, p')
append_loop string b (b' ∷ bs) p =
    let (count, rest, p') = append_loop string b' bs p in
    (buffer_block_size - b.offset_read + count, b ∷ rest, p')

-- `string` is its first `length` bytes; the result is -1, here none, if that is 0 or less.
unfoldable pub copy_to_buffer : Chain → Str → Pool → Option ℕ × Chain × Pool
unfolding append_loop get_buffer_block
copy_to_buffer bs [] p = (none, bs, p)
copy_to_buffer [] (c ∷ string) p =
    let (b, p') = get_buffer_block p in
    let (count, rest, p'') = append_loop (c ∷ string) b [] p' in (some count, rest, p'')
copy_to_buffer (b ∷ bs) (c ∷ string) p =
    let (count, rest, p') = append_loop (c ∷ string) b bs p in (some count, rest, p')

unfoldable pub zap_buffer : Chain → Pool → Chain × Pool
unfolding return_buffer_block
zap_buffer [] p = ([], p)
zap_buffer (b ∷ bs) p = zap_buffer bs (return_buffer_block b p)

-- The `goto loop` of `find_char_in_buffer`, on the bytes that may still be passed over.
unfoldable pub find_char_loop : ℕ → ℕ → ℕ → Chain → Bool
find_char_loop findit n offset [] = false
find_char_loop findit zero offset (b ∷ bs) =
    not (at_write offset b.offset_write) && findit == b.buf offset
find_char_loop findit (suc n) offset (b ∷ bs) =
    let full = suc offset == buffer_block_size in
    let more =
      find_char_loop findit n (if full then 0 else suc offset) (if full then bs else b ∷ bs) in
    if at_write offset b.offset_write then false else if findit == b.buf offset then true else more

unfoldable pub find_char_in_buffer : Chain → ℕ → ℕ → Bool
unfolding find_char_loop
find_char_in_buffer [] findit max = false
find_char_in_buffer (b ∷ bs) findit max = find_char_loop findit max b.offset_read (b ∷ bs)

-- The loop of `skip_char_in_buffer`: how many bytes were passed over, and what is left.
unfoldable pub skip_loop : ℕ → BufferBlock → Chain → Pool → ℕ × Chain × Pool
unfolding return_buffer_block
skip_loop zero b bs p = (0, b ∷ bs, p)
skip_loop (suc n) b bs p =
    let b' = record b { offset_read = suc b.offset_read } in
    let next : Chain → ℕ × Chain × Pool = λ rest. elim rest [
      | [] ↦ (1, [], return_buffer_block b' p)
      | x ∷ xs ↦ let (k, r, q) = skip_loop n x xs (return_buffer_block b' p) in (suc k, r, q)
    ] in
    let on : ℕ × Chain × Pool = let (k, r, q) = skip_loop n b' bs p in (suc k, r, q) in
    if at_write b.offset_read b.offset_write
    then (0, bs, return_buffer_block b p)
    else if suc b.offset_read == buffer_block_size
    then next bs
    else on

-- none where the code follows a NULL pointer.
unfoldable pub skip_char_in_buffer : Chain → ℕ → Pool → Option (ℕ × Chain × Pool)
unfolding skip_loop
skip_char_in_buffer bs zero p = some (0, bs, p)
skip_char_in_buffer [] (suc n) p = none
skip_char_in_buffer (b ∷ bs) (suc n) p = some (skip_loop (suc n) b bs p)
