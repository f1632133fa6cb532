-- ===== src/Buffer/Contents.antt =====
-- What a chain of buffer blocks holds, and which chains the code builds.
use undernet_cservice_p.Prelude.{
  ℕ, zero, suc, ◌+◌, ◌-◌, ◌≤◌, ◌<◌, ◌≡◌, refl, ap, Option, none, some, List, [], ◌∷◌, ◌++◌, Str,
  length, arith,
}
use undernet_cservice_p.Buffer.{buffer_block_size, BufferBlock, Chain, store}

-- `n` bytes of an array from place `i` on.
unfoldable pub seg : (ℕ → ℕ) → ℕ → ℕ → Str
seg f i zero = []
seg f i (suc n) = f i ∷ seg f (suc i) n

abbrev pub write_end : Option ℕ → ℕ
write_end none = buffer_block_size
write_end (some w) = w

-- The bytes of a block that are written and not yet read.
unfoldable pub bytes : BufferBlock → Str
bytes b = seg b.buf b.offset_read (write_end b.offset_write - b.offset_read)

unfoldable pub contents : Chain → Str
contents [] = []
contents (b ∷ bs) = bytes b ++ contents bs

-- The last block has room; every other is full, and those behind the first are unread.
abbrev pub IsChain : Chain → Type 0
IsChain [] = Unit
IsChain (b ∷ []) =
    (w : ℕ) × (b.offset_write ≡ some w) × (b.offset_read ≤ w) × (w < buffer_block_size)
IsChain (b ∷ b' ∷ bs) =
    (b.offset_write ≡ none)
    × (b.offset_read < buffer_block_size)
    × (b'.offset_read ≡ 0)
    × IsChain (b' ∷ bs)

-- What is returned for an empty list, -1, or else `n`.
abbrev pub unless_nil {ℓ} : {A : Type ℓ} → List A → ℕ → Option ℕ
unless_nil [] n = none
unless_nil (x ∷ xs) n = some n

pub length-seg : (f : ℕ → ℕ) (i n : ℕ) → length (seg f i n) ≡ n
unfolding seg
length-seg f i zero = refl
length-seg f i (suc n) = ap suc (length-seg f (suc i) n)

pub seg_snoc : (f : ℕ → ℕ) (i n : ℕ) → seg f i (suc n) ≡ seg f i n ++ f (i + n) ∷ []
unfolding seg
seg_snoc f i zero = let e : i ≡ i + 0 = omega arith in ap (λ k. f k ∷ []) e
seg_snoc f i (suc n) =
    let e : suc i + n ≡ i + suc n = omega arith in
    ap (λ l. f i ∷ l) (rw (← e) (seg_snoc f (suc i) n))

pub seg-store : (f : ℕ → ℕ) (w c i n : ℕ) → i + n ≤ w → seg (store f w c) i n ≡ seg f i n
unfolding seg
seg-store f w c i zero h = refl
seg-store f w c i (suc n) h = ground (arith, seg-store f w c (suc i) n)
