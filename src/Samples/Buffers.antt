-- ===== src/Samples/Buffers.antt =====
-- Chains of buffer blocks.
use Prim.Native.Nat.{min}
use undernet_cservice_p.Prelude.{
  ◌+◌, ◌≡◌, refl, some, [], ◌∷◌, ◌++◌, codes, length, take, drop, arith,
}
use undernet_cservice_p.Buffer.{
  BufferBlock, Chain, Pool, copy_to_buffer, copy_from_buffer, look_in_buffer, find_char_in_buffer,
  skip_char_in_buffer, zap_buffer,
}
use undernet_cservice_p.Buffer.Contents.{contents, IsChain, unless_nil}
use undernet_cservice_p.Buffer.Writing.{copy_to_buffer-contents}
use undernet_cservice_p.Buffer.Reading.{
  up_to, Took, IsCounted, copy_from_buffer-Took, skip_char_in_buffer-drop, zap_buffer-counts,
}
use undernet_cservice_p.Buffer.Looking.{has, look_in_buffer-up_to, find_char_in_buffer-has}

abbrev block : BufferBlock
block = record { buf = λ i. i; offset_read = 2; offset_write = some 7 }

abbrev pool : Pool
pool = record { avail = []; nb_avail = 0; nb_alloc = 1; raw = λ i. 0 }

abbrev chain : Chain
chain = block ∷ []

chain-IsChain : IsChain chain
chain-IsChain = (7, refl, omega arith, omega arith)

copy_to_buffer-contents_example :
    (contents (copy_to_buffer chain (codes "ab") pool).1 ≡ contents chain ++ codes "ab")
    × IsChain (copy_to_buffer chain (codes "ab") pool).1
    × ((copy_to_buffer chain (codes "ab") pool).0
        ≡ unless_nil (codes "ab") (length (contents (copy_to_buffer chain (codes "ab") pool).1)))
copy_to_buffer-contents_example = copy_to_buffer-contents chain (codes "ab") pool chain-IsChain

copy_from_buffer-Took_example :
    Took 5 10 (contents chain) (copy_from_buffer chain 5 10 pool).1
    × ((copy_from_buffer chain 5 10 pool).0
        ≡ unless_nil chain (length (copy_from_buffer chain 5 10 pool).1.string))
copy_from_buffer-Took_example = copy_from_buffer-Took chain 5 10 pool chain-IsChain

copy_from_buffer_test : (copy_from_buffer chain 5 10 pool).1.string ≡ 2 ∷ 3 ∷ 4 ∷ 5 ∷ []
unfolding copy_from_buffer
copy_from_buffer_test = refl

skip_char_in_buffer-drop_example :
    (l : Chain) × (q : Pool) × (skip_char_in_buffer chain 3 pool
      ≡ some (min 3 (length (contents chain)), l, q))
    × (contents l ≡ drop 3 (contents chain))
    × IsChain l
skip_char_in_buffer-drop_example = skip_char_in_buffer-drop block [] 3 pool chain-IsChain

zap_buffer-counts_example :
    ((zap_buffer chain pool).0 ≡ [])
    × IsCounted (zap_buffer chain pool).1
    × ((zap_buffer chain pool).1.nb_avail ≡ pool.nb_avail + length chain)
    × ((zap_buffer chain pool).1.nb_alloc + length chain ≡ pool.nb_alloc)
zap_buffer-counts_example = zap_buffer-counts chain pool refl (omega arith)

look_in_buffer-up_to_example :
    ((look_in_buffer chain 5 10 pool).0
      ≡ unless_nil chain (length (look_in_buffer chain 5 10 pool).1.string))
    × ((look_in_buffer chain 5 10 pool).1.string ≡ up_to 5 10 (contents chain))
    × (contents (look_in_buffer chain 5 10 pool).1.rest ≡ contents chain)
    × IsChain (look_in_buffer chain 5 10 pool).1.rest
look_in_buffer-up_to_example = look_in_buffer-up_to chain 5 10 pool chain-IsChain

find_char_in_buffer-has_example : find_char_in_buffer chain 6 4 ≡ has 6 (take 5 (contents chain))
find_char_in_buffer-has_example = find_char_in_buffer-has chain 6 4 chain-IsChain
