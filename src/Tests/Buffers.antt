-- ===== src/Tests/Buffers.antt =====
-- A buffer of five bytes, indexed.
use libuv_rs.Common.{ℕ, ◌<◌, ◌≡◌, refl, Option, some, List, [], ◌∷◌}
use libuv_rs.Buf.{included, excluded, range_from_readonlybuf, Between, range_from_readonlybuf_lem}

abbrev five : Option (List ℕ)
five = some (10 ∷ 11 ∷ 12 ∷ 13 ∷ 14 ∷ [])

from_one_to_four : range_from_readonlybuf five (included 1) (excluded 4) ≡ some (11 ∷ 12 ∷ 13 ∷ [])
unfolding range_from_readonlybuf
from_one_to_four = refl

range_from_readonlybuf_lem_example :
    Between (10 ∷ 11 ∷ 12 ∷ 13 ∷ 14 ∷ []) 1 4 (11 ∷ 12 ∷ 13 ∷ []) × (4 < 5)
range_from_readonlybuf_lem_example =
    range_from_readonlybuf_lem five (included 1) (excluded 4) (11 ∷ 12 ∷ 13 ∷ []) from_one_to_four
