-- ===== src/Checksum/Tests.antt =====
-- `in_cksum` on small blocks.
use cpe464_program.Common.{List, [], refl, ℕ, ◌∷◌, ◌≡◌}
use cpe464_program.Checksum.{in_cksum}

abbrev sealed_header : List ℕ
sealed_header = 0 ∷ 0 ∷ 0 ∷ 3 ∷ 239 ∷ 252 ∷ 16 ∷ []

empty_fails : in_cksum [] ≡ 65535
unfolding in_cksum
empty_fails = refl

sealed_header_verifies : in_cksum sealed_header ≡ 0
unfolding in_cksum
sealed_header_verifies = refl
