-- ===== src/Examples/Packages.antt =====
-- Three bytes in chunks of two, with a hash that counts.
use commandment.Base.{ℕ, ◌≡◌, refl, String, some, List, [], ◌∷◌, map, arith}
use commandment.Pkg.Chunks.{blow_chunks, AreChunks, blow_chunks-AreChunks}

abbrev count : List ℕ → String
count [] = "none"
count (b ∷ []) = "one"
count (a ∷ b ∷ []) = "two"
count bytes = "more"

abbrev file : List ℕ
file = 7 ∷ 8 ∷ 9 ∷ []

three_bytes : blow_chunks count 2 file ≡ some ("more", "two" ∷ "one" ∷ [])
unfolding blow_chunks
three_bytes = refl

blow_chunks-AreChunks_example :
    (pieces : List (List ℕ)) × (blow_chunks count 2 file ≡ some (count file, map count pieces))
    × AreChunks 2 file pieces
blow_chunks-AreChunks_example = blow_chunks-AreChunks count file 2 (omega arith)
