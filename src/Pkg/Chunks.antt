-- ===== src/Pkg/Chunks.antt =====
-- blow_chunks of commandment/pkg/appmanifest.py. MD5 is the argument `md5`, from the bytes that a
-- hash has been updated with to its digest; the file is its bytes.
use mathlib.Core.List.{append_assoc, append-nil}
use commandment.Base.{
  ℕ, zero, suc, ◌≤◌, ◌<◌, ◌≡◌, refl, sym, ap, subst, ◌∙◌, String, Option, none, some, List, [], ◌∷◌,
  ◌++◌, map, length, length-append, All, arith, inl, inr,
}
use commandment.Python.Slices.{split_at, split_at-joined, split_at-full}

-- MD5_CHUNK_SIZE
abbrev pub md5_chunk_size : ℕ
md5_chunk_size = 10485760

-- The loop that ends at an empty chunk, at most n rounds of it.
unfoldable pub read_chunks :
    (List ℕ → String) → ℕ → ℕ → List ℕ → List ℕ → List String → Option (String × List String)
unfolding split_at
read_chunks md5 size zero file total chunks = none
read_chunks md5 size (suc n) file total chunks =
    let (chunk, rest) = split_at size file in
    let hashed = read_chunks md5 size n rest (total ++ chunk) (chunks ++ md5 chunk ∷ []) in
    elim chunk [ [] ↦ some (md5 total, chunks) | b ∷ bs ↦ hashed ]

-- A round for each byte and one for the end are enough.
unfoldable pub blow_chunks : (List ℕ → String) → ℕ → List ℕ → Option (String × List String)
unfolding read_chunks
blow_chunks md5 size file = read_chunks md5 size (suc (length file)) file [] []

abbrev pub join : List (List ℕ) → List ℕ
join [] = []
join (c ∷ cs) = c ++ join cs

-- Every piece but the last is full.
abbrev pub AreFull : ℕ → List (List ℕ) → Type 0
AreFull size [] = Unit
AreFull size (c ∷ []) = Unit
AreFull size (c ∷ d ∷ ds) = (length c ≡ size) × AreFull size (d ∷ ds)

-- The pieces of a file that the hashes are of.
pub record AreChunks (size : ℕ) (file : List ℕ) (pieces : List (List ℕ)) : Type 0 where
  pub joined : join pieces ≡ file
  pub sizes : All (λ p. (1 ≤ length p) × (length p ≤ size)) pieces
  pub full : AreFull size pieces

abbrev Blown : (List ℕ → String) → ℕ → ℕ → List ℕ → List ℕ → List String → Type 0
Blown md5 size n file total chunks =
    (pieces : List (List ℕ)) × (read_chunks md5 size n file total chunks
      ≡ some (md5 (total ++ file), chunks ++ map md5 pieces))
    × AreChunks size file pieces

no_pieces : (size : ℕ) (pieces : List (List ℕ)) → AreChunks size [] pieces → pieces ≡ []
no_pieces size [] are = refl
no_pieces size (p ∷ ps) are =
    ground (arith, are.sizes.0.0, length-append p (join ps), ap length are.joined)

AreFull-first :
    (size : ℕ) (c : List ℕ) (ps : List (List ℕ))
    → length c ≡ size
    → AreFull size ps
    → AreFull size (c ∷ ps)
AreFull-first size c [] exact full = tt
AreFull-first size c (d ∷ ds) exact full = (exact, full)

AreChunks-first :
    (size : ℕ) (file : List ℕ) (ps : List (List ℕ))
    → 1 ≤ length (split_at size file).0
    → AreChunks size (split_at size file).1 ps
    → AreChunks size file ((split_at size file).0 ∷ ps)
AreChunks-first size file ps some_byte are = elim (split_at-full size file) [
  | inl exact ↦ record {
    joined = whole;
    sizes = ((some_byte, omega (arith, exact)), are.sizes);
    full = AreFull-first size _ ps exact are.full;
  }
  | inr (short, over) ↦ record {
    joined = whole;
    sizes = ((some_byte, short), are.sizes);
    full =
        subst (λ qs. AreFull size ((split_at size file).0 ∷ qs))
          (sym (no_pieces size ps (subst (λ r. AreChunks size r ps) over are))) tt;
  }
]
  where
    whole : (split_at size file).0 ++ join ps ≡ file
    whole = ap (λ r. (split_at size file).0 ++ r) are.joined ∙ split_at-joined size file

abbrev hashes : (List ℕ → String) → List ℕ → List String → Option (String × List String)
hashes md5 total chunks = some (md5 total, chunks)

hashed_of :
    (md5 : List ℕ → String) {t t' : List ℕ} {c c' : List String}
    → t ≡ t'
    → c ≡ c'
    → hashes md5 t c ≡ hashes md5 t' c'
hashed_of md5 {t} {t'} {c} {c'} p q = ap (λ bytes. hashes md5 bytes c) p ∙ ap (hashes md5 t') q

read_chunks-Blown :
    (md5 : List ℕ → String) (k n : ℕ) (file total : List ℕ) (chunks : List String)
    → length file < n
    → Blown md5 (suc k) n file total chunks
unfolding read_chunks split_at
read_chunks-Blown md5 k zero file total chunks l = ground (arith, l)
read_chunks-Blown md5 k (suc n) [] total chunks l = (
  [],
  hashed_of md5 (sym (append-nil total)) (sym (append-nil chunks)),
  record { joined = refl; sizes = tt; full = tt },
)
read_chunks-Blown md5 k (suc n) (b ∷ file) total chunks l =
    let (c, r) = split_at k file in
    let joined = split_at-joined k file in
    let shorter : length r < n = omega (arith, l, length-append c r, ap length joined) in
    let (ps, run, are) =
      read_chunks-Blown md5 k n r (total ++ b ∷ c) (chunks ++ md5 (b ∷ c) ∷ []) shorter in
    (
      (b ∷ c) ∷ ps,
      run
          ∙ hashed_of md5 (append_assoc total (b ∷ c) r ∙ ap (λ bytes. total ++ b ∷ bytes) joined)
              (append_assoc chunks (md5 (b ∷ c) ∷ []) (map md5 ps)),
      AreChunks-first (suc k) (b ∷ file) ps (omega arith) are,
    )

-- For any chunk size above 0, blow_chunks ends, within one read more than the file has bytes, with
-- the hash of the whole file and the hashes of pieces that give the file when joined, that are
-- neither empty nor longer than the chunk size, and of which each but the last has exactly that
-- size.
pub blow_chunks-AreChunks :
    (md5 : List ℕ → String) (file : List ℕ) (size : ℕ)
    → 1 ≤ size
    → (pieces : List (List ℕ)) × (blow_chunks md5 size file ≡ some (md5 file, map md5 pieces))
      × AreChunks size file pieces
unfolding blow_chunks
blow_chunks-AreChunks md5 file zero positive = ground (arith, positive)
blow_chunks-AreChunks md5 file (suc k) positive =
    read_chunks-Blown md5 k (suc (length file)) file [] [] (omega arith)
