-- ===== src/Edid/Valid.antt =====
-- Which EDID blocks showedid accepts.
use uefi_utilities.Base.{
  ℕ, zero, suc, ◌+◌, ◌%◌, ◌≤◌, ◌<◌, ◌≡◌, ◌↔◌, ◌≢◌, ◌⊎◌, not, ◌&&◌, ◌||◌, List, [], ◌∷◌, arith, ltb,
  ◌==◌, if◌then◌else◌, length,
}
use uefi_utilities.Edid.{
  Block, edid_length, edid_header, checksum_loop, header_loop, check_for_valid_edid,
}
use uefi_utilities.Edid.DataBlock

-- The sum of `n` bytes from `i` on.
abbrev pub sum_from : Block → ℕ → ℕ → ℕ
sum_from b zero i = 0
sum_from b (suc n) i = b i + sum_from b n (i + 1)

abbrev pub Agrees : Block → List ℕ → ℕ → Type 0
Agrees b [] i = Unit
Agrees b (h ∷ hs) i = (b i ≡ h) × Agrees b hs (i + 1)

checksum_loop-sum :
    (b : Block) (n i checksum : ℕ)
    → checksum < 256
    → checksum_loop b n i checksum ≡ (checksum + sum_from b n i) % 256
unfolding checksum_loop
checksum_loop-sum b zero i checksum small = omega arith
checksum_loop-sum b (suc n) i checksum small =
    omega (arith, checksum_loop-sum b n (i + 1) ((checksum + b i) % 256) (omega arith))

header_loop-bounds :
    (b : Block) (hs : List ℕ) (i checksum : ℕ) → header_loop b hs i checksum ≤ checksum + length hs
unfolding header_loop
header_loop-bounds b [] i checksum = omega arith
header_loop-bounds b (h ∷ hs) i checksum = ground (
  arith,
  header_loop-bounds b hs (i + 1) checksum,
  header_loop-bounds b hs (i + 1) (checksum + 1),
)

header_loop-Agrees :
    (b : Block) (hs : List ℕ) (i checksum : ℕ)
    → (header_loop b hs i checksum ≡ checksum + length hs) ↔ Agrees b hs i
unfolding header_loop
header_loop-Agrees b [] i checksum = ground arith
header_loop-Agrees b (h ∷ hs) i checksum = ground (
  arith,
  header_loop-bounds b hs (i + 1) checksum,
  header_loop-Agrees b hs (i + 1) (checksum + 1),
)

-- The tests of the check, on what its loops have left.
abbrev verdict : ℕ → ℕ → ℕ → ℕ → ℕ → ℕ
verdict checksum first agreeing version revision =
    if not (checksum == 0)
    then 1
    else if (first == 0) && not (agreeing == 8)
    then 1
    else if not (version == 1) || ltb 4 revision
    then 1
    else 0

verdict-zero :
    (checksum first agreeing version revision sum : ℕ) {P : Type 0}
    → checksum ≡ (0 + sum) % 256
    → (agreeing ≡ 8) ↔ P
    → (verdict checksum first agreeing version revision ≡ 0)
      ↔ ((sum % 256 ≡ 0) × ((first ≢ 0) ⊎ P) × (version ≡ 1) × (revision ≤ 4))
verdict-zero checksum first agreeing version revision sum e header = ground arith

-- A block is accepted exactly when its 128 bytes sum to a multiple of 256, it has the whole header
-- if its first byte is 0, its version is 1 and its revision at most 4.
pub check_for_valid_edid-zero :
    (b : Block)
    → (check_for_valid_edid b ≡ 0) ↔ (
        (sum_from b edid_length 0 % 256 ≡ 0)
        × ((b 0 ≢ 0) ⊎ Agrees b edid_header 0)
        × (b DataBlock.edid_version ≡ 1)
        × (b DataBlock.edid_revision ≤ 4))
unfolding check_for_valid_edid
check_for_valid_edid-zero b =
    verdict-zero _ (b 0) _ (b DataBlock.edid_version) (b DataBlock.edid_revision) _
      (checksum_loop-sum b edid_length 0 0 (omega arith)) (header_loop-Agrees b edid_header 0 0)
