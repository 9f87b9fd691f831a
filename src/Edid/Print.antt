-- ===== src/Edid/Print.antt =====
-- What showedid prints of the bits and packed numbers of an EDID block.
use uefi_utilities.Base.{ℕ, ◌+◌, ◌*◌, ◌/◌, ◌%◌, ◌<◌, ◌≡◌, [], ◌∷◌, arith, ◌==◌, if◌then◌else◌}
use uefi_utilities.Edid.{
  Block, check_bit, display_of, undefined, monochrome, syncronization, blank_to_back_setup,
  separate_sync, composite_sync, sync_on_green, serration_vsync, print_syncronization,
  manufacturer_abbrev, det_timing_hsize, det_timing_vsize,
}

check_bit-odd : (var pos : ℕ) → check_bit var pos ≡ (var % 2 == 1)
unfolding check_bit
check_bit-odd var pos = ground arith

-- The display type that is printed depends on the lowest bit alone, though it is coded in the bits
-- 3 and 4: it is never "RGB color" or "Non-RGB multicolor".
pub display_of-odd : (tmp : ℕ) → display_of tmp ≡ (if tmp % 2 == 1 then undefined else monochrome)
unfolding display_of
display_of-odd tmp = ground (arith, check_bit-odd tmp 3, check_bit-odd tmp 4)

-- The synchronisation line names all five kinds or none, again by the lowest bit alone.
pub print_syncronization-odd :
    (tmp : ℕ)
    → print_syncronization tmp ≡ (
        if tmp % 32 == 0
        then []
        else syncronization (
            if tmp % 2 == 1
            then blank_to_back_setup ∷ separate_sync ∷ composite_sync ∷ sync_on_green
              ∷ serration_vsync ∷ []
            else [])
          ∷ [])
unfolding print_syncronization
print_syncronization-odd tmp =
    rw
      (
        check_bit-odd tmp 0,
        check_bit-odd tmp 1,
        check_bit-odd tmp 2,
        check_bit-odd tmp 3,
        check_bit-odd tmp 4,
      )
      (ground arith)

-- Three letters, each coded by its place in the alphabet in five bits, are printed as they were
-- coded.
pub manufacturer_abbrev-letters :
    (l1 l2 l3 : ℕ)
    → l1 < 32
    → l2 < 32
    → l3 < 32
    → manufacturer_abbrev (l1 * 4 + l2 / 8) (l2 % 8 * 32 + l3)
      ≡ (l1 + 64) ∷ (l2 + 64) ∷ (l3 + 64) ∷ []
unfolding manufacturer_abbrev
manufacturer_abbrev-letters l1 l2 l3 h1 h2 h3 = ground arith

-- Two numbers below 4096 are stored with their low bytes in the bytes 12 and 13 of a timing block
-- and their high digits in the halves of the byte 14. Then they are the image sizes.
pub det_timing-sizes :
    (b : Block) (dtb h v : ℕ)
    → h < 4096
    → v < 4096
    → b (dtb + 12) ≡ h % 256
    → b (dtb + 13) ≡ v % 256
    → b (dtb + 14) ≡ h / 256 * 16 + v / 256
    → (det_timing_hsize b dtb ≡ h) × (det_timing_vsize b dtb ≡ v)
unfolding det_timing_hsize det_timing_vsize
det_timing-sizes b dtb h v small_h small_v e12 e13 e14 = ground arith
