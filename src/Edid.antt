-- ===== src/Edid.antt =====
-- showedid/showedid.c and showedid/efi_edid.h: the check of an EDID block and what is printed of it.
-- A block is the memory behind the pointer, a function from offsets to bytes.
use uefi_utilities.Base.{
  ℕ, zero, suc, ◌+◌, ◌-◌, ◌*◌, ◌/◌, ◌%◌, ◌^◌, Bool, true, false, not, ◌&&◌, ◌||◌, List, [], ◌∷◌,
  ◌++◌, ltb, leb, ◌==◌, if◌then◌else◌, get_or,
}
pub mod DataBlock
pub mod Valid
pub mod Print
pub mod Decimal
pub mod Float
pub mod Main

abbrev pub Block : Type 0
Block = ℕ → ℕ

-- A UINT16 and a UINT32 of the structure, on a little-endian machine.
abbrev pub uint16_at : Block → ℕ → ℕ
uint16_at b i = b i + 256 * b (i + 1)

abbrev pub uint32_at : Block → ℕ → ℕ
uint32_at b i = uint16_at b i + 65536 * uint16_at b (i + 2)

abbrev pub edid_length : ℕ
edid_length = 128

abbrev pub edid_header : List ℕ
edid_header = 0 ∷ 255 ∷ 255 ∷ 255 ∷ 255 ∷ 255 ∷ 255 ∷ 0 ∷ []

-- `for (i = 0; i < EDID_LENGTH; i++) checksum += edid[i]`, `checksum` a UINT8, with `left` passes left.
unfoldable pub checksum_loop : Block → ℕ → ℕ → ℕ → ℕ
checksum_loop b zero i checksum = checksum
checksum_loop b (suc left) i checksum = checksum_loop b left (i + 1) ((checksum + b i) % 256)

-- The loop over `EdidHeader` counts the bytes that agree.
unfoldable pub header_loop : Block → List ℕ → ℕ → ℕ → ℕ
header_loop b [] i checksum = checksum
header_loop b (h ∷ hs) i checksum =
    header_loop b hs (i + 1) (if b i == h then checksum + 1 else checksum)

unfoldable pub check_for_valid_edid : Block → ℕ
unfolding checksum_loop header_loop
check_for_valid_edid b =
    if not (checksum_loop b edid_length 0 0 == 0)
    then 1
    else if (b 0 == 0) && not (header_loop b edid_header 0 0 == 8)
    then 1
    else if not (b DataBlock.edid_version == 1) || ltb 4 (b DataBlock.edid_revision)
    then 1
    else 0

-- `((var) & (1<<(pos)) == (1<<(pos)))`: C compares first, and `&` with its 0 or 1 is a
-- product with the lowest bit.
unfoldable pub check_bit : ℕ → ℕ → Bool
check_bit var pos = let mask = if 2 ^ pos == 2 ^ pos then 1 else 0 in not (var % 2 * mask == 0)

-- `EDID_COMBINE_HI_8LO`: the shifted byte and a byte have no common bit, so `|` is `+`.
abbrev pub combine_hi_8lo : ℕ → ℕ → ℕ
combine_hi_8lo hi lo = 256 * hi + lo

-- The three characters of `mcode`.
unfoldable pub manufacturer_abbrev : ℕ → ℕ → List ℕ
manufacturer_abbrev b0 b1 =
    let h = combine_hi_8lo b0 b1 in
    (h / 1024 % 32 + b'A' - 1) ∷ (h / 32 % 32 + b'A' - 1) ∷ (h % 32 + b'A' - 1) ∷ []

-- `EDID_DET_TIMING_HSIZE` and `EDID_DET_TIMING_VSIZE` at a block's offset.
unfoldable pub det_timing_hsize : Block → ℕ → ℕ
det_timing_hsize b p = b (p + 12) + b (p + 14) / 16 * 16 * 16

unfoldable pub det_timing_vsize : Block → ℕ → ℕ
det_timing_vsize b p = b (p + 13) + b (p + 14) % 16 * 256

pub data Sync : Type 0 where
  blank_to_back_setup separate_sync composite_sync sync_on_green serration_vsync : Sync

pub data Display : Type 0 where
  undefined rgb_color non_rgb_multicolor monochrome : Display

-- A printed line with its values; `gamma` has the byte that `DisplayGammaString` turns to a text.
pub data Line : Type 0 where
  edid_version edid_revision product_id serial_number manufacture_week manufacture_year : ℕ → Line
  vendor_abbreviation : List ℕ → Line
  video_input_analog video_input_digital : Line
  syncronization : List Sync → Line
  display_type : Display → Line
  max_horizonal_size max_vertical_size gamma : ℕ → Line
  horizonal_image_size vertical_image_size size_by_size : ℕ → Line
  horizontal_border vertical_border : ℕ → Line

unfoldable pub print_detailed_timing_block : Block → ℕ → List Line
unfolding det_timing_hsize det_timing_vsize
print_detailed_timing_block b dtb =
    horizonal_image_size (det_timing_hsize b dtb)
    ∷ vertical_image_size (det_timing_vsize b dtb)
    ∷ size_by_size (b (dtb + 14))
    ∷ horizontal_border (b (dtb + 15))
    ∷ vertical_border (b (dtb + 16))
    ∷ []

abbrev pub if_bit : ℕ → ℕ → Sync → List Sync
if_bit tmp pos name = if check_bit tmp pos then name ∷ [] else []

unfoldable pub print_syncronization : ℕ → List Line
print_syncronization tmp =
    if tmp % 32 == 0
    then []
    else syncronization (
        if_bit tmp 4 blank_to_back_setup
        ++ (if_bit tmp 3 separate_sync
            ++ (if_bit tmp 2 composite_sync
                ++ (if_bit tmp 1 sync_on_green ++ if_bit tmp 0 serration_vsync))))
      ∷ []

unfoldable pub display_of : ℕ → Display
display_of tmp =
    if check_bit tmp 3 && check_bit tmp 4
    then undefined
    else if check_bit tmp 3
    then rgb_color
    else if check_bit tmp 4
    then non_rgb_multicolor
    else monochrome

unfoldable pub print_edid : Block → List Line
unfolding manufacturer_abbrev print_syncronization display_of print_detailed_timing_block
print_edid b =
    (edid_version (b DataBlock.edid_version)
      ∷ edid_revision (b DataBlock.edid_revision)
      ∷ vendor_abbreviation
          (manufacturer_abbrev (b DataBlock.manufacture_name) (b (DataBlock.manufacture_name + 1)))
      ∷ product_id (uint16_at b DataBlock.product_code)
      ∷ serial_number (uint32_at b DataBlock.serial_number)
      ∷ manufacture_week (b DataBlock.week_of_manufacture)
      ∷ manufacture_year (b DataBlock.year_of_manufacture + 1990)
      ∷ (if check_bit (b DataBlock.video_input_definition) 7
          then video_input_analog
          else video_input_digital)
      ∷ [])
    ++ (print_syncronization (b DataBlock.video_input_definition)
        ++ (display_type (display_of (b DataBlock.dpm_support))
            ∷ max_horizonal_size (b DataBlock.max_horizontal_image_size)
            ∷ max_vertical_size (b DataBlock.max_vertical_image_size)
            ∷ gamma (b DataBlock.display_gamma)
            ∷ print_detailed_timing_block b DataBlock.description_block_1))
