-- ===== src/Edid/DataBlock.antt =====
-- The members of EDID_DATA_BLOCK in showedid/efi_edid.h that showedid reads, at their offsets in the
-- packed structure.
use uefi_utilities.Base.{ℕ}

abbrev pub manufacture_name : ℕ
manufacture_name = 8

abbrev pub product_code : ℕ
product_code = 10

abbrev pub serial_number : ℕ
serial_number = 12

abbrev pub week_of_manufacture : ℕ
week_of_manufacture = 16

abbrev pub year_of_manufacture : ℕ
year_of_manufacture = 17

abbrev pub edid_version : ℕ
edid_version = 18

abbrev pub edid_revision : ℕ
edid_revision = 19

abbrev pub video_input_definition : ℕ
video_input_definition = 20

abbrev pub max_horizontal_image_size : ℕ
max_horizontal_image_size = 21

abbrev pub max_vertical_image_size : ℕ
max_vertical_image_size = 22

abbrev pub display_gamma : ℕ
display_gamma = 23

abbrev pub dpm_support : ℕ
dpm_support = 24

abbrev pub description_block_1 : ℕ
description_block_1 = 54
