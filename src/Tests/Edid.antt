-- ===== src/Tests/Edid.antt =====
-- showedid/showedid.c on a display, and the text of a float.
use uefi_utilities.Base.{ℕ, ◌≡◌, refl, true, [], ◌∷◌, ◌==◌, if◌then◌else◌}
use uefi_utilities.Uefi.{success, buffer_too_small}
use uefi_utilities.Edid.{Block, check_for_valid_edid, print_edid}
use uefi_utilities.Edid.Decimal.{integer_2_ascii_string, digit_loop}
use uefi_utilities.Edid.Float.{
  printed, int_text, with_decimals, frac_text, decimal_loop, float_2_ascii_string,
}
use uefi_utilities.Edid.Main.{
  Services, ended, edid, after_locate, after_second, show_located, show_displays, edid_output,
  EndsValid, showedid_main, showedid_main-EndsValid,
}

-- 2.2 is 0x400CCCCD
abbrev gamma_bits : ℕ
gamma_bits = 1074580685

text : float_2_ascii_string gamma_bits 2 ≡ printed 0 (b'2' ∷ b'.' ∷ b'2' ∷ b'0' ∷ [])
unfolding float_2_ascii_string int_text with_decimals frac_text decimal_loop integer_2_ascii_string
    digit_loop
text = refl

-- The check of the header passes a first byte that is not 0.
abbrev blank : Block
blank i = if i == 0 then 1 else if i == 18 then 1 else if i == 127 then 254 else 0

abbrev one_display : Services
one_display = record {
  Handle = ℕ;
  locate_handle = λ size. if size == 0 then (buffer_too_small, 8, []) else (success, 8, 5 ∷ []);
  gives = λ size. true;
  has_graphics = λ h. true;
  discovered_edid = λ h. (success, blank);
}

showedid_main-EndsValid_example : EndsValid (showedid_main one_display)
showedid_main-EndsValid_example = showedid_main-EndsValid one_display

shows_blank : showedid_main one_display ≡ ended success (edid (print_edid blank) ∷ [])
unfolding showedid_main after_locate after_second show_located show_displays edid_output
shows_blank =
    let valid : check_for_valid_edid blank ≡ 0 = unfold check_for_valid_edid in refl in
    rw valid refl
