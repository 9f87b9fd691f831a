-- ===== src/Tests/Secure.antt =====
-- showsb/showsb.c and showlenovo/showlenovo.c on a firmware without SetupMode.
use uefi_utilities.Base.{
  ℕ, ◌≡◌, refl, true, Option, none, some, List, [], ◌∷◌, arith, if◌then◌else◌,
}
use uefi_utilities.Uefi.{Text, not_found}
use uefi_utilities.Secure.{
  Services, Item, build_date, build_time, simple_boot_flag, secure_boot, setup_mode, name_of, ended,
  enabled, missing, showsb_main, showlenovo_main, on_options, is_any_of, show_secure_boot,
  show_setup_mode, read, after_read, flag_line, byte_of,
}
use uefi_utilities.Secure.Reads.{
  answer, Keeps, Sized, all_items, AsAsked, ended_listing, showlenovo_main-report,
}
use uefi_utilities.Tests.Tools.{same_text, same_text_iff}

abbrev contents : Item → Option (List ℕ)
contents build_date = some (b'1' ∷ b'2' ∷ [])
contents build_time = some (b'9' ∷ [])
contents simple_boot_flag = some (0 ∷ [])
contents secure_boot = some (1 ∷ [])
contents setup_mode = none

abbrev named : Text → Option (List ℕ)
named text =
    if same_text text (name_of build_date)
    then contents build_date
    else if same_text text (name_of build_time)
    then contents build_time
    else if same_text text (name_of simple_boot_flag)
    then contents simple_boot_flag
    else if same_text text (name_of secure_boot)
    then contents secure_boot
    else none

abbrev services : Services
services = record {
  get_variable = λ vendor text size. answer (named text) size;
  same_text = same_text;
  same_text_iff = same_text_iff;
  gives = λ size. true;
}

keeps : Keeps services contents
keeps build_date size = refl
keeps build_time size = refl
keeps simple_boot_flag size = refl
keeps secure_boot size = refl
keeps setup_mode size = refl

sized : Sized services contents
sized build_date = (omega arith, omega arith)
sized build_time = (omega arith, omega arith)
sized simple_boot_flag = refl
sized secure_boot = refl
sized setup_mode = tt

abbrev verbose : List Text
verbose = [] ∷ (b'-' ∷ b'v' ∷ []) ∷ []

printed :
    showsb_main services 7 verbose ≡ ended not_found (enabled secure_boot ∷ missing setup_mode ∷ [])
unfolding showsb_main on_options is_any_of show_secure_boot show_setup_mode read after_read
    flag_line byte_of
printed = refl

showlenovo_main-report_example :
    AsAsked verbose (ended_listing services contents all_items) (showlenovo_main services 7 verbose)
showlenovo_main-report_example = showlenovo_main-report services contents 7 verbose keeps sized
