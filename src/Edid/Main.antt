-- ===== src/Edid/Main.antt =====
-- `efi_main` of showedid/showedid.c: the blocks of the displays that have a graphics protocol.
use uefi_utilities.Base.{
  ℕ, ◌+◌, ◌/◌, ◌≡◌, refl, Bool, true, false, Bool-cases, ==_iff, inl, inr, List, [], ◌∷◌, ◌++◌,
  ◌==◌, ltb, take, if◌then◌else◌,
}
use uefi_utilities.Uefi.{
  Status, success, not_found, buffer_too_small, out_of_resources, invalid_parameter, other,
}
use uefi_utilities.Edid.{Block, Line, check_for_valid_edid, print_edid}

-- What the tool asks of the firmware and of gnu-efi; the modes of a display are asked for, and nothing
-- is done with them.
pub record Services : Type 1 where
  pub Handle : Type 0
  -- `LocateHandle` for a size in bytes: the size that is needed or used, and the handles
  pub locate_handle : ℕ → Status × ℕ × List Handle
  -- whether `AllocateZeroPool` gives a block of this size
  pub gives : ℕ → Bool
  -- whether `efi_open_protocol` returns an interface
  pub has_graphics : Handle → Bool
  -- `HandleProtocol`, with the block behind `Edid->Edid`
  pub discovered_edid : Handle → Status × Block

pub data Output : Type 0 where
  edid : List Line → Output
  invalid_checksum no_memory no_handles no_handles_found : Output

-- How the tool ends, a use of `HandleList`, which was never set, or a write behind its block.
pub data Ending : Type 0 where
  ended : Status → List Output → Ending
  unset_list behind_list : Ending

unfoldable pub edid_output : Status × Block → List Output
unfolding check_for_valid_edid print_edid
edid_output (success, block) =
    (if check_for_valid_edid block == 0 then edid (print_edid block) else invalid_checksum) ∷ []
edid_output (status, block) = []

module _ (sv : Services) where
  open sv use {Handle, locate_handle, gives, has_graphics, discovered_edid}

  -- The loop over the handles.
  unfoldable pub show_displays : List Handle → List Output → Ending
  unfolding edid_output
  show_displays [] out = ended success out
  show_displays (h ∷ hs) out =
      let rest = show_displays hs (out ++ edid_output (discovered_edid h)) in
      if has_graphics h then rest else ended success out

  unfoldable pub show_located : Status × ℕ × List Handle → Ending
  unfolding show_displays
  show_located (success, size, handles) =
      if size / 8 == 0
      then ended success (no_handles_found ∷ [])
      else show_displays (take (size / 8) handles) []
  show_located (status, size, handles) = ended status (no_handles ∷ [])

  -- From the second call, behind which `HandleList[Size/8] = NULL` is written, whatever its status.
  unfoldable pub after_second : ℕ → Status × ℕ × List Handle → Ending
  unfolding show_located
  after_second size (status, size', handles) =
      if ltb (size / 8) (size' / 8) then behind_list else show_located (status, size', handles)

  -- From the first call, whose size is 0 and whose list is not set.
  unfoldable pub after_locate : Status × ℕ × List Handle → Ending
  unfolding after_second
  after_locate (buffer_too_small, size, handles) =
      if gives (size + 8)
      then after_second size (locate_handle size)
      else ended buffer_too_small (no_memory ∷ [])
  after_locate (success, size, handles) =
      if size / 8 == 0 then ended success (no_handles_found ∷ []) else unset_list
  after_locate (status, size, handles) = unset_list

  unfoldable pub showedid_main : Ending
  unfolding after_locate
  showedid_main = after_locate (locate_handle 0)

-- What is printed of a block is that of one that passed the check.
abbrev pub IsValid : Output → Type 0
IsValid (edid lines) =
    (block : Block) × (check_for_valid_edid block ≡ 0) × (lines ≡ print_edid block)
IsValid _ = Unit

abbrev pub AllValid : List Output → Type 0
AllValid [] = Unit
AllValid (o ∷ out) = IsValid o × AllValid out

abbrev pub EndsValid : Ending → Type 0
EndsValid (ended status out) = AllValid out
EndsValid unset_list = Unit
EndsValid behind_list = Unit

AllValid-append : (xs ys : List Output) → AllValid xs → AllValid ys → AllValid (xs ++ ys)
AllValid-append [] ys v w = w
AllValid-append (x ∷ xs) ys v w = (v.0, AllValid-append xs ys v.1 w)

checked-AllValid :
    (block : Block)
    → AllValid (
        (if check_for_valid_edid block == 0 then edid (print_edid block) else invalid_checksum)
        ∷ [])
checked-AllValid block = elim (Bool-cases (check_for_valid_edid block == 0)) [
  | inl e ↦ rw e ((block, (==_iff (check_for_valid_edid block) 0).0 e, refl), tt)
  | inr e ↦ rw e (tt, tt)
]

edid_output-AllValid : (r : Status × Block) → AllValid (edid_output r)
unfolding edid_output
edid_output-AllValid (success, block) = checked-AllValid block
edid_output-AllValid (not_found, block) = tt
edid_output-AllValid (buffer_too_small, block) = tt
edid_output-AllValid (out_of_resources, block) = tt
edid_output-AllValid (invalid_parameter, block) = tt
edid_output-AllValid (other n, block) = tt

EndsValid-if :
    (b : Bool) (x y : Ending) → EndsValid x → EndsValid y → EndsValid (if b then x else y)
EndsValid-if true x y v w = v
EndsValid-if false x y v w = w

module _ (sv : Services) where
  open sv use {Handle, locate_handle, gives, has_graphics, discovered_edid}

  show_displays-EndsValid :
      (hs : List Handle) (out : List Output) → AllValid out → EndsValid (show_displays sv hs out)
  unfolding show_displays
  show_displays-EndsValid [] out v = v
  show_displays-EndsValid (h ∷ hs) out v =
      let more = out ++ edid_output (discovered_edid h) in
      EndsValid-if (has_graphics h) (show_displays sv hs more) (ended success out)
        (show_displays-EndsValid hs more (
          AllValid-append out (edid_output (discovered_edid h)) v
            (edid_output-AllValid (discovered_edid h))))
        v

  show_located-EndsValid : (r : Status × ℕ × List Handle) → EndsValid (show_located sv r)
  unfolding show_located
  show_located-EndsValid (success, size, handles) =
      EndsValid-if (size / 8 == 0) (ended success (no_handles_found ∷ []))
        (show_displays sv (take (size / 8) handles) []) (tt, tt)
        (show_displays-EndsValid (take (size / 8) handles) [] tt)
  show_located-EndsValid (not_found, size, handles) = (tt, tt)
  show_located-EndsValid (buffer_too_small, size, handles) = (tt, tt)
  show_located-EndsValid (out_of_resources, size, handles) = (tt, tt)
  show_located-EndsValid (invalid_parameter, size, handles) = (tt, tt)
  show_located-EndsValid (other n, size, handles) = (tt, tt)

  after_second-EndsValid :
      (size : ℕ) (r : Status × ℕ × List Handle) → EndsValid (after_second sv size r)
  unfolding after_second
  after_second-EndsValid size (status, size', handles) =
      EndsValid-if (ltb (size / 8) (size' / 8)) behind_list
        (show_located sv (status, size', handles)) tt
        (show_located-EndsValid (status, size', handles))

  after_locate-EndsValid : (r : Status × ℕ × List Handle) → EndsValid (after_locate sv r)
  unfolding after_locate
  after_locate-EndsValid (buffer_too_small, size, handles) =
      EndsValid-if (gives (size + 8)) (after_second sv size (locate_handle size))
        (ended buffer_too_small (no_memory ∷ [])) (after_second-EndsValid size (locate_handle size))
        (tt, tt)
  after_locate-EndsValid (success, size, handles) =
      EndsValid-if (size / 8 == 0) (ended success (no_handles_found ∷ [])) unset_list (tt, tt) tt
  after_locate-EndsValid (not_found, size, handles) = tt
  after_locate-EndsValid (out_of_resources, size, handles) = tt
  after_locate-EndsValid (invalid_parameter, size, handles) = tt
  after_locate-EndsValid (other n, size, handles) = tt

-- Whatever the firmware answers, every block that showedid prints has passed its check.
pub showedid_main-EndsValid : (sv : Services) → EndsValid (showedid_main sv)
unfolding showedid_main
showedid_main-EndsValid sv = after_locate-EndsValid sv (Services.locate_handle sv 0)
