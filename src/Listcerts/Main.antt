-- ===== src/Listcerts/Main.antt =====
-- `get_variable`, `OutputVariable` and `efi_main` of listcerts/listcerts.c.
use uefi_utilities.Base.{
  ℕ, ◌+◌, ◌-◌, ◌≡◌, ◌↔◌, Bool, true, false, ◌&&◌, ◌||◌, Option, none, some, List, [], ◌∷◌, ◌++◌,
  ltb, leb, if◌then◌else◌, length, get_or,
}
use uefi_utilities.Uefi.{Text, Status, success, not_found, buffer_too_small}
use uefi_utilities.Listcerts.{SignatureType, Printed, print_certs}
use uefi_utilities.Listcerts.Walk.{Group, Shows, all_certs}

-- EFI_GLOBAL_VARIABLE and EFI_SIG_DB_GUID
pub data Owner : Type 0 where
  global sig_db : Owner

-- The firmware and gnu-efi: `GetVariable` with the size of the buffer and whether there is one, which
-- gives the status, the size and the bytes that it wrote; `AllocateZeroPool`; the memory apart from the
-- buffer; `CompareGuid` and the decoder, which read the memory; `StrCmp(a, b) == 0`.
pub record Platform : Type 0 where
  pub get_variable_bytes : Text → Owner → ℕ → Bool → Status × ℕ × List ℕ
  pub allocate : ℕ → Option ℕ
  pub beyond : ℕ → ℕ
  pub compare_guid : (ℕ → ℕ) → ℕ → SignatureType → ℕ
  pub decoder : (ℕ → ℕ) → ℕ → ℕ → ℕ
  pub same_text : Text → Text → Bool
  pub same_text_iff : (a b : Text) → (same_text a b ≡ true) ↔ (a ≡ b)

-- The status, with the buffer and its size where the variable was read into it.
pub data Fetched : Type 0 where
  fetched : (buffer : ℕ) → List ℕ → (len : ℕ) → Fetched
  no_data : Status → Fetched

-- What is printed. `no_buffer` is the use of a pointer that was never set.
pub data Event : Type 0 where
  variable : Text → ℕ → Event
  certs : Printed → Event
  variable_not_found : Text → Event
  get_failed : Text → Status → Event
  usage no_buffer : Event

-- The memory with these bytes in the buffer.
unfoldable pub loaded : ℕ → List ℕ → (ℕ → ℕ) → ℕ → ℕ
loaded buffer bytes beyond at =
    if leb buffer at && ltb at (buffer + length bytes)
    then get_or bytes (at - buffer) 0
    else beyond at

module _ (p : Platform) where
  -- The second answer of GetVariable, with the buffer.
  unfoldable pub taken : ℕ → Status × ℕ × List ℕ → Fetched
  taken buffer (status, len, bytes) = elim status [
    | success ↦ fetched buffer bytes len
    | e ↦ no_data e
  ]

  -- The second call, into what was allocated. Where nothing was, the test of `data` does not see it,
  -- and the call has no buffer.
  unfoldable pub read_variable : Text → Owner → ℕ → Option ℕ → Fetched
  unfolding taken
  read_variable var owner len none = no_data (Platform.get_variable_bytes p var owner len false).0
  read_variable var owner len (some buffer) =
      taken buffer (Platform.get_variable_bytes p var owner len true)

  -- The first answer, to a call without a buffer.
  unfoldable pub sized : Text → Owner → Status × ℕ × List ℕ → Fetched
  unfolding read_variable
  sized var owner (status, len, bytes) = elim status [
    | buffer_too_small ↦ read_variable var owner len (Platform.allocate p len)
    | e ↦ no_data e
  ]

  unfoldable pub get_variable : Text → Owner → Fetched
  unfolding sized
  get_variable var owner = sized var owner (Platform.get_variable_bytes p var owner 0 false)

  unfoldable pub output_fetched : ℕ → Text → Fetched → Status × List Event
  unfolding loaded
  output_fetched fuel var (fetched buffer bytes len) =
      let memory = loaded buffer bytes (Platform.beyond p) in
      (
        success,
        variable var len
            ∷ certs (
                print_certs memory (Platform.compare_guid p memory) (Platform.decoder p memory) fuel
                  buffer len)
            ∷ [],
      )
  output_fetched fuel var (no_data success) = (success, no_buffer ∷ [])
  output_fetched fuel var (no_data not_found) = (not_found, variable_not_found var ∷ [])
  output_fetched fuel var (no_data e) = (e, get_failed var e ∷ [])

  -- `OutputVariable`
  unfoldable pub output_variable : ℕ → Text → Owner → Status × List Event
  unfolding output_fetched get_variable
  output_variable fuel var owner = output_fetched fuel var (get_variable var owner)

  -- `variables` and `owners`
  abbrev pub pk : Text
  pk = (b'P' ∷ b'K' ∷ [])

  abbrev pub kek : Text
  kek = (b'K' ∷ b'E' ∷ b'K' ∷ [])

  abbrev pub db : Text
  db = (b'd' ∷ b'b' ∷ [])

  abbrev pub dbx : Text
  dbx = (b'd' ∷ b'b' ∷ b'x' ∷ [])

  -- The loop over these, with the status of the last.
  unfoldable pub output_all : ℕ → List (Text × Owner) → Status → Status × List Event
  unfolding output_variable
  output_all fuel [] status = (status, [])
  output_all fuel ((var, owner) ∷ rest) status =
      let (status', events) = output_variable fuel var owner in
      let (status'', more) = output_all fuel rest status' in (status'', events ++ more)

  unfoldable pub on_option : ℕ → Text → Status × List Event
  unfolding output_variable
  on_option fuel arg =
      if Platform.same_text p arg (b'-' ∷ b'-' ∷ b'h' ∷ b'e' ∷ b'l' ∷ b'p' ∷ [])
        || Platform.same_text p arg (b'-' ∷ b'h' ∷ [])
        || Platform.same_text p arg (b'-' ∷ b'?' ∷ [])
      then (success, usage ∷ [])
      else if Platform.same_text p arg (b'-' ∷ b'p' ∷ b'k' ∷ [])
      then output_variable fuel pk global
      else if Platform.same_text p arg (b'-' ∷ b'k' ∷ b'e' ∷ b'k' ∷ [])
      then output_variable fuel kek global
      else if Platform.same_text p arg (b'-' ∷ b'd' ∷ b'b' ∷ [])
      then output_variable fuel db sig_db
      else if Platform.same_text p arg (b'-' ∷ b'd' ∷ b'b' ∷ b'x' ∷ [])
      then output_variable fuel dbx sig_db
      else (success, usage ∷ [])

  -- `efi_main` on `argv`, whose first member is the tool's name.
  unfoldable pub listcerts_main : ℕ → List Text → Status × List Event
  unfolding output_all on_option
  listcerts_main fuel (tool ∷ []) =
      output_all fuel ((pk, global) ∷ (kek, global) ∷ (db, sig_db) ∷ (dbx, sig_db) ∷ []) success
  listcerts_main fuel (tool ∷ arg ∷ []) = on_option fuel arg
  listcerts_main fuel argv = (success, [])

  -- The firmware has this variable, and gives it to a buffer of its size.
  abbrev pub Holds : Text → Owner → List ℕ → Type 0
  Holds var owner bytes =
      (Platform.get_variable_bytes p var owner 0 false ≡ (buffer_too_small, length bytes, []))
      × (Platform.get_variable_bytes p var owner (length bytes) true
          ≡ (success, length bytes, bytes))

  -- Success, the name and the size of the variable, and all certificates of these lists.
  abbrev pub ShowsAll : (buffer : ℕ) → List ℕ → List Group → Text → Status × List Event → Type 0
  ShowsAll buffer bytes gs var r =
      let memory = loaded buffer bytes (Platform.beyond p) in
      (c : Printed) × (r ≡ (success, variable var (length bytes) ∷ certs c ∷ []))
      × Shows memory (Platform.compare_guid p memory) (Platform.decoder p memory) c
          (all_certs memory (Platform.compare_guid p memory) (Platform.decoder p memory) buffer gs)
