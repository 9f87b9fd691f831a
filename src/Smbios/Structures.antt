-- ===== src/Smbios/Structures.antt =====
-- `LibGetSmbiosStructure` of showfirmware/showfirmware.c on a table as it is laid out.
use mathlib.Core.List.{append_assoc}
use uefi_utilities.Base.{
  lt→ltb, ℕ, zero, suc, ◌+◌, ◌-◌, ◌/◌, ◌%◌, ◌^◌, ◌≤◌, ◌<◌, ◌≡◌, ◌≢◌, refl, sym, ap, subst, ◌∙◌,
  true, false, none, some, List, [], ◌∷◌, ◌++◌, arith, length, length-append, get_elem?, ltb, ◌==◌,
}
use uefi_utilities.Smbios.{
  Memory, Table, handle_at, invalid_handle, dmi_success, structure_to, after_structure,
  structure_loop, lib_get_smbios_structure, lib_get_smbios_string,
}
use uefi_utilities.Smbios.Layout.{
  Has, Has-behind, Has-front, AreStrings, Entry, encode, table_bytes,
}
use uefi_utilities.Smbios.Strings.{
  given_strings, StringOf, lib_get_smbios_string-StringOf, length-encode,
}

-- A structure whose handle is one, and whose strings are strings and fewer than 65535.
abbrev pub IsEntry : Entry → Type 0
IsEntry e =
    (Entry.handle e < invalid_handle)
    × AreStrings (Entry.strings e)
    × (length (Entry.strings e) < 2 ^ 16 - 1)

abbrev pub AreEntries : List Entry → Type 0
AreEntries [] = Unit
AreEntries (e ∷ es) = IsEntry e × AreEntries es

-- None of the structures has this handle.
abbrev pub NoHandle : ℕ → List Entry → Type 0
NoHandle h [] = Unit
NoHandle h (e ∷ es) = (Entry.handle e ≢ h) × NoHandle h es

get_elem?-behind : {A : Type 0} (xs : List A) (k : ℕ) → length xs ≤ k → get_elem? xs k ≡ none
get_elem?-behind [] k le = refl
get_elem?-behind (x ∷ xs) zero le = absurd (omega arith)
get_elem?-behind (x ∷ xs) (suc k) le = get_elem?-behind xs k (omega arith)

length-given_strings :
    (ss : List (List ℕ)) → length ss < 2 ^ 16 - 1 → length (given_strings ss) ≤ 2 ^ 16 - 1 - 1
length-given_strings [] less = omega arith
length-given_strings (s ∷ ss) less = omega (arith, less)

pub handle_at-encode :
    (mem : Memory) (raw : ℕ) (e : Entry)
    → Has mem raw (encode e)
    → handle_at mem raw ≡ Entry.handle e
handle_at-encode mem raw e h =
    let low : mem (raw + 2) ≡ Entry.handle e % 256 = ap mem (omega arith) ∙ h.1.1.0 in
    let high : mem (raw + 3) ≡ Entry.handle e / 256 = ap mem (omega arith) ∙ h.1.1.1.0 in
    rw (low, high) (omega arith)

-- No structure has 65535 strings, so `LibGetSmbiosString` is asked to skip one.
lib_get_smbios_string-skips :
    (fuel : ℕ) (mem : Memory) (raw : ℕ) (e : Entry)
    → Has mem raw (encode e)
    → IsEntry e
    → length (encode e) < fuel
    → lib_get_smbios_string fuel mem raw (2 ^ 16 - 1) ≡ some (none, raw + length (encode e))
lib_get_smbios_string-skips fuel mem raw e h is less =
    subst
      (λ o.
        StringOf mem raw (raw + length (encode e)) o
          (lib_get_smbios_string fuel mem raw (2 ^ 16 - 1)))
      (get_elem?-behind (given_strings (Entry.strings e)) (2 ^ 16 - 1 - 1)
        (length-given_strings (Entry.strings e) is.2))
      (lib_get_smbios_string-StringOf fuel mem raw (2 ^ 16 - 1) e h is.1 less (omega arith))

structure_loop-skip :
    (fuel : ℕ) (mem : Memory) (handle end raw raw' : ℕ)
    → raw < end
    → lib_get_smbios_string fuel mem raw (2 ^ 16 - 1) ≡ some (none, raw')
    → handle_at mem raw ≢ handle
    → structure_loop (suc fuel) mem handle end raw ≡ structure_loop fuel mem handle end raw'
unfolding structure_loop after_structure
structure_loop-skip fuel mem handle end raw raw' less e ne =
    let in_table : ltb raw end ≡ true = ground arith in
    let other : (handle_at mem raw == handle) ≡ false = ground arith in
    rw in_table (
      ap (after_structure (structure_loop fuel mem handle end) mem handle raw end) e
      ∙ rw other refl)

structure_loop-here :
    (fuel : ℕ) (mem : Memory) (handle end raw raw' : ℕ)
    → raw < end
    → lib_get_smbios_string fuel mem raw (2 ^ 16 - 1) ≡ some (none, raw')
    → handle_at mem raw ≡ handle
    → structure_loop (suc fuel) mem handle end raw ≡ some (structure_to mem raw end raw')
unfolding structure_loop after_structure
structure_loop-here fuel mem handle end raw raw' less e same =
    let in_table : ltb raw end ≡ true = ground arith in
    let found : (handle_at mem raw == handle) ≡ true = ground arith in
    rw in_table (
      ap (after_structure (structure_loop fuel mem handle end) mem handle raw end) e
      ∙ rw found refl)

-- The structure of a handle that no structure before it has.
pub structure_loop-finds :
    (fuel : ℕ) (mem : Memory) (end raw : ℕ) (before : List Entry) (e : Entry) (rest : List Entry)
    → Has mem raw (table_bytes (before ++ e ∷ rest))
    → AreEntries (before ++ e ∷ rest)
    → NoHandle (Entry.handle e) before
    → end ≡ raw + length (table_bytes (before ++ e ∷ rest))
    → length (table_bytes (before ++ e ∷ rest)) + 1 < fuel
    → structure_loop fuel mem (Entry.handle e) end raw
      ≡ some (
          structure_to mem
            (raw + length (table_bytes before))
            end
            (raw + length (table_bytes before) + length (encode e)))
structure_loop-finds zero mem end raw before e rest h all none_of at_end less = absurd (omega arith)
structure_loop-finds (suc fuel) mem end raw [] e rest h all none_of at_end less =
    let here = Has-front mem raw (encode e) (table_bytes rest) h in
    let size = length-append (encode e) (table_bytes rest) in
    structure_loop-here fuel mem (Entry.handle e) end raw (raw + length (encode e))
      (omega (arith, at_end, size, length-encode e))
      (lib_get_smbios_string-skips fuel mem raw e here all.0 (omega (arith, less, size)))
      (handle_at-encode mem raw e here)
    ∙ ap (λ n. some (structure_to mem n end (n + length (encode e)))) (omega arith)
structure_loop-finds (suc fuel) mem end raw (b ∷ before) e rest h all none_of at_end less =
    let bytes = table_bytes (before ++ e ∷ rest) in
    let here = Has-front mem raw (encode b) bytes h in
    let size = length-append (encode b) bytes in
    structure_loop-skip fuel mem (Entry.handle e) end raw (raw + length (encode b))
      (omega (arith, at_end, size, length-encode b))
      (lib_get_smbios_string-skips fuel mem raw b here all.0 (omega (arith, less, size)))
      (λ p. none_of.0 (sym (handle_at-encode mem raw b here) ∙ p))
    ∙ structure_loop-finds fuel mem end (raw + length (encode b)) before e rest
        (Has-behind mem raw (encode b) bytes h) all.1 none_of.1 (omega (arith, at_end, size))
        (omega (arith, less, size, length-encode b))
    ∙ ap (λ n. some (structure_to mem n end (n + length (encode e))))
        (omega (arith, length-append (encode b) (table_bytes before)))

NoHandle-at :
    (n : ℕ) (before : List Entry) (e : Entry) (rest : List Entry)
    → NoHandle n (before ++ e ∷ rest)
    → n ≢ Entry.handle e
NoHandle-at n [] e rest none_of = λ p. none_of.0 (sym p)
NoHandle-at n (b ∷ before) e rest none_of = NoHandle-at n before e rest none_of.1

pub AreEntries-at :
    (before : List Entry) (e : Entry) (rest : List Entry)
    → AreEntries (before ++ e ∷ rest)
    → IsEntry e
AreEntries-at [] e rest all = all.0
AreEntries-at (b ∷ before) e rest all = AreEntries-at before e rest all.1

pub table_bytes-append :
    (es fs : List Entry) → table_bytes (es ++ fs) ≡ table_bytes es ++ table_bytes fs
table_bytes-append [] fs = refl
table_bytes-append (e ∷ es) fs =
    ap (λ bs. encode e ++ bs) (table_bytes-append es fs)
    ∙ sym (append_assoc (encode e) (table_bytes es) (table_bytes fs))

pub other_handle : (h : ℕ) → h < invalid_handle → (h == invalid_handle) ≡ false
other_handle h less = ground arith

-- No two structures have one handle.
abbrev pub DistinctHandles : List Entry → Type 0
DistinctHandles [] = Unit
DistinctHandles (e ∷ es) = NoHandle (Entry.handle e) es × DistinctHandles es

pub DistinctHandles-before :
    (before : List Entry) (e : Entry) (rest : List Entry)
    → DistinctHandles (before ++ e ∷ rest)
    → NoHandle (Entry.handle e) before
DistinctHandles-before [] e rest d = tt
DistinctHandles-before (b ∷ before) e rest d =
    (NoHandle-at (Entry.handle b) before e rest d.0, DistinctHandles-before before e rest d.1)

-- The handle of the structure that follows, or INVALID_HANDLE.
abbrev pub next_handle : List Entry → ℕ
next_handle [] = invalid_handle
next_handle (e ∷ es) = Entry.handle e

structure_to-next :
    (mem : Memory) (raw end next : ℕ) (rest : List Entry)
    → Has mem next (table_bytes rest)
    → end ≡ next + length (table_bytes rest)
    → structure_to mem raw end next ≡ dmi_success (next_handle rest) raw ((next - raw) % 2 ^ 16)
unfolding structure_to
structure_to-next mem raw end next [] h e =
    let past : ltb next end ≡ false = ground (arith, e) in rw past refl
structure_to-next mem raw end next (r ∷ rest) h e =
    let inside : ltb next end ≡ true =
      lt→ltb next end
        (omega (arith, e, length-append (encode r) (table_bytes rest), length-encode r)) in
    rw inside (
      ap (λ n. dmi_success n raw ((next - raw) % 2 ^ 16))
        (handle_at-encode mem next r (Has-front mem next (encode r) (table_bytes rest) h)))

-- The entry point describes these structures, which lie in memory with distinct handles, and the fuel
-- is enough for their bytes.
abbrev pub Laid : ℕ → Memory → Table → List Entry → Type 0
Laid fuel mem t es =
    Has mem (Table.table_address t) (table_bytes es)
    × (Table.table_length t ≡ length (table_bytes es))
    × AreEntries es
    × DistinctHandles es
    × (length (table_bytes es) + 1 < fuel)

pub Has-entry :
    (mem : Memory) (start : ℕ) (before : List Entry) (e : Entry) (rest : List Entry)
    → Has mem start (table_bytes (before ++ e ∷ rest))
    → Has mem (start + length (table_bytes before)) (encode e ++ table_bytes rest)
Has-entry mem start before e rest h =
    Has-behind mem start (table_bytes before) (table_bytes (e ∷ rest))
      (subst (Has mem start) (table_bytes-append before (e ∷ rest)) h)

-- On a table as it is laid out, whose structures have distinct handles, with fuel for its bytes:
-- `LibGetSmbiosStructure` finds the structure of a handle, wherever it stands, gives its address and
-- its size in 16 bits, and leaves the handle of the structure behind it, or INVALID_HANDLE behind the
-- last.
pub lib_get_smbios_structure-finds :
    (fuel : ℕ) (mem : Memory) (t : Table) (before : List Entry) (e : Entry) (rest : List Entry)
    → Laid fuel mem t (before ++ e ∷ rest)
    → lib_get_smbios_structure fuel mem t (Entry.handle e)
      ≡ some (
          dmi_success
            (next_handle rest)
            (Table.table_address t + length (table_bytes before))
            (length (encode e) % 2 ^ 16))
unfolding lib_get_smbios_structure
lib_get_smbios_structure-finds fuel mem t before e rest (h, size, all, distinct, less) =
    let start = Table.table_address t in
    let split = table_bytes-append before (e ∷ rest) in
    let here = Has-entry mem start before e rest h in
    let raw = start + length (table_bytes before) in
    let next = raw + length (encode e) in
    let end = start + Table.table_length t in
    let sizes = ap length split ∙ length-append (table_bytes before) (table_bytes (e ∷ rest)) in
    let valid : (Entry.handle e == invalid_handle) ≡ false =
      other_handle (Entry.handle e) (AreEntries-at before e rest all).0 in
    rw valid (
      structure_loop-finds fuel mem end start before e rest h all
        (DistinctHandles-before before e rest distinct) (omega (arith, size)) less
      ∙ ap some (
          structure_to-next mem raw end next rest
            (Has-behind mem raw (encode e) (table_bytes rest) here)
            (omega (arith, size, sizes, length-append (encode e) (table_bytes rest)))
          ∙ ap (λ n. dmi_success (next_handle rest) raw (n % 2 ^ 16)) (omega arith)))
