-- ===== src/Smbios/Main.antt =====
-- `efi_main` of showfirmware/showfirmware.c on a table as it is laid out.
use mathlib.Core.List.{append_assoc, append-nil}
use mathlib.Core.Option.{some-injective}
use uefi_utilities.Base.{
  Bool-cases, ==_iff, inl, inr, ℕ, zero, suc, ◌+◌, ◌-◌, ◌*◌, ◌≤◌, ◌<◌, ◌≡◌, ◌≢◌, refl, sym, ap,
  subst, ◌∙◌, Bool, true, false, Option, none, some, List, [], ◌∷◌, ◌++◌, map, arith, length,
  length-append, get_elem?, ◌==◌, if◌then◌else◌,
}
use uefi_utilities.Uefi.{Text, success}
use uefi_utilities.Smbios.{
  Memory, Table, Found, invalid_handle, length_to, strlen, widen, copy, Output, version_line,
  vendor, version, release, Shown, at, returned, and_then, ascii_to_ucs2, print_length, print_found,
  print_string, print_type0, visit, visit_loop, from_handle, anchor_text, show_table,
  showfirmware_main, lib_get_smbios_structure, lib_get_smbios_string,
}
use uefi_utilities.Smbios.Layout.{
  Has, Has-front, NoNul, IsString, AreStrings, Entry, encode, table_bytes, area, string_bytes,
}
use uefi_utilities.Smbios.Strings.{
  AtString, given_strings, StringOf, string_end-nul, IsString-NoNul, length-encode,
  lib_get_smbios_string-StringOf,
}
use uefi_utilities.Smbios.Structures.{
  Laid, Has-entry, table_bytes-append, AreEntries-at, other_handle, next_handle, handle_at-encode,
  lib_get_smbios_structure-finds,
}

copy-string :
    (mem : Memory) (s : ℕ) (cs rest : List ℕ)
    → Has mem s (cs ++ rest)
    → copy mem s (length cs) ≡ map widen cs
unfolding copy
copy-string mem s [] rest h = refl
copy-string mem s (c ∷ cs) rest h = cc (h.0, copy-string mem (s + 1) cs rest h.1)

strlen-nul :
    (fuel : ℕ) (mem : Memory) (s : ℕ) (cs : List ℕ)
    → Has mem s (cs ++ 0 ∷ [])
    → NoNul cs
    → length cs < fuel
    → strlen fuel mem s ≡ some (length cs)
unfolding strlen length_to
strlen-nul fuel mem s cs h set less =
    ap (length_to s) (string_end-nul fuel mem s cs [] h set less) ∙ ap some (omega arith)

length-member :
    (ss : List (List ℕ)) (k : ℕ) (cs : List ℕ)
    → get_elem? ss k ≡ some cs
    → length cs < length (string_bytes ss)
length-member [] k cs e = absurd (ground arith)
length-member (s ∷ ss) zero cs e =
    subst (λ us. length us < length (string_bytes (s ∷ ss))) (some-injective s cs e)
      (omega (arith, length-append s (0 ∷ string_bytes ss)))
length-member (s ∷ ss) (suc k) cs e =
    omega (arith, length-member ss k cs e, length-append s (0 ∷ string_bytes ss))

length-given :
    (ss : List (List ℕ)) (k : ℕ) (cs : List ℕ)
    → get_elem? (given_strings ss) k ≡ some cs
    → length cs < length (area ss)
length-given [] k cs e = length-member ([] ∷ []) k cs e
length-given (s ∷ ss) k cs e = length-member (s ∷ ss) k cs e

-- What the tool prints of a BIOS structure with these strings.
abbrev pub lines : List (List ℕ) → List Output
lines [] = []
lines (v ∷ []) = []
lines (v ∷ w ∷ []) = []
lines (v ∷ w ∷ r ∷ more) =
    vendor (some (map widen v)) ∷ version (some (map widen w)) ∷ release (some (map widen r)) ∷ []

-- The lines of the first structure of type 0.
abbrev pub bios_lines : List Entry → List Output
bios_lines [] = []
bios_lines (e ∷ es) =
    let rest = bios_lines es in if Entry.kind e == 0 then lines (Entry.strings e) else rest

-- A structure of type 0 has a vendor, a version and a release.
abbrev pub HasLines : List Entry → Type 0
HasLines [] = Unit
HasLines (e ∷ es) = (Entry.kind e ≡ 0 → 3 ≤ length (Entry.strings e)) × HasLines es

either_lines :
    (k : ℕ) (a b : Shown) (out xs ys : List Output)
    → (k ≡ 0 → a ≡ returned success (out ++ xs))
    → b ≡ returned success (out ++ ys)
    → (if k == 0 then a else b) ≡ returned success (out ++ (if k == 0 then xs else ys))
either_lines k a b out xs ys first next = elim (Bool-cases (k == 0)) [
  | inl e ↦ rw e (first ((==_iff k 0).0 e))
  | inr e ↦ rw e next
]

module _ (gives : ℕ → Bool) (compare_mem : List ℕ → List ℕ → ℕ → ℕ)
    (never_out : (n : ℕ) → gives n ≡ true) where
  print_found-string :
      (fuel : ℕ) (mem : Memory) (label : Option Text → Output) (out : List Output) (raw : ℕ)
      (cs : List ℕ) (o : Option Found)
      → AtString mem raw cs o
      → NoNul cs
      → length cs < fuel
      → print_found gives compare_mem fuel mem label out o
        ≡ at raw (out ++ label (some (map widen cs)) ∷ [])
  unfolding print_found print_length ascii_to_ucs2
  print_found-string fuel mem label out raw cs none a set less = absurd a
  print_found-string fuel mem label out raw cs (some (none, raw')) a set less = absurd a
  print_found-string fuel mem label out raw cs (some (some str, raw')) a set less =
      ap (print_length gives compare_mem mem label out str raw')
        (strlen-nul fuel mem str cs a.1 set less)
      ∙ rw (never_out (length cs * 2 + 2)) (cc (a.0, copy-string mem str cs (0 ∷ []) a.1))

  print_string-line :
      (fuel : ℕ) (mem : Memory) (label : Option Text → Output) (number raw : ℕ) (out : List Output)
      (e : Entry) (ss : List (List ℕ)) (cs : List ℕ)
      → Has mem raw (encode e)
      → Entry.strings e ≡ ss
      → AreStrings ss
      → length (encode e) < fuel
      → get_elem? (given_strings ss) number ≡ some cs
      → IsString cs
      → print_string gives compare_mem fuel mem label (number + 1) raw out
        ≡ at raw (out ++ label (some (map widen cs)) ∷ [])
  unfolding print_string
  print_string-line fuel mem label number raw out e ss cs h same all less found is =
      print_found-string fuel mem label out raw cs (lib_get_smbios_string fuel mem raw (number + 1))
        (subst
          (λ o.
            StringOf mem raw (raw + length (encode e)) o
              (lib_get_smbios_string fuel mem raw (number + 1)))
          (ap (λ us. get_elem? (given_strings us) (number + 1 - 1)) same
            ∙ ap (get_elem? (given_strings ss)) (omega arith)
            ∙ found)
          (lib_get_smbios_string-StringOf fuel mem raw (number + 1) e h
            (subst AreStrings (sym same) all) less (omega arith)))
        (IsString-NoNul cs is)
        (omega (
          arith,
          less,
          length-encode e,
          ap (λ us. length (area us)) same,
          length-given ss number cs found,
        ))

  print_type0-lines :
      (fuel : ℕ) (mem : Memory) (raw : ℕ) (out : List Output) (e : Entry) (ss : List (List ℕ))
      → Has mem raw (encode e)
      → Entry.strings e ≡ ss
      → AreStrings ss
      → 3 ≤ length ss
      → length (encode e) < fuel
      → print_type0 gives compare_mem fuel mem raw out ≡ at raw (out ++ lines ss)
  unfolding print_type0 and_then
  print_type0-lines fuel mem raw out e [] h same all three less = absurd (omega arith)
  print_type0-lines fuel mem raw out e (v ∷ []) h same all three less = absurd (omega arith)
  print_type0-lines fuel mem raw out e (v ∷ w ∷ []) h same all three less = absurd (omega arith)
  print_type0-lines fuel mem raw out e (v ∷ w ∷ r ∷ more) h same all three less =
      let ss : List (List ℕ) = v ∷ w ∷ r ∷ more in
      let out1 = out ++ vendor (some (map widen v)) ∷ [] in
      let out2 = out1 ++ version (some (map widen w)) ∷ [] in
      let rest =
        λ (n : ℕ) (out' : List Output). print_string gives compare_mem fuel mem release 3 n out' in
      ap
        (λ m.
          and_then m
            (λ n out'. and_then (print_string gives compare_mem fuel mem version 2 n out') rest))
        (print_string-line fuel mem vendor 0 raw out e ss v h same all less refl all.0)
      ∙ ap (λ m. and_then m rest)
          (print_string-line fuel mem version 1 raw out1 e ss w h same all less refl all.1.0)
      ∙ print_string-line fuel mem release 2 raw out2 e ss r h same all less refl all.1.1.0
      ∙ ap (at raw) (
          append_assoc out1 (version (some (map widen w)) ∷ []) (release (some (map widen r)) ∷ [])
          ∙ append_assoc out (vendor (some (map widen v)) ∷ [])
              (version (some (map widen w)) ∷ release (some (map widen r)) ∷ []))

  visit_loop-step :
      (left fuel : ℕ) (mem : Memory) (t : Table) (out : List Output) (handle : ℕ)
      → (handle == invalid_handle) ≡ false
      → visit_loop gives compare_mem (suc left) fuel mem t out handle
        ≡ visit gives compare_mem
            (visit_loop gives compare_mem left fuel mem t out)
            fuel
            mem
            out
            (lib_get_smbios_structure fuel mem t handle)
  unfolding visit_loop
  visit_loop-step left fuel mem t out handle e =
      ap
        (λ b.
          if b
          then returned success out
          else visit gives compare_mem (visit_loop gives compare_mem left fuel mem t out) fuel mem
              out (lib_get_smbios_structure fuel mem t handle))
        e

  -- The loop from a structure on, which finds its handle there.
  visit_loop-lines :
      (left fuel : ℕ) (mem : Memory) (t : Table) (out : List Output) (before es : List Entry)
      → Laid fuel mem t (before ++ es)
      → HasLines es
      → length es ≤ left
      → visit_loop gives compare_mem left fuel mem t out (next_handle es)
        ≡ returned success (out ++ bios_lines es)
  unfolding visit_loop visit
  visit_loop-lines zero fuel mem t out before [] laid three enough =
      ap (returned success) (sym (append-nil out))
  visit_loop-lines (suc left) fuel mem t out before [] laid three enough =
      ap (returned success) (sym (append-nil out))
  visit_loop-lines zero fuel mem t out before (e ∷ es) laid three enough = absurd (omega arith)
  visit_loop-lines (suc left) fuel mem t out before (e ∷ es) laid three enough =
      let (h, size, all, distinct, less) = laid in
      let raw = Table.table_address t + length (table_bytes before) in
      let here =
        Has-front mem raw (encode e) (table_bytes es)
          (Has-entry mem (Table.table_address t) before e es h) in
      let is = AreEntries-at before e es all in
      let valid : (Entry.handle e == invalid_handle) ≡ false = other_handle (Entry.handle e) is.0 in
      visit_loop-step left fuel mem t out (Entry.handle e) valid
      ∙ (ap
            (visit gives compare_mem (visit_loop gives compare_mem left fuel mem t out) fuel mem
              out)
            (lib_get_smbios_structure-finds fuel mem t before e es laid)
          ∙ ap
              (λ k.
                if k == 0
                then and_then (print_type0 gives compare_mem fuel mem raw out)
                    (λ raw' out'. returned success out')
                else visit_loop gives compare_mem left fuel mem t out (next_handle es))
              here.0
          ∙ either_lines (Entry.kind e) _ _ out (lines (Entry.strings e)) (bios_lines es)
              (λ k0.
                ap (λ m. and_then m (λ raw' out'. returned success out'))
                  (print_type0-lines fuel mem raw out e (Entry.strings e) here refl is.1
                    (three.0 k0)
                    (omega (
                      arith,
                      less,
                      ap length (table_bytes-append before (e ∷ es)),
                      length-append (table_bytes before) (table_bytes (e ∷ es)),
                      length-append (encode e) (table_bytes es),
                    ))))
              (visit_loop-lines left fuel mem t out (before ++ e ∷ []) es
                (subst (Laid fuel mem t) (sym (append_assoc before (e ∷ []) es)) laid) three.1
                (omega arith)))

  -- On a table as it is laid out, whose entry point has the anchor and the count of its structures, with
  -- distinct handles, memory that is never refused, and fuel for the bytes of the table: `efi_main`
  -- prints the line of the entry point, and of the first structure of type 0 the first three strings,
  -- where it has as many. Where no structure is of type 0 it prints the first line alone.
  pub showfirmware_main-lines :
      (fuel : ℕ) (mem : Memory) (t : Table) (es : List Entry)
      → Laid fuel mem t es
      → HasLines es
      → es ≢ []
      → Table.count t ≡ length es
      → compare_mem (Table.anchor t) anchor_text 4 ≡ 0
      → showfirmware_main gives compare_mem fuel mem (success, some t)
        ≡ returned success (
            version_line (Table.major t) (Table.minor t) (Table.revision t) (Table.count t)
            ∷ bios_lines es)
  unfolding showfirmware_main show_table from_handle lib_get_smbios_structure
  showfirmware_main-lines fuel mem t [] laid three ne counted anchored = absurd (ne refl)
  showfirmware_main-lines fuel mem t (e ∷ es) laid three ne counted anchored =
      let line = version_line (Table.major t) (Table.minor t) (Table.revision t) (Table.count t) in
      let start = Table.table_address t in
      let first =
        handle_at-encode mem start e (Has-front mem start (encode e) (table_bytes es) laid.0) in
      rw anchored (
        ap (visit_loop gives compare_mem (Table.count t) fuel mem t (line ∷ [])) first
        ∙ visit_loop-lines (Table.count t) fuel mem t (line ∷ []) [] (e ∷ es) laid three
            (omega (arith, counted)))
