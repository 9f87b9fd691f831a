-- ===== src/Smbios/Strings.antt =====
-- `LibGetSmbiosString` of showfirmware/showfirmware.c on a structure as it is laid out.
use mathlib.Core.List.{append_assoc}
use mathlib.Core.Option.{some-injective}
use uefi_utilities.Base.{
  ℕ, zero, suc, ◌+◌, ◌-◌, ◌≤◌, ◌<◌, ◌≡◌, ◌≢◌, refl, sym, ap, subst, ◌∙◌, true, false, Option, none,
  some, List, [], ◌∷◌, ◌++◌, arith, length, length-append, get_elem?, leb, ◌==◌,
}
use uefi_utilities.Smbios.{
  Memory, length_at, Found, string_end, behind_string, string_loop, lib_get_smbios_string,
}
use uefi_utilities.Smbios.Layout.{
  Has, Has-behind, Has-front, NoNul, IsString, AreStrings, string_bytes, area, Entry, encode,
}

-- The scan of a string stops at its NUL.
pub string_end-nul :
    (fuel : ℕ) (mem : Memory) (s : ℕ) (cs rest : List ℕ)
    → Has mem s (cs ++ 0 ∷ rest)
    → NoNul cs
    → length cs < fuel
    → string_end fuel mem s ≡ some (s + length cs)
unfolding string_end
string_end-nul zero mem s cs rest h set less = absurd (omega arith)
string_end-nul (suc fuel) mem s [] rest h set less = rw h.0 (ap some (omega arith))
string_end-nul (suc fuel) mem s (c ∷ cs) rest h set less =
    let behind = string_end-nul fuel mem (s + 1) cs rest h.1 set.1 (omega arith) in
    let other : (mem s == 0) ≡ false = ground (arith, h.0, set.0) in
    rw other (behind ∙ ap some (omega arith))

-- The string that is asked for is returned, and `Smbios->Raw` left.
abbrev pub AtString : Memory → ℕ → List ℕ → Option Found → Type 0
AtString mem raw cs none = ⊥
AtString mem raw cs (some (none, raw')) = ⊥
AtString mem raw cs (some (some str, raw')) = (raw' ≡ raw) × Has mem str (cs ++ 0 ∷ [])

string_loop-found :
    (fuel : ℕ) (mem : Memory) (raw number index s : ℕ)
    → number ≡ index
    → string_loop (suc fuel) mem raw number index s ≡ some (some s, raw)
unfolding string_loop
string_loop-found fuel mem raw number index s e =
    let fits : leb index number ≡ true = ground (arith, e) in
    let same : (number == index) ≡ true = ground (arith, e) in rw (fits, same) refl

string_loop-more :
    (fuel : ℕ) (mem : Memory) (raw number index s nul : ℕ)
    → index < number
    → string_end fuel mem s ≡ some nul
    → string_loop (suc fuel) mem raw number index s
      ≡ behind_string (string_loop fuel mem raw number (index + 1)) mem (some nul)
unfolding string_loop
string_loop-more fuel mem raw number index s nul less e =
    let fits : leb index number ≡ true = ground arith in
    let other : (number == index) ≡ false = ground arith in
    rw (fits, other) (ap (behind_string (string_loop fuel mem raw number (index + 1)) mem) e)

behind_string-end :
    (next : ℕ → Option Found) (mem : Memory) (nul : ℕ)
    → mem (nul + 1) ≡ 0
    → behind_string next mem (some nul) ≡ some (none, nul + 2)
unfolding behind_string
behind_string-end next mem nul e = rw e refl

behind_string-next :
    (next : ℕ → Option Found) (mem : Memory) (nul : ℕ)
    → mem (nul + 1) ≢ 0
    → behind_string next mem (some nul) ≡ next (nul + 1)
unfolding behind_string
behind_string-next next mem nul ne =
    let other : (mem (nul + 1) == 0) ≡ false = ground arith in rw other refl

IsString-set :
    (mem : Memory) (p : ℕ) (cs rest : List ℕ) → IsString cs → Has mem p (cs ++ rest) → mem p ≢ 0
IsString-set mem p [] rest is h = absurd is
IsString-set mem p (c ∷ cs) rest is h = λ e. is.0 (sym h.0 ∙ e)

pub IsString-NoNul : (cs : List ℕ) → IsString cs → NoNul cs
IsString-NoNul [] is = tt
IsString-NoNul (c ∷ cs) is = is

Has-string :
    (mem : Memory) (s : ℕ) (cur rest cs : List ℕ)
    → Has mem s (cur ++ 0 ∷ rest)
    → some cur ≡ some cs
    → Has mem s (cs ++ 0 ∷ [])
Has-string mem s cur rest cs h e =
    subst (λ us. Has mem s (us ++ 0 ∷ [])) (some-injective cur cs e)
      (Has-front mem s (cur ++ 0 ∷ []) rest
        (subst (Has mem s) (sym (append_assoc cur (0 ∷ []) rest)) h))

length-string : (cs rest : List ℕ) → length (cs ++ 0 ∷ rest) ≡ length cs + length rest + 1
length-string cs rest = omega (arith, length-append cs (0 ∷ rest))

-- From a string on which these follow to the one that is asked for.
string_loop-nth :
    (fuel : ℕ) (mem : Memory) (raw number index s : ℕ) (cur : List ℕ) (more : List (List ℕ)) (k : ℕ)
    (cs : List ℕ)
    → number ≡ index + k
    → Has mem s (cur ++ 0 ∷ string_bytes more)
    → NoNul cur
    → AreStrings more
    → get_elem? (cur ∷ more) k ≡ some cs
    → length (cur ++ 0 ∷ string_bytes more) < fuel
    → AtString mem raw cs (string_loop fuel mem raw number index s)
string_loop-nth zero mem raw number index s cur more k cs e h set all found less =
    absurd (omega arith)
string_loop-nth (suc fuel) mem raw number index s cur more zero cs e h set all found less =
    subst (AtString mem raw cs)
      (sym (string_loop-found fuel mem raw number index s (omega (arith, e))))
      (refl, Has-string mem s cur (string_bytes more) cs h found)
string_loop-nth (suc fuel) mem raw number index s cur [] (suc k) cs e h set all found less =
    absurd (ground arith)
string_loop-nth (suc fuel) mem raw number index s cur (next ∷ more) (suc k) cs e h set all found
      less =
    let nul = s + length cur in
    let tail = Has-behind mem s cur (0 ∷ string_bytes (next ∷ more)) h in
    subst (AtString mem raw cs)
      (sym (
        string_loop-more fuel mem raw number index s nul (omega (arith, e)) (
          string_end-nul fuel mem s cur (string_bytes (next ∷ more)) h set
            (omega (arith, less, length-string cur (string_bytes (next ∷ more)))))
        ∙ behind_string-next (string_loop fuel mem raw number (index + 1)) mem nul
            (IsString-set mem (nul + 1) next (0 ∷ string_bytes more) all.0 tail.1)))
      (string_loop-nth fuel mem raw number (index + 1) (nul + 1) next more k cs (omega (arith, e))
        tail.1 (IsString-NoNul next all.0) all.1 found
        (omega (arith, less, length-string cur (string_bytes (next ∷ more)))))

-- A number behind the last of the strings leads to the end of the structure.
string_loop-end :
    (fuel : ℕ) (mem : Memory) (raw number index s : ℕ) (cur : List ℕ) (more : List (List ℕ))
    → index + length more < number
    → Has mem s (cur ++ 0 ∷ string_bytes more)
    → NoNul cur
    → AreStrings more
    → length (cur ++ 0 ∷ string_bytes more) < fuel
    → string_loop fuel mem raw number index s
      ≡ some (none, s + length (cur ++ 0 ∷ string_bytes more))
string_loop-end zero mem raw number index s cur more e h set all less = absurd (omega arith)
string_loop-end (suc fuel) mem raw number index s cur [] e h set all less =
    let nul = s + length cur in
    let tail = Has-behind mem s cur (0 ∷ 0 ∷ []) h in
    string_loop-more fuel mem raw number index s nul (omega (arith, e)) (
      string_end-nul fuel mem s cur (0 ∷ []) h set
        (omega (arith, less, length-string cur (0 ∷ []))))
    ∙ behind_string-end (string_loop fuel mem raw number (index + 1)) mem nul tail.1.0
    ∙ ap (λ n. some (none, n)) (omega (arith, length-string cur (0 ∷ [])))
string_loop-end (suc fuel) mem raw number index s cur (next ∷ more) e h set all less =
    let nul = s + length cur in
    let tail = Has-behind mem s cur (0 ∷ string_bytes (next ∷ more)) h in
    string_loop-more fuel mem raw number index s nul (omega (arith, e)) (
      string_end-nul fuel mem s cur (string_bytes (next ∷ more)) h set
        (omega (arith, less, length-string cur (string_bytes (next ∷ more)))))
    ∙ behind_string-next (string_loop fuel mem raw number (index + 1)) mem nul
        (IsString-set mem (nul + 1) next (0 ∷ string_bytes more) all.0 tail.1)
    ∙ string_loop-end fuel mem raw number (index + 1) (nul + 1) next more (omega (arith, e)) tail.1
        (IsString-NoNul next all.0) all.1
        (omega (arith, less, length-string cur (string_bytes (next ∷ more))))
    ∙ ap (λ n. some (none, n)) (omega (arith, length-string cur (string_bytes (next ∷ more))))

-- The strings that can be asked for: a structure without strings has an empty one.
abbrev pub given_strings : List (List ℕ) → List (List ℕ)
given_strings [] = [] ∷ []
given_strings (s ∷ ss) = s ∷ ss

-- A string, or NULL with `Smbios->Raw` behind the structure.
abbrev pub StringOf : Memory → ℕ → ℕ → Option (List ℕ) → Option Found → Type 0
StringOf mem raw end (some cs) o = AtString mem raw cs o
StringOf mem raw end none o = o ≡ some (none, end)

get_elem?-none : {A : Type 0} (xs : List A) (k : ℕ) → get_elem? xs k ≡ none → length xs ≤ k
get_elem?-none [] k e = omega arith
get_elem?-none (x ∷ xs) zero e = absurd (ground arith)
get_elem?-none (x ∷ xs) (suc k) e = omega (arith, get_elem?-none xs k e)

string_loop-StringOf :
    (fuel : ℕ) (mem : Memory) (raw number s : ℕ) (cur : List ℕ) (more : List (List ℕ))
    → Has mem s (cur ++ 0 ∷ string_bytes more)
    → NoNul cur
    → AreStrings more
    → length (cur ++ 0 ∷ string_bytes more) < fuel
    → 0 < number
    → (o : Option (List ℕ)) → get_elem? (cur ∷ more) (number - 1) ≡ o
    → StringOf mem raw
        (s + length (cur ++ 0 ∷ string_bytes more))
        o
        (string_loop fuel mem raw number 1 s)
string_loop-StringOf fuel mem raw number s cur more h set all less pos none e =
    string_loop-end fuel mem raw number 1 s cur more
      (omega (arith, pos, get_elem?-none (cur ∷ more) (number - 1) e)) h set all less
string_loop-StringOf fuel mem raw number s cur more h set all less pos (some cs) e =
    string_loop-nth fuel mem raw number 1 s cur more (number - 1) cs (omega (arith, pos)) h set all
      e less

-- The area starts behind the header and the formatted area.
Has-area :
    (mem : Memory) (raw : ℕ) (e : Entry)
    → Has mem raw (encode e)
    → Has mem (raw + length_at mem raw) (area (Entry.strings e))
Has-area mem raw e h =
    subst (λ p. Has mem p (area (Entry.strings e))) (omega (arith, h.1.0))
      (Has-behind mem (raw + 1 + 1 + 1 + 1) (Entry.formatted e) (area (Entry.strings e)) h.1.1.1.1)

pub length-encode :
    (e : Entry)
    → length (encode e) ≡ 4 + length (Entry.formatted e) + length (area (Entry.strings e))
length-encode e = omega (arith, length-append (Entry.formatted e) (area (Entry.strings e)))

area-StringOf :
    (fuel : ℕ) (mem : Memory) (raw number s : ℕ) (ss : List (List ℕ))
    → Has mem s (area ss)
    → AreStrings ss
    → length (area ss) < fuel
    → 0 < number
    → StringOf mem raw
        (s + length (area ss))
        (get_elem? (given_strings ss) (number - 1))
        (string_loop fuel mem raw number 1 s)
area-StringOf fuel mem raw number s [] h all less pos =
    string_loop-StringOf fuel mem raw number s [] [] h tt tt less pos _ refl
area-StringOf fuel mem raw number s (cur ∷ more) h all less pos =
    string_loop-StringOf fuel mem raw number s cur more h (IsString-NoNul cur all.0) all.1 less pos
      _ refl

-- On a structure as it is laid out, with fuel for its bytes and a number above 0: `LibGetSmbiosString`
-- returns the string of that number and leaves `Smbios->Raw`, or where there are not as many it returns
-- NULL and leaves `Smbios->Raw` behind the structure. The first string of a structure without strings
-- is empty.
pub lib_get_smbios_string-StringOf :
    (fuel : ℕ) (mem : Memory) (raw number : ℕ) (e : Entry)
    → Has mem raw (encode e)
    → AreStrings (Entry.strings e)
    → length (encode e) < fuel
    → 0 < number
    → StringOf mem raw
        (raw + length (encode e))
        (get_elem? (given_strings (Entry.strings e)) (number - 1))
        (lib_get_smbios_string fuel mem raw number)
unfolding lib_get_smbios_string
lib_get_smbios_string-StringOf fuel mem raw number e h all less pos =
    subst
      (λ end.
        StringOf mem raw end (get_elem? (given_strings (Entry.strings e)) (number - 1))
          (lib_get_smbios_string fuel mem raw number))
      (omega (arith, length-encode e, h.1.0))
      (area-StringOf fuel mem raw number (raw + length_at mem raw) (Entry.strings e)
        (Has-area mem raw e h) all (omega (arith, less, length-encode e)) pos)
