-- ===== src/Launcher/Config.antt =====
-- What the configuration has of a key after the file was read.
use native.Mathlib.Nat.{}
use dagon_fs.Prelude.{
  ◌+◌, ◌≡◌, refl, ap, ◌∙◌, true, false, Bool-cases, Option-cases, inl, inr, drop_add, Option, none,
  some, List, [], ◌∷◌, ◌++◌, arith, length, drop, leb, ◌==◌, if◌then◌else◌, ◌>>=◌, take-append_left,
  drop-append_left,
}
use dagon_fs.Map.{Map, insert, find}
use dagon_fs.Map.Keys.{Name, name_ord}
use dagon_fs.Map.Laws.{same, find-insert}
use dagon_fs.Launcher.{find_char, is_skipped, key_of, value_of, read_line, read_lines, read_config}

-- `key = value`
abbrev pub entry_line : Name → Name → Name
entry_line key value = key ++ 32 ∷ 61 ∷ 32 ∷ value

-- The lines of a file, with the entries that it has.
pub data Describes : List Name → List (Name × Name) → Type 0 where
  no_line : Describes [] []
  skipped :
      (line : Name) (lines : List Name) (entries : List (Name × Name))
      → is_skipped line ≡ true
      → Describes lines entries
      → Describes (line ∷ lines) entries
  without_sign :
      (line : Name) (lines : List Name) (entries : List (Name × Name))
      → find_char 61 line ≡ none
      → Describes lines entries
      → Describes (line ∷ lines) entries
  entry :
      (key value : Name) (lines : List Name) (entries : List (Name × Name))
      → find_char 61 key ≡ none
      → is_skipped (key ++ 32 ∷ []) ≡ false
      → Describes lines entries
      → Describes (entry_line key value ∷ lines) ((key, value) ∷ entries)

-- The value that stands last for a key.
unfoldable pub last_value : Name → List (Name × Name) → Option Name
last_value key [] = none
last_value key ((k, v) ∷ entries) = elim (last_value key entries) [
  | some w ↦ some w
  | none ↦ if same key k then some v else none
]

find_char-entry :
    (key value : Name)
    → find_char 61 key ≡ none
    → find_char 61 (entry_line key value) ≡ some (length key + 1)
unfolding find_char
find_char-entry [] value no_sign = refl
find_char-entry (x ∷ key) value no_sign = elim (Bool-cases (x == 61)) [
  | inl found ↦ let missing = rw (found, if◌then◌else◌) at no_sign in cc
  | inr other ↦ elim (Option-cases (find_char 61 key)) [
    | inl none_there ↦
        rw (other, if◌then◌else◌, find_char-entry key value none_there, ◌>>=◌)
          (ap some (omega arith))
    | inr (pos, there) ↦ let missing = rw (other, if◌then◌else◌, there, ◌>>=◌) at no_sign in cc
  ]
]

is_skipped-entry :
    (key value : Name)
    → is_skipped (key ++ 32 ∷ []) ≡ false
    → is_skipped (entry_line key value) ≡ false
unfolding is_skipped
is_skipped-entry [] value h = refl
is_skipped-entry (x ∷ key) value h = h

key_of-entry : (key value : Name) → key_of (entry_line key value) (length key + 1) ≡ key
unfolding key_of
key_of-entry key value =
    let positive : (length key + 1 == 0) ≡ false = ground arith in
    rw (positive, if◌then◌else◌) (take-append_left key _ _ (omega arith))

without_blank :
    (value : Name) → (if leb (length (32 ∷ value)) 1 then [] else drop 1 (32 ∷ value)) ≡ value
without_blank [] = refl
without_blank (x ∷ value) =
    let long : leb (length (32 ∷ x ∷ value)) 1 ≡ false = ground arith in
    rw (long, if◌then◌else◌) refl

value_of-entry : (key value : Name) → value_of (entry_line key value) (length key + 1) ≡ value
unfolding value_of
value_of-entry key value =
    let next : length key + 1 + 1 ≡ length key + 2 = omega arith in
    let here : drop (length key + 1 + 1) (entry_line key value) ≡ 32 ∷ value =
      rw (next, drop_add, drop-append_left key (32 ∷ 61 ∷ 32 ∷ value) (length key) refl) refl in
    rw here (without_blank value)

read_line-entry :
    (key value : Name) (config : Map Name Name)
    → find_char 61 key ≡ none
    → is_skipped (key ++ 32 ∷ []) ≡ false
    → read_line (entry_line key value) config ≡ insert key value config
unfolding read_line
read_line-entry key value config no_sign shown =
    rw
      (
        is_skipped-entry key value shown,
        if◌then◌else◌,
        find_char-entry key value no_sign,
        key_of-entry key value,
        value_of-entry key value,
      )
      refl

read_line-skipped :
    (line : Name) (config : Map Name Name) → is_skipped line ≡ true → read_line line config ≡ config
unfolding read_line
read_line-skipped line config skip = rw (skip, if◌then◌else◌) refl

read_line-without :
    (line : Name) (config : Map Name Name)
    → find_char 61 line ≡ none
    → read_line line config ≡ config
unfolding read_line
read_line-without line config no_sign = elim (Bool-cases (is_skipped line)) [
  | inl skip ↦ rw (skip, if◌then◌else◌) refl
  | inr shown ↦ rw (shown, if◌then◌else◌, no_sign) refl
]

find-read_lines :
    (lines : List Name) (entries : List (Name × Name)) (key : Name) (config : Map Name Name)
    → Describes lines entries
    → find key (read_lines lines config)
      ≡ elim (last_value key entries) [ none ↦ find key config | some w ↦ some w ]
unfolding read_lines last_value
find-read_lines [] [] key config no_line = refl
find-read_lines [] (_ ∷ entries) key config d = elim d [ ]
find-read_lines (line ∷ lines) entries key config (skipped _ _ _ skip more) =
    rw (read_line-skipped line config skip) (find-read_lines lines entries key config more)
find-read_lines (line ∷ lines) entries key config (without_sign _ _ _ no_sign more) =
    rw (read_line-without line config no_sign) (find-read_lines lines entries key config more)
find-read_lines (_ ∷ lines) (_ ∷ entries) key config (entry k v _ _ no_sign shown more) =
    let rest = find-read_lines lines entries key (insert k v config) more in
    rw (read_line-entry k v config no_sign shown, rest)
      (elim (Option-cases (last_value key entries)) [
        | inl nowhere ↦ rw nowhere (
            find-insert key k v config ∙ elim (Bool-cases (same key k)) [
              | inl here ↦ rw (here, if◌then◌else◌) refl
              | inr other ↦ rw (other, if◌then◌else◌) refl
            ])
        | inr (w, later) ↦ rw later refl
      ])

-- In a file of lines `key = value`, with keys that hold no `=` and do not begin with `#`, of lines
-- that are empty or begin with `#`, and of lines without `=`: each key has the value that stands
-- last for it once the file is read, and no value if none stands there.
pub find-read_config :
    (lines : List Name) (entries : List (Name × Name)) (key : Name)
    → Describes lines entries
    → find key (read_config lines) ≡ last_value key entries
unfolding read_config find
find-read_config lines entries key d =
    find-read_lines lines entries key [] d ∙ elim (Option-cases (last_value key entries)) [
      | inl nowhere ↦ rw nowhere refl
      | inr (w, there) ↦ rw there refl
    ]
