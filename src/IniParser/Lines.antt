-- ===== src/IniParser/Lines.antt =====
-- IniParser.cpp, `ReadIni`: a file of assignments, written with or without spaces about the `=`.
use gcnsim_awb.Prelude.{
  ℕ, ◌<◌, ◌^◌, ◌≡◌, ◌≢◌, refl, true, if◌then◌else◌, List, [], ◌∷◌, ◌++◌, Option, none, some, arith,
  ◌∙◌, ap,
}
use mathlib.Core.Logic.{◌↔◌}
use gcnsim_awb.Text.{codes, same_text, split_at, ok, stoull}
use gcnsim_awb.Text.Search.{Avoids, Avoids-append, split_at-spaced, split_at-close, split_at-absent}
use gcnsim_awb.Text.Digits.{print, stoull-print}
use gcnsim_awb.IniParser.{Table, assign, value_of, parse_line, read_lines, get_uint64}

pub same_text_iff : (s t : List ℕ) → (same_text s t ≡ true) ↔ (s ≡ t)
unfolding same_text
same_text_iff [] [] = ground arith
same_text_iff [] (b ∷ t) = ground arith
same_text_iff (a ∷ s) [] = ground arith
same_text_iff (a ∷ s) (b ∷ t) = ground (arith, same_text_iff s t)

-- A name that a file sets: it has no `=`, and the line is one of the two styles.
pub data IsAssignment (name value : List ℕ) : List ℕ → Type 0 where
  spaced : Avoids b'=' name → IsAssignment name value (name ++ (codes " = " ++ value))
  close :
      Avoids b'=' name
      → Avoids b' ' name
      → Avoids b' ' value
      → IsAssignment name value (name ++ (codes "=" ++ value))

parse_line-first :
    (line : List ℕ) (p : List ℕ × List ℕ)
    → split_at (codes " = ") line ≡ some p
    → parse_line line ≡ p
unfolding parse_line
parse_line-first line p e = rw (e, parse_line) refl

parse_line-second :
    (line : List ℕ) (p : List ℕ × List ℕ)
    → split_at (codes " = ") line ≡ none
    → split_at (codes "=") line ≡ some p
    → parse_line line ≡ p
unfolding parse_line
parse_line-second line p e f = rw (e, f, parse_line) refl

parse_line-spaced :
    (name value : List ℕ)
    → Avoids b'=' name
    → parse_line (name ++ (codes " = " ++ value)) ≡ (name, value)
parse_line-spaced name value h =
    parse_line-first (name ++ (codes " = " ++ value)) (name, value) (split_at-spaced name value h)

no_space : ◌≢◌ {A = ℕ} b'=' b' '
no_space = omega arith

close-Avoids :
    (name value : List ℕ)
    → Avoids b' ' name
    → Avoids b' ' value
    → Avoids b' ' (name ++ (codes "=" ++ value))
close-Avoids name value k l = Avoids-append b' ' name (codes "=" ++ value) k (no_space, l)

close-absent : (line : List ℕ) → Avoids b' ' line → split_at (codes " = ") line ≡ none
close-absent line h = split_at-absent b' ' (codes "= ") line h

parse_line-close :
    (name value : List ℕ)
    → Avoids b'=' name
    → Avoids b' ' name
    → Avoids b' ' value
    → parse_line (name ++ (codes "=" ++ value)) ≡ (name, value)
parse_line-close name value h k l =
    parse_line-second (name ++ (codes "=" ++ value)) (name, value)
      (close-absent (name ++ (codes "=" ++ value)) (close-Avoids name value k l))
      (split_at-close name value h)

parse_line-IsAssignment :
    {name value line : List ℕ} → IsAssignment name value line → parse_line line ≡ (name, value)
parse_line-IsAssignment {name} {value} (spaced h) = parse_line-spaced name value h
parse_line-IsAssignment {name} {value} (close h k l) = parse_line-close name value h k l

-- The lines of a file, one for each assignment.
pub data AreLines : List (List ℕ × List ℕ) → List (List ℕ) → Type 0 where
  no_lines : AreLines [] []
  more_lines :
      {name value line : List ℕ} {ps : List (List ℕ × List ℕ)} {lines : List (List ℕ)}
      → IsAssignment name value line
      → AreLines ps lines
      → AreLines ((name, value) ∷ ps) (line ∷ lines)

-- The value that stands last for a name, or else an older one.
abbrev pub last_value : List ℕ → Option (List ℕ) → List (List ℕ × List ℕ) → Option (List ℕ)
last_value name old [] = old
last_value name old ((k, v) ∷ ps) = last_value name (if same_text k name then some v else old) ps

value_of-assign :
    (name k v : List ℕ) (t : Table)
    → value_of name (assign k v t) ≡ (if same_text k name then some v else value_of name t)
unfolding value_of assign
value_of-assign name k v [] = refl
value_of-assign name k v ((j, w) ∷ t) = ground (
  arith,
  same_text_iff j k,
  same_text_iff j name,
  same_text_iff k name,
  value_of-assign name k v t,
)

-- Whatever a file of assignments sets, the table has for each name the value that stands last for it,
-- or else what it had before.
pub read_lines-last :
    (name : List ℕ) {ps : List (List ℕ × List ℕ)} {lines : List (List ℕ)} (t : Table)
    → AreLines ps lines
    → value_of name (read_lines lines t) ≡ last_value name (value_of name t) ps
unfolding read_lines
read_lines-last name t no_lines = refl
read_lines-last name t (more_lines {name = k} {value = v} {ps = ps} h r) =
    rw (parse_line-IsAssignment h) (
      read_lines-last name (assign k v t) r
      ∙ ap (λ o. last_value name o ps) (value_of-assign name k v t))

get_uint64-found :
    (name : List ℕ) (t : Table) (v : List ℕ)
    → value_of name t ≡ some v
    → get_uint64 name t ≡ stoull v
unfolding get_uint64
get_uint64-found name t v e = ground arith

-- A number that the file sets in decimal is read back: if what stands last for a name is a printed
-- number below 2^64, `get_uint64` returns that number.
pub get_uint64-print :
    (name : List ℕ) (n : ℕ) (ps : List (List ℕ × List ℕ)) (lines : List (List ℕ))
    → AreLines ps lines
    → last_value name none ps ≡ some (print n)
    → n < 2 ^ 64
    → get_uint64 name (read_lines lines []) ≡ ok n
unfolding value_of
get_uint64-print name n ps lines r e h =
    let found : value_of name (read_lines lines []) ≡ some (print n) =
      read_lines-last name [] r ∙ e in
    get_uint64-found name (read_lines lines []) (print n) found ∙ stoull-print n h
