-- ===== src/Services/Filename.antt =====
-- `sanitize_filename` of backend/app/services/asset_service.py, on the list of a name's characters.
-- `unicodedata.normalize("NFKD", …)` is a parameter.
pub mod Safe
use pack_verse.Base.{
  ℕ, String, Bool, true, false, not, ◌&&◌, ◌||◌, Option, none, some, List, [], ◌∷◌, if◌then◌else◌,
  leb, ltb, ◌==◌, ℕ_eq, keep, take, ◌++◌,
}
use Prim.Native.Char.{Char, code}
use Prim.Native.String

abbrev pub chars : String → List Char
chars String.[] = []
chars (String.◌∷◌ c s) = c ∷ chars s

abbrev pub text_of : List Char → String
text_of [] = String.[]
text_of (c ∷ cs) = String.◌∷◌ c (text_of cs)

abbrev pub is_char : Char → Char → Bool
is_char c d = code c == code d

abbrev pub between : ℕ → ℕ → ℕ → Bool
between low high n = leb low n && leb n high

-- `[A-Za-z0-9._-]`
abbrev pub is_safe : Char → Bool
is_safe c =
    between 65 90 (code c)
    || between 97 122 (code c)
    || between 48 57 (code c)
    || is_char c "."
    || is_char c "_"
    || is_char c "-"

-- `"._"`, the characters that `strip` takes off
abbrev pub is_edge : Char → Bool
is_edge c = is_char c "." || is_char c "_"

-- the components of a path, as `PurePosixPath` splits it: `current` is the one that is being read
abbrev pub components : List Char → List Char → List (List Char)
components current [] = current ∷ []
components current (c ∷ cs) =
    if is_char c "/" then current ∷ components [] cs else components (current ++ (c ∷ [])) cs

-- a component that `PurePosixPath` drops
abbrev pub is_dropped : List Char → Bool
is_dropped [] = true
is_dropped (c ∷ []) = is_char c "."
is_dropped (c ∷ d ∷ cs) = false

abbrev pub last_or : List Char → List (List Char) → List Char
last_or default [] = default
last_or default (x ∷ xs) = last_or x xs

-- `PurePosixPath(path).name`
abbrev pub path_name : List Char → List Char
path_name path = last_or [] (keep (λ part. not (is_dropped part)) (components [] path))

-- `_SAFE_FILENAME_RE.sub("_", name)`; the flag says whether the character before was replaced
abbrev pub sub_unsafe : Bool → List Char → List Char
sub_unsafe in_run [] = []
sub_unsafe in_run (c ∷ cs) =
    if is_safe c
    then c ∷ sub_unsafe false cs
    else if in_run
    then sub_unsafe true cs
    else "_" ∷ sub_unsafe true cs

abbrev pub strip_left : List Char → List Char
strip_left [] = []
strip_left (c ∷ cs) = if is_edge c then strip_left cs else c ∷ cs

abbrev pub attach : Char → List Char → List Char
attach c [] = if is_edge c then [] else c ∷ []
attach c (d ∷ ds) = c ∷ d ∷ ds

abbrev pub strip_right : List Char → List Char
strip_right [] = []
strip_right (c ∷ cs) = attach c (strip_right cs)

-- `safe or "file"`
abbrev pub or_file : List Char → List Char
or_file [] = chars "file"
or_file (c ∷ cs) = c ∷ cs

abbrev pub max_filename_length : ℕ
max_filename_length = 255

unfoldable pub sanitize_filename : (List Char → List Char) → List Char → List Char
sanitize_filename normalize original =
    let ascii_only = keep (λ c. ltb (code c) 128) (normalize original) in
    let safe = strip_right (strip_left (sub_unsafe false (path_name ascii_only))) in
    take max_filename_length (or_file safe)
