-- ===== src/Files/Paths.antt =====
-- `std::path`: the operations on paths that crates/microwaf/src/config.rs uses. A path is the list
-- of its components, the last one first; the root is the component `/`.
use microwaf.Prelude.{
  ℕ, Bool, Option, none, some, List, [], ◌∷◌, ◌++◌, ◌||◌, nat_beq, nat_eq, list_eq, ◌==◌,
  if◌then◌else◌,
}
use microwaf.Prelude.Text.{Text, codes, starts_with, split}

abbrev pub FilePath : Type 0
FilePath = List Text

-- `dir.join(name)` for a plain name
abbrev pub join : FilePath → Text → FilePath
join dir name = name ∷ dir

-- `Path::file_name`: a root and `..` have none
unfoldable pub file_name : FilePath → Option Text
file_name [] = none
file_name (n ∷ p) = if n == codes "/" || n == codes ".." then none else some n

-- `Path::with_file_name`
abbrev pub with_file_name : FilePath → Text → FilePath
with_file_name [] name = name ∷ []
with_file_name (n ∷ p) name = name ∷ p

-- `s.rsplit_once(c)` for a character
unfoldable pub rsplit_once : ℕ → Text → Option (Text × Text)
rsplit_once d [] = none
rsplit_once d (c ∷ s) = elim (rsplit_once d s) [
  | some (a, b) ↦ some (c ∷ a, b)
  | none ↦ if nat_beq c d then some ([], s) else none
]

-- the extension of a file name: a leading dot starts none
abbrev extension_of : Option (Text × Text) → Option Text
extension_of none = none
extension_of (some ([], ext)) = none
extension_of (some (c ∷ stem, ext)) = some ext

-- `Path::extension`
unfoldable pub extension : FilePath → Option Text
unfolding file_name
extension p = elim (file_name p) [ none ↦ none | some name ↦ extension_of (rsplit_once b'.' name) ]

-- `Path::with_extension`
unfoldable pub with_extension : FilePath → Text → FilePath
unfolding file_name
with_extension p ext = elim (file_name p) [
  | none ↦ p
  | some name ↦ elim (rsplit_once b'.' name) [
    | none ↦ with_file_name p (name ++ b'.' ∷ ext)
    | some (stem, old) ↦ with_file_name p (stem ++ b'.' ∷ ext)
  ]
]

-- `str::ends_with` for a text
unfoldable pub ends_with : Text → Text → Bool
ends_with suffix [] = suffix == []
ends_with suffix (c ∷ s) = suffix == c ∷ s || ends_with suffix s

abbrev push_parts : FilePath → List Text → FilePath
push_parts p [] = p
push_parts p (part ∷ parts) =
    push_parts (if part == [] || part == codes "." then p else part ∷ p) parts

-- `PathBuf::from` of a text, and `dir.join` of one: the root, if the text starts with it, then the
-- components that are neither empty nor `.`
unfoldable pub join_text : FilePath → Text → FilePath
join_text p s =
    push_parts (if starts_with (codes "/") s then codes "/" ∷ [] else p)
      (split (λ c. nat_beq c b'/') s)

abbrev pub path_from : Text → FilePath
path_from = join_text []
