-- ===== src/Files/Fs.antt =====
-- `std::fs`: the files and directories that the daemon reads and writes. The order of the entries
-- stands for the unspecified order of `read_dir`. `denied` are the paths that the process may not
-- write or create, `hidden` those that it may not read or that hold no UTF-8.
use microwaf.Prelude.{
  Bool, true, false, Option, none, some, List, [], ◌∷◌, nat_eq, list_eq, ◌==◌, ◌&&◌, not,
  if◌then◌else◌,
}
use microwaf.Prelude.Text.{Text}
use microwaf.HashMap.{HashMap, get, insert}
use microwaf.Files.Paths.{FilePath}

pub data Node : Type 0 where
  file : Text → Node
  directory : Node

pub record Disk : Type 0 where
  pub nodes : HashMap FilePath Node
  pub denied : FilePath → Bool
  pub hidden : FilePath → Bool

abbrev pub node_at : Disk → FilePath → Option Node
node_at d p = get p d.nodes

-- `Path::exists`
abbrev pub exists : Disk → FilePath → Bool
exists d p = elim (node_at d p) [ none ↦ false | some node ↦ true ]

-- `Path::is_dir`
abbrev pub is_dir : Disk → FilePath → Bool
is_dir d p = elim (node_at d p) [ none ↦ false | some (file text) ↦ false | some directory ↦ true ]

-- `mkdir` below a directory that is there, or that could not be made
abbrev pub make_dir : Bool → FilePath → Disk → Disk × Bool
make_dir false p d = (d, false)
make_dir true p d = elim (node_at d p) [
  | some node ↦ (d, false)
  | none ↦
      if d.denied p then (d, false) else (record d { nodes = insert p directory d.nodes }, true)
]

-- `fs::create_dir_all`: the missing directories from the top, up to the first that fails
unfoldable pub create_dir_all : FilePath → Disk → Disk × Bool
create_dir_all [] d = (d, true)
create_dir_all (n ∷ p) d =
    let (above, made) = create_dir_all p d in
    if is_dir d (n ∷ p) then (d, true) else make_dir made (n ∷ p) above

abbrev parent_ok : Disk → FilePath → Bool
parent_ok d [] = false
parent_ok d (n ∷ []) = true
parent_ok d (n ∷ m ∷ p) = is_dir d (m ∷ p)

-- `fs::write`
unfoldable pub write : FilePath → Text → Disk → Disk × Bool
write p text d =
    if parent_ok d p && not (is_dir d p) && not (d.denied p)
    then (record d { nodes = insert p (file text) d.nodes }, true)
    else (d, false)

-- `fs::read_to_string`
unfoldable pub read_to_string : FilePath → Disk → Option Text
read_to_string p d = elim (node_at d p) [
  | none ↦ none
  | some directory ↦ none
  | some (file text) ↦ if d.hidden p then none else some text
]

-- the paths right below a directory
unfoldable pub list_dir : FilePath → HashMap FilePath Node → List FilePath
list_dir p [] = []
list_dir p (([], v) ∷ m) = list_dir p m
list_dir p ((n ∷ q, v) ∷ m) = if q == p then (n ∷ q) ∷ list_dir p m else list_dir p m

-- `fs::read_dir`
unfoldable pub read_dir : FilePath → Disk → Option (List FilePath)
read_dir p d = if is_dir d p && not (d.hidden p) then some (list_dir p d.nodes) else none
