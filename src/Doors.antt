-- ===== src/Doors.antt =====
-- internal/doors/doors.go: Manager, which finds the programs that a room offers. What os.ReadDir
-- answers is an argument, `join` is filepath.Join.
pub mod Scan
use underground_node_network.Base.{
  ℕ, ◌%◌, ◌/◌, [], ◌∷◌, List, Bool, true, false, ◌||◌, Option, none, some, if◌then◌else◌, ◌==◌, not,
}
use underground_node_network.Map.{Map, get, put}
use underground_node_network.Text.{Text, text_eq, text_key, runes, trim_prefix}

pub record Door : Type 0 where
  pub name : Text
  pub path : Text

pub record Manager : Type 0 where
  pub doors_dir : Text
  pub doors : Map Text Door

-- os.DirEntry; `mode` is none where Info() fails.
pub record DirEntry : Type 0 where
  pub name : Text
  pub is_dir : Bool
  pub mode : Option ℕ

pub data ReadDir : Type 0 where
  entries : List DirEntry → ReadDir
  not_exist : ReadDir
  failed : ReadDir

abbrev pub new_manager : Text → Manager
new_manager dir = record { doors_dir = dir; doors = [] }

-- mode & 0111 != 0
unfoldable pub is_executable : ℕ → Bool
is_executable mode = mode % 2 == 1 || mode / 8 % 2 == 1 || mode / 64 % 2 == 1

module _ (join : Text → Text → Text) where
  -- The body of the loop over the entries.
  unfoldable pub scan_entry : Text → DirEntry → Map Text Door → Map Text Door
  scan_entry dir entry doors = if entry.is_dir then doors else elim entry.mode [
    | none ↦ doors
    | some mode ↦
        let name = trim_prefix entry.name (runes "/") in
        let door : Door = record { name = name; path = join dir entry.name } in
        if is_executable mode then put name door doors else doors
  ]

  unfoldable pub scan_entries : Text → List DirEntry → Map Text Door → Map Text Door
  scan_entries dir [] doors = doors
  scan_entries dir (entry ∷ rest) doors = scan_entries dir rest (scan_entry dir entry doors)

  -- Scan, and whether it returns no error.
  unfoldable pub scan : ReadDir → Manager → Manager × Bool
  scan not_exist m = (record m { doors = [] }, true)
  scan failed m = (record m { doors = [] }, false)
  scan (entries es) m = (record m { doors = scan_entries m.doors_dir es [] }, true)

unfoldable pub names : Map Text Door → List Text
names [] = []
names ((name, door) ∷ doors) = name ∷ names doors

-- List and Get
unfoldable pub list : Manager → List Text
list m = names m.doors

unfoldable pub get_door : Text → Manager → Option Door
get_door name m = get name m.doors

unfoldable pub is_door : Text → Manager → Bool
is_door name m = elim (get_door name m) [ none ↦ false | some door ↦ true ]
