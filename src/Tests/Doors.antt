-- ===== src/Tests/Doors.antt =====
-- A run of the theorem on the doors of a room.
use underground_node_network.Base.{◌≡◌, [], ◌∷◌, ◌++◌, List, true, false, some}
use underground_node_network.Text.{Text, runes}
use underground_node_network.Doors.{DirEntry, entries, new_manager, scan, list, get_door, is_door}
use underground_node_network.Doors.Scan.{last_program, contains, scan-get_door}

abbrev join : Text → Text → Text
join dir name = dir ++ b'/' ∷ name

abbrev files : List DirEntry
files =
    record { name = runes "chess"; is_dir = false; mode = some 493 }
    ∷ record { name = runes "notes"; is_dir = false; mode = some 420 }
    ∷ record { name = runes "lib"; is_dir = true; mode = some 493 }
    ∷ []

scan-get_door_example :
    (get_door (runes "chess") (scan join (entries files) (new_manager (runes "doors"))).0
      ≡ last_program join (runes "doors") (runes "chess") files)
    × (contains (runes "chess") (list (scan join (entries files) (new_manager (runes "doors"))).0)
        ≡ is_door (runes "chess") (scan join (entries files) (new_manager (runes "doors"))).0)
scan-get_door_example = scan-get_door join files (new_manager (runes "doors")) (runes "chess")
