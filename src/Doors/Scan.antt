-- ===== src/Doors/Scan.antt =====
-- What Scan finds, and what List and Get make of it.
use underground_node_network.Base.{
  ◌≡◌, refl, ap, ◌∙◌, [], ◌∷◌, List, Bool, true, false, ◌&&◌, ◌||◌, not, Option, none, some,
  if◌then◌else◌, Bool-cases, Option-cases, inl, inr, same,
}
use underground_node_network.Map.{Map, get, get-put, or_else, or_else-none}
use underground_node_network.Text.{Text, text_eq, text_eq_iff, text_key, runes, trim_prefix}
use underground_node_network.Doors.{
  Door, Manager, DirEntry, entries, is_executable, scan_entry, scan_entries, scan, names, list,
  get_door, is_door,
}

-- An entry is a program: no directory, and somebody may execute it.
abbrev pub is_program : DirEntry → Bool
is_program entry = elim entry.mode [
  | none ↦ false
  | some mode ↦ not entry.is_dir && is_executable mode
]

-- The door of a name: the last program under that name.
abbrev pub last_program : (Text → Text → Text) → Text → Text → List DirEntry → Option Door
last_program join dir name [] = none
last_program join dir name (entry ∷ rest) = or_else (last_program join dir name rest) (
    if is_program entry && same (trim_prefix entry.name (runes "/")) name
    then some (record { name = name; path = join dir entry.name })
    else none)

or_else_assoc : {V : Type 0} (a b c : Option V) → or_else a (or_else b c) ≡ or_else (or_else a b) c
or_else_assoc none b c = refl
or_else_assoc (some a) b c = refl

module _ (join : Text → Text → Text) (dir name : Text) where
  scan_entry-get :
      (entry : DirEntry) (doors : Map Text Door)
      → get name (scan_entry join dir entry doors)
        ≡ or_else
            (if is_program entry && same (trim_prefix entry.name (runes "/")) name
              then some (record { name = name; path = join dir entry.name })
              else none)
            (get name doors)
  unfolding scan_entry
  scan_entry-get entry doors = elim (Bool-cases entry.is_dir) [
    | inl folder ↦ elim (Option-cases entry.mode) [
      | inl no_mode ↦ rw (scan_entry, folder, no_mode) refl
      | inr (mode, has_mode) ↦ rw (scan_entry, folder, has_mode) refl
    ]
    | inr file ↦ elim (Option-cases entry.mode) [
      | inl no_mode ↦ rw (scan_entry, file, no_mode) refl
      | inr (mode, has_mode) ↦ elim (Bool-cases (is_executable mode)) [
        | inr plain ↦ rw (scan_entry, file, has_mode, plain) refl
        | inl runs ↦
            let short = trim_prefix entry.name (runes "/") in
            let door : Door = record { name = short; path = join dir entry.name } in
            let law = get-put short name door doors in
            elim (Bool-cases (same short name)) [
              | inr other ↦ rw (scan_entry, file, has_mode, runs, law, other) refl
              | inl eq ↦
                  let is_name : short ≡ name = (text_eq_iff short name).0 eq in
                  rw (scan_entry, file, has_mode, runs, law, eq)
                    (ap
                      (λ n.
                        let d : Door = record { name = n; path = join dir entry.name } in some d)
                      is_name)
            ]
      ]
    ]
  ]

  scan_entries-get :
      (es : List DirEntry) (doors : Map Text Door)
      → get name (scan_entries join dir es doors)
        ≡ or_else (last_program join dir name es) (get name doors)
  unfolding scan_entries
  scan_entries-get [] doors = refl
  scan_entries-get (entry ∷ es) doors =
      scan_entries-get es (scan_entry join dir entry doors)
      ∙ ap (or_else (last_program join dir name es)) (scan_entry-get entry doors)
      ∙ or_else_assoc (last_program join dir name es) _ (get name doors)

-- Is a text in the list?
abbrev pub contains : Text → List Text → Bool
contains t [] = false
contains t (u ∷ us) = text_eq u t || contains t us

names-contains :
    (name : Text) (doors : Map Text Door)
    → contains name (names doors) ≡ (elim (get name doors) [ none ↦ false | some d ↦ true ])
unfolding names get
names-contains name [] = refl
names-contains name ((n, d) ∷ doors) = elim (Bool-cases (text_eq n name)) [
  | inl eq ↦ rw eq refl
  | inr ne ↦ rw ne (names-contains name doors)
]

-- After a scan, Get finds under a name the last of the directory's programs with that name, whatever
-- doors there were before, and List has exactly the names under which Get finds something.
pub scan-get_door :
    (join : Text → Text → Text) (es : List DirEntry) (m : Manager) (name : Text)
    → let after = (scan join (entries es) m).0 in
      (get_door name after ≡ last_program join m.doors_dir name es)
      × (contains name (list after) ≡ is_door name after)
unfolding scan get_door list is_door get
scan-get_door join es m name = (
  scan_entries-get join m.doors_dir name es []
      ∙ or_else-none (last_program join m.doors_dir name es),
  names-contains name (scan_entries join m.doors_dir es []),
)
