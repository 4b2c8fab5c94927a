-- ===== src/Tests/Sessions.antt =====
-- A run of the theorem on the requests of a session.
use underground_node_network.Base.{◌≡◌, ◌↔◌, [], ◌∷◌, List, panics}
use underground_node_network.Text.{runes}
use underground_node_network.Sessions.{Request, room_session, entry_session}
use underground_node_network.Sessions.Fatal.{
  FirstIsFatal, counts_in_room, counts_at_entry, sessions-panic_iff,
}

-- A request that is ignored, and a subsystem without a name.
abbrev requests : List Request
requests =
    record { kind = runes "env"; payload = [] }
    ∷ record { kind = runes "subsystem"; payload = 0 ∷ 0 ∷ 0 ∷ [] }
    ∷ []

sessions-panic_iff_example :
    ((room_session requests ≡ panics) ↔ FirstIsFatal counts_in_room requests)
    × ((entry_session requests ≡ panics) ↔ FirstIsFatal counts_at_entry requests)
sessions-panic_iff_example = sessions-panic_iff requests
