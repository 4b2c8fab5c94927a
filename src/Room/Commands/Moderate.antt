-- ===== src/Room/Commands/Moderate.antt =====
-- internal/sshserver/commands.go: the commands of the operator.
use underground_node_network.Base.{
  [], ◌∷◌, ◌++◌, List, Bool, ◌||◌, Option, none, some, if◌then◌else◌, ltb, leb, ℕ, take,
}
use underground_node_network.Map.{Map, put, delete}
use underground_node_network.Text.{Text, text_eq, text_key, runes, byte_len, has_prefix, trim_space}
use underground_node_network.Room.{
  Person, RoomServer, Handled, finished, crashed, ◌>>=◌, msg_server, send_osc, close_conn,
  is_operator, get_pub_key_hash, broadcast,
}
use underground_node_network.Room.Commands.Talk.{find_person, say_holding, say, two_words}

unfoldable pub set_bans : Map Text Text → RoomServer → RoomServer
set_bans bans s = record s { banned_hashes = bans }

unfoldable pub set_lock : Text → RoomServer → RoomServer
set_lock key s = record s { room_lock_key = key }

-- The reason behind a person's name.
unfoldable pub reason_of : Option Text → Text
reason_of none = runes "No reason given."
reason_of (some r) = trim_space r

-- The popup of somebody who has to go.
abbrev popup : Text → Text → Map Text Text
popup title message =
    (runes "title", title) ∷ (runes "message", message) ∷ (runes "type", runes "error") ∷ []

abbrev pub announcement : Text → Text → Text → Text → Text
announcement name verb by reason =
    runes "*** "
    ++ (name
        ++ (runes " was "
            ++ (verb ++ (runes " by @" ++ (by ++ (runes " (" ++ (reason ++ runes ") ***")))))))

-- The first ban that starts so.
unfoldable pub find_ban : Text → Map Text Text → Option Text
find_ban hash [] = none
find_ban hash ((h, reason) ∷ bans) =
    let later = find_ban hash bans in if has_prefix h hash then some h else later

module _ (digest : Text → Text) where
  -- A person's name, or the start of the hash of the key.
  abbrev pub is_target : Text → Person → Bool
  is_target target p =
      text_eq p.username target || has_prefix (get_pub_key_hash digest p.pub_key) target

  unfoldable pub find_target : Text → List (Text × Person) → Option (Text × Person)
  find_target target people = find_person (is_target target) people

  -- Only the operator goes on.
  unfoldable pub guarded : Text → Person → Handled RoomServer → RoomServer → Handled RoomServer
  guarded id p go s =
      if is_operator p.pub_key s
      then go
      else say digest id p (runes "You do not have operator privileges.") msg_server s

  -- The announcement, the popup and the end of the connection.
  unfoldable pub throw_out :
      Text → Person → Text → Text → Text → Text → Text → RoomServer → Handled RoomServer
  throw_out target_id target by verb title message reason s =
      let text = announcement target.username verb by reason in
      let popup_text = message ++ (s.room_name ++ (b'.' ∷ 10 ∷ runes "Reason: " ++ reason)) in
      send_osc target_id (runes "popup") (popup title popup_text)
        (broadcast digest s (runes "Server") text)
      >>= λ t. finished (close_conn target_id t)

  -- case "kick"
  unfoldable pub kick_with : Text → Person → Option Text → RoomServer → Handled RoomServer
  kick_with id p none s = say digest id p (runes "Usage: /kick <user/hash> [reason]") msg_server s
  kick_with id p (some rest) s = elim (find_target (trim_space (two_words rest).0) s.people) [
    | none ↦ say digest id p (runes "User not found.") msg_server s
    | some (target_id, target) ↦
        throw_out target_id target p.username (runes "kicked") (runes "Kicked from Room")
          (runes "You were kicked from ") (reason_of (two_words rest).1) s
  ]

  unfoldable pub kick : Text → Person → Option Text → RoomServer → Handled RoomServer
  kick id p arg s = guarded id p (kick_with id p arg s) s

  -- case "kickban": somebody who is there, or a hash.
  unfoldable pub ban_hash : Text → Person → Text → Text → RoomServer → Handled RoomServer
  ban_hash id p target reason s =
      if leb 8 (byte_len target)
      then say digest id p (runes "Banned hash prefix: " ++ target) msg_server
          (set_bans (put target reason s.banned_hashes) s)
      else say digest id p (runes "User not found or hash too short.") msg_server s

  unfoldable pub ban_with : Text → Person → Option Text → RoomServer → Handled RoomServer
  ban_with id p none s = say digest id p (runes "Usage: /kickban <user/hash> [reason]") msg_server s
  ban_with id p (some rest) s =
      let target_id = trim_space (two_words rest).0 in
      let reason = reason_of (two_words rest).1 in
      elim (find_target target_id s.people) [
        | none ↦ ban_hash id p target_id reason s
        | some (session, target) ↦
            let hash = get_pub_key_hash digest target.pub_key in
            throw_out session target p.username (runes "banned") (runes "Banned from Room")
              (runes "You were BANNED from ") reason (set_bans (put hash reason s.banned_hashes) s)
      ]

  unfoldable pub kickban : Text → Person → Option Text → RoomServer → Handled RoomServer
  kickban id p arg s = guarded id p (ban_with id p arg s) s

  -- case "unban"
  unfoldable pub unban_with : Text → Person → Option Text → RoomServer → Handled RoomServer
  unban_with id p none s = say digest id p (runes "Usage: /unban <hash>") msg_server s
  unban_with id p (some rest) s =
      let hash = trim_space rest in
      elim (find_ban hash s.banned_hashes) [
        | none ↦ say digest id p (runes "Ban not found.") msg_server s
        | some h ↦
            say digest id p (runes "Unbanned hash prefix: " ++ hash) msg_server
              (set_bans (delete h s.banned_hashes) s)
      ]

  unfoldable pub unban : Text → Person → Option Text → RoomServer → Handled RoomServer
  unban id p arg s = guarded id p (unban_with id p arg s) s

  -- case "banlist": for h, r := range s.bannedHashes, while the lock is held for reading `readers`
  -- times. h[:12] is out of range for a shorter h; otherwise it is taken as that of an ASCII text.
  unfoldable pub list_bans : ℕ → Text → Person → Map Text Text → RoomServer → Handled RoomServer
  list_bans readers id p [] s = finished s
  list_bans readers id p ((h, reason) ∷ bans) s =
      let rest = list_bans readers id p bans in
      if ltb (byte_len h) 12
      then crashed
      else say_holding digest readers id p (take 12 h ++ (runes ": " ++ reason)) msg_server s
        >>= rest

  -- s.mu.RLock(), the loop, s.mu.RUnlock()
  unfoldable pub banlist : Text → Person → RoomServer → Handled RoomServer
  banlist id p s =
      guarded id p
        (say digest id p (runes "--- Banned Users ---") msg_server s >>= λ t.
          list_bans 1 id p t.banned_hashes t)
        s

  -- case "lock"
  unfoldable pub lock_with : Text → Person → Option Text → RoomServer → Handled RoomServer
  lock_with id p none s = say digest id p (runes "Usage: /lock <key>") msg_server s
  lock_with id p (some rest) s =
      let text = runes "*** @" ++ (p.username ++ runes " locked the room ***") in
      finished (broadcast digest (set_lock (trim_space rest) s) (runes "Server") text)

  unfoldable pub lock : Text → Person → Option Text → RoomServer → Handled RoomServer
  lock id p arg s = guarded id p (lock_with id p arg s) s

  -- case "unlock"
  unfoldable pub unlock : Text → Person → RoomServer → Handled RoomServer
  unlock id p s =
      let text = runes "*** @" ++ (p.username ++ runes " unlocked the room ***") in
      guarded id p (finished (broadcast digest (set_lock [] s) (runes "Server") text)) s

  -- case "kickall"
  unfoldable pub close_others : List (Text × Person) → RoomServer → RoomServer
  close_others [] s = s
  close_others ((id, p) ∷ people) s =
      close_others people (if is_operator p.pub_key s then s else close_conn id s)

  unfoldable pub kickall_reason : Option Text → Text
  kickall_reason none = runes "All users kicked."
  kickall_reason (some r) = trim_space r

  unfoldable pub kickall : Text → Person → Option Text → RoomServer → Handled RoomServer
  kickall id p arg s =
      let text =
        runes "*** @"
        ++ (p.username
            ++ (runes " is kicking everyone: " ++ (kickall_reason arg ++ runes " ***"))) in
      let t = broadcast digest s (runes "Server") text in
      guarded id p (finished (close_others t.people t)) s
