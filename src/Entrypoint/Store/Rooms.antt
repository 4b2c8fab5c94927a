-- ===== src/Entrypoint/Store/Rooms.antt =====
-- What is registered about rooms outlives a restart.
use underground_node_network.Base.{
  ◌≡◌, ◌≢◌, refl, ap, ◌∙◌, [], ◌∷◌, ◌++◌, List, Option, none, some, append_assoc, arith, All-append,
  All,
}
use underground_node_network.Map.{Map, get, put, put_all, get-put_all, UniqueKeys, or_else-none}
use underground_node_network.Text.{
  Text, text_key, is_space, NoSpace, NoSpace-Lacks, Lacks, trim_space, trim_space-words,
}
use underground_node_network.Text.Split.{split, split-append, split-Lacks, split_n}
use underground_node_network.Entrypoint.State.{Server, fresh_server}
use underground_node_network.Entrypoint.Store.{
  three, room_line, print_rooms, save_rooms, load_room, load_room_line, load_room_lines, load_rooms,
  restart, load_user, load_user_line, load_user_lines, load_users,
}

-- A word: not empty and without white space.
abbrev pub IsWord : Text → Type 0
IsWord s = (s ≢ []) × NoSpace s

-- An entry that a register message made: a host key hash, an owner and a date.
abbrev pub IsRoomInfo : Text → Type 0
IsRoomInfo info =
    (h : Text) × (o : Text) × (d : Text) × IsWord h × IsWord o × IsWord d × (info ≡ three h o d)

abbrev pub RoomsAreWords : Map Text Text → Type 0
RoomsAreWords = All (λ e. IsWord e.0 × IsRoomInfo e.1)

space_Lacks : (s : Text) → NoSpace s → Lacks b' ' s
unfolding is_space
space_Lacks s h = NoSpace-Lacks b' ' s refl h

pub split-three :
    (a b c : Text) → NoSpace a → NoSpace b → NoSpace c → split (three a b c) b' ' ≡ a ∷ b ∷ c ∷ []
split-three a b c ha hb hc =
    rw
      (
        split-append a (b ++ b' ' ∷ c) b' ' (space_Lacks a ha),
        split-append b c b' ' (space_Lacks b hb),
      )
      (ap (λ l. a ∷ b ∷ l) (split-Lacks c b' ' (space_Lacks c hc)))

-- The four words of a line.
abbrev pub four : Text → Text → Text → Text → Text
four a b c d = a ++ b' ' ∷ three b c d

pub split-four :
    (a b c d : Text)
    → NoSpace a
    → NoSpace b
    → NoSpace c
    → NoSpace d
    → split (four a b c d) b' ' ≡ a ∷ b ∷ c ∷ d ∷ []
split-four a b c d ha hb hc hd =
    split-append a (three b c d) b' ' (space_Lacks a ha)
    ∙ ap (λ l. a ∷ l) (split-three b c d hb hc hd)

join_Lacks : (a r : Text) → Lacks b'\n' a → Lacks b'\n' r → Lacks b'\n' (a ++ b' ' ∷ r)
join_Lacks a r ha hr = All-append (λ c. c ≢ b'\n') a (b' ' ∷ r) ha ((λ e. omega arith), hr)

line_Lacks :
    (a b c d : Text) → NoSpace a → NoSpace b → NoSpace c → NoSpace d → Lacks b'\n' (four a b c d)
unfolding is_space
line_Lacks a b c d ha hb hc hd =
    let word : (s : Text) → NoSpace s → Lacks b'\n' s = λ s h. NoSpace-Lacks b'\n' s refl h in
    join_Lacks a _ (word a ha) (join_Lacks b _ (word b hb) (join_Lacks c d (word c hc) (word d hd)))

pub trim-four : (a b c d : Text) → IsWord a → IsWord d → trim_space (four a b c d) ≡ four a b c d
trim-four [] b c d (na, ha) hd = absurd (na refl)
trim-four (x ∷ a) b c d (na, (hx, ha)) (nd, hd) =
    let front = a ++ b' ' ∷ (b ++ b' ' ∷ (c ++ b' ' ∷ [])) in
    let e : front ++ d ≡ a ++ b' ' ∷ three b c d = simp append_assoc in
    rw e at (trim_space-words x front d hx hd nd)

load_line :
    (s : Server) (n h o d : Text)
    → IsWord h
    → NoSpace n
    → NoSpace o
    → IsWord d
    → load_room_line s (four h n o d)
      ≡ record s { registered_rooms = put n (three h o d) s.registered_rooms }
unfolding load_room_line load_room
load_line s n [] o d (nh, hh) hn ho hd = absurd (nh refl)
load_line s n (c ∷ h) o d hh hn ho hd =
    let trimmed = trim-four (c ∷ h) n o d hh hd in
    let parts = split-four (c ∷ h) n o d hh.1 hn ho hd.1 in rw (load_room_line, trimmed, parts) refl

print-entry :
    (n info : Text) (m : Map Text Text)
    → IsWord n
    → IsRoomInfo info
    → (line : Text) × (split (print_rooms ((n, info) ∷ m)) b'\n'
        ≡ line ∷ split (print_rooms m) b'\n')
      × ((s : Server)
          → load_room_line s line ≡ record s { registered_rooms = put n info s.registered_rooms })
unfolding print_rooms room_line
print-entry n info m hn (h, o, d, hh, ho, hd, e) =
    let parts = split-three h o d hh.1 ho.1 hd.1 in
    let text : room_line n (h ∷ o ∷ d ∷ []) ++ print_rooms m
        ≡ four h n o d ++ b'\n' ∷ print_rooms m =
      simp append_assoc in
    (
      four h n o d,
      rw (e, parts, text)
          (split-append (four h n o d) (print_rooms m) b'\n'
            (line_Lacks h n o d hh.1 hn.1 ho.1 hd.1)),
      λ s. rw e (load_line s n h o d hh hn.1 ho.1 hd),
    )

load-print :
    (s : Server) (m : Map Text Text)
    → RoomsAreWords m
    → load_room_lines s (split (print_rooms m) b'\n')
      ≡ record s { registered_rooms = put_all m s.registered_rooms }
unfolding load_room_lines print_rooms split load_room_line trim_space
load-print s [] h = refl
load-print s ((n, info) ∷ m) ((hn, hi), hm) =
    let (line, cut, loaded) = print-entry n info m hn hi in
    rw (cut, load_room_lines, loaded s)
      (load-print record s { registered_rooms = put n info s.registered_rooms } m hm)

load_user-rooms :
    (s : Server) (parts : List Text)
    → ((load_user s parts).registered_rooms ≡ s.registered_rooms)
      × ((load_user s parts).rooms_file ≡ s.rooms_file)
unfolding load_user
load_user-rooms s [] = (refl, refl)
load_user-rooms s (a ∷ []) = (refl, refl)
load_user-rooms s (a ∷ b ∷ []) = (refl, refl)
load_user-rooms s (a ∷ b ∷ c ∷ []) = (refl, refl)
load_user-rooms s (a ∷ b ∷ c ∷ d ∷ []) = (refl, refl)
load_user-rooms s (a ∷ b ∷ c ∷ d ∷ e ∷ l) = (refl, refl)

load_user_line-rooms :
    (s : Server) (line : Text)
    → ((load_user_line s line).registered_rooms ≡ s.registered_rooms)
      × ((load_user_line s line).rooms_file ≡ s.rooms_file)
unfolding load_user_line
load_user_line-rooms s line = go (trim_space line)
  where
    go :
        (t : Text)
        → let r = elim t as (λ _. Server) [
          | [] ↦ s
          | c ∷ u ↦ load_user s (split_n 4 (c ∷ u) b' ')
        ] in
          (r.registered_rooms ≡ s.registered_rooms) × (r.rooms_file ≡ s.rooms_file)
    go [] = (refl, refl)
    go (c ∷ u) = load_user-rooms s (split_n 4 (c ∷ u) b' ')

load_user_lines-rooms :
    (s : Server) (lines : List Text)
    → ((load_user_lines s lines).registered_rooms ≡ s.registered_rooms)
      × ((load_user_lines s lines).rooms_file ≡ s.rooms_file)
unfolding load_user_lines
load_user_lines-rooms s [] = (refl, refl)
load_user_lines-rooms s (line ∷ lines) =
    let (rooms, file) = load_user_lines-rooms (load_user_line s line) lines in
    let (rooms', file') = load_user_line-rooms s line in (rooms ∙ rooms', file ∙ file')

load_users-rooms :
    (s : Server)
    → ((load_users s).registered_rooms ≡ s.registered_rooms)
      × ((load_users s).rooms_file ≡ s.rooms_file)
unfolding load_users
load_users-rooms s = go s.users_file
  where
    go :
        (o : Option Text)
        → let r = elim o as (λ _. Server) [
          | none ↦ s
          | some text ↦ load_user_lines s (split text b'\n')
        ] in
          (r.registered_rooms ≡ s.registered_rooms) × (r.rooms_file ≡ s.rooms_file)
    go none = (refl, refl)
    go (some text) = load_user_lines-rooms s (split text b'\n')

load_rooms-some :
    (s : Server) (text : Text)
    → s.rooms_file ≡ some text
    → load_rooms s ≡ load_room_lines s (split text b'\n')
unfolding load_rooms
load_rooms-some s text e =
    ap (λ o. elim o as (λ _. Server) [ none ↦ s | some t ↦ load_room_lines s (split t b'\n') ]) e

-- When the rooms have been saved, a server that starts from the files knows of each room name what was
-- registered, and no other names: for registries with words as room names, key hashes, owners and
-- dates, each name once.
pub restart-save_rooms :
    (s : Server) (name : Text)
    → UniqueKeys s.registered_rooms
    → RoomsAreWords s.registered_rooms
    → get name (restart (save_rooms s)).registered_rooms ≡ get name s.registered_rooms
unfolding restart save_rooms fresh_server get
restart-save_rooms s name unique words =
    let t = load_users (fresh_server s.users_file (some (print_rooms s.registered_rooms))) in
    let (rooms, file) =
      load_users-rooms (fresh_server s.users_file (some (print_rooms s.registered_rooms))) in
    let loaded =
      load_rooms-some t (print_rooms s.registered_rooms) file
      ∙ load-print t s.registered_rooms words in
    ap (λ u. get name u.registered_rooms) loaded
    ∙ ap (λ r. get name (put_all s.registered_rooms r)) rooms
    ∙ get-put_all name s.registered_rooms [] unique
    ∙ or_else-none (get name s.registered_rooms)
