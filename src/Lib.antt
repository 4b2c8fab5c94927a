-- ===== src/Lib.antt =====
-- Verification of the Underground Node Network.
--
-- The program is a network of chat rooms over SSH. An entry point (cmd/unn-entrypoint,
-- internal/entrypoint) knows rooms and people; a room (cmd/unn-room, internal/sshserver) is a server
-- with a text interface (internal/ui) that runs programs, the doors; a client (cmd/unn-client) goes
-- from the entry point to a room and receives files that a door sends in escape sequences.
--
-- Base, Text, Map     lists, texts as lists of code points, Go's `strings` functions, Go maps as
--                     association lists; an index or slice out of range is the outcome `panics`.
-- Terminal            internal/ui/common/utils.go: ParsePtyRequest and ParseWindowChange.
-- Ui                  internal/ui/input (CommandInput), internal/ui/form (Form), internal/ui/password
--                     (PasswordEntry, PasswordUI) and the lock of a room in internal/sshserver/server.go;
--                     Ui.LineEdit has the edits that the three share.
-- Ui.LogView          internal/ui/log/log.go: LogView, with the scrolling of internal/ui/chat.go.
-- Bridge.Osc          internal/ui/bridge/bridge.go: OSCDetector, which sits between a door and the
--                     person's terminal, with the writer's answers and encoding/json as parameters.
-- Bridge.Input        InputBridge of that file: `data_chan` is what is buffered in the Go channel.
-- Bridge.Bus          internal/ui/bridge/sshbus.go: SSHBus, with its calls in the order of its mutex.
-- Protocol            internal/protocol/protocol.go: the payloads.
-- Transfer            a file's way from doors/files/main.go (Sender) through base64 (Base64) to
--                     cmd/unn-client/transfer.go (Receiver) and getUniquePath of cmd/unn-client/utils.go
--                     (UniquePath). The client's files are one map, the parts files among them; SHA-256,
--                     filepath.Join and the encoder and decoder of JSON are parameters.
-- Entrypoint.State    the maps of internal/entrypoint/server.go's Server and its two files.
-- Entrypoint.Names    isValidRoomName (operator.go) and isValidUsername (api_ssh.go).
-- Entrypoint.Store    the files of users and rooms (identity.go) and what a restart makes of them.
-- Entrypoint.Operator handleOperator (operator.go), one step for each message.
-- Entrypoint.Identity PublicKeyCallback (server.go), handleAPIUserStatus and handleAPIUserRegister
--                     (api_ssh.go).
-- Entrypoint.Api      handleAPI (api_ssh.go) and SendPunchPrepare (punch_coord.go), with package net and
--                     the rooms' encoders as parameters.
-- Entrypoint.Onboarding
--                     VerifyIdentity and handleOnboardingForm (identity.go), with the HTTP answer,
--                     the parser of keys and strings.ToLower as parameters.
-- Entrypoint.Lobby    handlePersonCommand and handleRoomJoin (commands.go); a join is two steps, between
--                     which operators answer.
-- Sessions            handleSession of both servers: what the requests of a session make of it.
-- Doors               internal/doors/doors.go: Scan, List and Get, with what os.ReadDir answers as an
--                     argument.
-- Room                internal/sshserver: the state of a room (server.go), the histories and broadcasts
--                     (room.go). A nil screen or bus is `none`, and a call of it is `crashed`; a lock
--                     that is never free is `deadlocked`.
-- Room.Commands       commands.go: handleInternalCommand, one definition for each command; Talk has the
--                     commands that everybody has, Moderate those of the operator.
-- Room.Connections    server.go: handleConnection with bans, the operator and old sessions, its deferred
--                     function, and handleInteraction up to the first run of its screen.
-- Room.Runs           one step for each thing that may happen to a room, with handleCommand (commands.go)
--                     and the callbacks of the screen (server.go).
-- Room.Steps          the small steps behind all of these, and what an invariant has to do with each.
-- Tests               the theorems at concrete inputs.
--
-- The definitions carry the names of the source in lower case with underscores. A stateful method is a
-- function from the state before to the state after; a lock makes the calls a sequence, so a run is a
-- list of messages, keys or calls. Where a call takes a lock that it holds already (with_lock), it
-- hangs. A command of a room is one step of a run, although the code gives the lock back between its
-- parts, while a form of the onboarding meets the server twice, where the name is looked up and where
-- the account is stored; the callbacks of a screen act for the person they hold, also after he has
-- left; the connections that a thread closes later are steps of their own.
--
-- Fuel: getUniquePath runs for one round more than there are files, which is enough since different
-- numbers give different paths; Flush runs for one round more than there are bytes buffered, which is
-- enough while the channel is open. All other loops are recursions on lists or numbers.
--
-- Not modelled: drawing, the sockets and the NAT traversal, the forwarding of ports, the process of a
-- door, what a room writes to a channel past its screen, log lines, and errors of the file system.
pub mod Base
pub mod Text
pub mod Map
pub mod Terminal
pub mod Transfer
pub mod Bridge
pub mod Protocol
pub mod Entrypoint
pub mod Sessions
pub mod Doors
pub mod Room
pub mod Ui
pub mod Tests
