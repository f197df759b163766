-- ===== src/Lib.antt =====
-- Verification of the jump host: an SSH gateway that resolves the user and the machine from the
-- username, asks a directory which hosts the user may reach, and joins its site to a WireGuard mesh.
--
-- Parts, with the files of the repository that they model:
--   Grammar: nodejs/utils/username_grammar.js, the split of an SSH username into uid and target.
--   Directory: nodejs/utils/target_match.js, the search for the host that a target means.
--   Access: nodejs/utils/access.js, the hosts of a user, with the cache in front of the directory.
--   Host: nodejs/utils/net_router.js (Host.Router, Host.Forwarding, Host.Netmap, Host.Uplink) and
--     nodejs/utils/wg_iface.js (Host.Wg, Host.Peers), over the commands that the host runs
--     (Host.Shell).
--   Mesh: nodejs/utils/mesh_addressing.js (Mesh.Addressing), planExits and the rules of
--     nodejs/services/exit_router.js (Mesh.Exits), the rest of that file (Mesh.Steering),
--     planReconcile (Mesh.Plan), applyPlan (Mesh.Apply) and runReconcile (Mesh.Reconcile) of
--     nodejs/services/mesh_state.js.
--   Audit: nodejs/models/audit_event.js, the trail of the connections with its cap and its pages.
--   Ssh: handleAuth (Ssh.Auth) and the sessions (Ssh.Session) of nodejs/services/ssh_server.js,
--     nodejs/services/session_registry.js (Ssh.Registry), bump and lastForHosts of
--     nodejs/models/metrics.js (Ssh.Metrics), nodejs/utils/key_inject.js and connectUpstream of
--     nodejs/services/bridge.js (Ssh.Keys).
--   Gates: nodejs/middleware/auth.js (Gates.Rights, Gates.Bearer), nodejs/utils/socket_pubsub.js,
--     emit of nodejs/utils/model_events.js and record of nodejs/models/activity_event.js
--     (Gates.Bus), and nodejs/routes/activity.js (Gates.Replay).
--   Documents: nodejs/services/directory_client.js, the documents of the directory with their cache.
--   Picker: nodejs/services/tui_picker.js, the choice of a host at the terminal.
--   Base: helpers. A text is the list of its character codes; a map is an association list; an
--     exception is the error of a Result.
--
-- How they interact: the name of a login goes through Grammar to Ssh.Auth; its target is looked up by
-- Directory among the hosts that Access gives; Ssh.Keys provisions the key and dials; Audit keeps the
-- trail, which Gates shows to those who may see it. Ssh.Session runs these one after the other, with
-- the counters and the registry. The documents that Documents fetches are what Mesh plans from, and
-- Mesh.Apply and Mesh.Steering make the plans real by the calls of Host.
--
-- A definition has the name of the function of the source, in snake case. What the code takes from
-- JavaScript, from ssh2 or from the directory (toLowerCase, the URL parser, the answer to a request)
-- is an argument. State is passed explicitly: the cache of Access, the Redis of Audit and the flags of
-- Ssh go through each call. A call of Host is an action on a Gateway: the state of the host, which is
-- of any type, with what the two modules remember; it returns or throws, and what was done to the
-- host stays. How the host answers a command is an argument, and what iptables, ip and wg document of
-- it is a record of laws (Firewall, AddressLaws, PeerLaws). Loops are recursion on the list that they
-- run over. The loop of removeRule has fuel 33, which is enough since the code counts to 33; the polls
-- of waitForInterface are counted, where the source reads a clock.
-- Numbers are natural; where the source may hold another value (NaN, an absent field) the model has
-- an Option.
--
-- Not modelled: the web pages and their scripts, the Express wiring, cryptography, the terminal and
-- the splicing of channels, the timers and the start-up of the services, and log lines.
pub mod Base
pub mod Grammar
pub mod Directory
pub mod Host
pub mod Access
pub mod Mesh
pub mod Audit
pub mod Ssh
pub mod Gates
pub mod Picker
pub mod Documents
