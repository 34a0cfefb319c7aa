-- ===== src/Lib.antt =====
-- A model of vnt-gui-dev, a desktop application around the VPN client VNT: file transfer between two
-- devices, a built-in FTP server, desktop sharing, the saved configurations with the statistics of the
-- traffic, and a background daemon that runs VNT and FTP.
--
-- The parts, and where they are modelled (paths from the repository's root):
--
-- Transfer (src-tauri/src/file_transfer). Protocol has the messages (protocol.rs). Disk is the file
-- system as the transfer calls it: a map from paths to contents, in which every call may be refused,
-- and fs::write also after any of its bytes; atomic_save is the way all settings are saved. Resumable has the partial files (resumable.rs).
-- Receiver.Quic and Receiver.Tcp are receive_quic and receive_tcp (receiver.rs): a round of a loop is
-- what its select! yields, and the loop is a function of the list of the rounds that have been
-- played, so that every interleaving of messages, cancellations and failures is a list. Sender is the
-- loop of send_file_quic (sender.rs) in the same way, with what a dropped send leaves on the connection;
-- Sender.Wait has its waits. Sender.EndToEnd delivers
-- what the sender sent to the receiver. Receiver.Placement is the choice of the path of a received file
-- (find_duplicate, resolve_conflict, resolve_save_path). Filter is filter.rs, Manager
-- transfer_manager.rs, History history.rs. State is the state of mod.rs, State.Commands its commands,
-- State.Commands.Send the sending from a command to the queue and from a result to the history,
-- State.Settings the settings (config.rs) and State.Progress the progress reports. Listener is
-- daemon_listener.rs, in phases: Listener.Connections and Listener handle an offer from its arrival to
-- the wait for the user, Listener.Decide from the decision to the receive, and Listener.Receive from
-- the receive to its end. Network is network.rs:
-- the messages on a connection, and the UDP probe.
--
-- Frame is the frame of a message on a stream, which both network.rs use.
--
-- Ftp (src-tauri/src/ftp). Config, Log, Auth, Server are config.rs, log.rs, auth.rs, server.rs. Tree is
-- the file tree as tokio::fs shows it, without links, with refused calls; Storage is storage.rs over
-- it. A client's path is the list of its components, a directory the list of its names. Which names the
-- platform reads as a drive is an argument.
--
-- Desktop (src-tauri/src/desktop_share). Protocol has the messages (protocol.rs, network.rs, error.rs),
-- State the session's data and shared changes and Session its operations (session.rs); Network has how
-- messages are sent and received (network.rs); Encoder is the conversion of H.264 streams
-- (mf_encoder.rs).
--
-- App (src-tauri/src). Config is the store of config.rs, Traffic the statistics of traffic.rs, Log the
-- logger of logger.rs. Connection has the commands of lib.rs on the connection and the configurations,
-- Connection.Devices the list of the devices, and Host the host that is pinged.
--
-- Daemon (src-tauri/src/daemon). State is state_store.rs, Vnt vnt_manager.rs with the restoring of
-- main.rs, Ftp ftp_manager.rs with the RPC's configuration. The daemon's services use Ftp.Server, and
-- its state is saved on Transfer.Disk. Rpc is the dispatch of rpc_server.rs over the whole daemon,
-- Rpc.Connection the loop over the lines of a connection, Rpc.Client the calls of rpc_client.rs, and
-- Rpc.Calls puts the two together.
--
-- Prelude has what all of them share: the names of the libraries, tests on the native numbers, lists
-- measured by native numbers, and the results of fallible calls.
--
-- Conventions. Integers are natural numbers; counters of 64 bits that grow by one wrap as in a release
-- build, and the statistics saturate as in the code. The error texts of the transfer are constructors.
-- JSON texts (serde_json), hashes (sha2) and their print (hex), the calendar (chrono), fresh UUIDs, the
-- credential store (keyring), libunftp and the connections (iroh) are arguments. So are the clock, the
-- case mapping and the trimming of text, and the print of numbers and paths. A text that is taken apart
-- character by character is the list of its code points. Paths of received files are texts with the
-- separators of Windows, and the name in an offer is one component.
--
-- Bounds. The loops of the transfers are recursive on the list of their rounds; how many rounds bring
-- the sender to its end is a hypothesis of the theorem about it. The loops of the encoder run on fuel,
-- the length of the data, which each turn shortens. The search for a free save path runs on fuel: one
-- round for each path in use and one more is enough. Everything else is structural.
--
-- Not modelled: the TCP sender and its side of the handshake, the loops that accept connections, the
-- commands that only pass calls on, capture, input and clipboard of the desktop sharing, the parsers of
-- the output of vnt-cli, the pid file, the tray, the updater, and the user interface; iroh-net is another
-- project's library.
-- Operations of one component that overlap at their awaits are taken one after the other. The final
-- progress report of the TCP receiver is not kept.
mod Prelude
pub mod Frame
pub mod Transfer
pub mod Desktop
pub mod Ftp
pub mod App
pub mod Daemon
