-- ===== src/Lib.antt =====
-- Verification of the Q-App call backend (src/qapp_backend): rooms for encrypted calls, reached over
-- Reticulum links and a private QUIC transport.
--
-- The parts and how they interact. A physical connection (reticulum/connection.py) cuts frames out
-- of a byte stream (reticulum/framing.py), reads their payloads as control messages or data envelopes
-- (reticulum/protocol.py) and hands the messages of its logical connections to the server
-- (reticulum/server.py), which finds or makes their application session (reticulum/sessions.py) and
-- calls a handler; RPC requests go through a router (reticulum/rpc.py). A session becomes an
-- account's by a signed proof (auth/qortal_identity.py) and by group membership
-- (auth/group_access.py, auth/service.py). The call service (call/service.py) answers the messages
-- of authenticated sessions. A session that may use the private transport gets a one-time token
-- (private_transport/authorization.py) by the RPC `bootstrap` (private_transport/service.py); its
-- client attaches with it and then speaks frames (private_transport/framing.py). When a session is
-- revoked, expires or loses its tab, its transport is cut and its media grants are revoked.
--
-- Call (src/qapp_backend/call/service.py). Call/Base64: `_decode_base64url`, with the standard
--   library's decoder written out. Call/Requests and Call/Commands: the checks that each handler
--   makes of its message. Call/State: `Member`, `Room`, the state of `CallService` and the messages
--   it sends. Call/Rooms: sending, binding, the policy file, removing a member, ending a room.
--   Call/Membership: `create`, `join`, `leave`, `disconnected`, `_expire_room`. Call/Moderation:
--   `moderate`, `forward_group_key`. Call/Screen: `screen_control`, `_expire_screen`. Call/Service:
--   the handlers by message type, and histories of events. Call/Invariant and its children: what
--   holds after any history. Call/Authority, Call/Leases, Call/Sends, Call/Base64/Accepts: the rules
--   of single operations.
-- Auth. Auth/Groups: `GroupAccessPolicy` and the tests of `require_authorized`. Auth/Base58 and
--   Auth/Identity: the verifier of src/qapp_backend/auth/qortal_identity.py. Auth/Service:
--   `QAppAuthenticationService` on the sessions of the server; Auth/Service/Entering and
--   Auth/Service/Leaving are about authentication and revocation.
-- Transport (src/qapp_backend/private_transport). Transport/Tokens: `AttachTokenAuthority`.
--   Transport/Framing: stream frames and datagrams. Transport/Payload: application payloads.
--   Transport/Service: the state of `PrivateTransportService`, `attach` and `detach`;
--   Transport/Service/Invalidating: `invalidate_session`, `_write_media_revocation`;
--   Transport/Service/Messages: `handle_application_message`. Transport/Bootstrap: `bootstrap`, with
--   `_validate_bootstrap_context` in Transport/Bootstrap/Requests, the token, its answer and
--   `_write_media_grant` in Transport/Bootstrap/Issuing.
-- Reticulum (src/qapp_backend/reticulum). Reticulum/Framing: `Frame.encode` and `FrameParser`.
--   Reticulum/Base64: base64 of Python with `validate=True`. Reticulum/Protocol:
--   `ControlMessage`, `DataEnvelope`. Reticulum/Protocol/Rpc: `decode_rpc_request` and
--   `RpcRouter`. Reticulum/Connection: what `PhysicalConnection` sends and waits for;
--   Reticulum/Connection/Receiving: its `__init__`, `receive`, `_dispatch`, `send_control` and
--   `send_application`; Reticulum/Connection/Steps: histories of its operations.
--   Reticulum/Sessions: `ApplicationSession`, `SessionManager`. Reticulum/Server: the tables of
--   `QAppServer`, admission and the removal of sessions; Reticulum/Server/Events: closed links,
--   closed tabs, maintenance and start; Reticulum/Server/Events/Messages: `_application_message`;
--   Reticulum/Server/Histories: sequences of all of these; Reticulum/Server/Invariant and its
--   children: what holds after each. Reticulum/Writer: `ReticulumWriter`.
-- Prelude, Dict, Value: tests, lists, code that may raise or change a state, `dict`, JSON values.
--
-- Choices. A handler runs under its service's lock, so it is one function from state to state;
-- what raises keeps the state that it had written. Sessions are named by their random ids. Clocks,
-- random ids and tokens, hashes, elliptic curves, signatures, UTF-8 and `json.dumps` are arguments
-- (`Env`, `Clock`, `Outside`, `World`, `Outer`, `Hashes`, `Utf8`, `Json`, `Wire`); times are in
-- milliseconds. The file system is a list of outcomes of the coming writes; a connection is up,
-- down or one whose send raises. Timers are flags and events that may come at any time. The write
-- of a physical connection is an argument that may do to the connection what other threads do.
-- JSON numbers are natural numbers, and a value of another type in `operation`, which raises
-- `TypeError`, counts as a `ValueError`. Checks that no state can fail are left out where they
-- stand. Loops over a buffer run on fuel, its length, which is enough since each turn takes bytes
-- out. The server's sessions stand in one table under their ids; `session.private_transport` is
-- kept as the service's map from sessions to transports, and ids and tokens that are drawn at
-- random are assumed fresh where a history draws them. `session.pending_transport`, to which
-- nothing in the code adds, is left out. How a send of the server ends is an argument. Exceptions
-- that a dictionary raises for a key that cannot be hashed count as the `ValueError` beside them.
-- To make the relay's directories and to remove a file that the service wrote (`unlink_all`,
-- `drop_policy`) succeeds; only writes may fail. `close_replaced` records the call that closes the
-- connection that a resumed session leaves, and not what its callback does to the server, which
-- calls `resume` nowhere. A send that raises, or finds a connection that is down, changes nothing by
-- itself (`send_over`): that the connection closes and its session leaves is a later event.
--
-- Not modelled: threads and their pools; start and stop of RNS and of the QUIC listener,
-- certificates, the native and QUIC servers; files; configuration and process set-up; SQL; and the
-- Go programs under media and network; media/third_party is another project's library.
pub mod Prelude
pub mod Dict
pub mod Value
pub mod Call
pub mod Auth
pub mod Transport
pub mod Reticulum
