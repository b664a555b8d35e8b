-- ===== src/Lib.antt =====
-- The endpoint protocol: federated servers that queue signed and encrypted messages for the clients
-- they host, hand them out over WebSockets and forward them to other servers.
--
-- The parts and how they meet. A server (endpoint/server_core.py) owns a queue, a replay store and a
-- content store (endpoint/storage.py), checks tokens (endpoint/credentials.py), validates what it is
-- given (endpoint/protocol.py) and decides which servers it talks to (endpoint/transport.py). A
-- client opens and checks what it receives (endpoint/client_core.py), keeps its trust, routes and outbox
-- in files (endpoint/storage.py) and exchanges contacts (endpoint/contact.py).
--
-- Files:
--   Prelude, Json, Errors, Exec: tests, texts, JSON values as Python holds them, results with the two
--     kinds of exceptions, and methods that change a state and may raise.
--   Runtime: Python's libraries and the OpenPGP backend as parameters.
--   Protocol: endpoint/protocol.py. Canonical has parse_json_strict, normalize_json and the canonical
--     text; Patterns the regular expressions; Parts, Content and Delivery the validators; Strict and
--     Delivered are proofs.
--   Transport: endpoint/transport.py; Url is the part of urllib.parse.urlparse that it uses.
--   Table, Dict: SQL statements on the rows of a table, and Python dicts with text keys.
--   Storage: endpoint/storage.py, with a file for each class: Queue (MessageQueue), Replay
--     (ReplayStore), Content (ContentStore), Client (ClientState), Outbox (ClientOutbox); Files is
--     save_json.
--   KeyStore: OpenPgpContext of endpoint/crypto.py, over its three files.
--   Client: EndpointClient of endpoint/client_core.py. Client has its state and its own identity;
--     Identity the checks of identities and pins, Discover discover; Compose everything that
--     builds contents and envelopes, with Objects and Recipients below it; Send the uploads, the
--     fan-out and the retries; Fetch _fetch_content_object; Inbox receive_messages, with the
--     WebSocket in Frames. Verified and the other files below Compose, Send and Inbox are proofs;
--     EndToEnd leads from what the sender makes to the checks of the receiver.
--   Receive: process_envelope of endpoint/client_core.py. Receive has the checks that open a message,
--     Process the state that it changes, Laws and Once the proofs.
--   Credentials, Crypto, Config, Contact: the files of these names under endpoint/.
--   Cli: endpoint/cli.py. Arguments has _parse_key_values and its helpers, Config server init-config
--     and the document that it writes.
--   Server: endpoint/server_core.py. State has ServerConfig and the state of ServerState; Access the
--     start-up checks and authenticate_client; Accept accept_envelope_for_local; Handlers,
--     Federation and Inbox the handlers of create_app; Steps the whole server as a step relation;
--     Respects is what every method does to the queue and the replay store.
--   Tests: runs of all this on concrete inputs.
--
-- State. A store is the list of the rows of its table, or the dicts of its file; a method takes the
-- readings of the clock that it makes, in seconds where it writes ISO texts of whole seconds and in
-- microseconds where it compares instants. A handler is one step; so is one turn of the loop of a
-- WebSocket. What other connections write between the SELECT and the INSERT of ContentStore.put is an
-- argument of it. Failures keep what was written before them. Sending to a client always succeeds.
--
-- A client's server is a function from what is posted to its answer, so an upload may be asked for
-- once or for each envelope. While a client receives, time is how many tests `time() < deadline` still
-- pass, the frames that come before the deadline are a list, and a wait without a frame ends at the
-- deadline. UUIDs are a function of how many were drawn. A key file that the code writes can be read,
-- and the backend can be imported.
--
-- Fuel: decimal digits are written with fuel n + 1 for n, which is enough since each step divides by
-- ten. receive_messages takes one more than the tests of the clock that are left, and each turn of its
-- loop makes such a test. All other loops are structural.
--
-- Parameters, in Runtime: Unicode normal form and lower case, SHA-256, PBKDF2, Base64, dates,
-- json.loads, the resolver, and the backend's keys, fingerprints, signatures and encryption. Theorems
-- that need something of them say so in a hypothesis.
--
-- The command line. A set of keys is a sorted list; a usage error is an exception with its message,
-- less the quoted token; a file is its text or the exception of reading it, and str(Path(...)) a
-- function.
--
-- Files. What a client's file holds after save_json is what it reads again: every text in NFC, the keys
-- sorted, and an error where two keys become equal. A ciphertext that the content store reads from its
-- file has LF for each CR LF and CR.
--
-- Not modelled: the other commands of endpoint/cli.py, which ask, print and pack files around the
-- client core; the TLS contexts of endpoint/transport.py, the set-up of the database, and the native
-- backend.
pub mod Prelude
pub mod Json
pub mod Errors
pub mod Runtime
pub mod Protocol
pub mod Transport
pub mod Exec
pub mod Table
pub mod Dict
pub mod Storage
pub mod Credentials
pub mod Crypto
pub mod Server
pub mod Config
pub mod Contact
pub mod Tests
pub mod Receive
pub mod KeyStore
pub mod Client
pub mod Cli
