-- ===== src/Lib.antt =====
-- Presence Bridge: a model of the Home Assistant integration that pairs iPhones with Bluetooth
-- receivers and shows where they are, and of its receivers on Windows and Linux.
--
-- The parts and their files (paths from the root of the repository):
-- - custom_components/presence_bridge/protocol.py (and its copy in bridge/windows): Protocol. Links and
--   `validate` in Protocol/Link, base64url in Protocol/Base64, `to_uri` and `from_uri` in Protocol/Uri
--   and Protocol/Parsing, the authenticated messages in Protocol/Messages, proofs and service UUIDs in
--   Protocol/Proofs. Each function has the name of the source's.
-- - custom_components/presence_bridge/coordinator.py, models.py, const.py: Coordinator. Its state is the
--   record `Coordinator` of Coordinator/Types. A handler of an MQTT message is a function on that
--   state: Coordinator/Observers (`_status_message`, `_observations_message`, `_expire_runtime_state`),
--   Coordinator/Status (`_pairing_status_message`), with the leases of a pairing in Coordinator/Lease
--   and the public state in Coordinator/Public. `_matches_for_irk` and `_resolve_identities` are in
--   Coordinator/Matching. What publishes commands, saves, or raises is an action of
--   Coordinator/Action, on the state and the commands that were sent: Coordinator/Pairing
--   (`async_start_pairing`, `async_cancel_pairing`), Coordinator/Enroll
--   (`_async_process_pairing_result`), Coordinator/Removal (`async_remove_identity`),
--   Coordinator/Repair (`async_repair_pairing`), Coordinator/Areas (`async_set_observer_area`).
--   Coordinator/Telemetry has `signal_payload` and `identity_payload`.
-- - custom_components/presence_bridge/native_bluetooth.py: Coordinator/Native.
-- - custom_components/presence_bridge/signal_access.py and signal_api.py: Signals.
-- - custom_components/presence_bridge/person_link.py: PersonLink.
-- - custom_components/presence_bridge/receiver/engine.py: Receiver has the command that removes a phone,
--   Receiver/Commands the other commands and the state, Receiver/Pairing `_pair`; receiver/keys.py is
--   Receiver/Keys.
-- - bridge/windows/identity_removal.py: Bonds.
-- - bridge/windows/observer.py: Windows. The saved keys, the walk through the registry and the choice
--   among keys are in Windows/Keys, `ObserverConfig.load` in Windows/Config. The state of
--   `BlePresenceObserver` that commands and the pairing task share is the record `Observer` of
--   Windows/State; Windows/Commands has `_pairing_command_loop`, one command at a time, and
--   Windows/Removals `_run_identity_removal`, which calls Bonds. What a pairing task does in order, given
--   what it meets, is in Windows/Session; its leases are in Windows/Progress, and its wait for the
--   helper of the signed-in user in Windows/Broker. Windows/Helper has that helper's part in a removal
--   (`_run_interactive_identity_removal`), and Windows/Scan the presence scan.
-- - bridge/windows/reverse_gatt_client.py, its leases, the match of an advertisement and the repair of a
--   bond: Windows/Client.
-- Json has the values of `json.loads` and the conversions the code makes of them; Runtime has what the
-- code takes from Python and Home Assistant (HMAC, SHA-256, the resolution of private addresses, the
-- parsing of dates, the rendering of URLs and QR images), as the fields of a record that every
-- definition takes. Prelude has the shared helpers; Tests has runs at concrete values.
--
-- How they interact: receivers send status, observations, results and answers; the handlers change
-- the coordinator's state. A start of a pairing opens a session and sends a command; status messages
-- give the session its deadlines; the result enrolls the phone once a receiver hears it. A removal
-- sends a request and forgets the phone when the receiver has confirmed. At an `await` other handlers
-- may run: in Enroll what they do is a parameter; in Removal it is the list of answers that arrive,
-- since no other handler touches the pending requests; the pairing lock keeps the actions
-- apart. A start and a cancel are one step each: what other handlers do while they wait for the key,
-- the image or a delivery is left out. On Windows the command loop takes one command at a time, and
-- the events of the pairing task come between its commands: a removal runs only while no task does.
-- A start waits for the task that it replaces. What the receiver publishes of its scan is what the
-- coordinator's handler of observations reads.
--
-- Bounds and conventions: points in time are whole microseconds, deadlines whole seconds. Floats are
-- millionths, without infinities and NaN. `lower` and `upper` are those of ASCII letters. The rows of
-- the saved memory are records with the keys that the code writes, so the code's checks of their types
-- are not needed. Deadlines are natural numbers; the lemmas on leases take a time after the first five
-- seconds of 1970. The loops run over lists, or a number of rounds that the code gives (20 looks for
-- an advertisement, 8 looks at Windows), so no fuel is needed; but the wait of Windows/Broker is on a
-- number of looks, and a theorem gives a number that is enough.
--
-- Not modelled: the D-Bus and WinRT calls, the exchange with the phone on Windows
-- (bridge/windows/reverse_gatt_client.py, but for what Windows/Client has), MQTT discovery, RSA keys
-- and encryption, the entities, forms and web socket commands of Home Assistant, the panel, and the
-- recovery tools: they are interfaces to systems outside the repository or glue to them.
-- `public_payload` and `diagnostics_payload` are not modelled.
--
-- Left out of what is modelled: the caller of a start strips the person and the receiver, and lowers
-- the receiver's letters; the errors of `urlparse` and `parse_qs`, and that of `compare_digest` on a
-- proof that is not ASCII; the errors of writing, replacing and removing the files that the receiver on
-- Windows shares with its helper. The wait of up to ten seconds for the scan to pause is one step, as
-- is the stop of a pairing task that is replaced. The events of a pairing task in Windows/State have
-- none for a heartbeat task that fails; Windows/Session has what a pairing does then.
mod Prelude
pub mod Json
pub mod Runtime
pub mod Protocol
pub mod Coordinator
pub mod Bonds
pub mod Signals
pub mod PersonLink
pub mod Receiver
pub mod Windows
mod Tests
