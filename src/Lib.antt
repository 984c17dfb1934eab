-- ===== src/Lib.antt =====
-- The MDM server of this repository: what a device asks for and what it is told, and the client
-- of the Volume Purchase Programme (VPP) and of the Device Enrollment Programme (DEP).
--
-- A device enrolls by check-in messages (/checkin: Authenticate, TokenUpdate, CheckOut). The
-- first TokenUpdate after an enrollment queues the inventory commands and asks APNs for a push. A
-- pushed device polls the MDM endpoint (/mdm): with the answer to an earlier command, or Idle;
-- the reply is the next queued command as a plist, or empty. The queue is the table of commands.
--
-- - Base: tests, lists and the libraries' names. Python: values as plistlib and json read them,
--   dictionaries, exceptions, and statements (Exec) that keep the state beside an exception;
--   Python/Spec has triples over them.
-- - Store: the rows of commandment/models.py (Device, Command as CommandRow, Tag),
--   commandment/apps/models.py, commandment/inventory/models.py and
--   commandment/profiles/models.py, with the columns that the modelled code reads or writes, and
--   the database session. The session holds stored and working tables; queries read the working
--   ones, `commit` stores them, and a request that ends drops the rest. Store/Tables has the
--   invariant of the tables.
-- - Mdm/Enums: commandment/mdm/__init__.py. Mdm/Commands: the command classes of
--   commandment/mdm/commands.py; Queries is DeviceInformation, Registry the metaclass and
--   new_request_type, Rehydrate the way of a command through its row.
-- - Mdm/Queue: Command.from_model, find_by_uuid and next_command, Device.platform
--   (commandment/models.py) and queue_full_inventory (commandment/mdm/util.py).
-- - Mdm/Endpoint: `mdm` of commandment/mdm/app.py is `serve`, from the parsed body and the
--   stored tables to the reply and the stored tables, with `plistify` of commandment/utils.py.
-- - Mdm/Handlers: ack_profile_list of commandment/mdm/handlers.py; Applications is
--   ack_install_application, Managed is ack_managed_application_list, Inventory is
--   ack_certificate_list, ack_installed_app_list and ack_available_os_updates, Information is
--   ack_device_information with the attribute names of commandment/mdm/response_schema.py, and
--   Router is CommandRouter of commandment/mdm/routers.py with all the handlers.
-- - Mdm/Checkin: authenticate, token_update, user_authenticate and check_out of
--   commandment/mdm/app.py behind PlistRouter of commandment/mdm/routers.py; `serve_checkin`
--   in Routes is the whole request.
-- - Mdm/Server: any sequence of requests to both endpoints and of rounds of the push thread, as a
--   step relation on the tables. /mdm has the command router with all its handlers there.
-- - Pki: DeviceIdentityCertificate.from_crypto of commandment/pki/models.py and the unique
--   fingerprint, which the first TokenUpdate of an enrollment meets.
-- - Apns/Push: get_apns and push_to_device of commandment/apns/push.py. The name apns2 is unbound
--   there, so push_to_device raises whatever the certificate is; what would follow an answer of
--   APNs is written out as the source has it. Apns/Thread: the push thread of
--   commandment/apns/threads.py; Refresh is a round as one pass over the device table, Outcomes
--   how rounds end.
-- - Vpp: commandment/vpp/vpp.py; Operation is the batches of license operations, Requests the
--   calls of the service and raise_error_replies (commandment/vpp/decorators.py), Cursor the
--   pages of users and of licenses.
-- - Dep: commandment/dep/dep.py; Client is the hook, `send` and the requests, Cursor the fetch
--   and sync cursors. Account, Rows, Sync and Thread are commandment/dep/threads.py with
--   DEPAccount and DEPProfile of commandment/dep/models.py: dep_sync_organization, dep_fetch_devices, and
--   dep_define_profiles with dep_thread_callback. The thread has a session of its own, with the
--   account and the device table, and its client.
-- - Cms: commandment/cms; Signers is _verify_cms_signers with the functions of
--   commandment/cms/__init__.py, Decorators verify_cms_signers and verify_mdm_signature around any
--   view. The models of the endpoints begin behind verify_mdm_signature.
-- - Pkg/Chunks: blow_chunks of commandment/pkg/appmanifest.py.
-- - Examples: the theorems at concrete tables, messages and batches.
--
-- Code that is not in this repository is an argument. Services holds the clock, the UUIDs that
-- uuid4 draws, uuid.UUID as the canonical form of a text, and base64 (Codec). Apns is what
-- reading the push certificate raises, X509 the attributes of a certificate of cryptography,
-- Service the DEP service with its HTTP session, clock and parser of dates, Biplist the test for a
-- plist Data and its encode, Post the HTTP session of the VPP client, and Loads what marshmallow
-- makes of a response, the fingerprint of a certificate and the ignored identifiers of the
-- configuration. Crypto is asn1crypto, cryptography and base64. The endpoint takes the handlers as
-- an argument (Handle), which `command_router` fills.
-- Base64 columns are kept as their bytes. One request reads one instant of the clock. A new row
-- takes the next number of its table.
--
-- A loop over a list is a recursion on it, and the rounds of the push thread are the list of
-- them. `for_pages` of Dep/Sync runs on fuel, one for each page and one for the end, as do the
-- descriptions of a caller: `idle_polls`, the polls of a device, and `visited`, the rounds of a
-- loop over a cursor. `blow_chunks` has a round for each byte of the file and one for the end.
--
-- Not modelled: PKI but for from_crypto, profile generation, OAuth, the parts of commandment/pkg
-- that read xar archives, the JSON:API layers and schemas, the Alembic migrations, the simulators
-- and the user interface. Logging and the device_enrolled signal, which nothing receives, change no
-- table. plistlib refuses also integers of 2^64 and above and control characters, and the database
-- integers that are too large; the models refuse neither. A profile row always has its data.
pub mod Base
pub mod Python
pub mod Store
pub mod Apns
pub mod Mdm
pub mod Vpp
pub mod Dep
pub mod Pki
pub mod Cms
pub mod Pkg
pub mod Examples
