-- ===== src/Lib.antt =====
-- A model of the core of harbour-find-my-device: the app and its two daemons let the owner of a
-- phone locate it and command it (ring, lock, camera, wipe, position) by MQTT and by SMS.
--
-- The program. The app and the daemons share one SQLite database through the package
-- qml/utilities/fmd: the paired devices and their PINs, the fixes, the backup codes, the settings,
-- and a runtime table by which they signal each other. The command daemon
-- (daemon-rpm/src/daemon_cmd.py) admits a command when its MQTT token was made with the own
-- device's PIN, or when an SMS comes from a whitelisted number with a TOTP code or a backup code,
-- and queues it for its worker; a watchdog reconnects an MQTT channel that has stopped working.
-- What needs root it leaves in a spool for a service of its own (daemon-rpm/src/priv_service.py). The
-- app (qml/utilities/api.py) sends commands to paired devices, takes fixes while no daemon does, and
-- shows the devices and the map.
--
-- The files, with the code that each models:
--   Prelude, Text, Exception: shared names, Boolean tests, lists, integers, Python's str as a list of
--     code points, and the exceptions that the modelled code can raise.
--   Codec: Base64 and UTF-8 as Python's base64 and codecs document them.
--   Obfuscation: fmd/obfuscation.py (obfuscate, deobfuscate, _xor).
--   Database, Table: fmd/db.py. Rows are records, a table is the list of its rows, a constraint is a
--     test before the insert. A transaction is a function from the database to a result with the new
--     database; one that raises leaves the old database.
--   Devices: fmd/devices.py, an operation for each function that reads or writes the table. Its
--     module Calls runs any sequence of them; Change says what a call can do to the table.
--   Gps: fmd/gpsstore.py. Settings: fmd/settings.py. Runtime: fmd/runtime.py.
--   Tokens: fmd/tokens.py. Command is the HMAC token, Totp the time code, Backup the backup codes,
--     SmsCode the check that joins the last two, Enrol the storing of the own TOTP secret.
--   Sms: daemon-rpm/src/sms_command_listener.py, the whitelist and the parser.
--   Daemon: daemon-rpm/src/daemon_cmd.py (feature_enabled, on_mqtt_command, sms_authorize,
--     sms_on_command, check_mqtt) and the handler of the SMS listener that calls them (handle). Its
--     module Executor is the dispatch of a command and the loop of the worker with its four kinds of job, Locate the GPS command,
--     Uploads the camera command and the photos that wait for their upload, Handover the watcher of
--     ConnMan (_ConnmanWatcher), Phase a round of the watchdog while the daemon serves (watchdog,
--     _process_location_requests, _process_publish_requests).
--   Mqtt: qml/utilities/mqtt_client.py, the state of one FmdMqttClient. Topic names the topics, Health is
--     the health check, Message the routing of messages, Publish the publish with one repair; Events
--     runs the calls of the owner and the callbacks of paho in any order, with the two parts of a connect
--     apart, since `close` does not take the lock of the reconnects.
--   MobileData: daemon-rpm/src/mobiledata_control.py. Calls is a small monad in which each call to D-Bus
--     or of a file works, raises, or is where the process is killed; Sessions has the lock, the wait for
--     the connection and the sessions; Rules says what holds after each way to end.
--   GpsDaemon: daemon-rpm/src/daemon_gps.py, one cycle (tick) on the database, the mobile data and the
--     fix that is pending, and its naps (Naps).
--   App: qml/utilities/api.py. App itself is the sending of a command, its queue, and the STOP_RING that
--     waits for a connection (send_command to _flush_pending_commands). Acks is _on_remote_ack, Timers
--     the state of the buttons (_mark_ringing to _on_ack_timeout), Polling the foreground polling,
--     Location the one-off fix and its publish, Pages the calls behind the pages (list_devices,
--     get_map_data, add_device, update_device, remove_device). Events, Polling and Location/Kept run
--     the calls and timers in any order.
--   Spool: daemon-rpm/src/priv_client.py (queue and the requests), priv_service.py (_process). Its module
--     Service is a run of the service (main), which can be killed before, during or after an action.
--   FixedLocation: fmd/fixedloc.py, daemon-rpm/src/fixed_location.py, and the connected networks of
--     fmd/runtime.py. Text.Sort is Python's sorted on texts.
--   NetWatch: qml/utilities/net_watch.py, the cache of the broker's address.
--   Examples: inputs on which the theorems are applied.
--
-- How they meet. A cycle of the GPS daemon stores its fix with Gps, reads its switches with
-- Settings, opens a session of MobileData, and publishes in it with Mqtt. The watchdog of the
-- command daemon acts on the defects that Mqtt.Health reports. A command of App is made with
-- Tokens.Command and admitted by Daemon on the other phone; its ack is recorded with Devices. The
-- rounds of Daemon.Phase write the heartbeats of Runtime and mirror the networks of FixedLocation,
-- from which the app decides on its own position.
--
-- Parameters. What paho, ConnMan, oFono, the position provider, the WebDAV server and the clock
-- answer is an argument or a field of a record of answers. hmac, sha256, base64.b32decode and the
-- random numbers of secrets, Python's float, the range test of a coordinate, getaddrinfo and the route
-- lookup are arguments of the definitions that use them; where a theorem relies
-- on one, its hypothesis says what: a SHA-1 digest has twenty bytes, a secret decodes. A time is
-- an argument, in whole seconds, or in milliseconds in MobileData.
--
-- Bounds. Numbers are unbounded, but a TOTP counter below 0 or from 2 ^ 64 on raises as
-- struct.pack does. Decimal digits are written with the fuel n + 1 for the number n, which the
-- round trip of Text.Decimal shows to be enough.
--
-- Limits. The case tables and the digits of a text are those of ASCII, so an SMS keyword or a
-- phone number in other scripts is not modelled. A REAL column is the bit pattern of its number.
-- The end of the AUTOINCREMENT counter at 2 ^ 63 is not modelled, nor is the migration of an old
-- database. Reading and writing the database raises nothing but what a constraint refuses or, for the
-- PIN and the label of a new device, a lone surrogate: other texts are taken as ones that Python can
-- encode, also those of a command token, and the exceptions of the settings reads in the publish of the
-- GPS daemon and in the polling of the app are left out. The fields of an MQTT payload are texts or None: the coercions of other values come
-- before the model.
--
-- A cycle of the GPS daemon sees the database twice, at its start and after the wait for a fix; a
-- save that lands at another moment of it is not modelled. A wait that never ends counts as one in
-- which the process is killed; the wait for the connection is shown to end.
--
-- Each handler of App is one step: the locks of api.py make its parts so, but for the publish, which
-- runs outside them. Its answer is an argument, with how often it hands its payload to paho, and for a
-- position with the flush that its reconnect may run meanwhile. The number of a timer stands for the object of
-- the timer. A file of the spool that another process changes during a run of the service is not
-- modelled beyond what the run meets: each open, rename and remove can fail.
--
-- Not modelled: the QML pages; of api.py the start of the MQTT client, the network probe, the handover
-- check, the saving of the settings page, the ring tones, the QR code and the package of the
-- daemons; the set-up and the outer loops of the daemons; the threads of paho and its sockets; the ring,
-- lock, location, camera and SMS controls, which are mostly calls to D-Bus and GStreamer; and the
-- vendored paho and qrcode.
pub mod Prelude
pub mod Text
pub mod Exception
pub mod Codec
pub mod Obfuscation
pub mod Database
pub mod Devices
pub mod Gps
pub mod Tokens
pub mod Table
pub mod Settings
pub mod Runtime
pub mod Sms
pub mod Mqtt
pub mod MobileData
pub mod GpsDaemon
pub mod Daemon
pub mod App
pub mod Spool
pub mod FixedLocation
pub mod NetWatch
mod Examples
