-- ===== src/Lib.antt =====
-- PyMammotion talks to robot mowers over the cloud and Bluetooth. This library models the parts that
-- keep its state consistent, and proves what they promise.
--
-- The parts, and how they interact:
-- - MurMurHash: pymammotion/utility/mur_mur_hash.py, the hash of a list of hash IDs. The map store
--   compares it with the `bol_hash` that a device reports.
-- - HashList: pymammotion/data/model/hash_list.py, class HashList, the map store. Frames has the frames
--   that a device streams and the lists that collect them; Store the state of the class; Update the
--   pruning and invalidation; Receive the reception of frames; Queries what is missing and is_map_synced;
--   MowPaths which frames of the mow paths are missing.
-- - Bluetooth: Framing is pymammotion/bluetooth/ble_message.py with its data and model modules, the
--   frames that carry a message over Bluetooth and their parsing.
-- - Transport: RateLimit is the send quota of class Transport in pymammotion/transport/base.py, EventBus
--   the classes EventBus and Subscription there, and Ble is pymammotion/transport/ble.py, the cached
--   device with its RSSI and cooldown gates, and connect with its failures.
-- - Messaging: Broker is pymammotion/messaging/broker.py, which pairs a request with the reply that
--   answers it; CommandQueue is pymammotion/messaging/command_queue.py, which orders, drops and retries
--   the work that sends requests; SagaItem is the item that its enqueue_saga builds, which has the queue
--   wait for the saga, and stop; Saga is the retry loop of pymammotion/messaging/saga.py, which runs in
--   such an item; Transfers is pymammotion/messaging/transfers.py, with which a run of a saga collects
--   frames; MapFetch is pymammotion/messaging/map_saga.py, with Run the whole run, in the retry loop of
--   Saga; MowPath is pymammotion/messaging/mow_path_saga.py from the line hashes on, that is, which
--   hashes lack a cover path, their batches and the loop that collects the frames; and EdgeMapping is
--   pymammotion/messaging/edge_saga.py, which collects the frames of a walk along the border.
-- - Auth: Login is the token session of pymammotion/http/http.py, that is the login, its refresh and the
--   MQTT credentials; Tokens is class TokenManager of pymammotion/auth/token_manager.py, which keeps a
--   copy of the credentials and renews each through Login; Scheduler is its background task, which sleeps
--   until the first credential is due.
-- - Device: Sending is the choice of a transport in pymammotion/device/handle.py, over the gates of
--   pymammotion/transport/mqtt.py and aliyun_mqtt.py and the DeviceAvailability of
--   pymammotion/state/device_state.py; Raw is send_raw, with its connect, its recovery and its fallback
--   to the other transport; Debounce is the bus that holds snapshots back; Inbound is what handle.py does
--   with the frames, status messages and properties that come, with the DeviceStateMachine of
--   device_state.py, where the device that the reducer makes of a message is a parameter, as a table of
--   the fields that diff walks over; Polling is the
--   loop of pymammotion/device/mqtt_loop.py that polls a silent device.
-- - Base holds the shared helpers: Boolean tests, lists, options, dictionaries as association lists in
--   insertion order, and the pigeonhole argument on numbered frames. Tests holds runs on concrete inputs.
--
-- How state and operations correspond: a class is a record of its attributes, and a method is a
-- function of the same name from the record to the record, with its result where it has one. The code
-- between two awaits is one step, since a coroutine is not interrupted there; the broker's calls and
-- the queue's operations are sequences of such steps, in any order. A dictionary that is mutated in
-- place through a mapping is written back to its attribute (set_bucket). An exception is a constructor
-- of a result type. What the server answers to a request is a parameter, which may depend on every
-- request before it; so are what the radio does in a connect, and what other tasks do to the handle
-- while the polling loop sleeps.
--
-- Bounds and fuel: the words of the hash are cut by `% 2 ^ 32` and `% 2 ^ 63`, as the masks of the
-- code do; other integers are Python's. Times are whole ticks. The saga loop runs on fuel, which
-- stands for the wall-clock limit of execute, as the number of runs that fit in it; where it runs out,
-- the model times out as the code does. The loop that posts fragments runs on one more unit of fuel
-- than the message has bytes, and each round takes at least one byte. The loop of the map saga and the
-- drain of its queue run on as much fuel as frames can still come. retry_on_network_error makes the
-- three attempts that the code makes. Every other loop is structural.
--
-- Not modelled: network and radio I/O, with the brokers' connections and the callbacks of bleak;
-- generated protobuf code; GeoJSON and images; the HTTP calls that do not renew a credential; the
-- constructors of commands; the client, and the loops of the device handle over Bluetooth; the
-- reducers of the device state; the mow-path saga before its line hashes; and the sagas for plans, tiles,
-- common data and Spino devices. What betterproto2 answers about a message, and what packaging answers
-- about a version, are parameters.
pub mod Auth
pub mod Base
pub mod MurMurHash
pub mod Bluetooth
pub mod Device
pub mod HashList
pub mod Transport
pub mod Messaging
pub mod Tests
