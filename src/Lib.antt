-- ===== src/Lib.antt =====
-- The MGL03 HomeKit bridge, modelled and verified.
--
-- The bridge runs on a Xiaomi gateway. It subscribes to the MQTT topics of the local openmiio agent,
-- parses the reports of Bluetooth sensors and toothbrushes, drops repeated frames, caches the readings,
-- and shows the devices to HomeKit as accessories. A report takes this way through the program:
--   the MQTT client reads a PUBLISH packet and hands its message to openmiio.Parse,
--   Parse decodes it to updates, with a decoder for each product,
--   the handler of the client puts the updates into a channel, and drops them while it is full,
--   processUpdates finds the accessory of an update and asks the deduplicator about its frame,
--   an accepted update goes to the measurement cache and to the accessory; one that no accessory takes
--   may add a device to the registry, under a new accessory id.
-- At its start the bridge loads or creates its configuration, loads the registry and the cache, merges the
-- configured devices with those of the registry, waits for a first device where there is none, and makes
-- the accessories. The three files are written by renaming a temporary file.
--
-- Which module models which file:
--   Mqtt: internal/mqttmini/client.go. Wire has writePacket, readPacket and the remaining length, Publish
--     has parsePublish, Topics has normalizedTopics and the payloads of CONNECT and SUBSCRIBE, Session the
--     loop of serve over what the connection gives, Serve the function with its handshake, Backoff the
--     waits of Run, and Run the function itself with what is seen of the client.
--   Openmiio: internal/openmiio. Types, Parser and Miot are parser.go, Decoders is decoders.go, Products is
--     products.go, Dedup is deduplicator.go and Mac is NormalizeMAC of parser.go.
--   Measurements: internal/measurements/state.go. State has Merge, Restore and the entries of Load, File
--     has Load and Save.
--   Registry: internal/registry/registry.go.
--   Files: how writeJSON of internal/config/config.go and the two functions Save replace a file.
--   Config: internal/config/config.go. Mac has NormalizeMAC, Pin the pairing codes, Device the
--     struct, Validate has Defaults and NormalizeAndValidate, Load has LoadOrCreate.
--   Bridge: internal/bridge. Toothbrush is toothbrush.go over the timers of Timers, Battery is applyBattery
--     of device.go, Ids the accessory ids and serial numbers of sensor.go, Sensor its Apply and the rest of
--     device.go, Accessory the ids and the information that the two constructors give to HomeKit.
--   App: cmd/mgl03-homekit-bridge/main.go. Aids has the search for a free id, Prepare prepareDevices and
--     appendDeviceWithAID, Merge mergeDevices and findDevice, Updates processUpdates, Discover
--     discoverDevices and restoreCachedMeasurements, Queue the channel of run with the handler that fills
--     it, Live that handler and processUpdates side by side, Home these two with a toothbrush accessory,
--     Start what run makes of the loaded files, Run the files themselves in the order of run, Server the
--     whole of run with its HomeKit server.
--   Common: lists, integers, text, results and tables that the parts share.
--   Examples: concrete reports and devices on which the results are applied.
-- A child module states what it is named for: Bridge.Toothbrush.Invariant the invariant of the accessory,
-- Openmiio.Dedup.Sequence the filter against true sequence numbers.
--
-- How the code corresponds to the definitions. A string is the list of its bytes. An int64 and a
-- time.Duration are integers whose arithmetic wraps where the code computes it (sub64, neg64, seconds64);
-- a uint8, uint16 and uint64 are cut by a remainder. A map is an association list. A method with a pointer
-- receiver takes the state and gives the new one. A Go error is a value: Result, an Option, or a list of
-- errors beside the updates where the code returns both. Log output is left out, and an error keeps its
-- cause and not its text. The mutex of the toothbrush makes each of its methods one step: a Step is a
-- report, a timer that fires, a callback that runs at last, or Close, and Reach is any sequence of these.
-- A callback runs some time after its timer has fired, so that a new report can come between the two.
-- The channel of the updates has steps of its own: the handler offers an update, a consumer takes one.
-- In App.Live the consumer is the loop of processUpdates, and a step of it is one whole round. That the
-- context of a session is cancelled is seen where Run looks: while serve runs or while it waits.
-- The disk is a table from paths to texts, and replacing a file gives the list of its states after each
-- call of the operating system, so that a program that is stopped leaves one of them.
--
-- Parameters. FloatOps is the arithmetic of float64, whose values are bit patterns; Json is what
-- encoding/json decodes a message to, and Codec how it writes and reads the value of a file; Faults is
-- what the operating system answers while a file is replaced; `sort` is sort.Slice, of which IsSorting
-- says that it keeps the devices; Link is what the network does during a session, the
-- deadlines that cannot be set and the writes that fail included; Host is what the operating system and
-- the HAP library answer at the end of run; `numbered` is Sprintf of a name and a number, which
-- IsNumbering says to be a text with no space at its ends, `join` filepath.Join; the directory of the
-- configuration file, the clock, the random draws of generatePin and what a connection gives are
-- arguments. Text functions of package strings (TrimSpace, ToLower, EqualFold) are modelled on ASCII.
--
-- Bounds and fuel. The loop of encodeRemainingLength has fuel n + 1 for a length n, and each round divides
-- the length by 128. The search for a free accessory id has as fuel the number of used ids and one more:
-- the candidates of so many rounds are distinct while fewer than 2 ^ 31 - 1 devices exist. The generation
-- of the watchdog is a uint64, so the invariant is for fewer than 2 ^ 64 - 1 steps.
--
-- Not modelled: what the HAP library makes of the accessories that it is given, main with its flags and
-- signals, log texts, modes of files and the making of their directories, the length of the deadlines of
-- a connection, the copies of pointers in the measurement cache, the scripts, and the copy of
-- brutella/dnssd in third_party.
pub mod Common
pub mod Files
pub mod Openmiio
pub mod Config
pub mod Bridge
pub mod Mqtt
pub mod Measurements
pub mod Registry
pub mod App
mod Examples
