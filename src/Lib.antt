-- ===== src/Lib.antt =====
-- A verification library for the Python programs of the sc-adat-appliance repository.
--
-- The program has two halves. The mixer side keeps a map of the sixteen physical inputs to logical
-- sources, reads it from a configuration and edits it, speaks OSC with its clients, the console
-- among them, and runs a recorder while its disk allows it. The Dyaxis side serves the keyboard and
-- the trackball of a Studer Dyaxis and studies its U17 controller: it builds and checks application
-- images, replays the ROM's startup checksum, plans a load, and records and decodes captures.
--
-- Files and what they model:
--   Base           lists over the native numbers, bytes, Python's str, UTF-8, integers, and code
--                  that may raise (Result; Base.Sealed is its bind once more, shut, for long
--                  blocks of checks)
--   SourceMap      mixer/source_map.py: `validate_source_map` round by round, the snapshots, and
--                  in SourceMap/Atomic the class AtomicSourceMap, its state a record
--   Mapping        mixer/mixerctl.py: `_runtime_source_entries` and `propose_mapping`, which
--                  validate their result by the functions of SourceMap
--   Osc            mixer/mixerctl.py: `osc_string`, `packet`, `osc_read`, `parse_packet`
--   Config         mixer/mixerctl.py: the lines of `read_config`, `_configured_source_entries`,
--                  `_legacy_source_entries` and `configured_sources`
--   Mapping/State  mixer/mixerctl.py: `mapping_state`
--   Serve          mixer/mixerctl.py: `reply_destination`, `request_destination`; in
--                  Serve/Generator the test generator of `serve`, a step for each event
--   Bulk           mixer/mixerctl.py: `state_chunk_packets`; in Bulk/Client mixer/console.py:
--                  `OscClient.get_all`, whose local variables are a record and whose inboxes are lists
--   Console        mixer/console.py: ConsoleModel, the attributes that keys change a record; in
--                  Console/Keys a step for each key of `draw`; the floats and the contract are
--                  parameters, and the answers to a key are given with it
--   Recorder       mixer/recorder_policy.py: the byte rates and RecorderState, its methods
--                  functions from state to state
--   Clock          audio/clock.py: `preflight` and the health of `status`; in Clock/Change
--                  `set_mode`, its state that of the machine behind the commands
--   Manager        mixer/recorder_manager.py: RecorderManager, its attributes a record; in
--                  Manager/Status `status`, in Manager/Start `start`, `stop` and `control_state`,
--                  in Manager/Plan the tracks, over the sources of SourceMap and the rates of Recorder
--   Bridge         dyaxis/bridge/adb_mouse_bridge.py: a round of the loop of `main`, its variables
--                  a record; in Bridge/Lines the patterns of the lines
--   U17/Image      dyaxis/analysis/u17_image.py: `checksum`, `validate`, `build`
--   U17/Emulator   dyaxis/analysis/u17_checksum_emulator.py: the register loop of `checksum_037c`
--                  and every branch of `startup_validation`
--   U17/Independent  dyaxis/analysis/u17_checksum_independent.py: `complemented_sum`
--   U17/Loader     dyaxis/host/u17_loader_skeleton.py: `make_plan`
--   U17/Capture    dyaxis/host/u17_host_tool.py: CaptureWriter, `read_capture`, `decode_capture`
--   U17/Service    dyaxis/host/u17_host_tool.py: `simulate_service_byte`
--   U17/Ucsim      dyaxis/analysis/u17_ucsim_runner.py: `ihex`, `xram_commands`, `projected_path`,
--                  `checksum_summary`, `mapping_image`; U17/Ucsim/Loads has a reader of HEX files
--   Listing        dyaxis/analysis/deep_u17_analysis.py: in Listing/Parse `parse_asm`, in
--                  Listing/Control `successors` and the roots, in Listing/Flow the work list, over
--                  the states of Listing/Pointer (`dptr_dataflow`, `xdata_xrefs`) and of
--                  Listing/Registers (`register_dataflow`), and in Listing/Calls `external_calls`
--                  and `resolved_register_abi`; the listing is ASCII
--   Edges          dyaxis/host/nano_edge_capture.py: `parse_capture`, `level_at`
--   Nvram          dyaxis/analysis/analyze_ds1230.py: `printable_runs`, `nonzero_regions`,
--                  `fe_trampolines`
-- The configuration and the edits of the map go through the validation of SourceMap; the manager
-- plans its tracks from such a map and asks Recorder for the space; the console reads back what the
-- controller has cut into chunks. The startup check calls the checksum loop, images are built for
-- it, and `decode_capture` feeds the bytes of a capture to the service dispatch; the theorems
-- follow the same calls. In each part the Tests module runs the definitions and applies the
-- theorems at concrete inputs.
--
-- Conventions. A text is the list of its code points, bytes are a list of numbers, and a function
-- that raises returns an error value, one constructor for each message. `&` and `>>` on bytes are
-- written as remainder and quotient. A Python integer is a natural number where the code has it
-- nonnegative, and an integer elsewhere. What the code takes from `struct` for floats, and the
-- conversions `int()`, `float()` and `str()`, are the parameter `Floats` of Osc with the laws that
-- are used; a concrete one stands in Osc/Patterns. The patterns of `re` in the listing analysis are
-- values of Base/Regex, a backtracking matcher. The `amixer` and `docker compose` commands of
-- `set_mode` are the parameter `Lab` of Clock/Change, with a concrete one in Clock/Tests.
--
-- Of RecorderManager every answer of the operating system (a poll, a mount, a file, the free space,
-- the clock) is an input of the call, the texts of exceptions are left out, and times are whole
-- nanoseconds. `int()` of a text is written out for ASCII digits.
--
-- Fuel. The two checksum loops have 0x8000 rounds for the 0x7DFE that they take, and the reader of
-- captures has the length of the file, of which each record takes 13 bytes. The
-- tokens of a key line are found with the length of the line as fuel, and each takes three. The
-- frames of an edge capture have the length of the file, of which each takes a byte at least. The
-- work list of the listing has a round for each root and, for each row, one more than its state can
-- change; a repetition in a pattern has the length of the text, of which each round takes a
-- character.
--
-- Not modelled: sockets, serial ports, threads, the screen and the meters of the console, the DSP graph
-- that `start_graph` builds and the other branches of `serve`, the contents of session.json, the
-- terminal of the simulator, the printed reports on the ROM, the generators, the float laws of the
-- pan controls, and the programs in other languages.
pub mod Base
pub mod SourceMap
pub mod Osc
pub mod Recorder
pub mod Clock
pub mod Mapping
pub mod Bridge
pub mod Listing
pub mod Manager
pub mod U17
pub mod Bulk
pub mod Serve
pub mod Edges
pub mod Nvram
pub mod Config
pub mod Console
