-- ===== src/Lib.antt =====
-- SmokerFirmware: the control core of the smoker controller, and the application on top of it.
--
-- The firmware reads a chamber sensor and food probes, takes commands (Start, Stop, targets,
-- alarms, faults, firmware updates) and decides in one control cycle whether the heater may heat.
--
-- Core models components/smoker_core: Core/Domain.antt the types of domain.hpp, temperature.hpp
-- and heater_demand.hpp, Core/Control.antt, Core/Safety.antt and Core/Timer.antt the functions of
-- control.cpp, safety.cpp and timer.cpp.
--
-- App models components/smoker_app/src/smoker_application.cpp. App/State.antt has the members of
-- `SmokerApplication` as one record; a method returns the record after it. App/Queue.antt is
-- `submit` and the circular array, App/Handlers.antt one `process` for each command,
-- App/Drain.antt `process_pending_commands`, App/Probes.antt the reading and evaluation of
-- probes, App/Session.antt faults, stops and the timer, App/Tick.antt `tick`, App/Boot.antt the
-- constructor, App/Snapshot.antt the snapshots, App/Reach.antt everything that the control task
-- can do, in any order. The six ports (sensor, probes, controller, heater, clock, event sink) are
-- a log of calls, newest first, and answers that may depend on the whole log (`Ports` of
-- App/Commands.antt).
--
-- Mailbox models components/smoker_app/src/command_mailbox.cpp: Mailbox.antt the calls, and
-- Mailbox/Steps.antt one producer and one consumer interleaved at each access of a shared
-- sequence. The control task pops commands from it and submits them to the application. Its
-- sequences are words of 32 bits that wrap.
--
-- Exchange models components/smoker_app/src/snapshot_exchange.cpp, the three slots through which
-- other tasks see the snapshot of the application: Exchange.antt the calls, Exchange/Steps.antt
-- one writer and any number of readers interleaved at each access, where a copy in progress may
-- leave anything in its slot. A lease is the index of its slot; a lease that moves to another
-- owner stays the same. The loop of `acquire` may take another round as long as the writer
-- publishes in between.
--
-- Transport models components/smoker_platform/src/runtime_transport_support.cpp: how one cycle
-- drains the HTTP and the Blynk mailbox into the application in turns, at most 13 commands, and
-- the ids that both transports draw. The submit function is a parameter, and in
-- Transport/Admission.antt it is the application's `submit`. The loop of `drain` takes the budget
-- as fuel; the loop over ids takes, for each round, how often the other producer draws from the
-- same sequence just before it.
--
-- Flash models
-- components/smoker_platform/include/smoker/platform/flash_operation_coordinator.hpp: Flash.antt
-- the calls, and Flash/Steps.antt the history task and the updater interleaved at each access.
-- The history task releases only through its lease (`HistoryFlashLease`).
--
-- History models the record of sessions on its way to flash. History.antt has the observation of
-- components/smoker_platform/include/smoker/platform/history_support.hpp. History/Mailbox.antt is
-- `HistoryObservationMailbox`, which turns the snapshots of the application (App/Snapshot.antt)
-- into observations, its sequences words of 32 bits that wrap and its calls whole.
-- History/Policy.antt is the write policy with the round of the history task in
-- components/smoker_platform/src/history_service.cpp (one turn of its loop with the flash lease; turns without it change
-- nothing); the log that writes and the wall clock are parameters. History/Codec.antt is
-- `encode_observation` and `decode_observation` of components/smoker_platform/src/history_support.cpp over the byte readers
-- of History/Bytes.antt and the casts of History/Numbers.antt, and History/Page.antt the bytes of
-- a page: the header and the three writes of a record, the loop of `scan_page` and of
-- `read_page_records`. Both loops take the page's length as fuel, and no record has less than one
-- byte. `IHistoryFlash::write` is a parameter that answers and leaves a page; the appending of a
-- record uses of it what it does to erased bytes (`IsFlash` of History/Page/Append.antt). History/Eviction.antt is `complete_pending_eviction` over the page table; the erase of a
-- sector is a parameter that may fail at any call, and a page lies at the offset of its index.
--
-- Firmware models components/smoker_platform/src/firmware_update_support.cpp.
-- Firmware/Version.antt is `SemanticVersion` over texts of character codes, with
-- `std::from_chars` for an unsigned number of 32 bits; Firmware/Image.antt the metadata in front
-- of an image and its comparison with what runs; Firmware/Deadline.antt `MonotonicDeadline`;
-- Firmware/Coordinator.antt `FirmwareUpdateCoordinator`. The calls that
-- components/smoker_platform/src/firmware_update_service.cpp makes of it are the steps of Firmware/Coordinator/Reach.antt.
-- Firmware/Coordinator/Start.antt takes its snapshots from the application (App/Snapshot.antt).
--
-- Pid models components/smoker_platform/src/pid_chamber_controller.cpp, one chamber controller
-- that the application may be given. The backend (`IPidControllerBackend`) and the subtraction of
-- two floats are parameters.
--
-- Choices. Durations and time points are integers of milliseconds without a bound (the source has
-- 64 bits). A `float` is its sign bit and its other 31 bits (Common/Float32.antt), which is
-- enough where the code only compares; a HeaterDemand from the controller is any value. Counters
-- and ids of 32 bits wrap. An array index out of range reads nothing and writes nothing. The
-- moved-from recipe that a first Start leaves in its queue slot is left as it was; no code reads
-- it. The loop over the queued commands takes the number of commands as fuel. Accesses of atomics
-- by several tasks are interleaved as if they were sequentially consistent, also where the source
-- asks only for acquire and release; for the exchange of snapshots that is an assumption which the
-- source does not ensure (Exchange/Steps.antt).
--
-- Not modelled: the rest of the circular history log (start-up, allocation, the choice and
-- marking of a victim, queries, counts of errors), and the remaining platform code (network,
-- Blynk, the updater and the other services, the sensors and the other drivers).
pub mod App
pub mod Common
pub mod Core
pub mod Exchange
pub mod Firmware
pub mod Flash
pub mod History
pub mod Mailbox
pub mod Pid
pub mod Tests
pub mod Transport
