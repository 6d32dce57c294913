-- ===== src/Lib.antt =====
-- zmk-usb-bridge: the firmware of a dongle that connects as a Bluetooth LE central to one bonded ZMK
-- keyboard and passes its input on to a USB host as a HID device.
--
-- A keyboard's notification enters the input queue of the HID client (main/src/hog_client.c), whose
-- task merges mouse movements and hands each report to the bridge (main/src/bridge.c). The bridge
-- drops input while it is inactive, keeps the last bodies, and calls the USB side
-- (main/src/usb_bridge.c), which sends pending release reports before any input. The state machine
-- (main/src/state_machine.c) hears of events only through the event queue (main/src/ble_manager.c) and
-- answers with commands to the scan (main/src/ble_scan.c), the reconnect policy
-- (main/src/ble_reconnect.c), the bond inventory (main/src/ble_runtime.c) and the metadata store
-- (main/src/persist.c), with releases of the bridge, and with states for the recovery UI
-- (main/src/recovery_ui.c), whose button posts events of its own. The scan asks the pairing filter
-- (main/src/pairing_filter.c) for unbonded keyboards and starts connections
-- (main/src/ble_connection.c).
--
-- Where what is modelled:
--   Types         main/include/zmk_usb_bridge/types.h, status.h, ble_command.h, bridge.h: the shared types
--   World         the static variables of the modules, and the boundary to the platform
--   Machine       main/src/state_machine.c over the interface Services, with Graph, Trace, Gate, Commands
--   System        Services filled by the modules below, with Spares and Release
--   Startup       main/src/startup.c, over System
--   Queue         make_event and the post functions of main/src/ble_manager.c
--   Manager       the commands and the init of main/src/ble_manager.c
--   Reconnect     main/src/ble_reconnect.c, with Schedule
--   Scan          main/src/ble_scan.c, with Cache, Connect, Pairing, Bonds, Stall
--   Connection    main/src/ble_connection.c: the attempt, its watchdog and its failure, with Security,
--                 Events and Ended (the end of a connection), Established (its success), with Once and Sound
--   Radio         the callbacks of the Bluetooth stack, the connection's timer and the other modules'
--                 calls, as steps of main/src/ble_connection.c and main/src/hog_client.c, with Sound
--   Runtime       main/src/ble_runtime.c
--   Persist       main/src/persist.c
--   PairingFilter main/src/pairing_filter.c, with Names and Entries
--   Hog           main/src/hog_client.c: payloads (Mouse), report slots (Slots), input task (Input),
--                 life cycle (Client), resolution (Feature), subscriptions (Subscribe), GATT steps
--                 (Discovery), callbacks for attributes (Callbacks) and for answers (Reads)
--   Bridge        main/src/bridge.c, with Gate
--   Usb           main/src/usb_bridge.c, with Release, Permits, Control (the feature
--                 report), Descriptor (the report descriptor), and Interrupted (the driver's
--                 callbacks while a sender runs), with Quiet, Lost and Owed
--   Ui            main/src/recovery_ui.c, with Led and Button
--   Prelude       shared helpers and tests; Bytes the fixed-width integers
--   Examples      concrete states and platforms, on which the theorems are applied
--
-- The static variables of a module are a record, and all the records are one World. A function of the
-- source that returns a status is a function from World to a status and a World with the function's name
-- less the prefix zmk_usb_bridge and its module; one that returns nothing gives a World. A do block is
-- the chain of calls with early returns of the first status that is not OK.
--
-- The Zephyr kernel and its Bluetooth, USB and GPIO drivers are not part of the repository. Each call of
-- them is written to a log, and what it answers is a function of the call and of the log before it: the
-- record Platform, a parameter, so that the theorems hold for every behaviour of it. Timers, queues and
-- semaphores are read off the log. Functions that run under a mutex, and handlers that run on one work
-- queue, are single steps; runs are lists of such steps in any order. The callbacks of the Bluetooth
-- stack are single steps too. Those of the USB driver take no mutex: Usb has what each of them does,
-- and Usb.Interrupted lets them come between any two statements of a sender.
--
-- Numbers: bytes and words are natural numbers with the reduction written out where the source casts
-- (Bytes); statuses, movements and delays that may be negative are integers. Times in milliseconds are
-- not bounded, save that the search of the scan cache compares with INT64_MAX. Characters are bytes, and
-- isspace and tolower are those of the C locale.
--
-- Fuel: the parser of the allowlist has one unit for each character and one more, the input task one for
-- each pending event. The walk over the report slots, two functions that call each other, recurs on the
-- slots that are left. All other loops are structural.
--
-- Not modelled: the names of errors, and logging; the boards, the build and the configuration. The
-- subscription parameters that the HID client hands to the GATT client are named by their slot. The
-- steps of Radio leave out the notification without a payload, by which the stack tells that a
-- subscription has ended. What the report descriptor means is told by the HID specification, of which
-- report_bits keeps the sizes.
pub mod Prelude
pub mod Bytes
pub mod Types
pub mod World
pub mod Reconnect
pub mod Persist
pub mod Queue
pub mod Usb
pub mod Bridge
pub mod Runtime
pub mod Machine
pub mod PairingFilter
pub mod Hog
pub mod Ui
pub mod Connection
pub mod Scan
pub mod Manager
pub mod Radio
pub mod System
pub mod Startup
pub mod Examples
