-- ===== src/Lib.antt =====
-- CanSystems: the firmware of a network of small controllers on a CAN bus, with a gateway to MQTT. A
-- gateway sends commands and firmware images to the nodes; a node runs a cooperative scheduler over
-- its tasks, among them the CAN handler, the storage of an image in its SPI flash, and, on some nodes,
-- the control of an irrigation pump.
--
-- The parts, and the files that model them:
--   Prelude          numbers, lists, bits and integers that the parts share
--   Common           lib/common/src/common.hpp: class Time (Common.Time), class Analog (Common.Analog),
--                    class ErrorState (Common.ErrorState) and class FileName (Common.FileName, with
--                    common.cpp); reconnectBackoff.hpp beside it (Common.Backoff) and
--                    deltaCounter.hpp (Common.DeltaCounter)
--   CircularBuffer   lib/CircularBuffer/src/CircularBuffer.hpp: the fields as a record, one function
--                    per method; CircularBuffer.Queue is the queue that the buffer implements
--   Crc16            lib/crc16/src: `next` is `Crc16.next` on one byte, `Crc16.next_all` on several
--   CanProtocol      lib/canHandler/src: CanFrame of canHandlerBase.hpp (CanProtocol.Frame),
--                    otaCanFrame.hpp (CanProtocol.OtaFrame), canIdAssign.hpp (CanProtocol.IdAssign)
--   CanFramePump     lib/canHandler/src/canFramePump.hpp
--   FlashOta         lib/ota/src: the state machine that stores an image; FlashOta.Driver is what it
--                    asks of the flash chip, FlashOta.Checked what a check has read
--   OtaResponse      lib/canHandler/src/otaCanResponse.hpp: what a node answers during a transfer
--   OtaRegistry      lib/otaRegistry/src: the queue of targets that wait for an uploaded image
--   CanNode          lib/canHandler/src/canHandlerAtmega328P.cpp: a node's task on the bus, with the
--                    ids of canHandlerBase.hpp and the commands as numbers
--   CanOta           class CanOta of lib/canMqttGateway/src/canMqttGateway.cpp: the gateway's side of a
--                    transfer; CanOta.Driver is what it asks of an open file
--   CanMqttGateway   class CanMqttGateway of lib/canMqttGateway/src: a CAN client as the server sees it,
--                    with its CanOta, its place in OtaRegistry and its address
--   OtaTransfer      a transfer from end to end: CanOta and CanNode, joined by a bus, in rounds of one
--                    pass each; OtaTransfer.Laws is what is relied on of the file and of the chip
--   CanHandler       lib/canHandler/src/canHandlerEsp32.cpp: the gateway's handler, over an interface of
--                    the controller; a frame that a callback gets is recorded in the handler's state
--   CanCommissioner  lib/canCommissioner/src: the nodes that wait for an address, and who gets one
--   DataTransfer     lib/dataTransfer/src: a file or a firmware image that arrives over MQTT in pieces;
--                    DataTransfer.Driver is what it asks of the file system, the updater and MD5Builder,
--                    DataTransfer.Laws what is relied on of them, DataTransfer.Upload a whole upload
--   MqttCommon       lib/mqttCommon/src: the reboot command and the uploads, as messages bring them
--   EepromHandler    lib/eepromHandler/src: a value with its checksum in the EEPROM;
--                    EepromHandler.Driver is what it asks of the EEPROM library
--   RtcStore         lib/rtcStore/src: bytes that a reset keeps
--   BootProgress     lib/bootProgress/src: the stage of the startup, kept in RtcStore
--   Base64           lib/base64/src
--   Pcf8574          lib/pcf8574/src: the port expander
--   PumpControl      lib/pumpControl/src: the irrigation state machine
--   TaskHandler      lib/taskHandler/src/taskHandler.hpp
--
-- How they interact: OTA feeds `Crc16` with the image it reads back and measures its stall by `Time`;
-- canIdAssign derives a provisional address from `Crc16`; PumpControl queues its irrigations in a
-- CircularBuffer, switches its valves through the port expander, filters its readings by `Analog` and
-- collects its errors in an `ErrorState`. The theorems on a part are used by those above it through the
-- same names.
--
-- CanNode unpacks the frames by CanProtocol, drains the controller by CanFramePump, hands the pieces of
-- an image to FlashOta and answers by OtaResponse. A frame that a node sends is recorded in the node's
-- state; a node that restarts has halted, since `restartMCU` does not return; it is then constructed anew,
-- with what the EEPROM and the flash hold, and `init` is what it does next. Since a save into the EEPROM
-- writes before it verifies, one that fails leaves any ids there, or none.
--
-- In OtaTransfer a frame arrives whole in the pass after it was sent, the transmit queue takes every
-- frame, and only the gateway and the node speak. The file returns the bytes that were asked for while
-- there are any; the chip answers that it is busy at least once after an erase, and for a bounded number
-- of polls, reads what it holds and writes into erased bytes. A node whose erase were over at the first
-- poll would not answer OTA_START: `OtaCanResponse::decide` compares with the state after the last pass,
-- and the frame and the poll come in one. The clock is any function of the round; what is asked of it
-- stands with the theorem.
--
-- DataTransfer decodes its pieces by Base64, measures its silence by `Time`, collects its errors in an
-- `ErrorState` and accepts the names of `FileName`. What `checkOkCallback` is called with is recorded;
-- the callback is taken to make no call of the transfer, as the one that is given makes none.
--
-- MqttCommon gives the transfer its callbacks: a result that the transfer has recorded is taken at once,
-- and a file is in use when OtaRegistry says so. A message is its JSON fields, each with its value or
-- missing; a response that cannot be sent has no effect, as in the source. The value that EepromHandler
-- keeps is its bytes; the address and the size are parameters, and so is the EEPROM, of which nothing is
-- assumed: what a theorem needs of it, `save` has verified by reading back.
--
-- CanMqttGateway publishes what is recorded in its state, whether the server gets it or not, as in the
-- source. The registry reads what a target answers through its virtual methods; here a pass writes the
-- answers of its gateway into the registry's list before it claims and when it is done. `sharedImage` is
-- null or points to `batchImage`, since only `run` starts a transfer. What `runLocal` and
-- `processCanFrameArrived` of a derived class do is left to it.
--
-- State is passed explicitly: a method is a function from the object's record to what it returns and
-- the next record. The clock, a sensor's reading and a bus's answer are arguments; `millis()` is read
-- once per pass. Unsigned integers are natural numbers with their wrap-around written out; `int` on the
-- smallest target has 16 bits. Arrays are lists. Every loop is structural recursion on a list or on
-- the number of rounds, which the source bounds, so no fuel runs out; the drain loop recurses on its
-- frame budget.
--
-- Not modelled: the registers and buses of the hardware, the CAN drivers and the vendored libraries
-- under lib/ (pubSubClient, RCSwitch, DFPlayerMiniFast, CANDriver), which are other projects' code;
-- logging; the texts of topics, JSON and discovery messages, which third-party libraries write and read;
-- and so far the connection to the network and the broker, the configuration files and the sensors.
pub mod Prelude
pub mod Common
pub mod CircularBuffer
pub mod Crc16
pub mod CanProtocol
pub mod CanFramePump
pub mod FlashOta
pub mod OtaResponse
pub mod OtaRegistry
pub mod CanNode
pub mod CanOta
pub mod CanMqttGateway
pub mod OtaTransfer
pub mod CanHandler
pub mod CanCommissioner
pub mod DataTransfer
pub mod MqttCommon
pub mod EepromHandler
pub mod RtcStore
pub mod BootProgress
pub mod Base64
pub mod Pcf8574
pub mod PumpControl
pub mod TaskHandler
