-- ===== src/Lib.antt =====
-- A model of libprotoserial, a stack of communication layers for embedded devices, in
-- include/libprotoserial. Data goes down through the layers and each of them puts its header in
-- front: a packet between two ports (ports/) is a transfer between two devices (fragmentation/),
-- which is carried as fragments, which an interface (interface/) frames and sends. All of them keep
-- their data in one container of bytes with spare room on both sides (data/container.hpp).
--
-- The files and the code that they model:
-- - Bytes: `bytes` of data/container.hpp. A container is its allocation, the number of exposed
--   bytes, the capacity and the offset; a raw access outside of the allocation is the error
--   `overrun`, and a throw of `range_check` the error `out_of_range`. Bytes.Memory has raw memory
--   and the machine integers, Bytes.Layout the shape that the containers keep, Bytes.Construct the
--   constructors from other sequences, and Bytes.Views, Bytes.Spec and Bytes.Entries the operations
--   as operations on the list of exposed bytes.
-- - Interface.Fragment, Interface.Header, Interface.Footer: interface/fragment.hpp,
--   interface/interface_id.hpp, interface/headers.hpp, interface/footers.hpp.
-- - Interface.Frame: `serialize_fragment` of interface/buffered.hpp and `parse_fragment` of
--   interface/parsers.hpp.
-- - Interface.Queue: `interface` of interface/interface.hpp; what a device answers is the input of
--   a turn of `main_task`.
-- - Interface.Ring, Interface.Receiver: the receive buffer, its circular iterator and `do_receive`
--   of interface/buffered.hpp; iterators are positions.
-- - Fragmentation.IdFactory, Fragmentation.Transfer, Fragmentation.FragmentHeader,
--   Fragmentation.TransferHandler: the files of these names in fragmentation/, FragmentHeader for
--   fragmentation/headers.hpp.
-- - Fragmentation.BaseHandler: what a received fragment does to the transfers in progress, and the
--   choice of what to transmit, in fragmentation/base_handler.hpp. Its loop over all transfers is
--   `housekeeping`, on fuel, as the source does not advance its iterator.
-- - Fragmentation.Bypass: fragmentation/bypass_handler.hpp.
-- - Ports.Header, Ports.Packet, Ports.Handler: ports/headers.hpp, ports/packet.hpp,
--   ports/ports.hpp.
-- - Devices: an object of `buffered_parser_interface`, with the classes on top of it:
--   Devices.Loopback and Devices.Virtual for interface/testing/, Devices.Linux for
--   interface/linux/uart.hpp, Devices.Uart for interface/stm32/uart.hpp and
--   interface/stm32_zst/uart.hpp, Devices.Rs485 and Devices.UsbCdc for interface/stm32_zst/. What a
--   system call reads is an argument, its other answers and the masks of termios.h are the record
--   `System` of Devices.Linux.Port, and an interrupt is a step.
-- - Services: `service_base`, services/echo.hpp, and in Services.Command the server and the client
--   of services/command_server.hpp and services/command_client.hpp. The JSON library is a record of
--   functions, and a command is its `setup`.
-- - Stack: the ports handler, the bypass handler and a virtual interface bound together by
--   fragmentation/fragmentation.hpp and ports/ports.hpp.
-- - Simulation: `wire` and `fullduplex` of testing/simulation.hpp, and the two devices on it of
--   tests/tests.cpp; the threads are the order of the actions of a run. Testing: `test_interface`
--   of testing/testers.hpp.
-- - Observer: `subject` of utils/observer.hpp. The events between the layers are values in the
--   other files.
-- - Kiss: `kiss_protocol` of utils/kiss_protocol.hpp, which works directly above an interface.
-- - Prelude: shared names, lemmas on lists and results.
--
-- A `size_t` has 64 bits, a `uint` and an `int` 32; wrap-around is written out. Sizes are kept
-- below 2 ^ 31, since `shrink` casts them to `int`. Exceptions and memory errors are values of
-- `Result`; the state that a throw leaves behind is not modelled. The object identifiers that
-- utils/object_id.hpp draws and the times are arguments. The checksum algorithm (`HashAlgorithm`)
-- comes from the ETL library: any function with values of its width.
--
-- Loops on iterators run on fuel: `rounds` of Interface.Receiver on the size of the buffer, since
-- each round moves the read position towards the write position, and `free_from` of Ports.Handler
-- on one more than the number of services, since each port that is taken belongs to another
-- service.
--
-- Not modelled: the vendor libraries and system calls below the drivers,
-- interface/stm32/usbcdc.hpp, which is unfinished; services/link_control.hpp and
-- fragmentation/fragmentation_handler.hpp, which do not compile; utils/bit_rate.hpp;
-- `test_handler`, which depends on the time that passes; printing; concurrent writes of an
-- interrupt during one `do_receive`, which reads one snapshot; and `get_ack_fragment`, which names
-- a message type that does not exist.
pub mod Prelude
pub mod Bytes
pub mod Interface
pub mod Fragmentation
pub mod Ports
pub mod Devices
pub mod Services
pub mod Stack
pub mod Observer
pub mod Simulation
pub mod Testing
pub mod Kiss
