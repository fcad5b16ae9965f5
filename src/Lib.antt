-- ===== src/Lib.antt =====
-- libkatherine is a C library that controls the Katherine readout of a Timepix3 pixel detector over
-- UDP. An application opens a device (two UDP sessions, one for commands and one for measurement
-- data), sends it a configuration, and then reads a stream of 6-byte data that the library decodes
-- into pixels and frames and hands to the handlers of the application.
--
-- The parts, and the files that model them:
--
-- Base, Bits: shared names, lists, casts and shifts, and the laws of `&` and `|` on numbers.
--
-- Bitfield (c/src/bitfields.h): MASK, EXTRACT and INSERT are mask, extract and insert; a bit field
-- is a Field.
--
-- Px (c/include/katherine/px.h), Md and its children (c/src/md.h): pixels, and the layouts of data.
-- `pmd_f_toa_tot_map` is Md.FToaTot.pixel_map, and so on for the six layouts; of the acquisition it
-- takes the last time offset.
--
-- PxConfig (c/src/px_config.c): the pixel matrix. The array of words is a function from its
-- indices. The loops over the 65536 pixels are recursion on the rounds that are left. PxConfig.File
-- is the loading from a file, with what fopen(), malloc() and fread() yield as parameters.
--
-- Acq (c/include/katherine/acquisition.h), Acq.Handlers, Acq.Decode and Acq.Read
-- (c/src/acquisition.c): the state of an acquisition is the record Acq. Calls of the handlers of
-- the application are a trace. The functions that DEFINE_ACQ_IMPL generates take the mapping of
-- their layout as a parameter. The loop over a datagram runs on fuel, of which one round for each
-- byte is enough: the loop ends by its test. The receive loop takes its rounds one by one, each
-- with its clock and the abort flag; durations are compared in nanoseconds. A pixel is stored at
-- the index of the buffer that its count of valid pixels names, and the handler of pixels gets that
-- count. Acq.Outcome is on the reads that wait for data.
--
-- Udp (c/src/udp_nix.c) and Udp.Open (there, and c/src/device.c): a session is the record Udp, with
-- what recvfrom(), sendto() and pthread_mutex_lock() will yield, and a trace of what was sent. The
-- loop of recv_exact runs on fuel, the number of datagrams that will still arrive: each round takes
-- one, and where they are out the socket is idle and the receive ends with EAGAIN.
--
-- UdpWin and its children (c/src/udp_win.c): the same session on Windows, over what Winsock yields.
-- A datagram that is longer than the buffer is an error there, and not cut.
--
-- Session, Command (c/src/command_interface.h), Config, Config.Upload and Config.Configure
-- (c/src/config.c): commands run on the control session one after the other until the first
-- failure, under its mutex. The formats of the commands are lists of bytes. The upload of the
-- matrix repeats at most ten times, each round with the recovery after a failure. The lemmas of
-- Session.Balance and Session.Talk carry a statement from one command to the configuration as a
-- whole: the first on any link, the second over a link that answers. Config.Asked describes the
-- registers by arithmetic on the values of a configuration, each field at its place, without the
-- encoders of the library, and Config.Protocol the datagrams that way, with literal opcodes.
--
-- Acq.Begin (c/src/acquisition.c): the initialisation of an acquisition, and the commands that
-- begin, stop and abort it. Acq.Started is on the commands of a beginning over a link that answers.
--
-- Crd (c/src/crd.h), Status (c/src/status.c): the queries of the control socket, each one command
-- and one response under the mutex, and the fields of the responses.
--
-- Emu (c/include/katherine/emulator.h) and its children (c/src/emu): the emulated readout, a
-- library of its own without sockets or threads, whose clock its host advances. Its state is the
-- record Emu. Emu.Prng is emu.h; Emu.Generator and Emu.Pump are emu_stream.c; Emu.Respond and
-- Emu.Commands are emulator.c, with the `switch` of handle_cmd cut in two. Arrays are functions
-- from their indices; the staging buffer is the list of the bytes that it holds. The loop of `pump`
-- runs on 2050 rounds of fuel: it stages a datum in every second round at least, and the buffer has
-- room for 1024. The other children hold the lemmas: Emu.Ring on arrays that are used as rings,
-- Emu.Queue and Emu.Log on the two rings, Emu.Layouts on the data of the stream, Emu.Staging,
-- Emu.Tokens, Emu.Pending, Emu.Handover and Emu.Shaping on the data plane, Emu.Safe on the state as
-- a whole, Emu.Feed, Emu.Registers, Emu.Parts, Emu.Encoded and Emu.Configured on what a
-- configuration does to it, and Emu.Acked, Emu.Answered and Emu.Configures on how it answers one.
--
-- Ksim and its children (tools/ksim): the daemon that puts the emulated readout behind two sockets.
-- Ksim.Args is args.h, with the elements of argv that are left for its index; Ksim.Options is the
-- command line of main.c, Ksim.Daemon the rounds of its main loop, and Ksim.Main the function
-- `main` around them. The state of the loop is the record Daemon; inet_pton(), the readings of the
-- clock up to the stop signal, and the outcomes of the calls that open something are parameters.
-- The option loop runs on one round for each element of the command line and one more, of which
-- each takes an element; out of fuel it would come to a result that the program does not have. The
-- loops over the responses and the data run on what Ksim.Daemon calls data_left and on the count of
-- the responses, and one round more; Ksim.Daemon.Work and Ksim.Daemon.Data are on that fuel. The
-- children of Ksim.Options are on command lines, those of Ksim.Daemon on the course of a tick.
--
-- How the parts interact: Config sends what Command encodes over a Session on the control socket of
-- a Device; an acquisition decodes with Md what arrives on the data socket. The emulated readout
-- takes what Config and Status send, and produces what Status and Md read; the daemon moves both
-- between it and sessions of its own.
--
-- Not modelled: floating point (the acquisition time is given by its tick count, a voltage, a
-- temperature or the bias by its bit pattern), pauses, debug output and messages, the freeing of
-- memory of an acquisition, NULL arguments of the emulator, the system calls behind the clock and
-- the stop signal of the daemon, the C++ and Python bindings, the dissector, the examples and the
-- tests.
pub mod Base
pub mod Bits
pub mod Bitfield
pub mod Px
pub mod Md
pub mod PxConfig
pub mod Acq
pub mod Udp
pub mod UdpWin
pub mod Session
pub mod Command
pub mod Config
pub mod Crd
pub mod Status
pub mod Emu
pub mod Ksim
pub mod Examples
