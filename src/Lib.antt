-- ===== src/Lib.antt =====
-- vDS bridges a wireless game controller to a virtual USB one. A daemon reads Bluetooth packets and
-- makes USB reports of them, and keeps the way back: it mirrors the output reports of the host in a
-- state and sends that state as Bluetooth reports with checksums. A client asks the daemon, one JSON
-- line per request, to attach or detach controllers; what is attached is one JSON line each in a
-- database file.
--
-- The parts and the files that model them, with the functions under their names in the source:
--   * Jsonl (src/jsonl.cc): Lex and Parse read a text, Print writes one, Fields looks up fields. A
--     text is a list of byte values; what the source holds as an offset is the rest of the text.
--   * Hex (src/vds_common.cc): hexadecimal and decimal texts.
--   * Config (src/vds_config.cc): Ports and Records hold the port lists, addresses and lookups; Db
--     the text of the database and its changes; Paths the paths of the ports, on both platforms.
--     It reads and writes lines with Jsonl.
--   * Protocol (src/vds_protocol.cc): Crc, Packets, Triggers with Triggers.Spec, and Output with
--     Output.Effects and Output.Reports. `OutputState` is the class `DsOutputState`: each member
--     function takes the state and returns it changed; a byte array is a list of byte values.
--   * Daemon (src/vdsd_common.cc): Trace, Workers, Replies, Control and Control.Handlers. `Daemon`
--     holds what a handler reads and changes: the text of the database file, the trace flags, the
--     reload flag and the log. The platform and the listing of the targets are parameters.
--   * Hcd (module/vds_hcd_core.c, module/vds_usb_core.c): the kernel module, which puts the virtual
--     controller below the USB core. Types, Descriptors and Profile hold its data; Usb, Usb.Control
--     and Usb.Standard the USB device; Device, Iso, Giveback, Urbs, Writes, Port and Hub the host controller.
--     `VdsHcdDev` is `struct vds_hcd_dev`, a list for each of its queues; what a URB points to is part
--     of the URB, whose `id` stands for its address. `given_back` records the calls of
--     `usb_hcd_giveback_urb`. `VdsUsbDeviceOps` is the interface between the two: the device is written
--     over any controller, and Urbs fills it. Calls makes the operations steps of one machine, which
--     run in any order. Daemon and module exchange the frames of include/uapi/vds.h.
-- The other files prove theorems about these; Prelude has the shared names and lemmas, and the files
-- Tests run the code at concrete inputs.
--
-- Code that throws returns `err` with the message, in the type `Result`. Loops that do not follow the
-- structure of their input take fuel: the length of the text and one more for the loops of Jsonl and
-- for `parse_trace_scope`, the length of the text for `parse_effect_params`. Each round takes a byte at
-- least, so the fuel is enough; running out is `out_of_fuel`, an outcome that the source has not.
-- The loops of the kernel module follow their lists. An enqueue is two steps, the link of the URB under
-- the lock and the rest; between them other calls may come, but a call that takes that URB back there
-- is excluded, since the source then puts one list node on two lists. The first reading of the
-- stopping flag by a write is an answer of its own, independent of the state that its handler finds.
-- Each other operation, the rest of an enqueue and a round of the thread are one step, as if it held
-- the lock from start to end, also where the source releases it in between. What the kernel answers (memory, copies from and to user space, `usb_hcd_link_urb_to_ep`,
-- `usb_hcd_check_unlink_urb`, the time) is an argument. A status is the number of the error, zero for
-- success, and a time is in nanoseconds, below 2 ^ 63.
-- Numbers are unbounded, with the wrap-around of the source written out where it can occur.
--
-- Not modelled: the audio code with the Opus codec in src/vds_protocol.cc, src/vds_device_info.cc,
-- src/vdsctl_common.cc, src/vds_profile.hh and the command line in src/vdsd_common.cc; files, locks
-- and clocks (src/vds_log.cc, src/vds_fs.hh); of the kernel module its registration with the kernel,
-- the wake-ups and bus suspend; the daemons' own code under src/platform, which is sockets, handles
-- and services; the graphical client and the packaging.
pub mod Prelude
pub mod Jsonl
pub mod Hex
pub mod Config
pub mod Protocol
pub mod Daemon
pub mod Hcd
