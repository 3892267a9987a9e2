-- ===== src/Lib.antt =====
-- tinyvmm, a virtual machine monitor for Linux guests on the Windows Hypervisor Platform: the parts
-- that decide what a guest can see and do.
--
-- The program and its parts
--   A guest runs on virtual processors that exit to the monitor on port I/O, MMIO and MSR accesses.
--   src/devices/io_bus.rs and src/devices/mmio_bus.rs hand an access to the device that claimed its
--   port or address. The devices are the PC's own (interrupt controller, timer, UART, power, ISA
--   stubs) and the virtio devices, which share queues with the driver in guest RAM. A device finds
--   a chain of buffers in the available ring, works on it through host pointers, publishes it in the
--   used ring and decides whether to interrupt. The guest reaches the devices on VMBus by two
--   hypercalls, whose messages open channels over rings in its RAM. All guest addresses pass through `region_off` of
--   crates/whpsys/src/memory.rs, which knows about the hole below 4 GiB.
--
-- Which file models which part
--   Prelude            numbers, words, bits, lists and tests that the parts share
--   Memory             crates/whpsys/src/memory.rs: `region_off`, `host_range`, `read_array`,
--                      `write_bytes`, `read_u16`, `load_acquire_u32`, `store_release_u16`, _u32.
--                      A host pointer is its offset from the allocation's base, and the allocation
--                      a function from offsets to bytes.
--   Virtio.Queue       src/virtio/queue.rs: `struct Virtqueue` and the accessors of its rings
--   Virtio.Queue.*     `QueueState` (Snapshot), the copies of `ChainBuf` (Buffers), the loops over
--                      descriptors (Chain), `pop_into` to `should_interrupt_driver` (Pop), and the
--                      race between device and driver for an interrupt as a step relation (Race)
--   Virtio.Transport   src/virtio/transport.rs: the virtio-pci registers. `Transport` is the part of
--                      `PciTransport` that they reach, `VirtioDevice` the trait of
--                      src/virtio/device.rs over a state of the device's own. `read_cc32` and `write_cc32`
--                      (CommonCfg), the handlers of the BAR's windows (Handlers), the BAR on the
--                      MMIO bus (Bar); what the device is promised (Contract, over Sizes), and what the driver
--                      sees of a reset (Status), of negotiation (Features), of a queue's addresses
--                      (Addresses) and of its moves of the BAR (Mapping)
--   Net.Csum, Net.Wire src/net/csum.rs, src/net/wire.rs: the internet checksum, the headers of Ethernet,
--                      ARP and IPv4, IPv4 fragments (Wire.Fragments), ICMP, UDP and TCP (Wire.Layer4)
--   Net.Dhcp           src/net/dhcp.rs: the server, a client's messages (Client, Options) and exchange
--                      with it (Exchange, over Policy and Readings), and the name
--                      servers that it offers (Servers)
--   Vmbus.Ring         src/vmbus/ring.rs: the rings in guest memory; where their bytes lie (Places), the
--                      copies round them (Walks, Fills, Puts), the control page (Control), what a ring holds
--                      (Packets, Fifo), the two operations on it (Writing, Reading), any traffic
--                      over it (Traffic), and any bytes in it (Guards, Hostile)
--   Vmbus.Protocol     src/vmbus/protocol.rs: the messages between the guest and the bus
--   Vmbus.Host         src/vmbus/mod.rs: the hypercalls (Hypercalls), the messages that they post (Messages,
--                      over Contact, PageLists and Requests), what every run of the bus keeps (Steps, over
--                      Valid to Answers), and its snapshots (Snapshot, RoundTrip)
--   Device.IoBus, Device.MmioBus   src/devices/io_bus.rs, src/devices/mmio_bus.rs. A handler is a
--                      function of the access and of the state that the devices share.
--   Device.Pic         src/devices/pic.rs: the 8259A pair, with the calls of `notify` as a result
--   Device.Serial      src/devices/serial.rs: the UART, with the bytes it sends as a result
--   Device.Pit         src/devices/pit.rs: the 8254 timer, with the host's clock as an argument
--   Pci.Config         src/pci/config.rs, with the constants of src/pci/mod.rs: the guest's reads and
--                      writes of the configuration space, and the events that map and unmap BARs
--   Pci.Bus            src/pci/bus.rs, with `decode_config_address` of src/pci/mod.rs: the host bridge's
--                      ports, the devices behind them, and the addresses of their BARs
--   Pci.MsiX           src/pci/msix.rs: the interrupt table of a PCI device, with the messages it
--                      injects as a result and the hypervisor's answer as a parameter
--   Convenience.Partition   src/convenience/partition.rs: GPT and MBR tables (Partition), what is listed
--                      whatever the image holds (Limits, over Inside), and an array as its writer lays it out
--                      (Entries, over EntryBytes)
--
-- How the code is rendered
--   Machine words are natural numbers with the wrap-around of the release profile written out (u16,
--   u64, add16, sub16). A panic is `none`. A lock makes an operation atomic, so an operation is a
--   function of the state it locks. What the guest does to RAM while a device waits at a fence is a
--   function on its bytes, an argument of the operation; the race over the interrupt is the step
--   relation of Virtio.Queue.Race, over sequentially consistent RAM, which the fences on both sides
--   give.
--
-- Bounds and fuel
--   The walks over descriptors have the queue's size as their fuel, as the code's loops have it as
--   their bound: `for _ in 0..self.size`, and `step < self.size` for an indirect table, so no fuel is
--   ever short. Folding a checksum has its sum as fuel, and none as its result where that is short, and cutting a payload into fragments its length:
--   a round makes the one smaller and takes at least a byte of the other. The scan of the
--   interrupt controller runs its eight rounds. The chain of logical partitions is cut at 128 records, and
--   an entry array has its number of entries, as in the code. A walk round a ring has the bytes that it
--   copies as fuel, and the options of a DHCP message their length: a round takes a byte at least.
--
-- What is not modelled
--   The hypervisor's own calls, host files and windows, and threads beyond the race named above; the
--   doorbells of a virtio device and the vector path of the checksum; the address translation and
--   the host side of the network, the services on VMBus, PCI passthrough, boot loading, file systems and the virtio devices
--   behind the transport.
pub mod Prelude
pub mod Memory
pub mod Pci
pub mod Virtio
pub mod Device
pub mod Net
pub mod Convenience
pub mod Vmbus
