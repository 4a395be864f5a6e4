-- ===== src/Lib.antt =====
-- iTCP: a user-space TCP/IP stack over libpcap.
--
-- The program captures Ethernet frames on virtual interfaces. src/packetio.cc builds and sends
-- frames, src/ip.cc builds IP packets, looks for their next hop and decides whether a received one is
-- delivered, answered by myArp or forwarded (src/forward.cc). src/myArp.cc announces addresses by
-- flooding and fills the routing table of include/ip.h from what it hears. src/device.cc and
-- iTCP_kernel_t of include/core.h keep the table of devices. src/tcp.cc has the TCP state machine
-- (readIPPacket), the transfer of data (recvTCPPacket) and sendTCPPacket over mysocket_t of
-- include/core.h. The threads pass packets to one another through BlockingQueue of include/utils.h.
--
-- Modules and the code that they model:
--   Common           shared names, Boolean tests, lists over the native ℕ, tables of small numbers
--   Word             src/core.cc (ptr2ip_t, ip_t2ptr, h2n), src/utils.cc (change_Endian) and the flag
--                    functions of src/tcp.cc; Word/Order and Word/Flags prove what they compute
--   Queue            BlockingQueue<T>; Queue/Holds relates the ring to the list of its items,
--                    Queue/Schedule runs calls of several threads
--   Dict             std::map as an association list in the order of its keys; Dict/Laws and Dict/Keys
--                    are about its entries and its keys
--   Device           device_t, the device operations of iTCP_kernel_t, addDevice, addAll, findDevice;
--                    Device/Table has the invariant, Device/Discover and Device/Addresses are about
--                    addAll
--   Route            opRoutingTable; Route/Table is about setRoutingTable, Route/Lookup about the
--                    two searches
--   Packet           the headers as bytes, constructIPPacket, constructFrame; Packet/Headers and
--                    Packet/Frames read them back
--   Ip/Host          sendFrame, sendIPPacket, forward
--   Ip/Arp           sendArp, sendArpBroadCast, recvArp, and recvFrame, which calls recvArp
--   Ip/Recv          recvFrame on what sendFrame sent
--   Ip/Announce      the broadcast of announcements
--   Ip/Learning      recvArp
--   Ip/Hearing       recvFrame on the frame of an announcement
--   Network          hosts that announce addresses over links of any shape, with the frames between
--                    them; Network/Sites has the walks along which announcements come, Network/Routes
--                    and Network/Walks are about the routes, Network/Facing and Network/Storm about
--                    two neighbours that hear one another
--   Tcp/Types        the types of include/tcp.h, mysocket_t, copies to and from its buffer
--   Tcp/Data         recvTCPPacket, myread, mywrite; Tcp/ReadWrite is about the last two
--   Tcp/Handler      readIPPacket once a packet is taken apart (`handle`)
--   Tcp/Wire         sendTCPPacket, and how readIPPacket takes a packet apart
--   Tcp/Graph        the state diagram of a connection
--   Tcp/Events       `handle` in the states and for the packets of a regular connection
--   Tcp/Peers        two sockets with the packets in flight between them
--   Tcp/Handshake, Tcp/Teardown, Tcp/Chunks, Tcp/Transfer, Tcp/Stream
--                    opening, closing and the stream of data between two sockets
--   Tcp/Kernel       the socket maps of iTCP_kernel_t, recvIPPacket, readIPPacket, processIPPacket of
--                    src/daemon.cc; Tcp/Listen and Tcp/Demux are about them
--   Tcp/Sockets      socket_create, socket_bind, socket_listen; Tcp/Listening is about the three
--   Tcp/Steady, Tcp/Untouched
--                    what packets leave as it is in a socket
--   Tcp/Bounds, Tcp/Faults, Tcp/Replies
--                    the offsets of a socket, accesses outside of databuf, the size of answers
--   Socket           the __wrap_ functions of src/socket.cc; Socket/Open, Socket/Wait, Socket/Write and
--                    Socket/Close are about two sockets and the calls on both sides,
--                    Socket/Descriptors is about accept on the table, Socket/Race about close and the
--                    handler at the same time; Socket/Traffic, Socket/Intact and Socket/Stream let a
--                    network lose, double and reorder packets while one side writes and the other
--                    reads
--   Daemon           the set-up of main in src/daemon.cc and one round of each loop (recvPcapPacket,
--                    periodSendMyArp, main, processIPPacket), with recvPcap of include/utils.h;
--                    Daemon/Start is about the set-up, Daemon/Hop follows one packet through the loops
--   Program          src/sender.cc and src/recver.cc, split at their waits; Program/Session is about the
--                    parts up to the first wait of each, Program/Data about what they write and read.
--                    Program/Talk puts the two programs and the packets between them into one system,
--                    Program/Phases, Program/Sender and Program/Recver are about one step
--                    of it, Program/Ending about its runs up to the calls of __wrap_close.
--                    Program/Main is src/main.cc, with the callbacks that the programs set. Program/Calls
--                    lets a program receive packets, work on them and call src/socket.cc in any order,
--                    and Program/Backlog, Program/Rounds, Program/Kept and Program/Fifo are about the
--                    packets that wait meanwhile
--   Sample, */Tests, Tcp/DemuxTests, Tcp/BoundsTests, Program/RunTests, Program/EndingTests,
--   Program/MainTests
--                    concrete hosts, and runs of the theorems on them
--
-- How the state is kept. A function that changes currDevice, routeTable or a socket takes the old
-- value and returns the new one. An int that is -1 or an index is an Option, and so is a call that may
-- read or write outside of a buffer (`none`). A buffer is the list of its bytes, databuf is a function
-- from offsets. Numbers of w bits are numbers below 2 ^ w, with the wrap-around written out. The
-- program overlays structs on buffers, so the byte order is that of the host: little-endian. Frames
-- handed to pcap_sendpacket are collected in order. What the code leaves uninitialised and still
-- sends (a byte of payload, two header fields) is an argument.
--
-- A call that holds a mutex from its first access to its last is one step; a wait on a condition
-- variable is the result `none`, before anything has changed in the queue. In Tcp/Peers a delivery is
-- the handling of one packet in flight by processIPPacket, and the network chooses which; no packet is
-- lost or doubled there, but any may be in Socket/Traffic. The code has no retransmission, so a stream
-- does not survive a loss.
--
-- In Network any host may call sendArp, any frame that has arrived may be given to recvFrame and any
-- frame may be lost, in any order. `link` says at which devices of which hosts a frame arrives; the
-- theorems hold for every such function, since it stands for the cabling and for pcap.
--
-- A call of src/socket.cc that waits is split: what it does up to the wait, the test that ends the
-- wait, and what it does afterwards. Between these, any packets may be handled. __wrap_write does
-- two things before it waits, and write_start takes both at once; Socket/Traffic takes them apart.
-- __wrap_close sends its FIN in close_start and changes the state in close_set: Socket/Close is about
-- calls with no answer handled between the two, Socket/Race about one with both answers there. In
-- Program/Talk a program goes on where its wait
-- is over, at any time; in Program/Calls any of the parts may be called at any time.
--
-- Bounds. Loops over devices, routes and interfaces are structural recursion on the list, so no fuel
-- is needed; the loops of socket_create and __wrap_accept count down the 100 descriptors that they
-- try. The endless loops of the threads are one definition for each round. In Tcp/Stream and
-- Socket/Write the stream fits the 2 ^ 20 bytes of databuf, and the number of deliveries is bounded by
-- the bytes left.
--
-- Not modelled: libpcap, the start of the threads, the copy constructor of mysocket_t that takes a
-- reference, which nothing calls, and what only prints. SOCK_STREAM, BUFSIZ and
-- the address families have Linux's numbers.
pub mod Common
pub mod Word
pub mod Queue
pub mod Dict
pub mod Device
pub mod Route
pub mod Packet
pub mod Ip
pub mod Network
pub mod Tcp
pub mod Socket
pub mod Daemon
pub mod Program
pub mod Sample
