-- ===== src/Lib.antt =====
-- recd2: a recorder that takes multi-channel audio frames from the network and writes one WAV file for
-- each channel. A frame (Frame) arrives in the UDP server plugin (Server), which counts it, splits it into
-- one list entry for each channel and puts the list to the next plugin of the chain. The configuration
-- (Config) is read from an XML file and is asked by every component when it is set up.
--
-- Which file models which part:
-- - Chain: the plugins' `put_data` and `put_ndata` one behind the other, and in Chain/Proxy their
--   `main_proxy`, which load the configuration: NULL/null.cpp, test-producer, test-consumer, MD5, alsa-
--   rec, DFT/dtmf.cpp, udp-streamer/server.cpp and recorder/recorder.cpp. The depth of the calls is
--   fuel, for which one more than the number of plugins is enough.
-- - Dtmf: DFT/dtmf.cpp: `plugin::dtmf::Dtmf`, its settings and what it gives to the detector. The array
--   of a frame is filled on fuel, for which one more than its size is enough. Dtmf/Thread has `init`,
--   `deinit`, and what the thread takes and prints.
-- - Peek: udp-streamer/helper.cpp: `plugin::udp::Helper`.
-- - TcpServer: udp-streamer/tcp-server.cpp: the worker of `TcpServer`. The loop around `read` is
--   recursion over the segments that arrive. TcpServer/Blocks is the writer thread; its loop over a
--   frame has fuel of one more than the channels. TcpServer/Serve is the rest of the worker, with
--   `accept` and `select` as a list of what they answer.
-- - Capture: alsa-rec/qcapdev.cpp: `hEvLoop` of `plugin::qrec::QCapDevice`, the format it asks for and
--   the entries it makes; Qt's devices are parameters.
-- - UdpClient: udp-client/client.cpp: `iz::Client`, and how its packets fare in the server.
-- - Shell: app/main.cpp, the arguments of app/sapplication.cpp's constructor, and in Shell/WavConfig
--   app/config.cpp. Shell/Lifecycle composes the application's constructor, `init` and `deinit` from the
--   configuration and the plugin chain. What the plugins' `main_proxy` and `init` do to the
--   configuration, and whether they call `exit`, is a parameter there.
-- - Daemon: app/unix/daemon.cpp: the signal handlers, the decisions of `daemonize`, and in Daemon/Log
--   the log.
-- - Writer: utils/writer.cpp, with the calls of other threads and the steps of its own as one list of
--   events; Writer/Json is app/utils/json-writer.cpp and Writer/Logger utils/logger.cpp, which each own
--   a writer.
-- - Messages: utils/ipc-msg.cpp and `MsgServer` of app/server.cpp: the way of a message to the logger.
-- - UserServer: app/server.cpp: `UserServer`, the console on a TCP port.
-- - Threads: utils/thread.cpp: `BSemaphore`, as the steps of threads that interleave, and in
--   Threads/Create `PThread`.
-- - Frame: utils/types.h and utils/types.cpp: `frame_data_t`, `checksum_lrc`, `gen_checksum_lrc`. The
--   loops over bytes are structural recursion over the list of bytes they read.
-- - RingBuffer: utils/ring-buffer.h: the template `RingBuffer`, with the plain queue it is compared with
--   in RingBuffer/Queue. `readAll` runs as often as its count says.
-- - Config: utils/recorder-config.cpp: `RecorderConfig`, the tags and attributes, and `MPair`.
--   Config/Shared has the references that a lookup returns, with the one object that stands for all
--   missing attributes.
-- - Wav: utils/wav-writer.cpp: `utils::Wav`. A file is its bytes and a position; Wav/Growth and
--   Wav/Recording follow it through open, write and close, Wav/RoundTrip reads it back.
-- - Recorder: recorder/recorder.cpp: `plugin::rec::Recorder`. Each loop over the slots is a recursion
--   with the number of rounds that are left; Recorder/Setup is `init`, Recorder/Slots and
--   Recorder/Channels the meaning of the lists for each channel, Recorder/Swap the change of the files,
--   Recorder/Names the lengths of the file names. A word of 32 bits has at most ten decimal places,
--   which is the fuel of `decimal`. Recorder/Changes is what the loops that change files have in common,
--   Recorder/Budget and Recorder/Limit the limit of the files' size. Recorder/Stop is `deinit`.
--   Recorder/Thread has the rounds of its thread and the calls of `put_data` in any order.
-- - Plugins: app/defs.cpp, app/plugin-manager.cpp and the loops over the plugins of
--   app/sapplication.cpp. Each plugin's static interface object is a place in a list. The walks along
--   nextPlugin run on fuel, for which one more than the number of plugins is enough where each plugin is
--   loaded once. Plugins/Tables has the objects that the plugins' `get_interface` fill. Plugins/Clear is
--   the destructor of their list. Plugins/Names is `setName` and `getName`.
-- - SpinLock: utils/thread.cpp: `SpinLock`, as the steps of threads that interleave.
-- - Server: udp-streamer/server.cpp: `plugin::udp::Server`, with each datagram one call of
--   `on_datagram`, the loop `while (hasPendingDatagrams())` recursion over the pending datagrams;
--   Server/Setup is `init`. Server/Transport is the end of `init`, and `deinit`.
-- - Producer: test-producer/test-producer.cpp: `init` and the worker, which reads a file. Its loop runs
--   on fuel of one more than the number of samples, which Producer/Plays shows to be enough.
-- - Tracer: app/utils/stack-tracer.cpp: `StackTrace`, with a reader of the file that its handler writes.
--
-- Machine words are numbers below 2 ^ w and wrap, written out where the code computes with them; an int16_t is
-- its bit pattern. Code that is not in the repository (Qt, the C library, the next plugin behind an
-- interface pointer) is a parameter. `none` stands for an access outside an array or to an object that is
-- not there. Shared names, lists and numbers are in Common and its children.
--
-- Not modelled: the I/O of the sockets and files themselves, Qt's event loop, the audio device, and the DTMF detector of
-- another author (DFT/DtmfDetector.cpp, DFT/DtmfGenerator.cpp).
pub mod Capture
pub mod Chain
pub mod Common
pub mod Config
pub mod Daemon
pub mod Dtmf
pub mod Frame
pub mod Messages
pub mod Peek
pub mod Plugins
pub mod Producer
pub mod Recorder
pub mod RingBuffer
pub mod Server
pub mod Shell
pub mod SpinLock
pub mod TcpServer
pub mod Threads
pub mod Tracer
pub mod UdpClient
pub mod UserServer
pub mod Wav
pub mod Writer
