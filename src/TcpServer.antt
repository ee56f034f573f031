-- ===== src/TcpServer.antt =====
-- udp-streamer/tcp-server.cpp: the worker of `TcpServer`, which reads frames from a stream and puts those that come in
-- order into a ring buffer. `read` is the system's: what arrives is a list of segments, of which one call takes at most
-- the first.
pub mod Segments
pub mod InOrder
pub mod Blocks
pub mod Serve
mod Tests
use recd.Common.{
  ℕ, zero, suc, ◌+◌, ◌-◌, ◌*◌, Bool, if◌then◌else◌, Option, none, some, List, [], ◌∷◌, ◌++◌, length,
  take, drop, get_or, replicate, ltb, leb, ◌==◌, ◌>>=◌,
}
use recd.Frame.{Frame}
use recd.RingBuffer.{RingBuffer}
use recd.RingBuffer
use recd.Server.{u32}

-- What the next `read` finds: bytes, the end of the stream, at which every `read` returns 0, or an error, -1.
pub data Arrival : Type 0 where
  got : List ℕ → Arrival
  hangs_up : Arrival
  fails : Arrival

-- Bytes written at a position of the frame.
unfoldable pub put_bytes : List ℕ → ℕ → List ℕ → List ℕ
put_bytes b len bs = take len b ++ (bs ++ drop (len + length bs) b)

-- The loop `while len < SIZE` around `read`, with the bytes of the frame. `none` is a loop that does not end: it
-- waits for more, or reads 0 bytes for ever. An error takes one byte back; where there is none, `len` wraps around
-- to 2 ^ 64 - 1 and the loop ends.
unfoldable pub fill : ℕ → List Arrival → ℕ → List ℕ → Option (List ℕ × List Arrival)
fill SIZE [] len b = if leb SIZE len then some (b, []) else none
fill SIZE (hangs_up ∷ rest) len b = if leb SIZE len then some (b, hangs_up ∷ rest) else none
fill SIZE (fails ∷ rest) len b =
    let again = fill SIZE rest (len - 1) b in
    if leb SIZE len then some (b, fails ∷ rest) else if len == 0 then some (b, rest) else again
fill SIZE (got bs ∷ rest) len b =
    let again = fill SIZE rest (len + length bs) (put_bytes b len bs) in
    if leb SIZE len
    then some (b, got bs ∷ rest)
    else if ltb (SIZE - len) (length bs)
    then some (put_bytes b len (take (SIZE - len) bs), got (drop (SIZE - len) bs) ∷ rest)
    else again

-- `sizeof(frame_data_t)`, which is packed
abbrev pub frame_size : ℕ
frame_size = 1093

unfoldable pub samples_of : List ℕ → List ℕ
samples_of [] = []
samples_of (lo ∷ []) = []
samples_of (lo ∷ hi ∷ bs) = (lo + 256 * hi) ∷ samples_of bs

-- The frame that its bytes are, on a little-endian machine.
unfoldable pub frame_of : List ℕ → Frame
frame_of bs = record {
  counter = get_or bs 0 0 + 256 * get_or bs 1 0 + 65536 * get_or bs 2 0 + 16777216 * get_or bs 3 0;
  data_ = samples_of (take 1024 (drop 4 bs));
  null_bytes = take 64 (drop 1028 bs);
  checksum = get_or (drop 1092 bs) 0 0;
}

pub record TcpServer : Type 0 where
  pub paket_counter : ℕ
  pub missed : List ℕ
  pub ring : RingBuffer Frame

-- `++paketCounter != frame.counter`: the frame is left out, and the message "Missed: " names the number behind it.
unfoldable pub take_frame : Frame → TcpServer → Option TcpServer
take_frame frame s =
    if u32 (s.paket_counter + 1) == frame.counter
    then (RingBuffer.write 512 s.ring frame >>= λ ring.
        some (record s { paket_counter = frame.counter; ring = ring }))
    else some (record s {
      paket_counter = frame.counter;
      missed = s.missed ++ (u32 (frame.counter + 1) ∷ []);
    })

-- `n` rounds of the loop over the frames of one connection; `select_result` never changes in it.
unfoldable pub take_frames : ℕ → List Arrival → TcpServer → Option (TcpServer × List Arrival)
take_frames zero arrivals s = some (s, arrivals)
take_frames (suc n) arrivals s =
    fill frame_size arrivals 0 (replicate frame_size 0) >>= λ (b, rest).
    take_frame (frame_of b) s >>= λ s'. take_frames n rest s'
