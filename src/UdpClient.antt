-- ===== src/UdpClient.antt =====
-- udp-client/client.cpp: `iz::Client`, which sends a frame on each tick of its timer. Its frame_data_t (udp-client/client.h)
-- is not the one of utils/types.h: the null bytes stand before the samples, and it is not packed, so that three bytes
-- follow the checksum.
pub mod Missed
mod Tests
use recd.Common.{
  ℕ, zero, suc, ◌+◌, ◌*◌, ◌%◌, Option, some, none, List, [], ◌∷◌, ◌++◌, get_elem?, set, length,
  replicate, ◌==◌, if◌then◌else◌, ◌>>=◌,
}
use recd.Frame.{counter_bytes, data_bytes}
use recd.Server.{Datagram, frame, other, u32}
use recd.TcpServer.{frame_size, frame_of}

-- `counter` and `file_cnt` are the static variables of `transmit`; the others are the fields of the packet.
pub record Client : Type 0 where
  pub counter : ℕ
  pub file_cnt : ℕ
  pub data_ : List ℕ
  pub null_bytes : List ℕ
  pub checksum : ℕ
  pub padding : List ℕ

-- The inner loop over `j`, with `n` rounds left: the samples and `file_cnt`.
unfoldable pub fill_chan : List ℕ → ℕ → ℕ → ℕ → List ℕ × ℕ → Option (List ℕ × ℕ)
fill_chan file i zero j p = some p
fill_chan file i (suc n) j p = get_elem? file (p.1 % 100000) >>= λ s.
    fill_chan file i n (j + 1) (set p.0 (i * 16 + j) s, u32 (p.1 + 1))

unfoldable pub fill_data : List ℕ → ℕ → ℕ → List ℕ × ℕ → Option (List ℕ × ℕ)
fill_data file zero i p = some p
fill_data file (suc n) i p = fill_chan file i 16 0 p >>= λ q. fill_data file n (i + 1) q

-- The packet, byte by byte.
unfoldable pub packet_bytes : Client → List ℕ
packet_bytes c =
    counter_bytes c.counter ++ (c.null_bytes ++ (data_bytes c.data_ ++ (c.checksum ∷ c.padding)))

unfoldable pub transmit : List ℕ → Client → Option (Client × List ℕ)
transmit file c = fill_data file 32 0 (c.data_, c.file_cnt) >>= λ (samples, cnt).
    let c' = record c {
      counter = u32 (c.counter + 1);
      file_cnt = cnt;
      data_ = samples;
      null_bytes = replicate 64 0;
    } in
    some (c', packet_bytes c')

-- What `n` ticks of the timer send.
unfoldable pub transmit_times : List ℕ → ℕ → Client → Option (List (List ℕ))
transmit_times file zero c = some []
transmit_times file (suc n) c =
    transmit file c >>= λ (c', bytes). transmit_times file n c' >>= λ rest. some (bytes ∷ rest)

-- How the server takes what it reads (udp-streamer/server.cpp): by its size.
unfoldable pub datagram_of : List ℕ → Datagram
datagram_of bytes = if length bytes == frame_size then frame (frame_of bytes) else other
