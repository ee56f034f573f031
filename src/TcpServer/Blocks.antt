-- ===== src/TcpServer/Blocks.antt =====
-- udp-streamer/tcp-server.cpp: `TcpServer::Writer::worker`, which makes a list of entries of each frame of the ring buffer.
use recd.Common.{
  ℕ, zero, suc, ◌+◌, ◌*◌, ◌≡◌, ◌<◌, ◌≤◌, refl, ap, ◌∙◌, if◌then◌else◌, Option, none, some, List, [],
  ◌∷◌, length, get_elem?, get_or, get_elem?-eq-get_or, ltb, ◌>>=◌, collect, tabulate,
  collect-tabulate, if-true, if-false, arith,
}
use recd.Frame.{Frame, IsFrame}
use recd.RingBuffer.{RingBuffer}
use recd.RingBuffer
use recd.Server.{Server, NextPlugin, SampleData, u32, put_data}

abbrev pub block_entry : ℕ → List ℕ → SampleData
block_entry per smpl = record { signal = 0; samples = smpl; size = per }

-- The loop over `j`: `per` samples from `i` on, into an array of 512. `none` is an access outside an array.
unfoldable pub read_block : ℕ → List ℕ → ℕ → Option (List ℕ)
read_block per data_ i = if ltb 512 per then none else collect per i (get_elem? data_)

-- The loop over `i`, on fuel. The entries' samples are those that the array has when the entry is appended: the array itself
-- is gone at the end of the round.
unfoldable pub blocks : ℕ → ℕ → ℕ → List ℕ → ℕ → Option (List SampleData)
blocks zero max per data_ i = none
blocks (suc n) max per data_ i =
    let more = read_block per data_ i >>= λ smpl.
    blocks n max per data_ (i + per) >>= λ ls. some (block_entry per smpl ∷ ls) in
    if ltb i max then more else some []

-- One round of the worker for a frame, for `MAX` of the server's channels and samples per channel.
unfoldable pub writer_entries : ℕ → ℕ → List ℕ → Option (List SampleData)
writer_entries channels per data_ = blocks (channels + 1) (u32 (channels * per)) per data_ 0

-- `k` blocks, one behind the other, from `i` on.
unfoldable pub block_list : ℕ → ℕ → List ℕ → ℕ → List SampleData
block_list zero per data_ i = []
block_list (suc k) per data_ i =
    block_entry per (tabulate per i (λ j. get_or data_ j 0)) ∷ block_list k per data_ (i + per)

read_block_lem :
    (per : ℕ) (data_ : List ℕ) (i : ℕ)
    → per ≤ 512
    → i + per ≤ length data_
    → read_block per data_ i ≡ some (tabulate per i (λ j. get_or data_ j 0))
unfolding read_block
read_block_lem per data_ i h inside =
    if-false {b = ltb 512 per} _ _ (ground arith)
    ∙ collect-tabulate per i _ _ λ j hj. get_elem?-eq-get_or data_ j 0 (omega arith)

blocks_lem :
    (k n max per : ℕ) (data_ : List ℕ) (i : ℕ)
    → 0 < per
    → per ≤ 512
    → i + k * per ≡ max
    → max ≤ length data_
    → k < n
    → blocks n max per data_ i ≡ some (block_list k per data_ i)
unfolding blocks block_list
blocks_lem k zero max per data_ i p h m inside b = absurd (omega arith)
blocks_lem zero (suc n) max per data_ i p h m inside b = if-false {b = ltb i max} _ _ (ground arith)
blocks_lem (suc k) (suc n) max per data_ i p h m inside b =
    if-true {b = ltb i max} _ _ (grind arith)
    ∙ rw
        (
          read_block_lem per data_ i h (grind arith),
          blocks_lem k n max per data_ (i + per) p h (grind arith) inside (omega arith),
        )
        refl

-- Where the configuration's samples fit into a frame, the round ends with one entry for each channel, which has the
-- next samples of the frame, one block behind the other.
pub writer_entries_lem :
    (channels per : ℕ) (data_ : List ℕ)
    → 0 < per
    → per ≤ 512
    → channels * per ≤ 512
    → length data_ ≡ 512
    → writer_entries channels per data_ ≡ some (block_list channels per data_ 0)
unfolding writer_entries
writer_entries_lem channels per data_ p h inside size =
    blocks_lem channels (channels + 1) (u32 (channels * per)) per data_ 0 p h (omega arith)
      (omega arith) (omega arith)

-- What the worker does with a frame: it is given to the next plugin behind the server.
unfoldable pub write_frame : NextPlugin → Server → Frame → Option Server
write_frame next s frame =
    writer_entries s.channels s.smpl_per_chan frame.data_ >>= λ ls. some (put_data next s ls).0

-- One round of the worker.
unfoldable pub writer_round :
    NextPlugin → Server → RingBuffer Frame → Option (Server × RingBuffer Frame)
writer_round next s data_ = after (RingBuffer.read 512 data_)
  where
    after : Option Frame × RingBuffer Frame → Option (Server × RingBuffer Frame)
    after (none, left) = some (s, left)
    after (some frame, left) = write_frame next s frame >>= λ s'. some (s', left)

-- A frame that is read from the ring buffer reaches the next plugin as one list, and the ring buffer has it no longer.
pub writer_round_lem :
    (next : NextPlugin) (s : Server) (data_ left : RingBuffer Frame) (frame : Frame)
    → RingBuffer.read 512 data_ ≡ (some frame, left)
    → IsFrame frame
    → 0 < s.smpl_per_chan
    → s.smpl_per_chan ≤ 512
    → s.channels * s.smpl_per_chan ≤ 512
    → writer_round next s data_
      ≡ some ((put_data next s (block_list s.channels s.smpl_per_chan frame.data_ 0)).0, left)
unfolding writer_round write_frame
writer_round_lem next s data_ left frame e f p h inside = rw e (
    ap (λ o. (o >>= λ ls. some (put_data next s ls).0) >>= λ s'. some (s', left))
      (writer_entries_lem s.channels s.smpl_per_chan frame.data_ p h inside f.samples))
