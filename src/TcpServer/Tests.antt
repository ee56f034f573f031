-- ===== src/TcpServer/Tests.antt =====
-- Runs of the loop around `read`, and the theorems at small streams.
use recd.Common.{ℕ, ◌≡◌, refl, arith, some, none, List, [], ◌∷◌, map, replicate, collect}
use recd.Frame.{Frame}
use recd.RingBuffer.{RingBuffer}
use recd.RingBuffer
use recd.Writer.Files.{concat}
use recd.TcpServer.{got, hangs_up, fails, fill, put_bytes, TcpServer}
use recd.TcpServer.Segments.{fill-segments}
use recd.TcpServer.Blocks.{block_entry, writer_entries, blocks, read_block}

fill_run :
    fill 4 (got (1 ∷ 2 ∷ []) ∷ got (3 ∷ 4 ∷ 5 ∷ []) ∷ []) 0 (0 ∷ 0 ∷ 0 ∷ 0 ∷ [])
    ≡ some (1 ∷ 2 ∷ 3 ∷ 4 ∷ [], got (5 ∷ []) ∷ [])
unfolding fill put_bytes
fill_run = refl

-- A client that hangs up leaves the loop running; an error at the start of a frame ends it with an empty frame.
hangs_up_run : fill 4 (got (1 ∷ []) ∷ hangs_up ∷ []) 0 (0 ∷ 0 ∷ 0 ∷ 0 ∷ []) ≡ none
unfolding fill put_bytes
hangs_up_run = refl

fails_run : fill 4 (fails ∷ []) 0 (0 ∷ 0 ∷ 0 ∷ 0 ∷ []) ≡ some (0 ∷ 0 ∷ 0 ∷ 0 ∷ [], [])
unfolding fill
fails_run = refl

fill-segments_example :
    (rest : List (List ℕ)) × (fill 3 (map got ((1 ∷ []) ∷ (2 ∷ 3 ∷ 4 ∷ []) ∷ [])) 0 (0 ∷ 0 ∷ 0 ∷ [])
      ≡ some (1 ∷ 2 ∷ 3 ∷ [], map got rest))
    × (concat rest ≡ 4 ∷ [])
unfolding concat
fill-segments_example =
    fill-segments 3 ((1 ∷ []) ∷ (2 ∷ 3 ∷ 4 ∷ []) ∷ []) (0 ∷ 0 ∷ 0 ∷ []) refl (omega arith)

abbrev numbered : ℕ → Frame
numbered c = record {
  counter = c;
  data_ = replicate 512 7;
  null_bytes = replicate 64 0;
  checksum = 5;
}

abbrev storage : RingBuffer Frame
storage = record { r_head = none; w_head = none; m_buffer = replicate 512 (numbered 0) }

abbrev fresh : TcpServer
fresh = record { paket_counter = 0; missed = []; ring = RingBuffer.init storage }

-- Two channels of two samples each, out of the first four samples of the frame.
writer_entries_run :
    writer_entries 2 2 (5 ∷ 6 ∷ 7 ∷ 8 ∷ 9 ∷ [])
    ≡ some (block_entry 2 (5 ∷ 6 ∷ []) ∷ block_entry 2 (7 ∷ 8 ∷ []) ∷ [])
unfolding writer_entries blocks read_block collect
writer_entries_run = refl
