-- ===== src/TcpServer/InOrder.antt =====
-- Frames that are sent in order over the stream of udp-streamer/tcp-server.cpp are all queued.
use recd.Common.{
  ℕ, ◌+◌, ◌*◌, ◌/◌, ◌%◌, ◌^◌, ◌<◌, ◌≡◌, refl, sym, ap, ◌∙◌, Option, List, [], ◌∷◌, ◌++◌,
  append_assoc, arith, length, take, drop, length-append, take_append, drop_append, ◌>>=◌,
}
use recd.Frame.{Frame, IsFrame, counter_bytes, data_bytes}
use recd.RingBuffer.{RingBuffer}
use recd.RingBuffer
use recd.RingBuffer.Queue.{Op, run}
use recd.Server.{u32}
use recd.TcpServer.{Arrival, samples_of, frame_of, TcpServer}

-- The bytes of a frame, as they lie in the memory of the sender.
unfoldable pub frame_bytes : Frame → List ℕ
frame_bytes f =
    counter_bytes f.counter ++ (data_bytes f.data_ ++ (f.null_bytes ++ (f.checksum ∷ [])))

samples_of-data_bytes : (ss : List ℕ) → samples_of (data_bytes ss) ≡ ss
unfolding samples_of
samples_of-data_bytes [] = refl
samples_of-data_bytes (s ∷ ss) = rw (samples_of-data_bytes ss) (ap (λ k. k ∷ ss) (omega arith))

pub length-data_bytes : (ss : List ℕ) → length (data_bytes ss) ≡ 2 * length ss
length-data_bytes [] = refl
length-data_bytes (s ∷ ss) = omega (arith, length-data_bytes ss)

counter_of :
    (c : ℕ)
    → c < 2 ^ 32
    → c % 256 + 256 * (c / 256 % 256) + 65536 * (c / 65536 % 256) + 16777216 * (c / 16777216 % 256)
      ≡ c
counter_of c h = omega arith

module _ (f : Frame) (v : IsFrame f) where
  abbrev data_part : List ℕ
  data_part = data_bytes f.data_

  data_length : 1024 ≡ length data_part
  data_length = omega (arith, length-data_bytes f.data_, v.samples)

  take_data : take 1024 (data_part ++ (f.null_bytes ++ (f.checksum ∷ []))) ≡ data_part
  take_data = take_append 1024 data_part _ data_length

  take_nulls : take 64 (drop 1024 (data_part ++ (f.null_bytes ++ (f.checksum ∷ [])))) ≡ f.null_bytes
  take_nulls =
      ap (take 64) (drop_append 1024 data_part _ data_length)
      ∙ take_append 64 f.null_bytes _ (sym v.nulls)

  drop_nulls : drop 1088 (data_part ++ (f.null_bytes ++ (f.checksum ∷ []))) ≡ f.checksum ∷ []
  drop_nulls =
      ap (drop 1088) (sym (append_assoc data_part f.null_bytes (f.checksum ∷ [])))
      ∙ drop_append 1088 (data_part ++ f.null_bytes) (f.checksum ∷ [])
          (omega (arith, length-append data_part f.null_bytes, data_length, v.nulls))

  -- A frame that is sent as it lies in memory is the same frame where it arrives.
  pub frame_of-frame_bytes : frame_of (frame_bytes f) ≡ f
  unfolding frame_of frame_bytes
  frame_of-frame_bytes =
      rw
        (
          take_data,
          take_nulls,
          drop_nulls,
          samples_of-data_bytes f.data_,
          counter_of f.counter v.counter_u32,
        )
        refl

  pub length-frame_bytes : length (frame_bytes f) ≡ 1093
  unfolding frame_bytes
  length-frame_bytes = omega (
    arith,
    length-append data_part (f.null_bytes ++ (f.checksum ∷ [])),
    length-append f.null_bytes (f.checksum ∷ []),
    data_length,
    v.nulls,
  )

-- Each frame has the number behind the one before.
unfoldable pub IsNumbered : ℕ → List Frame → Type 0
IsNumbered c [] = Unit {0}
IsNumbered c (f ∷ fs) = (f.counter ≡ u32 (c + 1)) × IsFrame f × IsNumbered f.counter fs

-- What a reader of the ring buffer sees later.
abbrev pub seen : List (Op Frame) → Option (TcpServer × List Arrival) → Option (List (Option Frame))
seen ops o = o >>= λ (s, rest). run 512 s.ring ops
