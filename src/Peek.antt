-- ===== src/Peek.antt =====
-- udp-streamer/helper.cpp: `plugin::udp::Helper`, which looks for the loudest sample of each channel. An int16_t is its
-- 16-bit pattern. `none` is an access outside an array or to an element that is not there.
pub mod Loudest
mod Tests
use recd.Common.{
  ℕ, zero, suc, ◌+◌, ◌-◌, ◌*◌, ◌%◌, ◌^◌, ◌||◌, if◌then◌else◌, Option, none, some, List, [], ◌∷◌,
  ◌++◌, length, get_elem?, set, replicate, ltb, leb, ◌>>=◌,
}
use recd.Frame.{Frame}

pub record Helper : Type 0 where
  pub pack_size : ℕ
  pub peek_value : ℕ
  pub buffer : List Frame

-- The constructor.
abbrev pub new_helper : Helper
new_helper = record { pack_size = 0; peek_value = 0; buffer = [] }

unfoldable pub set_packet_size : ℕ → Helper → Helper
set_packet_size s h = record h { pack_size = s }

-- `abs(s)` as an `int`
unfoldable pub abs_i16 : ℕ → ℕ
abs_i16 s = if ltb s (2 ^ 15) then s else 2 ^ 16 - s

-- `if (m_peek < abs(s)) m_peek = abs(s);`, where a negative `m_peek` is less than any `abs`.
unfoldable pub louder : ℕ → ℕ → ℕ
louder p s = if leb (2 ^ 15) p || ltb p (abs_i16 s) then abs_i16 s % 2 ^ 16 else p

unfoldable pub loudest : ℕ → List ℕ → ℕ
loudest p [] = p
loudest p (s ∷ ss) = loudest (louder p s) ss

-- `peek`: the result and the helper. No samples give -1.
unfoldable pub peek : List ℕ → Helper → ℕ × Helper
peek [] h = (2 ^ 16 - 1, h)
peek (s ∷ ss) h =
    (loudest h.peek_value (s ∷ ss), record h { peek_value = loudest h.peek_value (s ∷ ss) })

-- The inner loop of `run` over `k`, from `k` on with `n` rounds left: `smpls[sindex++ % ssize]`, where `sindex` is `k`.
unfoldable pub copy_channel : ℕ → List ℕ → ℕ → ℕ → ℕ → List ℕ → Option (List ℕ)
copy_channel channels data_ j zero k smpls = some smpls
copy_channel channels data_ j (suc n) k smpls = get_elem? data_ (k * channels + j) >>= λ s.
    copy_channel channels data_ j n (k + 1) (set smpls (k % length smpls) s)

-- The loop over the channels, from `j` on: the array, the values for the channels, and the helper.
unfoldable pub peek_channels :
    ℕ → ℕ → List ℕ → ℕ → ℕ → List ℕ → List ℕ → Helper → Option (List ℕ × List ℕ × Helper)
peek_channels channels per data_ zero j smpls peeks h = some (smpls, peeks, h)
peek_channels channels per data_ (suc n) j smpls peeks h =
    copy_channel channels data_ j per 0 smpls >>= λ smpls'.
    let (value, h') = peek smpls' h in
    if ltb j (length peeks)
    then peek_channels channels per data_ n (j + 1) smpls' (set peeks j value)
        (record h' { peek_value = 0 })
    else none

unfoldable pub peek_frames :
    ℕ → ℕ → List Frame → List ℕ → List ℕ → Helper → Option (List ℕ × Helper)
peek_frames channels per [] smpls peeks h = some (peeks, h)
peek_frames channels per (f ∷ fs) smpls peeks h =
    peek_channels channels per f.data_ channels 0 smpls peeks h >>= λ (smpls', peeks', h').
    peek_frames channels per fs smpls' peeks' h'

-- `while (m_buffer.isEmpty()) dbl.append(m_buffer.takeFirst());`
unfoldable pub take_buffer : List Frame → List Frame → Option (List Frame × List Frame)
take_buffer [] dbl = none
take_buffer (f ∷ fs) dbl = some (f ∷ fs, dbl)

-- One round of `run`: `peeks` and `dbl` live as long as the thread, `junk` is what the new array has. The result has
-- the values that are printed, if any are.
unfoldable pub run_round :
    ℕ
    → ℕ
    → ℕ
    → (ℕ → List ℕ)
    → List ℕ
    → List Frame
    → Helper
    → Option (Option (List ℕ) × List Frame × Helper)
run_round channels per peek_size junk peeks dbl h = take_buffer h.buffer dbl >>= λ (buffer, dbl').
    let print =
      peek_frames channels per dbl' (junk (per * length dbl')) peeks (record h { buffer = buffer })
      >>= λ (peeks', h'). some (some peeks', [], h') in
    if ltb (length dbl') peek_size then some (none, dbl', record h { buffer = buffer }) else print
