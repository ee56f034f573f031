-- ===== src/Producer.antt =====
-- test-producer/test-producer.cpp: the plugin that plays the samples of the file "test.wav". The memory of `struct SMPL` is a
-- list of bytes, 44 of the header and two for each sample; `none` is an access outside an array.
pub mod Plays
mod Tests
use recd.Common.{
  ℕ, zero, suc, ◌+◌, ◌*◌, Bool, true, false, Option, none, some, List, [], ◌∷◌, ◌++◌, length, take,
  drop, get_elem?, if◌then◌else◌, ltb, ◌>>=◌, collect,
}

pub record Producer : Type 0 where
  pub is_running : Bool
  pub samples : List ℕ

-- `sample_data_t` as the worker makes it: `none` is a pointer to an array that is gone.
pub record Played : Type 0 where
  pub signal : ℕ
  pub samples : Option (List ℕ)
  pub size : ℕ

-- `data[i]`: a short, its low byte first, here as a number below 2 ^ 16.
unfoldable pub sample : List ℕ → ℕ → Option ℕ
sample samples i = get_elem? (drop 44 samples) (2 * i) >>= λ lo.
    get_elem? (drop 44 samples) (suc (2 * i)) >>= λ hi. some (lo + 256 * hi)

module _ (SMPL_SIZE : ℕ) where
  -- `init`, with the bytes of the file, `none` if it cannot be opened. What the file does not reach of `samples` stays.
  unfoldable pub init : Option (List ℕ) → Producer → Producer
  init none p = p
  init (some file) p =
      let r = take (44 + 2 * SMPL_SIZE) file in
      record { is_running = true; samples = r ++ drop (length r) p.samples }

  abbrev pub deinit : Producer → Producer
  deinit p = record p { is_running = false }

  -- The loop over `i`, on fuel, with the loop over `j`, which reads 16 samples into the array `smpl`. That array is local to
  -- the round, and the entry's pointer to it is dead when the round is over.
  unfoldable pub entries : ℕ → List ℕ → ℕ → Option (List Played)
  entries zero samples i = none
  entries (suc n) samples i =
      let more = collect 16 i (sample samples) >>= λ smpl. entries n samples (i + 16) >>= λ ls.
      some (record { signal = 0; samples = none; size = 16 } ∷ ls) in
      if ltb i SMPL_SIZE then more else some []

  -- `put_data`: what the call leaves in the list.
  abbrev pub put_data : Option (List Played → List Played) → List Played → List Played
  put_data none ls = []
  put_data (some next) ls = next ls

  -- The worker, with what it finds in `isRunning` before each round, up to the first false: the lists that it puts.
  unfoldable pub worker : List Bool → Producer → Option (List (List Played))
  worker [] p = some []
  worker (false ∷ runs) p = some []
  worker (true ∷ runs) p =
      entries (suc SMPL_SIZE) p.samples 0 >>= λ ls. worker runs p >>= λ rest. some (ls ∷ rest)
