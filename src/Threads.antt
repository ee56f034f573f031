-- ===== src/Threads.antt =====
-- The rest of utils/thread.cpp: the semaphore `BSemaphore`, as the steps of threads that interleave; the thread object
-- `PThread` is in Threads/Create. `post` takes and `wait` gives: `post` sleeps while the count is 0.
pub mod Wakeup
pub mod Create
mod Tests
use recd.Common.{at, ℕ, suc, ◌+◌, ◌-◌, ◌^◌, ◌<◌, ◌≡◌, ◌≢◌}

-- Where a thread is: in no call, in `pthread_cond_wait`, woken but without the mutex, or in `wait` behind `Unlock` where
-- the old count was 0.
pub data Place : Type 0 where
  outside blocked woken signalling : Place

-- `taken` and `given` count the calls of `post` and of `wait` that have passed the mutex.
pub record Semaphore : Type 0 where
  pub count : ℕ
  pub place : ℕ → Place
  pub taken : ℕ
  pub given : ℕ

abbrev pub new_semaphore : Semaphore
new_semaphore = record { count = 0; place = λ t. outside; taken = 0; given = 0 }

-- One step of the thread `t`. What stands between `Lock` and `Unlock` or a sleep is one step, under the mutex.
pub data Step (t : ℕ) : Semaphore → Semaphore → Type 0 where
  -- `post` with a count that is not 0: `m_count--`
  post_takes :
      (s : Semaphore)
      → s.place t ≡ outside
      → s.count ≢ 0
      → Step t s (record s { count = s.count - 1; taken = s.taken + 1 })
  -- `post` enters `pthread_cond_wait`, which gives the mutex back.
  post_blocks :
      (s : Semaphore)
      → s.place t ≡ outside
      → s.count ≡ 0
      → Step t s (record s { place = at s.place t blocked })
  -- The loop tests the count again.
  woken_takes :
      (s : Semaphore)
      → s.place t ≡ woken
      → s.count ≢ 0
      → Step t s
          (record s { count = s.count - 1; place = at s.place t outside; taken = s.taken + 1 })
  woken_blocks :
      (s : Semaphore)
      → s.place t ≡ woken
      → s.count ≡ 0
      → Step t s (record s { place = at s.place t blocked })
  -- `wait`, with an old count of 0
  wait_first :
      (s : Semaphore)
      → s.place t ≡ outside
      → s.count ≡ 0
      → Step t s (record s { count = 1; place = at s.place t signalling; given = s.given + 1 })
  -- `wait`, with another old count: nobody is told. The count stays in an `int`.
  wait_more :
      (s : Semaphore)
      → s.place t ≡ outside
      → s.count ≢ 0
      → s.count + 1 < 2 ^ 31
      → Step t s (record s { count = s.count + 1; given = s.given + 1 })
  -- `pthread_cond_signal` wakes one thread that sleeps, if there is one.
  signal_wakes :
      (s : Semaphore) (u : ℕ)
      → s.place t ≡ signalling
      → s.place u ≡ blocked
      → Step t s (record s { place = at (at s.place u woken) t outside })
  signal_wakes_none :
      (s : Semaphore)
      → s.place t ≡ signalling
      → ((u : ℕ) → s.place u ≢ blocked)
      → Step t s (record s { place = at s.place t outside })
  -- `pthread_cond_wait` may also return without a signal.
  wakes_up :
      (s : Semaphore) → s.place t ≡ blocked → Step t s (record s { place = at s.place t woken })

-- Any interleaving of such steps.
pub data Steps : Semaphore → Semaphore → Type 0 where
  done : (s : Semaphore) → Steps s s
  more : (s s' s'' : Semaphore) (t : ℕ) → Steps s s' → Step t s' s'' → Steps s s''

-- The same where only the thread `c` ever goes to sleep.
pub data StepsOf (c : ℕ) : Semaphore → Semaphore → Type 0 where
  done_of : (s : Semaphore) → StepsOf c s s
  more_of :
      (s s' s'' : Semaphore) (t : ℕ)
      → StepsOf c s s'
      → Step t s' s''
      → (s''.place t ≡ blocked → t ≡ c)
      → StepsOf c s s''
