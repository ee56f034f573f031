-- ===== src/SpinLock.antt =====
-- utils::SpinLock of utils/thread.cpp: the lock's owner and count, and the steps of threads that call `tryLock` and
-- `unlock`. Only `__sync_bool_compare_and_swap` is atomic, so each access of the two fields is a step of its own.
pub mod Exclusion
mod Tests
use recd.Common.{at, ℕ, zero, suc, ◌+◌, ◌-◌, ◌%◌, ◌^◌, ◌<◌, ◌≡◌, ◌≢◌, Bool, true, false}

-- Where a thread is: in neither call, in `tryLock` with the lock but before `m_lckCount++`, or in `unlock` before
-- `m_lckCount--` and before the test of the count.
pub data Place : Type 0 where
  outside counting leaving testing : Place

-- `held` counts for each thread its calls of `tryLock` that succeeded, less its calls of `unlock`.
pub record Lock : Type 0 where
  pub thread_id : ℕ
  pub lck_count : ℕ
  pub place : ℕ → Place
  pub held : ℕ → ℕ

-- The constructor, with a `threadId` that is 0.
abbrev pub unlocked : Lock
unlocked = record { thread_id = 0; lck_count = 0; place = λ t. outside; held = λ t. 0 }

-- One step of the thread with the id `t`, which is not 0; a call that fails changes nothing.
pub data Step (t : ℕ) : Lock → Lock → Type 0 where
  -- `m_atomicVar.threadId == t`
  own :
      (s : Lock)
      → s.place t ≡ outside
      → s.thread_id ≡ t
      → Step t s (record s { place = at s.place t counting })
  -- `__sync_bool_compare_and_swap(&threadId, 0, t)`
  take_free :
      (s : Lock)
      → s.place t ≡ outside
      → s.thread_id ≡ 0
      → Step t s (record s { thread_id = t; place = at s.place t counting })
  -- `m_lckCount++`, and `tryLock` returns true. A thread takes the lock less than 2 ^ 32 times without giving it back.
  count_up :
      (s : Lock)
      → s.place t ≡ counting
      → s.lck_count + 1 < 2 ^ 32
      → Step t s (record s {
        lck_count = (s.lck_count + 1) % 2 ^ 32;
        place = at s.place t outside;
        held = at s.held t (s.held t + 1);
      })
  -- `unlock` by a thread that holds the lock passes the test of the owner.
  start_unlock :
      (s : Lock)
      → s.place t ≡ outside
      → s.held t ≢ 0
      → s.thread_id ≡ t
      → Step t s (record s { place = at s.place t leaving; held = at s.held t (s.held t - 1) })
  -- `m_lckCount--`
  count_down :
      (s : Lock)
      → s.place t ≡ leaving
      → Step t s (record s {
        lck_count = (s.lck_count + 2 ^ 32 - 1) % 2 ^ 32;
        place = at s.place t testing;
      })
  -- `m_lckCount != 0`
  still_held :
      (s : Lock)
      → s.place t ≡ testing
      → s.lck_count ≢ 0
      → Step t s (record s { place = at s.place t outside })
  -- `__sync_bool_compare_and_swap(&threadId, t, 0)`
  release :
      (s : Lock)
      → s.place t ≡ testing
      → s.lck_count ≡ 0
      → s.thread_id ≡ t
      → Step t s (record s { thread_id = 0; place = at s.place t outside })

-- Any interleaving of such steps.
pub data Steps : Lock → Lock → Type 0 where
  done : (s : Lock) → Steps s s
  more : (s s' s'' : Lock) (t : ℕ) → t ≢ 0 → Steps s s' → Step t s' s'' → Steps s s''
