-- ===== src/Threads/Tests.antt =====
-- Runs of the semaphore and of the thread object, and their theorems at small inputs.
use recd.Common.{at, ℕ, ◌+◌, ◌*◌, ◌≡◌, ◌≤◌, ◌<◌, refl, arith, true, some, [], ◌∷◌}
use recd.Common.Int.{pos, negsuc}
use mathlib.Core.Option
use recd.Threads.{
  outside, blocked, woken, signalling, Semaphore, new_semaphore, Step, post_blocks, wait_first,
  wait_more, signal_wakes, woken_takes, Steps, done, more, StepsOf, done_of, more_of,
}
use recd.Recorder.{int_text}
use recd.Threads.Wakeup.{count-Steps, wakes_sleeper}
use recd.Threads.Create.{
  new_thread, default_name, chosen_stack, chosen_priority, create_thread, set_thread_name, strlen,
  has_zero, is_some, chosen_bounds, create_thread-set_thread_name,
}

-- Thread 1 sleeps in `post`.
abbrev sleeps : Semaphore
sleeps = record new_semaphore { place = at new_semaphore.place 1 blocked }

-- Thread 2 has called `wait`, and is about to signal.
abbrev tells : Semaphore
tells = record { count = 1; place = at sleeps.place 2 signalling; taken = 0; given = 1 }

sleeps_steps : Steps new_semaphore sleeps
sleeps_steps = more _ _ _ 1 (done new_semaphore) (post_blocks new_semaphore refl refl)

tells_steps : Steps new_semaphore tells
tells_steps = more _ _ _ 2 sleeps_steps (wait_first sleeps refl refl)

count-Steps_applied : tells.taken + tells.count ≡ tells.given
count-Steps_applied = count-Steps tells tells_steps

tells-StepsOf : StepsOf 1 new_semaphore tells
tells-StepsOf =
    more_of _ _ _ 2
      (more_of _ _ _ 1 (done_of new_semaphore) (post_blocks new_semaphore refl refl) (λ e. refl))
      (wait_first sleeps refl refl) (λ e. absurd cc)

wakes_sleeper_example :
    (t : ℕ) × (s' : Semaphore) × (tells.place t ≡ signalling)
    × Step t tells s'
    × (s'.place 1 ≡ woken)
wakes_sleeper_example = wakes_sleeper 1 tells tells-StepsOf refl (λ e. cc)

chosen_bounds_applied :
    (chosen_stack 8192 20000 ≡ 8192)
    × (8192 ≤ chosen_stack 8192 20000)
    × (chosen_stack 8192 20000 < 2 * 8192)
    × (chosen_priority (negsuc 4) ≤ 20)
chosen_bounds_applied = chosen_bounds 8192 20000 (negsuc 4) (omega arith) (omega arith)

create_thread-set_thread_name_applied :
    (strlen (set_thread_name (65 ∷ 66 ∷ []) new_thread).name ≡ some 2)
    × (is_some (create_thread 8192 10000 (pos 5) 3 (set_thread_name (65 ∷ 66 ∷ []) new_thread))
        ≡ true)
unfolding has_zero
create_thread-set_thread_name_applied =
    create_thread-set_thread_name (65 ∷ 66 ∷ []) 8192 10000 (pos 5) 3 new_thread refl

-- A thread without a name gets "Thread-3".
default_name_run :
    Option.map (λ th. strlen th.name) (create_thread 8192 10000 (pos 5) 3 new_thread)
    ≡ some (some 8)
unfolding create_thread strlen default_name int_text
default_name_run = refl

-- With two sleepers a wakeup is lost: the threads 1 and 3 sleep, two calls of `wait` make one signal, and when thread 1
-- has taken its part the thread 3 sleeps on, though the count is 1 and nobody is inside a call.
abbrev both_sleep : Semaphore
both_sleep = record sleeps { place = at sleeps.place 3 blocked }

abbrev one_given : Semaphore
one_given = record { count = 1; place = at both_sleep.place 2 signalling; taken = 0; given = 1 }

abbrev two_given : Semaphore
two_given = record one_given { count = 2; given = 2 }

abbrev one_woken : Semaphore
one_woken = record two_given { place = at (at two_given.place 1 woken) 2 outside }

abbrev one_taken : Semaphore
one_taken = record one_woken { count = 1; place = at one_woken.place 1 outside; taken = 1 }

lost_steps : Steps new_semaphore one_taken
lost_steps =
    more _ one_woken _ 1
      (more _ two_given _ 2
        (more _ one_given _ 4
          (more _ both_sleep _ 2 (more _ sleeps _ 3 sleeps_steps (post_blocks sleeps refl refl))
            (wait_first both_sleep refl refl))
          (wait_more one_given refl (λ e. cc) (omega arith)))
        (signal_wakes two_given 1 refl refl))
      (woken_takes one_woken refl (λ e. cc))

lost_run :
    (one_taken.place 3 ≡ blocked)
    × (one_taken.place 1 ≡ outside)
    × (one_taken.place 2 ≡ outside)
    × (one_taken.place 4 ≡ outside)
lost_run = (refl, refl, refl, refl)
