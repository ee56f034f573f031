-- ===== src/SpinLock/Tests.antt =====
-- One thread takes the lock once.
use recd.Common.{at, ℕ, ◌≡◌, refl, arith}
use recd.SpinLock.{outside, counting, Lock, unlocked, take_free, count_up, Steps, done, more}
use recd.SpinLock.Exclusion.{held-Steps}

abbrev worker : ℕ
worker = 7

abbrev taking : Lock
taking = record unlocked { thread_id = 7; place = at unlocked.place 7 counting }

abbrev locked : Lock
locked = record taking {
  lck_count = 1;
  place = at taking.place 7 outside;
  held = at taking.held 7 1;
}

run : Steps unlocked locked
run =
    more unlocked taking locked 7 (λ e. absurd (omega (arith, e)))
      (more unlocked unlocked taking 7 (λ e. absurd (omega (arith, e))) (done unlocked)
        (take_free unlocked refl refl))
      (count_up taking refl (omega arith))

held-Steps_example : (worker ≡ worker) × (locked.thread_id ≡ worker) × (locked.lck_count ≡ 1)
held-Steps_example =
    held-Steps locked worker worker run (λ e. absurd (omega (arith, e)))
      (λ e. absurd (omega (arith, e)))
