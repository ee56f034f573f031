-- ===== src/Daemon/Tests.antt =====
-- Runs of the daemon, and its theorem at a system that keeps SIGKILL and SIGSTOP for itself.
use recd.Common.{ℕ, ◌≡◌, refl, arith, Bool, true, false, not, ◌||◌, ◌==◌, some, List, [], ◌∷◌}
use mathlib.Core.Option
use recd.Daemon.{
  test_sig, default_handler, Signals, no_handlers, register_app_data, attach_all,
  attach_signal_handler, sigaction, System, is_parent, is_child, no_fork, exits, daemon, daemonize,
  after_limit, after_setsid, null_files,
}
use recd.Daemon.Handlers.{register_app_data_lem}
use recd.Daemon.Log.{Log, Message, contents, log_messages, log_messages_lem}

abbrev linux : ℕ → Bool
linux i = not (i == 9 || i == 19)

register_app_data_lem_applied :
    (s : Signals) × (register_app_data linux true no_handlers ≡ some s) × (s.handlers 15 ≡ test_sig)
register_app_data_lem_applied =
    register_app_data_lem linux true 15 refl (omega arith) (omega arith) refl

kill_run :
    Option.map (λ s. s.handlers 9) (register_app_data linux true no_handlers) ≡ some default_handler
unfolding register_app_data attach_all attach_signal_handler sigaction
kill_run = refl

abbrev healthy : System
healthy = record {
  getrlimit_ok = true;
  parent_is_init = false;
  first_fork = is_child;
  setsid_ok = true;
  second_fork = is_child;
  chdir_ok = true;
  null_opens = false;
}

-- There is no file "/dev/nullptr": the daemon has no descriptors left.
daemonize_run :
    (daemonize healthy ≡ daemon 0)
    × (daemonize (record healthy { first_fork = is_parent }) ≡ exits 0)
    × (daemonize (record healthy { second_fork = no_fork }) ≡ exits 3)
unfolding daemonize after_limit after_setsid null_files
daemonize_run = (refl, refl, refl)

abbrev old_file : Log
old_file = record { flushed = false; file = some (1 ∷ 2 ∷ []) }

abbrev said : Bool → List ℕ → Message
said opens bytes = record { opens_first = true; opens = opens; bytes = bytes }

log_messages_lem_applied :
    contents
      (log_messages
        (said true (3 ∷ []) ∷ said false (4 ∷ []) ∷ said true (5 ∷ []) ∷ [])
        old_file).file
    ≡ 3 ∷ 5 ∷ []
log_messages_lem_applied =
    log_messages_lem (said true (3 ∷ [])) (said false (4 ∷ []) ∷ said true (5 ∷ []) ∷ []) old_file
      refl refl
