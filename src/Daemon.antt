-- ===== src/Daemon.antt =====
-- app/unix/daemon.cpp: the signal handlers and the decisions of `daemonize`. What the system calls answer is a parameter.
pub mod Handlers
pub mod Log
mod Tests
use recd.Common.{
  ℕ, zero, suc, ◌+◌, Bool, true, false, ◌||◌, ◌==◌, if◌then◌else◌, Option, none, some, List, [],
  ◌∷◌, at, ltb, ◌>>=◌,
}

-- The handlers that the program has: nullptr, which is SIG_DFL, and `testSig`.
pub data Handler : Type 0 where
  default_handler test_sig : Handler

-- `table` is `s_signals`, `handlers` what the system does on a signal, `has_app` whether `g_application` is set.
pub record Signals : Type 0 where
  pub table : ℕ → Handler
  pub handlers : ℕ → Handler
  pub has_app : Bool

abbrev pub no_handlers : Signals
no_handlers = record {
  table = λ i. default_handler;
  handlers = λ i. default_handler;
  has_app = false;
}

-- `sigaction` takes over the table's entry of a signal that it lets change.
unfoldable pub sigaction : (ℕ → Bool) → ℕ → Signals → Signals
sigaction may_change i s =
    if may_change i then record s { handlers = at s.handlers i (s.table i) } else s

-- `attachSignalHandler`, SIGHUP being 1; `none` is `exit(3)`.
unfoldable pub attach_signal_handler : (ℕ → Bool) → Handler → ℕ → Signals → Option Signals
attach_signal_handler may_change hnd slot s =
    let s' = record s { table = at s.table slot hnd } in
    if ltb slot 1 || ltb 31 slot
    then some s
    else if may_change 1
    then some (sigaction may_change slot (sigaction may_change 1 s'))
    else none

-- The loop of `registerAppData`, from the slot `i` on with `n` rounds left.
unfoldable pub attach_all : (ℕ → Bool) → ℕ → ℕ → Signals → Option Signals
attach_all may_change zero i s = some s
attach_all may_change (suc n) i s =
    attach_signal_handler may_change test_sig i s >>= λ s'. attach_all may_change n (i + 1) s'

unfoldable pub register_app_data : (ℕ → Bool) → Bool → Signals → Option Signals
register_app_data may_change has_data s =
    attach_all may_change 31 1 (if has_data then record s { has_app = true } else s)

-- The answers of the system calls of `daemonize`: whether `getrlimit`, `setsid` and `chdir` succeed, whether the parent is
-- process 1, what each `fork` gives, and whether the file "/dev/nullptr" can be opened.
pub data Fork : Type 0 where
  no_fork is_parent is_child : Fork

pub record System : Type 0 where
  pub getrlimit_ok : Bool
  pub parent_is_init : Bool
  pub first_fork : Fork
  pub setsid_ok : Bool
  pub second_fork : Fork
  pub chdir_ok : Bool
  pub null_opens : Bool

-- How `daemonize` ends: the process exits, it returns at once, or it returns as a daemon with as many descriptors.
pub data Outcome : Type 0 where
  exits : ℕ → Outcome
  stays : Outcome
  daemon : ℕ → Outcome

-- All descriptors are closed; the first one opened is 0, of which the others are copies.
unfoldable pub null_files : Bool → ℕ
null_files true = 3
null_files false = 0

unfoldable pub after_setsid : System → Outcome
after_setsid s = elim s.second_fork [
  | no_fork ↦ exits 3
  | is_parent ↦ exits 0
  | is_child ↦ if s.chdir_ok then daemon (null_files s.null_opens) else exits 3
]

unfoldable pub after_limit : System → Outcome
after_limit s = elim s.first_fork [
  | no_fork ↦ exits 1
  | is_parent ↦ exits 0
  | is_child ↦ if s.setsid_ok then after_setsid s else exits 1
]

unfoldable pub daemonize : System → Outcome
daemonize s =
    if s.getrlimit_ok then (if s.parent_is_init then stays else after_limit s) else exits 3
