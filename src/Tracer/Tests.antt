-- ===== src/Tracer/Tests.antt =====
-- A stack of two functions printed and read back.
use recd.Common.{collect, ◌≡◌, refl, true, false, none, some, List, [], ◌∷◌, ◌++◌}
use recd.Tracer.{
  Tracer, Line, static_tracer, construct, init, signal_handler, trace, read_trace,
  read_trace-signal_handler,
}

abbrev booted : Tracer
booted = record static_tracer {
  is_onetime = true;
  registered = 1;
  filename = some "/tmp/radis-ui-crash.log";
}

boot_run : init (construct (some "/tmp/radis-ui-crash.log") static_tracer) ≡ (booted, true)
unfolding init construct
boot_run = refl

-- Without memory for the texts.
no_memory : signal_handler true 11 2 none booted ≡ none
unfolding signal_handler trace collect
no_memory = refl

not_opened : signal_handler false 11 2 none booted ≡ some booted
unfolding signal_handler
not_opened = refl

read_trace-signal_handler_applied :
    (t' : Tracer) × (ls : List Line) × (signal_handler true 11 2
        (some ("main" ∷ "_start" ∷ []))
        booted
      ≡ some t')
    × (t'.log ≡ ls)
    × (read_trace (ls ++ []) ≡ some (11, "main" ∷ "_start" ∷ [], []))
    × (t'.stderr ≡ [])
read_trace-signal_handler_applied =
    read_trace-signal_handler 11 ("main" ∷ "_start" ∷ []) "/tmp/radis-ui-crash.log" booted [] refl
