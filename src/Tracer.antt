-- ===== src/Tracer.antt =====
-- app/utils/stack-tracer.cpp: the handler of SIGSEGV. What it prints is a list of lines; what `backtrace` and
-- `backtrace_symbols` answer is a parameter, and `none` is an access through a null pointer or outside an array.
mod Tests
use Prim.Native.String.{String}
use recd.Common.{
  ℕ, zero, suc, ◌+◌, ◌≡◌, ◌≤◌, refl, ap, ◌∙◌, Bool, true, false, Option, none, some, List, [], ◌∷◌,
  ◌++◌, length, get_elem?, get_elem?-at, if◌then◌else◌, ◌>>=◌, collect, append_assoc, length-append,
  sym, arith,
}

pub data Line : Type 0 where
  caught : ℕ → Line
  begins : Line
  returned : ℕ → Line
  symbol : String → Line
  ends : Line

-- `m_isOnetime`, how often the handler has been registered, `p_filename`, and what is in that file and on stderr.
pub record Tracer : Type 0 where
  pub is_onetime : Bool
  pub registered : ℕ
  pub filename : Option String
  pub log : List Line
  pub stderr : List Line

-- The static members, and the constructor, which keeps the name unless it is null.
abbrev pub static_tracer : Tracer
static_tracer = record {
  is_onetime = false;
  registered = 0;
  filename = none;
  log = [];
  stderr = [];
}

unfoldable pub construct : Option String → Tracer → Tracer
construct none t = t
construct (some fname) t = record t { filename = some fname }

unfoldable pub init : Tracer → Tracer × Bool
init t =
    let t' = record t { is_onetime = true; registered = t.registered + 1 } in
    let after = if t.is_onetime then t else t' in (after, after.is_onetime)

-- The answer of `backtrace_symbols`, null if there is no memory for it.
abbrev pub symbol_at : Option (List String) → ℕ → Option Line
symbol_at none i = none
symbol_at (some strings) i = get_elem? strings i >>= λ s. some (symbol s)

unfoldable pub trace : ℕ → ℕ → Option (List String) → Option (List Line)
trace sig nptrs strings = collect nptrs 0 (symbol_at strings) >>= λ ls.
    some (caught sig ∷ begins ∷ returned nptrs ∷ ls ++ (ends ∷ []))

-- The handler, with whether the file can be opened.
unfoldable pub signal_handler : Bool → ℕ → ℕ → Option (List String) → Tracer → Option Tracer
signal_handler opens sig nptrs strings t =
    let ls = trace sig nptrs strings in
    elim t.filename [
      | none ↦ ls >>= λ l. some (record t { stderr = t.stderr ++ l })
      | some fname ↦ if opens then (ls >>= λ l. some (record t { log = t.log ++ l })) else some t
    ]

-- A reader of the file: the lines of one signal, and the rest.
unfoldable pub read_symbols : ℕ → List Line → Option (List String × List Line)
read_symbols zero ls = some ([], ls)
read_symbols (suc n) (symbol s ∷ ls) = read_symbols n ls >>= λ (ss, rest). some (s ∷ ss, rest)
read_symbols (suc n) ls = none

abbrev after_end : ℕ → List String → List Line → Option (ℕ × List String × List Line)
after_end sig ss (ends ∷ rest) = some (sig, ss, rest)
after_end sig ss ls = none

unfoldable pub read_trace : List Line → Option (ℕ × List String × List Line)
read_trace (caught sig ∷ begins ∷ returned n ∷ ls) =
    read_symbols n ls >>= λ (ss, rest). after_end sig ss rest
read_trace ls = none

abbrev symbols : List String → List Line
symbols [] = []
symbols (s ∷ ss) = symbol s ∷ symbols ss

-- The loop over all symbols from `i` on.
collect-symbols :
    (done ss : List String)
    → collect (length ss) (length done) (symbol_at (some (done ++ ss))) ≡ some (symbols ss)
unfolding collect
collect-symbols done [] = refl
collect-symbols done (s ∷ ss) = rw (get_elem?-at done ss s) (
    ap (λ o. o >>= λ ls. some (symbol s ∷ ls))
      (ap (λ l. collect (length ss) (length done + 1) (symbol_at (some l)))
          (sym (append_assoc done (s ∷ []) ss))
        ∙ ap (λ n. collect (length ss) n (symbol_at (some ((done ++ (s ∷ [])) ++ ss))))
            {x = length done + 1} {y = length (done ++ (s ∷ []))}
            (omega (arith, length-append done (s ∷ [])))
        ∙ collect-symbols (done ++ (s ∷ [])) ss))

read_symbols-symbols :
    (ss : List String) (rest : List Line)
    → read_symbols (length ss) (symbols ss ++ rest) ≡ some (ss, rest)
unfolding read_symbols
read_symbols-symbols [] rest = refl
read_symbols-symbols (s ∷ ss) rest = rw (read_symbols-symbols ss rest) refl

-- Where the file can be opened and `backtrace_symbols` has a text for each function of the stack, the handler succeeds and
-- appends to the file what the reader takes for the signal and for all these texts, in order, whatever follows; nothing
-- is written to stderr.
pub read_trace-signal_handler :
    (sig : ℕ) (strings : List String) (fname : String) (t : Tracer) (more : List Line)
    → t.filename ≡ some fname
    → (t' : Tracer) × (ls : List Line) × (signal_handler true sig (length strings) (some strings) t
        ≡ some t')
      × (t'.log ≡ t.log ++ ls)
      × (read_trace (ls ++ more) ≡ some (sig, strings, more))
      × (t'.stderr ≡ t.stderr)
unfolding signal_handler trace read_trace
read_trace-signal_handler sig strings fname t more f = (
  record t {
    log =
        t.log ++ (caught sig ∷ begins ∷ returned (length strings) ∷ symbols strings ++ (ends ∷ []));
  },
  caught sig ∷ begins ∷ returned (length strings) ∷ symbols strings ++ (ends ∷ []),
  rw (f, collect-symbols [] strings) refl,
  refl,
  rw (append_assoc (symbols strings) (ends ∷ []) more, read_symbols-symbols strings (ends ∷ more))
      refl,
  refl,
)

-- However often it is called, `init` registers the handler once.
pub init_once : (t : Tracer) → t.is_onetime ≡ false → init (init t).0 ≡ ((init t).0, true)
unfolding init
init_once t h = ground (arith, h)
