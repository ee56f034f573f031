-- ===== src/Shell/Lifecycle/Exits.antt =====
-- A program whose start ends in a plugin's `exit`.
use Prim.Native.String.{String}
use text.Mathlib.Text.{◌==◌ as str_eq}
use recd.Common.{ℕ, List, [], ◌∷◌, ◌++◌, map}
use recd.Plugins.{Plugins, Call}

-- The calls of a round over the plugins up to one of them.
abbrev pub calls_to : (ℕ → Call) → List ℕ → ℕ → List Call
calls_to call front b = map call front ++ (call b ∷ [])
