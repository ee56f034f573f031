-- ===== src/Plugins/Twice.antt =====
-- A library that app/plugin-manager.cpp loads a second time.
use Prim.Native.String.{String}
use recd.Plugins.{Plugins}
