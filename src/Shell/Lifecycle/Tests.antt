-- ===== src/Shell/Lifecycle/Tests.antt =====
-- A program with two plugins, through all of its parts.
use Prim.Native.String.{String}
use text.Mathlib.Text.{◌==◌ as str_eq}
use recd.Common.{
  ℕ, zero, suc, true, false, Option, none, some, List, [], ◌∷◌, if◌then◌else◌, replicate,
}
use mathlib.Core.Option
use recd.Config.{MPair, PairList, Element}
use recd.Config.Shared.{Store, empty_pair}
use recd.Chain.Proxy.{main_proxy, p_main}
use recd.Server.{Server, no_conn}
use recd.Server.Transport.{Transport, Outcome, started, exits as exits_1, init_transport}
use recd.Plugins.{Library, Ending, returns, exits_with, plugin, not_loaded}
use recd.Plugins.Requests.{Entry, attributes}
use recd.Shell.Lifecycle.{exits}

abbrev libs : String → Library
libs src =
    if str_eq src "librec.so"
    then plugin 0
    else if str_eq src "libudp.so"
    then plugin 1
    else not_loaded

abbrev attr : String → String → MPair
attr name val = record { type1 = name; type2 = val }

abbrev entry : String → String → Entry
entry name src = record {
  name_attr = attr "name" name;
  second = attr "order" "1";
  third = attr "enabled" "true";
  path_attr = attr "path" src;
  more = [];
}

abbrev entries : List Entry
entries = entry "udp" "libudp.so" ∷ entry "recorder" "librec.so" ∷ []

abbrev network : PairList
network = attr "transport" "udp" ∷ attr "port" "1234" ∷ []

abbrev document : List Element
document =
    record { name = "Network"; attributes = network }
    ∷ record { name = "Plugin"; attributes = attributes entries }
    ∷ []

abbrev files : String → Option (List Element)
files name = if str_eq name "recd.xml" then some document else none

abbrev to_int : String → Option ℕ
to_int s = if str_eq s "1234" then some 1234 else none

abbrev server : Server
server = record {
  conn_info = no_conn;
  monitor_data = [];
  channels = 1;
  smpl_per_chan = 16;
  single_file = false;
  peek_on = false;
  helper_buffer = [];
  err_udp = replicate 512 0;
  delivered = [];
  messages = [];
}

abbrev transport : Transport
transport = record {
  port = 1234;
  udp = false;
  live_connection = false;
  helper_running = false;
  tcp_scheduled = false;
  tcp_server = none;
}

-- `main_proxy` of the recorder and of the UDP server.
abbrev mains : List String → ℕ → Store → Option Ending
mains args zero st = some (returns (record st { tags = (main_proxy files args st.tags).1 }))
mains args (suc zero) st = some (returns (record st { tags = (p_main files args st.tags).1 }))
mains args (suc (suc a)) st = none

abbrev ending : Outcome → Ending
ending (started s t st) = returns st
ending exits_1 = exits_with 1

-- `init` of the UDP server, as far as it reads the transport; the recorder's leaves the configuration.
abbrev inits : ℕ → Store → Option Ending
inits zero st = some (returns st)
inits (suc zero) st = Option.map ending (init_transport to_int (λ n. true) server transport st)
inits (suc (suc a)) st = none

abbrev fresh : Store
fresh = record { tags = []; none_pair = empty_pair }

abbrev loaded : Store
loaded = record fresh { tags = ("Network", network) ∷ ("Plugin", attributes entries) ∷ [] }

-- The configuration names no transport.
abbrev bare : List Element
bare = record { name = "Plugin"; attributes = attributes entries } ∷ []

abbrev bare_files : String → Option (List Element)
bare_files name = if str_eq name "recd.xml" then some bare else none

abbrev bare_mains : List String → ℕ → Store → Option Ending
bare_mains args zero st =
    some (returns (record st { tags = (main_proxy bare_files args st.tags).1 }))
bare_mains args (suc zero) st =
    some (returns (record st { tags = (p_main bare_files args st.tags).1 }))
bare_mains args (suc (suc a)) st = none

abbrev bare_loaded : Store
bare_loaded = record fresh { tags = ("Plugin", attributes entries) ∷ [] }
