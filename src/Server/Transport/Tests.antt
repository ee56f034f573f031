-- ===== src/Server/Transport/Tests.antt =====
-- Runs of the end of `init`, and its theorem at a configuration that names the transport only.
use Prim.Native.String.{String}
use text.Mathlib.Text.{◌==◌ as str_eq}
use mathlib.Core.Option
use recd.Common.{ℕ, ◌≡◌, refl, true, false, Option, none, some, [], ◌∷◌, replicate, if◌then◌else◌}
use recd.Config.{MPair, get_tag_pairs, value, has_key}
use recd.Config.Shared.{
  Store, empty_pair, find_pos, look_up, get_attrib_ref, deref, pair_ref, set_type2,
}
use recd.Server.{Server, no_conn}
use recd.Server.Setup.{parse_or}
use recd.Server.Transport.{
  Transport, Outcome, started, exits, bind_udp, init_transport, start_transport, read_port,
}
use recd.Server.Transport.Missing.{init_transport-missing_port}

abbrev server : Server
server = record {
  conn_info = no_conn;
  monitor_data = [];
  channels = 2;
  smpl_per_chan = 16;
  single_file = false;
  peek_on = false;
  helper_buffer = [];
  err_udp = replicate 512 0;
  delivered = [];
  messages = [];
}

abbrev transport : Transport
transport = record {
  port = 77;
  udp = false;
  live_connection = false;
  helper_running = false;
  tcp_scheduled = false;
  tcp_server = none;
}

abbrev udp_pair : MPair
udp_pair = record { type1 = "transport"; type2 = "udp" }

abbrev store : Store
store = record { tags = ("Network", udp_pair ∷ []) ∷ []; none_pair = empty_pair }

abbrev to_int : String → Option ℕ
to_int s = if str_eq s "4000" then some 4000 else none

init_transport-missing_port_example :
    (st' : Store) × (init_transport to_int (λ n. true) server transport store
      ≡ some (bind_udp (λ n. true) server transport st'))
    × (Option.map (λ (found : MPair × Store). found.0.type2) (look_up st' "QAudioCapture" "chans")
        ≡ some "1234")
unfolding find_pos value
init_transport-missing_port_example =
    init_transport-missing_port to_int (λ n. true) server transport store "QAudioCapture" "chans" 0
      udp_pair refl refl refl refl refl refl

-- The port that was set, and whether the block goes on.
abbrev port_of : Option Outcome → Option ℕ
port_of none = none
port_of (some (started s t st)) = some t.port
port_of (some exits) = none

port_run :
    port_of (
      init_transport to_int
        (λ n. true)
        server
        transport
        (record {
          tags = ("Network", udp_pair ∷ record { type1 = "port"; type2 = "4000" } ∷ []) ∷ [];
          none_pair = empty_pair;
        }))
    ≡ some 4000
unfolding init_transport get_attrib_ref deref pair_ref find_pos get_tag_pairs value has_key
    read_port parse_or start_transport bind_udp
port_run = refl

-- Where the transport is missing too, it reads the default port as its name, and the program exits.
exits_run :
    init_transport to_int
      (λ n. true)
      server
      transport
      (record { tags = []; none_pair = empty_pair })
    ≡ some exits
unfolding init_transport get_attrib_ref deref pair_ref find_pos get_tag_pairs value has_key
    read_port set_type2 start_transport
exits_run = refl
