-- ===== src/Server/Transport.antt =====
-- The end of `Server::init` of udp-streamer/server.cpp, which reads the transport and the port and starts one of the two
-- transports, and `deinit`. The port's pair is written to where it is the object that all missing attributes share.
pub mod Missing
mod Tests
use Prim.Native.String.{String}
use text.Mathlib.Text.{◌==◌ as str_eq}
use recd.Common.{ℕ, ◌^◌, ◌%◌, Bool, true, false, Option, none, some, if◌then◌else◌, ◌>>=◌}
use recd.Config.{MPair}
use recd.Config.Shared.{Store, PairRef, get_attrib_ref, deref, set_type2}
use recd.Server.{Server, is_disconnected, route}
use recd.Server.Setup.{parse_or}

-- What `init` leaves beside the server's counters: `m_port`, whether there is a UDP socket, whether the timer of
-- `checkConnection` runs, whether the helper's thread is told to run, whether the TCP server will be started, and
-- the TCP server, with its `m_isRunning`.
pub record Transport : Type 0 where
  pub port : ℕ
  pub udp : Bool
  pub live_connection : Bool
  pub helper_running : Bool
  pub tcp_scheduled : Bool
  pub tcp_server : Option Bool

-- How the block ends: it goes on, or `exit(1)`.
pub data Outcome : Type 0 where
  started : Server → Transport → Store → Outcome
  exits : Outcome

-- `bind` of the UDP socket
unfoldable pub bind_udp : (ℕ → Bool) → Server → Transport → Store → Outcome
bind_udp bind s t st =
    if bind t.port
    then started s (record t { udp = true; live_connection = true; helper_running = true }) st
    else started (route s is_disconnected) (record t { udp = true }) st

-- The test of the transport's name.
unfoldable pub start_transport : (ℕ → Bool) → Server → Transport → Store → String → Outcome
start_transport bind s t st transport =
    if str_eq transport "udp"
    then bind_udp bind s t st
    else if str_eq transport "tcp"
    then started s (record t { tcp_scheduled = true }) st
    else exits

module _ (to_int : String → Option ℕ) where
  -- The port, with the pairs afterwards.
  unfoldable pub read_port : ℕ → Store → PairRef → MPair → Option (ℕ × Store)
  read_port m_port st ref port =
      if str_eq port.type1 ""
      then (set_type2 st ref "1234" >>= λ st'. some (m_port, st'))
      else some (parse_or to_int port.type2 1234 % 2 ^ 16, st)

  unfoldable pub init_transport : (ℕ → Bool) → Server → Transport → Store → Option Outcome
  init_transport bind s t st =
      let (transport, st1) = get_attrib_ref st "Network" "transport" in
      let (port, st2) = get_attrib_ref st1 "Network" "port" in
      deref st2 port >>= λ p. read_port t.port st2 port p >>= λ (n, st3).
      deref st3 transport >>= λ name.
      some (start_transport bind s (record t { port = n }) st3 name.type2)

-- `initTcpServer`, which the timer calls.
unfoldable pub init_tcp_server : Transport → Transport
init_tcp_server t = record t { tcp_scheduled = false; tcp_server = some true }

-- `deinit`: the TCP server is stopped and its object deleted. The UDP socket stays bound, and the timer runs on.
unfoldable pub deinit_server : Transport → Transport
deinit_server t = record t { tcp_server = none; helper_running = false }
