-- ===== src/UdpClient/Tests.antt =====
-- A run of the client, and its theorem against a server.
use recd.Common.{ℕ, ◌≡◌, refl, some, false, List, [], ◌∷◌, length, replicate, map, length-replicate}
use recd.Server.{Server, SampleData, no_conn, missed_udp, on_datagrams}
use recd.UdpClient.{Client, fill_chan, transmit_times, datagram_of}
use recd.UdpClient.Missed.{IsClient, client_missed}

abbrev client : Client
client = record {
  counter = 0;
  file_cnt = 0;
  data_ = replicate 512 0;
  null_bytes = replicate 64 0;
  checksum = 0;
  padding = 0 ∷ 0 ∷ 0 ∷ [];
}

-- A sample goes to its channel's block of 16.
fill_chan_run : fill_chan (7 ∷ 8 ∷ []) 0 2 0 (0 ∷ 0 ∷ 0 ∷ [], 0) ≡ some (7 ∷ 8 ∷ 0 ∷ [], 2)
unfolding fill_chan
fill_chan_run = refl

client-IsClient : IsClient client
client-IsClient = record { samples = length-replicate {A = ℕ} 512 0; pads = refl }

abbrev keeps : List SampleData → List SampleData
keeps ls = ls

abbrev server : Server
server = record {
  conn_info = no_conn;
  monitor_data = [];
  channels = 32;
  smpl_per_chan = 16;
  single_file = false;
  peek_on = false;
  helper_buffer = [];
  err_udp = replicate 512 0;
  delivered = [];
  messages = [];
}

client_missed_example :
    (sent : List (List ℕ)) × (s' : Server) × (transmit_times (replicate 100000 5) 3 client
      ≡ some sent)
    × (length sent ≡ 3)
    × (on_datagrams (some keeps) [] server (map datagram_of sent) ≡ some s')
    × (s'.delivered ≡ [])
    × (s'.conn_info ≡ no_conn)
    × (s'.messages ≡ missed_udp ∷ missed_udp ∷ missed_udp ∷ [])
client_missed_example =
    client_missed (replicate 100000 5) 3 client (some keeps) [] server
      (length-replicate {A = ℕ} 100000 5) client-IsClient
