-- ===== src/Server/Tests.antt =====
-- Runs of the UDP server, and the theorems of its modules at them.
use Prim.Native.String.{String}
use text.Mathlib.Text.{◌==◌ as str_eq}
use mathlib.Core.Option
use recd.Common.{
  ℕ, ◌+◌, ◌≡◌, ◌<◌, ◌≤◌, refl, Bool, true, false, Option, none, some, List, [], ◌∷◌, if◌then◌else◌,
  arith, replicate, length, get_elem?,
}
use recd.Config.{Tags, get_attrib_pair_from_tag, get_tag_pairs, value, has_key, find_attrib}
use recd.Config.Shared.{empty_pair}
use recd.Frame.{Frame, IsFrame}
use recd.Server.{
  Server, ConnInfo, SampleData, Datagram, frame, other, on_datagram, on_datagrams, on_desynch,
  ready_read_udp, check_connection, no_conn, u32,
}
use recd.Server.Counters.{frames, gaps, counters-on_datagrams, check_connection-ready_read_udp}
use recd.Server.Entries.{IsReady, sample_at}
use recd.Server.Delivery.{delivered-on_datagram, on_datagrams_total, on_desynch_total}
use recd.Server.Lost.{keeps, clears, lengths, lengths-on_desynch}
use recd.Server.Setup.{
  Layout, init_channels, init_smpl_per_chan, parse_or, init_layout, init_layout_lem, asked_channels,
}

abbrev conn : Bool → ConnInfo
conn once = record { paket_counter = 4; desynch_counter = 0; total_lost = 0; onetime_synch = once }

-- Two channels of three samples; the last counter was 4.
abbrev idle : Bool → Server
idle once = record {
  conn_info = conn once;
  monitor_data = [];
  channels = 2;
  smpl_per_chan = 3;
  single_file = false;
  peek_on = false;
  helper_buffer = [];
  err_udp = replicate 512 0;
  delivered = [];
  messages = [];
}

abbrev udp : ℕ → Frame
udp n = record {
  counter = n;
  data_ = 1 ∷ 2 ∷ 3 ∷ 4 ∷ 5 ∷ 6 ∷ replicate 506 0;
  null_bytes = 7 ∷ 8 ∷ replicate 62 0;
  checksum = 0;
}

udp-IsFrame : (n : ℕ) → n < 100 → IsFrame (udp n)
udp-IsFrame n h = record {
  counter_u32 = omega arith;
  samples = refl;
  sample_i16 = omega arith;
  nulls = refl;
  null_u8 = omega arith;
}

idle-IsReady : (once : Bool) → IsReady (idle once)
idle-IsReady once = record {
  some_channel = omega arith;
  fits = omega arith;
  signals = omega arith;
  err_frame = refl;
}

delivered-on_datagram_example :
    (s' : Server) × (ls : List SampleData) × (on_datagram
        (some keeps)
        []
        (idle false)
        (frame (udp 5))
      ≡ some s')
    × (s'.delivered ≡ ls ∷ [])
    × (length ls ≡ 2)
    × (sample_at ls 1 2 ≡ some 6)
    × (Option.map (λ (e : SampleData). e.signal) (get_elem? ls 1) ≡ some 8)
delivered-on_datagram_example =
    delivered-on_datagram keeps [] (idle false) (udp 5) 1 2 (idle-IsReady false)
      (udp-IsFrame 5 (omega arith)) refl refl (omega arith) (omega arith)

-- The counter jumps from 4 to 8: three frames are lost.
abbrev jump : List Datagram
jump = frame (udp 8) ∷ other ∷ frame (udp 9) ∷ []

on_datagrams_total_example :
    (s' : Server) × (on_datagrams (some keeps) [] (idle true) jump ≡ some s') × IsReady s'
on_datagrams_total_example =
    on_datagrams_total (some keeps) [] jump (idle true) (idle-IsReady true)
      (udp-IsFrame 8 (omega arith), (udp-IsFrame 9 (omega arith), tt))

abbrev jump_run :
    (s' : Server) × (on_datagrams (some keeps) [] (idle true) jump ≡ some s') × IsReady s'
jump_run =
    on_datagrams_total (some keeps) [] jump (idle true) (idle-IsReady true)
      (udp-IsFrame 8 (omega arith), (udp-IsFrame 9 (omega arith), tt))

abbrev after_jump : Server
after_jump = jump_run.0

counters-on_datagrams_example :
    (u32 (after_jump.conn_info.paket_counter + 0) ≡ u32 (4 + 2 + after_jump.conn_info.total_lost))
    × (u32 after_jump.conn_info.desynch_counter ≡ 1)
unfolding frames gaps
counters-on_datagrams_example =
    counters-on_datagrams (some keeps) [] jump (idle true) after_jump jump_run.1

alive : (s' : Server) × (ready_read_udp (some keeps) [] (idle true) jump ≡ some s')
unfolding ready_read_udp
alive =
    let (s', e, r) =
      on_datagrams_total (some keeps) [] jump (record (idle true) { monitor_data = 46 ∷ [] })
        (record {
          some_channel = omega arith;
          fits = omega arith;
          signals = omega arith;
          err_frame = refl;
        })
        (udp-IsFrame 8 (omega arith), (udp-IsFrame 9 (omega arith), tt)) in
    (s', e)

check_connection-ready_read_udp_applied :
    ((check_connection alive.0).conn_info ≡ alive.0.conn_info)
    × ((check_connection (check_connection alive.0)).conn_info ≡ no_conn)
check_connection-ready_read_udp_applied =
    check_connection-ready_read_udp (some keeps) [] (frame (udp 8)) (other ∷ frame (udp 9) ∷ [])
      (idle true) alive.0 alive.1

-- The server's counter is 4 and the frame's is 7: three lists.
abbrev cleared :
    (s' : Server) × (on_desynch (some clears) (idle true) (udp 7) ≡ some s') × IsReady s'
cleared = on_desynch_total (some clears) (idle true) (udp 7) (idle-IsReady true)

abbrev kept : (s' : Server) × (on_desynch (some keeps) (idle true) (udp 7) ≡ some s') × IsReady s'
kept = on_desynch_total (some keeps) (idle true) (udp 7) (idle-IsReady true)

lengths-on_desynch_example :
    (lengths cleared.0.delivered ≡ 2 ∷ 2 ∷ 2 ∷ []) × (lengths kept.0.delivered ≡ 2 ∷ 4 ∷ 6 ∷ [])
lengths-on_desynch_example =
    lengths-on_desynch (idle true) cleared.0 kept.0 (udp 7) (idle-IsReady true) refl cleared.1
      kept.1

-- A QString::toInt of two texts.
abbrev to_int : String → Option ℕ
to_int s = if str_eq s "8" then some 8 else if str_eq s "100" then some 100 else none

abbrev tags : Tags
tags =
    (
      "FrameData",
      record { type1 = "channels"; type2 = "8" }
          ∷ record { type1 = "samplesPerChan"; type2 = "100" }
          ∷ [],
    )
    ∷ []

-- 8 channels of 100 samples do not fit in the frame.
init_layout_lem_example :
    (0 < asked_channels to_int empty_pair tags)
    × (asked_channels to_int empty_pair tags ≤ 127)
    × (Option.map (λ (l : Layout). l.err_udp) (init_layout to_int empty_pair tags) ≡ none)
unfolding init_channels init_smpl_per_chan parse_or get_attrib_pair_from_tag get_tag_pairs value
    has_key find_attrib
init_layout_lem_example = init_layout_lem to_int empty_pair tags
