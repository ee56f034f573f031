-- ===== src/Server.antt =====
-- plugin::udp::Server of udp-streamer/server.cpp: what it does with each datagram, and its counters. Numbers of
-- type uint32_t are below 2 ^ 32 and wrap. `none` is a read or write outside an array of the frame.
pub mod Setup
pub mod Transport
pub mod Counters
pub mod Entries
pub mod Delivery
pub mod Lost
mod Tests
use recd.Common.{
  ℕ, zero, suc, ◌+◌, ◌-◌, ◌*◌, ◌%◌, ◌^◌, Bool, true, false, Option, none, some, List, [], ◌∷◌, ◌++◌,
  ◌==◌, ltb, if◌then◌else◌, ◌>>=◌, get_elem?, take, collect,
}
use recd.Frame.{Frame, checksum_lrc}

-- `struct conn_info`
pub record ConnInfo : Type 0 where
  pub paket_counter : ℕ
  pub desynch_counter : ℕ
  pub total_lost : ℕ
  pub onetime_synch : Bool

-- `struct sample_data_t` of utils/types.h
pub record SampleData : Type 0 where
  pub signal : ℕ
  pub samples : List ℕ
  pub size : ℕ

-- The next plugin of the chain, as far as this one sees it: what its `put_data` leaves in the list
-- whose address it is given.
abbrev pub NextPlugin : Type 0
NextPlugin = Option (List SampleData → List SampleData)

pub data Message : Type 0 where
  lost : (counter desynch_counter server_counter lost_frames total_lost : ℕ) → Message
  missed_udp lost_connection : Message

pub record Server : Type 0 where
  pub conn_info : ConnInfo
  pub monitor_data : List ℕ
  pub channels : ℕ
  pub smpl_per_chan : ℕ
  pub single_file : Bool
  pub peek_on : Bool
  pub helper_buffer : List Frame
  pub err_udp : List ℕ
  -- What has gone out: the lists given to the next plugin, and the messages, oldest first.
  pub delivered : List (List SampleData)
  pub messages : List Message

-- A datagram of `sizeof(frame_data_t)` bytes, or of another size.
pub data Datagram : Type 0 where
  frame : Frame → Datagram
  other : Datagram

abbrev pub u32 : ℕ → ℕ
u32 n = n % 2 ^ 32

-- a - b in uint32_t
abbrev pub sub_u32 : ℕ → ℕ → ℕ
sub_u32 a b = (a + 2 ^ 32 - b) % 2 ^ 32

abbrev pub no_conn : ConnInfo
no_conn = record { paket_counter = 0; desynch_counter = 0; total_lost = 0; onetime_synch = false }

pub disconnected : Server → Server
disconnected s = record s { monitor_data = []; conn_info = no_conn }

-- `checkConnection`, once a second: its branches, on `m_monitorData`.
pub check_monitor : Server → List ℕ → Server
check_monitor s [] = record (disconnected s) { messages = s.messages ++ (lost_connection ∷ []) }
check_monitor s (c ∷ cs) = record s { monitor_data = [] }

pub check_connection : Server → Server
check_connection s = check_monitor s s.monitor_data

-- `enum States`
pub data State : Type 0 where
  unknown is_disconnected connected lost_conn got_conn got_datagram missed_datagram : State

pub route : Server → State → Server
route s is_disconnected = disconnected s
route s _ = s

-- `put_data(&ls)`: the server afterwards, and what is then in `ls`.
pub put_data : NextPlugin → Server → List SampleData → Server × List SampleData
put_data none s ls = (s, [])
put_data (some next) s ls = (record s { delivered = s.delivered ++ (ls ∷ []) }, next ls)

-- `s.samples[j] = data[j * m_channels + i]` for `j` below `m_smplPerChan`.
pub channel_samples : ℕ → ℕ → List ℕ → ℕ → Option (List ℕ)
channel_samples channels per data_ i = collect per 0 (λ j. get_elem? data_ (j * channels + i))

-- One entry for each channel with signal 0 and the samples of the error frame.
pub err_entries : Server → Option (List SampleData)
err_entries s = collect s.channels 0 λ i.
    channel_samples s.channels s.smpl_per_chan s.err_udp i >>= λ smpl.
    some (record { signal = 0; samples = smpl; size = s.smpl_per_chan })

-- `for(int i=0; i < errs; ++i)`: the entries are appended to `err_ls`, and the list is put.
pub send_errs : NextPlugin → ℕ → Server → List SampleData → Option Server
send_errs next zero s err_ls = some s
send_errs next (suc errs) s err_ls = err_entries s >>= λ entries.
    let (s', rest) = put_data next s (err_ls ++ entries) in send_errs next errs s' rest

-- The rounds of a loop up to an `int` with this bit pattern.
abbrev pub rounds : ℕ → ℕ
rounds errs = if ltb errs (2 ^ 31) then errs else 0

-- The number of frames lost, the message about them, which has the counters as they are before, without the time, and
-- the counters.
pub note_desynch : Server → Frame → Server
note_desynch s udp = record s {
  conn_info = record {
    paket_counter = udp.counter;
    desynch_counter = u32 (s.conn_info.desynch_counter + 1);
    total_lost = u32 (s.conn_info.total_lost + errs);
    onetime_synch = true;
  };
  messages =
      s.messages
      ++ (lost udp.counter s.conn_info.desynch_counter s.conn_info.paket_counter errs
            s.conn_info.total_lost
          ∷ []);
}
  where
    errs : ℕ
    errs = sub_u32 udp.counter s.conn_info.paket_counter

-- The branch `udp.counter != ++paketCounter`; the counter has been incremented.
pub on_desynch : NextPlugin → Server → Frame → Option Server
on_desynch next s udp =
    let errs = sub_u32 udp.counter s.conn_info.paket_counter in
    let s' = note_desynch s udp in
    if s.conn_info.onetime_synch
    then send_errs next (rounds errs) s' []
    else (err_entries s' >>= λ entries. some (put_data next s' entries).0)

-- One entry for each channel, its samples taken out of the interleaved frame.
pub channel_entries : Server → Frame → Option (List SampleData)
channel_entries s udp = collect s.channels 0 λ i. get_elem? udp.null_bytes i >>= λ signal.
    channel_samples s.channels s.smpl_per_chan udp.data_ i >>= λ smpl.
    some (record { signal = signal; samples = smpl; size = s.smpl_per_chan })

-- `new short[512]`, of which `memcpy(s.samples, udp.data, 512)` fills 512 bytes, 256 samples; `fresh` is what
-- the allocation holds behind them.
pub single_entry : List ℕ → Frame → List SampleData
single_entry fresh udp =
    record { signal = 1; samples = take 256 udp.data_ ++ fresh; size = 512 } ∷ []

pub synch_entries : List ℕ → Server → Frame → Option (List SampleData)
synch_entries fresh s udp =
    if s.single_file then some (single_entry fresh udp) else channel_entries s udp

pub on_synch : NextPlugin → List ℕ → Server → Frame → Option Server
on_synch next fresh s udp = synch_entries fresh s udp >>= λ ls. some (put_data next s ls).0

-- The peek buffer, and `++m_conn_info.paketCounter`.
pub receive : Server → Frame → Server
receive s udp = record s {
  helper_buffer = if s.peek_on then s.helper_buffer ++ (udp ∷ []) else s.helper_buffer;
  conn_info = record (s.conn_info) { paket_counter = u32 (s.conn_info.paket_counter + 1) };
}

-- "Missed an UDP"
unfoldable pub note_missed : Server → Server
note_missed s = record s { messages = s.messages ++ (missed_udp ∷ []) }

-- The loop body of `readyReadUdp`. The checksum is computed, and nothing depends on it.
pub on_datagram : NextPlugin → List ℕ → Server → Datagram → Option Server
on_datagram next fresh s other = some (note_missed s)
on_datagram next fresh s (frame udp) =
    let checksum = checksum_lrc udp in
    let s' = receive s udp in
    if udp.counter == s'.conn_info.paket_counter
    then on_synch next fresh s' udp
    else on_desynch next s' udp

unfoldable pub on_datagrams : NextPlugin → List ℕ → Server → List Datagram → Option Server
on_datagrams next fresh s [] = some s
on_datagrams next fresh s (d ∷ ds) =
    on_datagram next fresh s d >>= λ s'. on_datagrams next fresh s' ds

-- `readyReadUdp` with the datagrams that are pending; 46 is '.'.
pub ready_read_udp : NextPlugin → List ℕ → Server → List Datagram → Option Server
ready_read_udp next fresh s [] = some (disconnected s)
ready_read_udp next fresh s (d ∷ ds) =
    on_datagrams next fresh (record s { monitor_data = s.monitor_data ++ (46 ∷ []) }) (d ∷ ds)
