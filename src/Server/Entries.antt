-- ===== src/Server/Entries.antt =====
-- The entries that the UDP server makes of a frame, for each channel.
use Prim.Native.Nat.add
use mathlib.Core.Option
use recd.Common.{
  ℕ, ◌+◌, ◌*◌, ◌≡◌, ◌<◌, ◌≤◌, Option, some, List, ◌>>=◌, arith, length, get_elem?, get_or, tabulate,
  collect-tabulate, get_elem?-eq-get_or, get_elem?-tabulate,
}
use recd.Frame.{Frame, IsFrame}
use recd.Server.{Server, SampleData, err_entries, channel_entries, channel_samples}

-- The arrays are large enough for the configuration: what `init` and the hardware have to see to.
pub record IsReady (s : Server) : Type 0 where
  pub some_channel : 0 < s.channels
  pub fits : s.channels * s.smpl_per_chan ≤ 512
  pub signals : s.channels ≤ 64
  pub err_frame : length s.err_udp ≡ 512

in_frame : (n per i j : ℕ) → i < n → j < per → n * per ≤ 512 → j * n + i < 512
in_frame n per i j hi hj h = grind arith

abbrev pub samples_of : ℕ → ℕ → List ℕ → ℕ → List ℕ
samples_of channels per data_ i = tabulate per 0 (λ j. get_or data_ (j * channels + i) 0)

channel_samples_lem :
    (channels per i : ℕ) (data_ : List ℕ)
    → length data_ ≡ 512
    → channels * per ≤ 512
    → i < channels
    → channel_samples channels per data_ i ≡ some (samples_of channels per data_ i)
unfolding channel_samples
channel_samples_lem channels per i data_ len fits hi = collect-tabulate per 0 _ _ λ j hj.
    get_elem?-eq-get_or data_ (j * channels + i) 0
      (let inside = in_frame channels per i j hi (omega arith) fits in omega arith)

abbrev pub err_list : Server → List SampleData
err_list s = tabulate s.channels 0 λ i. record {
  signal = 0;
  samples = samples_of s.channels s.smpl_per_chan s.err_udp i;
  size = s.smpl_per_chan;
}

abbrev channel_entry : Server → Frame → ℕ → SampleData
channel_entry s udp i = record {
  signal = get_or udp.null_bytes i 0;
  samples = samples_of s.channels s.smpl_per_chan udp.data_ i;
  size = s.smpl_per_chan;
}

abbrev pub channel_list : Server → Frame → List SampleData
channel_list s udp = tabulate s.channels 0 (channel_entry s udp)

pub err_entries_lem : (s : Server) → IsReady s → err_entries s ≡ some (err_list s)
unfolding err_entries
err_entries_lem s v = collect-tabulate s.channels 0 _ _ λ i hi.
    rw (channel_samples_lem s.channels s.smpl_per_chan i s.err_udp v.err_frame v.fits (omega arith))

pub channel_entries_lem :
    (s : Server) (udp : Frame)
    → IsReady s
    → IsFrame udp
    → channel_entries s udp ≡ some (channel_list s udp)
unfolding channel_entries
channel_entries_lem s udp v f = collect-tabulate s.channels 0 _ _ λ i hi. rw (
  get_elem?-eq-get_or udp.null_bytes i 0 (omega (arith, v.signals, f.nulls)),
  channel_samples_lem s.channels s.smpl_per_chan i udp.data_ f.samples v.fits (omega arith),
)

-- A channel's list read back: entry `i`, sample `j`.
pub sample_at : List SampleData → ℕ → ℕ → Option ℕ
sample_at ls i j = get_elem? ls i >>= λ e. get_elem? e.samples j

pub channel_list_sample :
    (s : Server) (udp : Frame) (i j : ℕ)
    → IsReady s
    → IsFrame udp
    → i < s.channels
    → j < s.smpl_per_chan
    → sample_at (channel_list s udp) i j ≡ get_elem? udp.data_ (j * s.channels + i)
unfolding sample_at
channel_list_sample s udp i j v f hi hj = rw (
  get_elem?-tabulate s.channels 0 i (channel_entry s udp) hi,
  get_elem?-tabulate s.smpl_per_chan 0 j (λ j. get_or udp.data_ (j * s.channels + (0 + i)) 0) hj,
  add.zero j,
  add.zero i,
  get_elem?-eq-get_or udp.data_ (j * s.channels + i) 0 (
      let inside = in_frame s.channels s.smpl_per_chan i j hi hj v.fits in
      omega (arith, f.samples)),
)

pub channel_list_signal :
    (s : Server) (udp : Frame) (i : ℕ)
    → IsReady s
    → IsFrame udp
    → i < s.channels
    → Option.map (λ (e : SampleData). e.signal) (get_elem? (channel_list s udp) i)
      ≡ get_elem? udp.null_bytes i
channel_list_signal s udp i v f hi = rw (
  get_elem?-tabulate s.channels 0 i (channel_entry s udp) hi,
  add.zero,
  get_elem?-eq-get_or udp.null_bytes i 0 (omega (arith, v.signals, f.nulls)),
)
