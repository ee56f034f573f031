-- ===== src/Capture/Tests.antt =====
-- Runs of the audio capture, and its lemma at four bytes.
use Prim.Native.String.{String}
use text.Mathlib.Text.{◌==◌ as str_eq}
use recd.Common.{◌≡◌, refl, arith, Option, none, some, [], ◌∷◌, if◌then◌else◌}
use recd.Common.Int.{ℤ, pos}
use mathlib.Core.Option
use recd.Config.{Tags, get_tag_pairs, value, has_key, append}
use recd.Config.Shared.{Store, empty_pair, look_up, get_attrib_ref, deref, pair_ref, find_pos}
use recd.TcpServer.{samples_of}
use recd.Dtmf.{entry_samples}
use recd.Capture.{AudioFormat, asked_format, ready_entry}
use recd.Capture.Overrun.{entry_samples-ready_entry}

abbrev to_int : String → Option ℤ
to_int s = if str_eq s "44100" then some (pos 44100) else none

abbrev parse_port : String → Option ℤ
parse_port s = if str_eq s "1234" then some (pos 1234) else none

abbrev tags : Tags
tags = append [] "QAudioCapture" (record { type1 = "sampleRate"; type2 = "44100" })

abbrev rate_of : Option (AudioFormat × Store) → Option ℤ
rate_of o = Option.map (λ (r : AudioFormat × Store). r.0.sample_rate) o

-- The sample rate is the configuration's, the number of channels is the one that is set without it.
asked_rate_run :
    rate_of (asked_format to_int (record { tags = tags; none_pair = empty_pair }))
    ≡ some (pos 44100)
unfolding asked_format look_up get_attrib_ref deref pair_ref find_pos get_tag_pairs value has_key
    append
asked_rate_run = refl

asked_channels_run :
    Option.map
      (λ (r : AudioFormat × Store). r.0.channel_count)
      (asked_format to_int (record { tags = tags; none_pair = empty_pair }))
    ≡ some (pos 1)
unfolding asked_format look_up get_attrib_ref deref pair_ref find_pos get_tag_pairs value has_key
    append
asked_channels_run = refl

-- After a server has been started without a port, the capture asks for its default.
shared_rate_run :
    rate_of (
      asked_format parse_port
        (record { tags = []; none_pair = record { type1 = ""; type2 = "1234" } }))
    ≡ some (pos 1234)
unfolding asked_format look_up get_attrib_ref deref pair_ref find_pos get_tag_pairs value has_key
    append
shared_rate_run = refl

ready_entry_run : (ready_entry (1 ∷ 1 ∷ 2 ∷ 0 ∷ [])).samples ≡ 257 ∷ 2 ∷ []
unfolding ready_entry samples_of
ready_entry_run = refl

overrun_applied : entry_samples (ready_entry (1 ∷ 1 ∷ 2 ∷ 0 ∷ [])) ≡ none
overrun_applied = entry_samples-ready_entry (1 ∷ 1 ∷ 2 ∷ 0 ∷ []) (omega arith) (omega arith)
