-- ===== src/Capture.antt =====
-- alsa-rec/qcapdev.cpp: `QCapDevice::hEvLoop`, which opens Qt's audio input in the format that the configuration asks
-- for, and makes an entry of the bytes that arrive. The devices are Qt's: what they support is a parameter.
pub mod Overrun
mod Tests
use Prim.Native.String.{String}
use recd.Common.{ℕ, ◌%◌, ◌^◌, Bool, if◌then◌else◌, Option, none, some, List, [], ◌∷◌, length, ◌>>=◌}
use recd.Common.Int.{ℤ, pos}
use recd.Config.Shared.{Store, look_up}
use recd.Server.{SampleData, u32}
use recd.TcpServer.{samples_of}

-- The settings that the code makes of Qt's format, with the names of Qt's constants.
pub record AudioFormat : Type 0 where
  pub sample_rate : ℤ
  pub channel_count : ℤ
  pub codec : String
  pub sample_size : ℕ
  pub byte_order : String
  pub sample_type : String

-- The format that is asked for. Each look into the configuration adds the tag where it is missing; the device, the bit
-- rate and the quality are looked up and not used.
unfoldable pub asked_format : (String → Option ℤ) → Store → Option (AudioFormat × Store)
asked_format to_int st = look_up st "QAudioCapture" "device" >>= λ (device, st1).
    look_up st1 "QAudioCapture" "sampleRate" >>= λ (s_rate, st2).
    look_up st2 "QAudioCapture" "bitRate" >>= λ (bit_rate, st3).
    look_up st3 "QAudioCapture" "chans" >>= λ (chans, st4).
    look_up st4 "QAudioCapture" "quality" >>= λ (quality, st5). some (
      record {
        sample_rate = elim (to_int s_rate.type2) [ none ↦ pos 8000 | some srate ↦ srate ];
        channel_count = elim (to_int chans.type2) [ none ↦ pos 1 | some ccnt ↦ ccnt ];
        codec = "audio/pcm";
        sample_size = 16;
        byte_order = "LittleEndian";
        sample_type = "UnSignedInt";
      },
      st5,
    )

-- The format of the input, and the messages that are sent.
unfoldable pub opened_format :
    (AudioFormat → Bool) → (AudioFormat → AudioFormat) → AudioFormat → AudioFormat × List String
opened_format is_supported nearest format =
    if is_supported format
    then (format, [])
    else (nearest format, "default format not supported, trying to use nearest\n" ∷ [])

-- `samples` are the numbers of two bytes that there are in the array of the bytes, and `size` is the number of the bytes.
unfoldable pub ready_entry : List ℕ → SampleData
ready_entry bytes = record { signal = 0; samples = samples_of bytes; size = u32 (length bytes) }

-- The list that goes to `put_data` when bytes are ready.
unfoldable pub on_ready_read : List ℕ → List SampleData
on_ready_read bytes = ready_entry bytes ∷ []
