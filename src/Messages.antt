-- ===== src/Messages.antt =====
-- The way of a message into the log: `IPC::sendMessage` of utils/ipc-msg.cpp, which sends one datagram, and `MsgServer` of
-- app/server.cpp, which logs what it reads. Texts are their bytes.
pub mod Path
mod Tests
use recd.Common.{ℕ, ◌-◌, ◌^◌, Bool, if◌then◌else◌, List, [], ◌∷◌, ◌++◌, length, take, ltb}
use recd.Writer.{Bytes}
use recd.Writer.Logger.{Logger, log_message}

-- "[%s]:%s" in the 512 bytes of `module_msg`.
unfoldable pub send_message : Bytes → Bytes → Bytes
send_message caller msg = take 511 ((91 ∷ caller) ++ (93 ∷ 58 ∷ msg))

-- What `readDatagram` does with the resized array: it fills it, or it fails and leaves what the array has.
pub data Datagram : Type 0 where
  arrives : Bytes → Datagram
  fails : Bytes → Datagram

-- The result as a `quint64`: a failure is -1.
unfoldable pub read_count : Datagram → ℕ
read_count (arrives bytes) = length bytes
read_count (fails bytes) = 2 ^ 64 - 1

abbrev pub array_bytes : Datagram → Bytes
array_bytes (arrives bytes) = bytes
array_bytes (fails bytes) = bytes

unfoldable pub on_message : Datagram → Logger → Logger
on_message d l = if ltb 0 (read_count d) then log_message (array_bytes d) l else l

-- `readyRead`
unfoldable pub ready_read : List Datagram → Logger → Logger
ready_read [] l = l
ready_read (d ∷ ds) l = ready_read ds (on_message d l)

-- "Message server failed!!!\n", "It`s a critical error!!!\n" and "Bind message server: OK!\n" are the caller's.
unfoldable pub init : Bytes → Bytes → Bytes → Bool → Logger → Logger
init failed critical ok res l =
    if res then log_message ok l else log_message critical (log_message failed l)
