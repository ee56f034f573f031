-- ===== src/Daemon/Log.antt =====
-- app/unix/daemon.cpp: `log_message`. The bytes of the file "daemon.log" are a list, `none` while there is no such file.
use recd.Common.{
  ℕ, ◌≡◌, refl, ap, ◌∙◌, Bool, true, false, if◌then◌else◌, Option, none, some, List, [], ◌∷◌, ◌++◌,
  append_assoc, append-nil, if-true, if-false,
}

-- `one_time_flush`, and the file.
pub record Log : Type 0 where
  pub flushed : Bool
  pub file : Option (List ℕ)

abbrev pub contents : Option (List ℕ) → List ℕ
contents none = []
contents (some bs) = bs

-- The first call that can open the file removes it.
unfoldable pub flush_once : Bool → Log → Log
flush_once opens l =
    let removed : Log = record { flushed = true; file = none } in
    if l.flushed then l else if opens then removed else l

-- Opened with "a+", which creates the file, and closed behind the message.
unfoldable pub append_message : Bool → List ℕ → Log → Log
append_message opens msg l = if opens then record l { file = some (contents l.file ++ msg) } else l

-- What the two calls of `fopen` answer is a parameter.
unfoldable pub log_message : Bool → Bool → List ℕ → Log → Log
log_message opens1 opens2 msg l = append_message opens2 msg (flush_once opens1 l)

-- Messages one after the other, each with the answers of `fopen`.
pub record Message : Type 0 where
  pub opens_first : Bool
  pub opens : Bool
  pub bytes : List ℕ

unfoldable pub log_messages : List Message → Log → Log
log_messages [] l = l
log_messages (m ∷ ms) l = log_messages ms (log_message m.opens_first m.opens m.bytes l)

-- What is left of the messages: those for which the file can be opened.
abbrev pub written : List Message → List ℕ
written [] = []
written (m ∷ ms) = (if m.opens then m.bytes else []) ++ written ms

append_message_lem :
    (b : Bool) (msg : List ℕ) (l : Log)
    → (contents (append_message b msg l).file ≡ contents l.file ++ (if b then msg else []))
      × ((append_message b msg l).flushed ≡ l.flushed)
unfolding append_message
append_message_lem true msg l = (refl, refl)
append_message_lem false msg l = (rw (append-nil (contents l.file)) refl, refl)

-- Behind the first message nothing is removed.
pub log_messages-flushed :
    (ms : List Message) (l : Log)
    → l.flushed ≡ true
    → contents (log_messages ms l).file ≡ contents l.file ++ written ms
unfolding log_messages log_message flush_once
log_messages-flushed [] l f = rw (append-nil (contents l.file)) refl
log_messages-flushed (m ∷ ms) l f =
    let (bytes, flag) = append_message_lem m.opens m.bytes l in
    ap (λ k. contents (log_messages ms (append_message m.opens m.bytes k)).file)
      (if-true {b = l.flushed} l _ f)
    ∙ log_messages-flushed ms (append_message m.opens m.bytes l) (flag ∙ f)
    ∙ ap (λ k. k ++ written ms) bytes
    ∙ append_assoc (contents l.file) _ (written ms)

-- When the first call of a program can open the file, what it held before is gone, and it has the messages of all calls that
-- can open it, in order.
pub log_messages_lem :
    (m : Message) (ms : List Message) (l : Log)
    → l.flushed ≡ false
    → m.opens_first ≡ true
    → contents (log_messages (m ∷ ms) l).file ≡ written (m ∷ ms)
unfolding log_messages log_message flush_once
log_messages_lem m ms l f o =
    let l' : Log = record { flushed = true; file = none } in
    let (bytes, flag) = append_message_lem m.opens m.bytes l' in
    ap (λ k. contents (log_messages ms (append_message m.opens m.bytes k)).file)
      (if-false {b = l.flushed} l _ f ∙ if-true {b = m.opens_first} l' l o)
    ∙ log_messages-flushed ms (append_message m.opens m.bytes l') flag
    ∙ ap (λ k. k ++ written ms) bytes
