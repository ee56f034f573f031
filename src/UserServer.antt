-- ===== src/UserServer.antt =====
-- app/server.cpp: `UserServer`, the text console on a TCP port. The sockets are numbered in the order they come in. A
-- line is its bytes; the answers are named, their text is printed by nothing but `write`.
pub mod Answers
mod Tests
use recd.Common.{
  ℕ, ◌+◌, Bool, true, false, ◌||◌, ◌&&◌, if◌then◌else◌, ◌==◌, Option, none, some, List, [], ◌∷◌,
  ◌++◌, length, get_elem?, set, ◌>>=◌,
}

-- `QByteArray::contains`
unfoldable pub starts_with : List ℕ → List ℕ → Bool
starts_with [] s = true
starts_with (c ∷ cs) [] = false
starts_with (c ∷ cs) (d ∷ ds) = (c == d) && starts_with cs ds

unfoldable pub contains : List ℕ → List ℕ → Bool
contains [] w = starts_with w []
contains (c ∷ cs) w = starts_with w (c ∷ cs) || contains cs w

-- What is written back; the answer to "info" is empty.
pub data Answer : Type 0 where
  help_answer version_answer bye_answer info_answer unknown_answer : Answer

-- "help", "version", "quit" and "info", in the order they are looked for.
unfoldable pub answer : List ℕ → Answer
answer line =
    if contains line (104 ∷ 101 ∷ 108 ∷ 112 ∷ [])
    then help_answer
    else if contains line (118 ∷ 101 ∷ 114 ∷ 115 ∷ 105 ∷ 111 ∷ 110 ∷ [])
    then version_answer
    else if contains line (113 ∷ 117 ∷ 105 ∷ 116 ∷ [])
    then bye_answer
    else if contains line (105 ∷ 110 ∷ 102 ∷ 111 ∷ [])
    then info_answer
    else unknown_answer

unfoldable pub is_bye : Answer → Bool
is_bye help_answer = false
is_bye version_answer = false
is_bye bye_answer = true
is_bye info_answer = false
is_bye unknown_answer = false

-- A socket: the lines that can be read, what has been written, whether its signals are connected to the server,
-- whether it has not been disconnected, and whether `deleteLater` was not called.
pub record Socket : Type 0 where
  pub lines : List (List ℕ)
  pub answers : List Answer
  pub is_connected : Bool
  pub is_up : Bool
  pub is_alive : Bool

-- `conn` is `p_conn`, `none` the null pointer.
pub record UserServer : Type 0 where
  pub sockets : List Socket
  pub conn : Option ℕ

-- The constructor.
abbrev pub new_server : UserServer
new_server = record { sockets = []; conn = none }

-- The loop of `hConnection` on one socket: the lines that can be read, one after the other, up to "quit".
unfoldable pub serve : List (List ℕ) → Socket → Socket
serve [] k = record k { lines = [] }
serve (line ∷ rest) k =
    let told = record k { answers = k.answers ++ (answer line ∷ []) } in
    let next = serve rest told in
    if is_bye (answer line) then record told { lines = rest; is_up = false } else next

-- `none` is the use of a null pointer or of an object that `deleteLater` was called on.
unfoldable pub h_connection : UserServer → Option UserServer
h_connection s = s.conn >>= λ i. get_elem? s.sockets i >>= λ k.
    if k.is_alive then some (record s { sockets = set s.sockets i (serve k.lines k) }) else none

-- `incomingConnection`; `ok` is the result of `setSocketDescriptor`.
unfoldable pub incoming_connection : Bool → UserServer → UserServer
incoming_connection ok s = record {
  sockets =
      s.sockets
      ++ (record { lines = []; answers = []; is_connected = ok; is_up = ok; is_alive = true } ∷ []);
  conn = some (length s.sockets);
}

-- The slot `disconnected`.
unfoldable pub disconnected : UserServer → Option UserServer
disconnected s = s.conn >>= λ i. get_elem? s.sockets i >>= λ k.
    some (record s { sockets = set s.sockets i (record k { is_alive = false }) })

-- What the network does: a connection comes in, which is followed by the signal newConnection; the socket `i` gets
-- lines and emits readyRead; the socket `i` is closed by its client.
pub data NetEvent : Type 0 where
  comes_in : Bool → NetEvent
  gets : ℕ → List (List ℕ) → NetEvent
  is_closed : ℕ → NetEvent

unfoldable pub net_event : NetEvent → UserServer → Option UserServer
net_event (comes_in ok) s = h_connection (incoming_connection ok s)
net_event (gets i ls) s = get_elem? s.sockets i >>= λ k.
    let s' = record s { sockets = set s.sockets i (record k { lines = k.lines ++ ls }) } in
    if k.is_connected then h_connection s' else some s'
net_event (is_closed i) s = get_elem? s.sockets i >>= λ k.
    let s' = record s { sockets = set s.sockets i (record k { is_up = false }) } in
    if k.is_connected then disconnected s' else some s'

unfoldable pub net_events : List NetEvent → UserServer → Option UserServer
net_events [] s = some s
net_events (e ∷ es) s = net_event e s >>= net_events es
