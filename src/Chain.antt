-- ===== src/Chain.antt =====
-- The plugins' `put_data` and `put_ndata`, one behind the other: NULL/null.cpp, test-producer/test-producer.cpp,
-- test-consumer/test-consumer.cpp, MD5/md5-generator.cpp, alsa-rec/qcapdev.cpp, DFT/dtmf.cpp, udp-streamer/server.cpp and
-- recorder/recorder.cpp. Each calls the one behind it with the address of the same list. Chain/Proxy is their `main_proxy`.
pub mod Passes
pub mod Proxy
mod Tests
use recd.Common.{
  ℕ, zero, suc, Bool, true, false, if◌then◌else◌, Option, none, some, List, [], ◌∷◌, ◌++◌, ◌>>=◌,
}
use recd.Server.{SampleData}

pub data Kind : Type 0 where
  null_plugin producer consumer capture udp_server md5 dtmf recorder : Kind

-- A loaded plugin: what it has kept of the lists, the DTMF detector as one buffer, the recorder list by list.
pub record Plugin : Type 0 where
  pub kind : Kind
  pub samples : List SampleData
  pub lists : List (List SampleData)

-- What `put_data` does before it looks at nextPlugin.
unfoldable pub keep : List SampleData → Plugin → Plugin
keep ls p = elim p.kind [
  | null_plugin ↦ p
  | producer ↦ p
  | consumer ↦ p
  | capture ↦ p
  | udp_server ↦ p
  | md5 ↦ p
  | dtmf ↦ record p { samples = p.samples ++ ls }
  | recorder ↦ record p { lists = p.lists ++ (ls ∷ []) }
]

-- What it leaves in the list where it is the last: most clear it.
unfoldable pub last_list : Kind → List SampleData → List SampleData
last_list null_plugin ls = []
last_list producer ls = []
last_list consumer ls = []
last_list capture ls = []
last_list udp_server ls = []
last_list md5 ls = []
last_list dtmf ls = ls
last_list recorder ls = ls

unfoldable pub is_md5 : Kind → Bool
is_md5 null_plugin = false
is_md5 producer = false
is_md5 consumer = false
is_md5 capture = false
is_md5 udp_server = false
is_md5 md5 = true
is_md5 dtmf = false
is_md5 recorder = false

-- The calls on a chain of plugins, with fuel for their depth: the plugins and the list afterwards. The MD5 plugin
-- calls its own `put_data` where it should call the next plugin's.
unfoldable pub put_data : ℕ → List Plugin → List SampleData → Option (List Plugin × List SampleData)
put_data zero ps ls = none
put_data (suc n) [] ls = some ([], ls)
put_data (suc n) (p ∷ []) ls = some (keep ls p ∷ [], last_list p.kind ls)
put_data (suc n) (p ∷ q ∷ ps) ls =
    let same = put_data n (p ∷ q ∷ ps) ls in
    let behind = put_data n (q ∷ ps) ls in
    if is_md5 p.kind then same else (behind >>= λ (rest, left). some (keep ls p ∷ rest, left))

-- `put_ndata`: whether a plugin calls the next one; how far a call gets.
unfoldable pub hands_on : Kind → List Kind → List Kind
hands_on null_plugin rest = rest
hands_on producer rest = rest
hands_on consumer rest = rest
hands_on capture rest = rest
hands_on udp_server rest = rest
hands_on md5 rest = []
hands_on dtmf rest = []
hands_on recorder rest = rest

unfoldable pub put_ndata : List Kind → List Kind
put_ndata [] = []
put_ndata (k ∷ ks) = k ∷ hands_on k (put_ndata ks)
