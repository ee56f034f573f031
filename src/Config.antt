-- ===== src/Config.antt =====
-- utils/recorder-config.cpp: the tags of the XML configuration, and `MPair` of utils/types.h. The XML reader is
-- Qt's: what it yields is the list of the start elements in document order, each with its attributes. A
-- QHash is an association list; its `operator[]` inserts an empty value under a missing key.
pub mod Load
pub mod Shared
mod Tests
use Prim.Native.String.{String}
use text.Mathlib.Text.{◌==◌ as str_eq}
use recd.Common.{
  Bool, true, false, Option, none, some, List, [], ◌∷◌, ◌++◌, ◌&&◌, ◌||◌, if◌then◌else◌, not,
}

-- `MPair<QString, QString>`
pub record MPair : Type 0 where
  pub type1 : String
  pub type2 : String

-- `operator==`, which compares its argument with itself.
pub pair_eq : MPair → MPair → Bool
pair_eq p ref = str_eq ref.type1 ref.type1 && str_eq ref.type2 ref.type2

-- `operator=` returns its argument and stores nothing: the object after the call, and the result.
unfoldable pub assign : MPair → MPair → MPair × MPair
assign p ref = (p, ref)

-- `operator[]`: the value, or an empty one under another key.
unfoldable pub index : MPair → String → String
index p t1 = if str_eq t1 p.type1 then p.type2 else ""

abbrev pub PairList : Type 0
PairList = List MPair

-- A start element of the document.
pub record Element : Type 0 where
  pub name : String
  pub attributes : PairList

abbrev pub Tags : Type 0
Tags = List (String × PairList)

-- `m_tags[tag]`, a reference to the value: its contents.
unfoldable pub value : Tags → String → PairList
value [] tag = []
value ((t, ps) ∷ m) tag = if str_eq t tag then ps else value m tag

-- `m_tags[tag].append(pair)`
unfoldable pub append : Tags → String → MPair → Tags
append [] tag p = (tag, p ∷ []) ∷ []
append ((t, ps) ∷ m) tag p =
    if str_eq t tag then (t, ps ++ (p ∷ [])) ∷ m else (t, ps) ∷ append m tag p

unfoldable pub has_key : Tags → String → Bool
has_key [] tag = false
has_key ((t, ps) ∷ m) tag = str_eq t tag || has_key m tag

-- The list and the configuration afterwards, where a missing tag has become an empty one.
unfoldable pub get_tag_pairs : Tags → String → PairList × Tags
get_tag_pairs m tag = (value m tag, if has_key m tag then m else m ++ ((tag, []) ∷ []))

-- The loop `for(int i=0; i < plst.count(); ++i) if (plst[i].m_type1 == attrib) return plst.at(i);`, and what the static
-- object `none` holds, which is returned behind it and which a caller can write to.
unfoldable pub find_attrib : MPair → PairList → String → MPair
find_attrib none_pair [] attrib = none_pair
find_attrib none_pair (p ∷ ps) attrib =
    if str_eq p.type1 attrib then p else find_attrib none_pair ps attrib

unfoldable pub get_attrib_pair_from_tag : MPair → Tags → String → String → MPair × Tags
get_attrib_pair_from_tag none_pair m tag attrib =
    let (ps, m') = get_tag_pairs m tag in (find_attrib none_pair ps attrib, m')

-- The inner loop over the attributes of one element.
unfoldable pub append_all : Tags → String → PairList → Tags
append_all m tag [] = m
append_all m tag (p ∷ ps) = append_all (append m tag p) tag ps

unfoldable pub load_elements : Tags → List Element → Tags
load_elements m [] = m
load_elements m (e ∷ es) = load_elements (append_all m e.name e.attributes) es

-- `fastLoadFile`: the result and the tags. `none` is a file that cannot be opened.
unfoldable pub fast_load_file : Tags → String → Option (List Element) → Bool × Tags
fast_load_file m fname file =
    if str_eq fname ""
    then (false, m)
    else elim file [ none ↦ (false, []) | some es ↦ (true, load_elements [] es) ]

-- The tags that `loadFile` knows; `Plugin` has an empty branch.
unfoldable pub is_known : String → Bool
is_known name =
    str_eq name "HotSwap"
    || (str_eq name "FrameData"
        || (str_eq name "Wave"
            || (str_eq name "Record"
                || (str_eq name "Network" || (str_eq name "Log" || str_eq name "Heartbeat")))))

pub load_known : Tags → List Element → Tags
load_known m [] = m
load_known m (e ∷ es) =
    load_known (if is_known e.name then append_all m e.name e.attributes else m) es

-- `loadFile`. `has_error` is what `reader.hasError()` says of the file before anything is read from it.
pub load_file : Tags → Bool → Option (List Element) → Bool × Tags
load_file m has_error file = elim file [
  | none ↦ (false, m)
  | some es ↦ if has_error then (false, m) else (true, load_known m es)
]

abbrev pub entry : String → String → String → String × MPair
entry tag name val = (tag, record { type1 = name; type2 = val })

-- The calls of `loadDefaults`, in order.
abbrev pub defaults : List (String × MPair)
defaults =
    entry "Channels" "count" "32"
    ∷ entry "HotSwap" "timeBased" "enabled"
    ∷ entry "HotSwap" "maxSize" "100MB"
    ∷ entry "HotSwap" "interval" "30"
    ∷ entry "Wave" "samplesPerFrame" "8000"
    ∷ entry "Wave" "bitsPerSec" "16"
    ∷ entry "Wave" "fmtLength" "16"
    ∷ entry "Wave" "audioFormat" "1"
    ∷ entry "Wave" "channels" "1"
    ∷ entry "Wave" "endiness" "LE"
    ∷ entry "Paths" "records" "records"
    ∷ entry "Paths" "logs" "logs"
    ∷ entry "Record" "timestamp" "enabled"
    ∷ entry "Record" "hasNumericConvention" "true"
    ∷ entry "Network" "transport" "udp"
    ∷ entry "Network" "port" "1234"
    ∷ entry "Log" "name" "recorder.log"
    ∷ entry "Log" "timestamp" "enabled"
    ∷ entry "Log" "speed" "1000"
    ∷ entry "Heartbeat" "timeout" "2000"
    ∷ entry "Heartbeat" "port" "5678"
    ∷ entry "Heartbeat" "host" "127.0.0.1"
    ∷ entry "Heartbeat" "enabled" "false"
    ∷ []

pub append_entries : Tags → List (String × MPair) → Tags
append_entries m [] = m
append_entries m ((tag, p) ∷ es) = append_entries (append m tag p) es

pub load_defaults : Tags → Bool × Tags
load_defaults m = (true, append_entries m defaults)
