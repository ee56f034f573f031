-- ===== src/Plugins.antt =====
-- The plugin chain: InterfaceList of app/defs.cpp, RecPluginMngr of app/plugin-manager.cpp, and the calls that
-- SApplication of app/sapplication.cpp makes along it. Each plugin has one static `interface_t`, here a place in
-- a list; `none` is a null pointer that is followed, an index outside a list or a walk that does not end.
pub mod Links
pub mod Order
pub mod Requests
pub mod Clear
pub mod Names
pub mod Twice
pub mod Tables
mod Tests
use Prim.Native.String.{String}
use text.Mathlib.Text.{◌==◌ as str_eq}
use recd.Common.{
  ℕ, zero, suc, ◌+◌, Bool, true, false, Option, none, some, List, [], ◌∷◌, ◌++◌, if◌then◌else◌, ltb,
  length, get_elem?, set, ◌>>=◌, ◌&&◌, not, map,
}
use recd.Config.{MPair, PairList}
use recd.Config.Shared.{Store}

-- `interface_t`, as far as the chain depends on it; `complete` says whether no function pointer is null.
pub record Interface : Type 0 where
  pub complete : Bool
  pub name : String
  pub next_plugin : Option ℕ

pub record Plugins : Type 0 where
  pub interfaces : List Interface
  pub head : Option ℕ
  pub tail : Option ℕ

-- A change of the object at an address.
unfoldable pub update : (Interface → Interface) → Plugins → ℕ → Option Plugins
update change s a = get_elem? s.interfaces a >>= λ it.
    some (record s { interfaces = set s.interfaces a (change it) })

unfoldable pub put : Plugins → ℕ → Option Plugins
put s iface = elim s.head [
  | none ↦ some (record s { head = some iface; tail = some iface })
  | some h ↦ elim s.tail [
    | none ↦ none
    | some t ↦ update (λ it. record it { next_plugin = some iface }) s t >>= λ s'.
        some (record s' { tail = some iface })
  ]
]

-- What QLibrary makes of a file: it is not loaded, it has no `get_interface`, or it has the one of the plugin
-- whose object is at this address.
pub data Library : Type 0 where
  not_loaded no_symbol : Library
  plugin : ℕ → Library

-- `get_interface()` resets `nextPlugin`, `setName` stores the name, and the object is put.
unfoldable pub load_plugin : Plugins → ℕ → String → Option (Plugins × Bool)
load_plugin s a name = get_elem? s.interfaces a >>= λ it.
    update (λ it. record it { next_plugin = none }) s a >>= λ s1.
    if it.complete
    then (update (λ it. record it { name = name }) s1 a >>= λ s2.
        put s2 a >>= λ s3. some (s3, true))
    else some (s1, false)

unfoldable pub load_library :
    (String → Library) → Plugins → String → String → Option (Plugins × Bool)
load_library q_library s src name = elim (q_library src) [
  | not_loaded ↦ some (s, false)
  | no_symbol ↦ some (s, false)
  | plugin a ↦ load_plugin s a name
]

-- `while (it != nullptr) { ...; it = it->nextPlugin; }`: the objects that the loop comes to, on fuel.
unfoldable pub walk : ℕ → Plugins → Option ℕ → Option (List ℕ)
walk zero s it = none
walk (suc fuel) s none = some []
walk (suc fuel) s (some a) =
    get_elem? s.interfaces a >>= λ it. walk fuel s it.next_plugin >>= λ rest. some (a ∷ rest)

-- `getInterface` and `getPluginByName`: the first object of this name.
unfoldable pub find_name : ℕ → Plugins → Option ℕ → String → Option (Option ℕ)
find_name zero s it name = none
find_name (suc fuel) s none name = some none
find_name (suc fuel) s (some a) name = get_elem? s.interfaces a >>= λ it.
    let rest = find_name fuel s it.next_plugin name in
    if str_eq it.name name then some (some a) else rest

abbrev pub get_interface : ℕ → Plugins → String → Option (Option ℕ)
get_interface fuel s name = find_name fuel s s.head name

-- The calls that the application makes on the plugins.
pub data Call : Type 0 where
  call_init call_main_proxy call_deinit : ℕ → Call

-- How a plugin's function ends: it returns, with the configuration that it leaves, or it calls `exit` with a code.
pub data Ending : Type 0 where
  returns : Store → Ending
  exits_with : ℕ → Ending

-- `while (it != nullptr) { it->f(...); it = it->nextPlugin; }` for a function of the plugin at an address, on fuel: the calls
-- that are made and how the loop ends. What the plugins' functions do is a parameter, `none` where one is undefined.
unfoldable pub call_each :
    (ℕ → Store → Option Ending)
    → (ℕ → Call)
    → ℕ
    → Plugins
    → Option ℕ
    → Store
    → Option (List Call × Ending)
call_each f call zero s it st = none
call_each f call (suc fuel) s none st = some ([], returns st)
call_each f call (suc fuel) s (some a) st = get_elem? s.interfaces a >>= λ it. f a st >>= λ e.
    elim e [
      | exits_with code ↦ some (call a ∷ [], exits_with code)
      | returns st' ↦
          call_each f call fuel s it.next_plugin st' >>= λ (calls, e'). some (call a ∷ calls, e')
    ]

-- `initAllPlugins`: the calls, `m_setup` and how it ends.
unfoldable pub init_all_plugins :
    (ℕ → Store → Option Ending) → ℕ → Plugins → Bool → Store → Option (List Call × Bool × Ending)
init_all_plugins inits fuel s m_setup st = elim s.head [
  | none ↦ some ([], m_setup, returns st)
  | some h ↦ call_each inits call_init fuel s (some h) st >>= λ (calls, e). some (calls, true, e)
]

unfoldable pub proxy_main_all :
    (ℕ → Store → Option Ending) → ℕ → Plugins → Store → Option (List Call × Ending)
proxy_main_all mains fuel s st = call_each mains call_main_proxy fuel s s.head st

-- The loop of `SApplication::deinit`.
unfoldable pub deinit_all : ℕ → Plugins → Option (List Call)
deinit_all fuel s = walk fuel s s.head >>= λ its. some (map call_deinit its)

-- `SApplication::init`: the calls, whether it returns 0, and how it ends. The two attributes that it reads after this have no
-- effect but that a missing tag becomes an empty one, which is left out.
unfoldable pub init_application :
    (ℕ → Store → Option Ending)
    → Bool
    → ℕ
    → Plugins
    → Bool
    → Store
    → Option (List Call × Bool × Ending)
init_application inits log_init fuel s m_setup st =
    if log_init then init_all_plugins inits fuel s m_setup st else some ([], false, returns st)

-- The loop of `loadPlugins` over the attributes of the tag `Plugin`: what it loads, the file and then the name.
unfoldable pub requests : PairList → Option (List (String × String))
requests [] = some []
requests (p ∷ ps) =
    let rest = requests ps in
    if str_eq p.type1 "name" && not (str_eq p.type2 "")
    then (if ltb (length (p ∷ ps)) 3
        then rest
        else get_elem? (p ∷ ps) 3 >>= λ q. rest >>= λ reqs. some ((q.type2, p.type2) ∷ reqs))
    else rest

-- The libraries loaded one after the other; a failure is logged and otherwise ignored.
unfoldable pub load_all : (String → Library) → Plugins → List (String × String) → Option Plugins
load_all q_library s [] = some s
load_all q_library s ((src, name) ∷ reqs) =
    load_library q_library s src name >>= λ (s', res). load_all q_library s' reqs

unfoldable pub load_plugins : (String → Library) → Plugins → PairList → Option Plugins
load_plugins q_library s attribs = requests attribs >>= λ reqs. load_all q_library s reqs
