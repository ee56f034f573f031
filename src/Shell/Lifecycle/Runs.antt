-- ===== src/Shell/Lifecycle/Runs.antt =====
-- The way of a program that is started with a configuration, through all of its parts.
use Prim.Native.String.{String}
use text.Mathlib.Text.{◌==◌ as str_eq}
use recd.Common.{ℕ, ◌≡◌, ◌<◌, refl, ap, ◌∙◌, true, Option, none, some, List, [], length, map}
use recd.Config.{Element, get_tag_pairs, load_elements, value}
use recd.Config.Shared.{Store}
use recd.Config.Load.{attributes_of, value-load_elements}
use recd.Chain.{Kind}
use recd.Plugins.{Plugins, Library, Ending, call_main_proxy, load_plugins, proxy_main_all}
use recd.Plugins.Links.{IsChain, Distinct}
use recd.Plugins.Order.{Asks, Apart-nil, load_all_lem}
use recd.Plugins.Requests.{Entry, AllEntries, attributes, asked, requests-attributes}
use recd.Plugins.Tables.{object_of}
use recd.Plugins.Tables.Complete.{AllIn, AllHave-objects}
use recd.Shell.{application}
use recd.Shell.Lifecycle.Returns.{AllReturn, call_each-Linked}
use recd.Shell.Lifecycle.{built, construct_app}

-- The plugins of the repository, none of them loaded.
abbrev pub libraries : List Kind → Plugins
libraries ks = record { interfaces = map object_of ks; head = none; tail = none }

load_plugins_lem :
    (q_library : String → Library) (ks : List Kind) (es : List Entry) (bs : List ℕ)
    → AllEntries es
    → Distinct bs
    → AllIn (length ks) bs
    → Asks q_library (asked es) bs
    → (s : Plugins) × (load_plugins q_library (libraries ks) (attributes es) ≡ some s)
      × IsChain s bs
unfolding load_plugins
load_plugins_lem q_library ks es bs v d inside q =
    let (s, e, c) =
      load_all_lem q_library (asked es) bs (libraries ks) []
        (record { linked = refl; at_end = refl }) tt d (Apart-nil bs) q
        (AllHave-objects ks bs inside) in
    (s, rw (requests-attributes es v) e, c)

-- The configuration that the constructor hands to the plugins: the file's.
abbrev pub loaded_store : Store → List Element → Store
loaded_store st es = record st { tags = (get_tag_pairs (load_elements [] es) "Plugin").1 }

module _ (open_file : String → Option (List Element)) (q_library : String → Library)
    (mains : List String → ℕ → Store → Option Ending) (inits : ℕ → Store → Option Ending) where
  -- The constructor, where every `main_proxy` returns.
  pub construct_app_lem :
      (fuel : ℕ) (args : List String) (st st1 : Store) (ks : List Kind) (es : List Element)
      (entries : List Entry) (bs : List ℕ)
      → application open_file args st.tags ≡ (true, load_elements [] es)
      → attributes_of "Plugin" es ≡ attributes entries
      → AllEntries entries
      → Distinct bs
      → AllIn (length ks) bs
      → Asks q_library (asked entries) bs
      → length bs < fuel
      → AllReturn (mains args) bs (loaded_store st es) st1
      → (s : Plugins) × (construct_app open_file q_library mains inits fuel args (libraries ks) st
          ≡ some (
              built (record {
                m_setup = true;
                store = st1;
                plugins = s;
                registered = true;
                calls = map call_main_proxy bs;
              })))
        × IsChain s bs
  unfolding construct_app get_tag_pairs proxy_main_all value
  construct_app_lem fuel args st st1 ks es entries bs started named v d inside q fueled ret =
      let (s, e, c) = load_plugins_lem q_library ks entries bs v d inside q in
      (
        s,
        rw
            (
              started,
              value-load_elements [] es "Plugin" ∙ named,
              e,
              call_each-Linked (mains args) call_main_proxy bs fuel s s.head (loaded_store st es)
                  st1 c.linked fueled ret,
            )
            (ap
              (λ b. some (
                built (record {
                  m_setup = b;
                  store = st1;
                  plugins = s;
                  registered = b;
                  calls = map call_main_proxy bs;
                })))
              (ap (λ a. a.0) started)),
        c,
      )
