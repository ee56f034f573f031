-- ===== src/Shell/Lifecycle.antt =====
-- app/main.cpp and app/sapplication.cpp from the constructor to `deinit`: the configuration, the plugins that it names, and
-- the calls on them, until one of them calls `exit`. What the plugins' `main_proxy` and `init` do to the configuration is a
-- parameter here (see Chain/Proxy and Server/Transport).
pub mod Returns
pub mod Runs
pub mod Exits
mod Tests
use Prim.Native.String.{String}
use recd.Common.{
  ℕ, Bool, true, false, if◌then◌else◌, Option, none, some, List, [], ◌∷◌, ◌++◌, ◌>>=◌,
}
use recd.Config.{Element, get_tag_pairs}
use recd.Config.Shared.{Store}
use recd.Plugins.{
  Plugins, Library, Call, Ending, returns, exits_with, load_plugins, proxy_main_all, deinit_all,
  init_application,
}
use recd.Plugins.Clear.{clear}
use recd.Shell.{application}

-- `m_setup`, the configuration, the plugins, whether the daemon's signal handlers know the object, and the calls on the
-- plugins so far.
pub record App : Type 0 where
  pub m_setup : Bool
  pub store : Store
  pub plugins : Plugins
  pub registered : Bool
  pub calls : List Call

-- How the constructor and `init` end: with the object, or in an `exit` of a plugin, with the calls so far. `init` also has its
-- result, whether it is 0.
pub data Built : Type 0 where
  built : App → Built
  quits : ℕ → List Call → Built

pub data Initialised : Type 0 where
  initialised : App → Bool → Initialised
  stops : ℕ → List Call → Initialised

-- How `main` goes on: with the event loop, or with the end of the program, its code and the calls so far. What the destructors
-- do then is in `on_signal`, for the end that the signal handler brings.
pub data Ended : Type 0 where
  executes : App → Ended
  exits : ℕ → List Call → Ended

-- What an ended program has done: its code, the calls on the plugins, and the objects that it has deleted.
pub record Exit : Type 0 where
  pub code : ℕ
  pub calls : List Call
  pub deleted : List ℕ

-- `mains` and `inits` are what `main_proxy` and `init` of the plugin at an address do to the configuration, and whether they
-- return.
module _ (open_file : String → Option (List Element)) (q_library : String → Library)
    (mains : List String → ℕ → Store → Option Ending) (inits : ℕ → Store → Option Ending) where
  -- The constructor.
  unfoldable pub construct_app : ℕ → List String → Plugins → Store → Option Built
  construct_app fuel args s st =
      let (setup, m1) = application open_file args st.tags in
      let (attribs, m2) = get_tag_pairs m1 "Plugin" in
      load_plugins q_library s attribs >>= λ s'.
      proxy_main_all (mains args) fuel s' (record st { tags = m2 }) >>= λ (calls, e). some (elim e [
        | exits_with code ↦ quits code calls
        | returns st' ↦ built (record {
          m_setup = setup;
          store = st';
          plugins = s';
          registered = setup;
          calls = calls;
        })
      ])

  -- `init`, whose result is 0 or -1.
  unfoldable pub init_app : Bool → ℕ → App → Option Initialised
  init_app log_init fuel app =
      init_application inits log_init fuel app.plugins app.m_setup app.store >>= λ (calls, ok, e).
      some (elim e [
        | exits_with code ↦ stops code (app.calls ++ calls)
        | returns st' ↦
            initialised
              (record app {
                m_setup = if log_init then ok else app.m_setup;
                store = st';
                calls = app.calls ++ calls;
              })
              ok
      ])

  -- The end of `main`.
  unfoldable pub run_app : Bool → ℕ → List String → Plugins → Store → Option Ended
  run_app log_init fuel args s st = construct_app fuel args s st >>= λ c. elim c [
    | quits code calls ↦ some (exits code calls)
    | built app ↦ init_app log_init fuel app >>= λ i. some (elim i [
      | stops code calls ↦ exits code calls
      | initialised app' ok ↦ if ok then executes app' else exits 4 app'.calls
    ])
  ]

unfoldable pub deinit_app : ℕ → App → Option App
deinit_app fuel app =
    deinit_all fuel app.plugins >>= λ calls. some (record app { calls = app.calls ++ calls })

-- `testSig` and the end of the program that its `exit` brings, with the destructor of the list of plugins.
unfoldable pub on_signal : ℕ → App → Option Exit
on_signal fuel app =
    let stopped = deinit_app fuel app in
    (if app.registered then stopped else some app) >>= λ app'.
    clear fuel app'.plugins >>= λ (calls, deleted).
    some (record { code = 10; calls = app'.calls ++ calls; deleted = deleted })
