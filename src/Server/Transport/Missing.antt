-- ===== src/Server/Transport/Missing.antt =====
-- What `init` of udp-streamer/server.cpp does with the port, and what the configuration answers afterwards.
use Prim.Native.String.{String}
use text.Mathlib.Text.{◌==◌ as str_eq}
use mathlib.Core.Option
use recd.Common.{ℕ, ◌≡◌, refl, ap, ◌∙◌, Bool, Option, none, some, if-true, get_elem?}
use recd.Config.{MPair, value, find_attrib}
use recd.Config.Shared.{
  Store, none_object, get_attrib_ref, get_attrib_ref-missing, find_attrib-found, deref, set_type2,
  look_up, find_pos, find_attrib-missing, deref-get_attrib_ref, value-get_attrib_ref,
  none_pair-get_attrib_ref, look_up_lem,
}
use recd.Server.{Server}
use recd.Server.Transport.{Transport, bind_udp, start_transport, read_port, init_transport}

-- The configuration after both questions of `init`.
after_questions : Store → Store
after_questions st = (get_attrib_ref (get_attrib_ref st "Network" "transport").1 "Network" "port").1

value-after_questions :
    (st : Store) (tag : String) → value (after_questions st).tags tag ≡ value st.tags tag
unfolding after_questions
value-after_questions st tag =
    value-get_attrib_ref (get_attrib_ref st "Network" "transport").1 "Network" "port" tag
    ∙ value-get_attrib_ref st "Network" "transport" tag

none_pair-after_questions : (st : Store) → (after_questions st).none_pair ≡ st.none_pair
unfolding after_questions
none_pair-after_questions st =
    none_pair-get_attrib_ref (get_attrib_ref st "Network" "transport").1 "Network" "port"
    ∙ none_pair-get_attrib_ref st "Network" "transport"

-- The port's pair.
port_pair :
    (st : Store)
    → deref
        (after_questions st)
        (get_attrib_ref (get_attrib_ref st "Network" "transport").1 "Network" "port").0
      ≡ some (find_attrib st.none_pair (value st.tags "Network") "port")
unfolding after_questions
port_pair st =
    deref-get_attrib_ref (get_attrib_ref st "Network" "transport").1 (after_questions st) "Network"
      "port"
      (value-get_attrib_ref (get_attrib_ref st "Network" "transport").1 "Network" "port" "Network")
    ∙ ap
        (λ d.
          some (
            find_attrib d (value (get_attrib_ref st "Network" "transport").1.tags "Network")
              "port"))
        (none_pair-after_questions st)
    ∙ ap (λ ps. some (find_attrib st.none_pair ps "port"))
        (value-get_attrib_ref st "Network" "transport" "Network")

-- The block is over when the port and the pairs after it are known.
init_transport_with :
    (to_int : String → Option ℕ) (bind : ℕ → Bool) (s : Server) (t : Transport) (st st' : Store)
    (n : ℕ)
    → read_port to_int t.port
        (after_questions st)
        (get_attrib_ref (get_attrib_ref st "Network" "transport").1 "Network" "port").0
        (find_attrib st.none_pair (value st.tags "Network") "port")
      ≡ some (n, st')
    → value st'.tags "Network" ≡ value st.tags "Network"
    → init_transport to_int bind s t st
      ≡ some (
          start_transport bind s
            (record t { port = n })
            st'
            (find_attrib st'.none_pair (value st.tags "Network") "transport").type2)
unfolding init_transport after_questions
init_transport_with to_int bind s t st st' n read same =
    rw (port_pair st, read, deref-get_attrib_ref st st' "Network" "transport" same) refl

-- What is written where the port is missing.
read_port-missing :
    (to_int : String → Option ℕ) (n : ℕ) (st : Store) (p : MPair)
    → p.type1 ≡ ""
    → read_port to_int n st none_object p
      ≡ some (n, record st { none_pair = record st.none_pair { type2 = "1234" } })
unfolding read_port set_type2
read_port-missing to_int n st p e = if-true _ _ (ap (λ k. str_eq k "") e)

-- A configuration without a port, whose transport is udp: the server binds the port that it had before, and not the default,
-- and from then on every attribute that is missing, of whatever tag, has the value "1234".
pub init_transport-missing_port :
    (to_int : String → Option ℕ) (bind : ℕ → Bool) (s : Server) (t : Transport) (st : Store)
    (tag attrib : String) (i : ℕ) (transport : MPair)
    → st.none_pair.type1 ≡ ""
    → find_pos (value st.tags "Network") "port" ≡ none
    → find_pos (value st.tags "Network") "transport" ≡ some i
    → get_elem? (value st.tags "Network") i ≡ some transport
    → transport.type2 ≡ "udp"
    → find_pos (value st.tags tag) attrib ≡ none
    → (st' : Store) × (init_transport to_int bind s t st ≡ some (bind_udp bind s t st'))
      × (Option.map (λ (found : MPair × Store). found.0.type2) (look_up st' tag attrib)
          ≡ some "1234")
unfolding start_transport
init_transport-missing_port to_int bind s t st tag attrib i transport fresh missing pos here udp
      absent =
    (
      st',
      init_transport_with to_int bind s t st st' t.port read (value-after_questions st "Network")
          ∙ ap (λ (name : MPair). some (start_transport bind s t st' name.type2))
              (find_attrib-found st'.none_pair (value st.tags "Network") "transport" i transport pos
                here)
          ∙ ap (λ name. some (start_transport bind s t st' name)) udp,
      ap (Option.map (λ (found : MPair × Store). found.0.type2)) (look_up_lem st' tag attrib)
          ∙ ap (λ (found : MPair). some found.type2)
              (find_attrib-missing st'.none_pair (value st'.tags tag) attrib
                (ap (λ ps. find_pos ps attrib) (value-after_questions st tag) ∙ absent)),
    )
  where
    st' : Store
    st' = record (after_questions st) { none_pair = record st.none_pair { type2 = "1234" } }

    read :
        read_port to_int t.port
          (after_questions st)
          (get_attrib_ref (get_attrib_ref st "Network" "transport").1 "Network" "port").0
          (find_attrib st.none_pair (value st.tags "Network") "port")
        ≡ some (t.port, st')
    read =
        rw
          (get_attrib_ref-missing (get_attrib_ref st "Network" "transport").1 "Network" "port" (
            ap (λ ps. find_pos ps "port") (value-get_attrib_ref st "Network" "transport" "Network")
            ∙ missing))
          (read_port-missing to_int t.port (after_questions st) _ (
              ap (λ (p : MPair). p.type1)
                (find_attrib-missing st.none_pair (value st.tags "Network") "port" missing)
              ∙ fresh)
            ∙ ap
                (λ (p : MPair).
                  some (
                    t.port,
                    record (after_questions st) { none_pair = record p { type2 = "1234" } },
                  ))
                (none_pair-after_questions st))
