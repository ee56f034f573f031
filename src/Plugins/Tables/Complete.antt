-- ===== src/Plugins/Tables/Complete.antt =====
-- The objects of the plugins' `get_interface` are complete.
use recd.Common.{
  ℕ, ◌≡◌, refl, ap, true, none, some, List, [], ◌∷◌, map, length, ◌<◌, suc, zero, arith,
}
use recd.Chain.{Kind, null_plugin, producer, consumer, capture, udp_server, md5, dtmf, recorder}
use recd.Plugins.Links.{has_all}
use recd.Plugins.Order.{AllHave}
use recd.Plugins.Tables.{
  Table, null_table, null_interface, producer_interface, consumer_interface, md5_interface,
  capture_interface, dtmf_interface, server_interface, recorder_interface, fill_table, is_complete,
  object_of,
}

-- Every pointer of every plugin's object leads to a function of the same plugin, whatever was there before, so that no
-- plugin of the repository is refused.
pub own_functions :
    (k : Kind) (t : Table)
    → (is_complete (fill_table k t) ≡ true)
      × (fill_table k t ≡ record {
        init = some k;
        copy = some k;
        put_ndata = some k;
        put_data = some k;
        get_data = some k;
        deinit = some k;
        main_proxy = some k;
        set_name = some k;
        get_name = some k;
        get_self = some k;
        next_plugin = none;
      })
unfolding is_complete fill_table null_interface producer_interface consumer_interface md5_interface
    capture_interface dtmf_interface server_interface recorder_interface
own_functions null_plugin t = (refl, refl)
own_functions producer t = (refl, refl)
own_functions consumer t = (refl, refl)
own_functions md5 t = (refl, refl)
own_functions capture t = (refl, refl)
own_functions dtmf t = (refl, refl)
own_functions udp_server t = (refl, refl)
own_functions recorder t = (refl, refl)

-- These addresses are places in a list of this length.
abbrev pub AllIn : ℕ → List ℕ → Type 0
AllIn n [] = Unit {0}
AllIn n (b ∷ bs) = (b < n) × AllIn n bs

object_of-complete : (k : Kind) → (object_of k).complete ≡ true
unfolding object_of
object_of-complete k = (own_functions k null_table).0

has_all-objects :
    (ks : List Kind) (b : ℕ) → b < length ks → has_all (map object_of ks) b ≡ some true
has_all-objects [] b h = absurd (omega arith)
has_all-objects (k ∷ ks) zero h = ap some (object_of-complete k)
has_all-objects (k ∷ ks) (suc b) h = has_all-objects ks b (omega arith)

-- The plugins of the repository are complete.
pub AllHave-objects :
    (ks : List Kind) (bs : List ℕ) → AllIn (length ks) bs → AllHave (map object_of ks) bs
AllHave-objects ks [] h = tt
AllHave-objects ks (b ∷ bs) h = (has_all-objects ks b h.0, AllHave-objects ks bs h.1)
