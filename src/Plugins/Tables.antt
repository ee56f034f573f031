-- ===== src/Plugins/Tables.antt =====
-- The objects that the plugins' `get_interface` fill, and the test of app/plugin-manager.cpp for null pointers.
pub mod Complete
use recd.Common.{
  ℕ, ◌≡◌, refl, ap, Bool, true, false, ◌||◌, if◌then◌else◌, Option, none, some, List, [], ◌∷◌, map,
  length, ◌<◌, suc, zero, arith,
}
use recd.Chain.{Kind, null_plugin, producer, consumer, capture, udp_server, md5, dtmf, recorder}
use recd.Plugins.{Interface}
use recd.Plugins.Links.{has_all}
use recd.Plugins.Order.{AllHave}

-- `interface_t`: for each function pointer the plugin whose function it points to; `none` is null.
pub record Table : Type 0 where
  pub init : Option Kind
  pub copy : Option Kind
  pub put_ndata : Option Kind
  pub put_data : Option Kind
  pub get_data : Option Kind
  pub deinit : Option Kind
  pub main_proxy : Option Kind
  pub set_name : Option Kind
  pub get_name : Option Kind
  pub get_self : Option Kind
  pub next_plugin : Option ℕ

-- "explicitly null everything", which the constructors do too.
abbrev pub null_table : Table
null_table = record {
  init = none;
  copy = none;
  put_ndata = none;
  put_data = none;
  get_data = none;
  deinit = none;
  main_proxy = none;
  set_name = none;
  get_name = none;
  get_self = none;
  next_plugin = none;
}

unfoldable pub null_interface : Table → Table
null_interface t = record t {
  init = some null_plugin;
  deinit = some null_plugin;
  get_data = some null_plugin;
  put_data = some null_plugin;
  put_ndata = some null_plugin;
  main_proxy = some null_plugin;
  copy = some null_plugin;
  set_name = some null_plugin;
  get_name = some null_plugin;
  get_self = some null_plugin;
  next_plugin = none;
}

unfoldable pub producer_interface : Table → Table
producer_interface t = record t {
  init = some producer;
  deinit = some producer;
  get_data = some producer;
  put_data = some producer;
  put_ndata = some producer;
  main_proxy = some producer;
  copy = some producer;
  set_name = some producer;
  get_name = some producer;
  get_self = some producer;
  next_plugin = none;
}

unfoldable pub consumer_interface : Table → Table
consumer_interface t = record t {
  init = some consumer;
  deinit = some consumer;
  get_data = some consumer;
  put_data = some consumer;
  put_ndata = some consumer;
  main_proxy = some consumer;
  copy = some consumer;
  set_name = some consumer;
  get_name = some consumer;
  get_self = some consumer;
  next_plugin = none;
}

unfoldable pub md5_interface : Table → Table
md5_interface t = record t {
  init = some md5;
  deinit = some md5;
  get_data = some md5;
  put_data = some md5;
  put_ndata = some md5;
  main_proxy = some md5;
  copy = some md5;
  set_name = some md5;
  get_name = some md5;
  get_self = some md5;
  next_plugin = none;
}

unfoldable pub capture_interface : Table → Table
capture_interface t = record t {
  init = some capture;
  deinit = some capture;
  copy = some capture;
  put_data = some capture;
  put_ndata = some capture;
  get_data = some capture;
  main_proxy = some capture;
  get_self = some capture;
  set_name = some capture;
  get_name = some capture;
  next_plugin = none;
}

unfoldable pub dtmf_interface : Table → Table
dtmf_interface t = record t {
  init = some dtmf;
  deinit = some dtmf;
  copy = some dtmf;
  put_data = some dtmf;
  put_ndata = some dtmf;
  get_data = some dtmf;
  main_proxy = some dtmf;
  get_self = some dtmf;
  set_name = some dtmf;
  get_name = some dtmf;
  next_plugin = none;
}

unfoldable pub server_interface : Table → Table
server_interface t = record t {
  init = some udp_server;
  deinit = some udp_server;
  copy = some udp_server;
  put_data = some udp_server;
  put_ndata = some udp_server;
  get_data = some udp_server;
  main_proxy = some udp_server;
  get_self = some udp_server;
  set_name = some udp_server;
  get_name = some udp_server;
  next_plugin = none;
}

unfoldable pub recorder_interface : Table → Table
recorder_interface t = record t {
  init = some recorder;
  deinit = some recorder;
  put_data = some recorder;
  put_ndata = some recorder;
  get_data = some recorder;
  main_proxy = some recorder;
  get_self = some recorder;
  copy = some recorder;
  set_name = some recorder;
  get_name = some recorder;
  next_plugin = none;
}

unfoldable pub fill_table : Kind → Table → Table
fill_table null_plugin t = null_interface t
fill_table producer t = producer_interface t
fill_table consumer t = consumer_interface t
fill_table md5 t = md5_interface t
fill_table capture t = capture_interface t
fill_table dtmf t = dtmf_interface t
fill_table udp_server t = server_interface t
fill_table recorder t = recorder_interface t

abbrev is_null : Option Kind → Bool
is_null none = true
is_null (some k) = false

-- The test of `loadLibrary`: whether nothing is missing.
unfoldable pub is_complete : Table → Bool
is_complete t =
    if is_null t.deinit
      || is_null t.init
      || is_null t.get_data
      || is_null t.put_data
      || is_null t.put_ndata
      || is_null t.main_proxy
      || is_null t.copy
      || is_null t.get_self
      || is_null t.set_name
      || is_null t.get_name
    then false
    else true

-- The object of a plugin's library, as the chain sees it.
unfoldable pub object_of : Kind → Interface
object_of k = record {
  complete = is_complete (fill_table k null_table);
  name = "";
  next_plugin = (fill_table k null_table).next_plugin;
}
