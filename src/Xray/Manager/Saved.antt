-- ===== src/Xray/Manager/Saved.antt =====
-- internal/xray/persist.go and running_config.go: the request that is saved for the next boot, and the
-- configuration that the core was started with.
use remnaplus_alpine_node.Prelude.{
  Bool, false, not, ◌||◌, [], if◌then◌else◌, Str, str_eq, ◌==◌, Option, none, some,
}
use remnaplus_alpine_node.Prelude.Json.{Fields, end, field}
use remnaplus_alpine_node.Xray.Manager.{StartRequest, Manager}

-- Reading last-start.json: there is none, it cannot be read, or its text.
pub data SavedFile : Type 0 where
  no_file unreadable : SavedFile
  text : Str → SavedFile

-- What is loaded: a request, none, or an error.
pub data Loaded : Type 0 where
  load_error nothing_saved : Loaded
  loaded : StartRequest → Loaded

abbrev pub if_configured : StartRequest → Fields → Loaded
if_configured req end = nothing_saved
if_configured req (field key value rest) =
    loaded (record req { internals = record req.internals { force_restart = false } })

abbrev pub parsed : Option StartRequest → Loaded
parsed none = load_error
parsed (some req) = if_configured req req.xray_config

abbrev pub load_file : (Str → Option StartRequest) → SavedFile → Loaded
load_file unmarshal no_file = nothing_saved
load_file unmarshal unreadable = load_error
load_file unmarshal (text raw) = parsed (unmarshal raw)

-- `unmarshal` is json.Unmarshal.
unfoldable pub load_persisted_start : (Str → Option StartRequest) → Str → SavedFile → Loaded
load_persisted_start unmarshal data_dir file =
    if data_dir == [] then nothing_saved else load_file unmarshal file

-- RunningConfigResponse by its state.
pub data RunningConfigResponse : Type 0 where
  busy stopped_core unavailable : RunningConfigResponse
  running_config : Str → Str → RunningConfigResponse

-- RunningConfig, with the answer of PingXrayGRPC.
unfoldable pub running_config_of : Bool → Manager → RunningConfigResponse
running_config_of ping m =
    if m.lifecycle_locked
    then busy
    else if not m.xray_online || not ping
    then stopped_core
    else if m.running_config_json == [] || m.running_config_captured_at == []
    then unavailable
    else running_config m.running_config_json m.running_config_captured_at
