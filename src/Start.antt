-- ===== src/Start.antt =====
-- How the program of harness/jinterop.c starts: its arguments, the settings from the environment,
-- the dictionaries that it loads (dict_table.h), and the objects that it hands to the engine. A C
-- string in an object is the address of its text; `at` says where each static object stands.
pub mod Order
pub mod Settings
use wetype_ime_linux.Base.{
  ℕ, zero, suc, ◌+◌, List, [], ◌∷◌, ◌++◌, Option, none, some, Bool, true, false, not, ◌==◌, ltb,
  if◌then◌else◌, length, take, str_eqb, codes,
}
use wetype_ime_linux.Memory.{JField}
use wetype_ime_linux.Objects.{plain, put_field}

-- `main` on its arguments: daemon mode, the library, and whether it logs. `atoi` is the C library's.
pub record Mode : Type 0 where
  pub daemon : Bool
  pub library : List ℕ
  pub verbose : Bool

unfoldable pub has_daemon : List (List ℕ) → Bool
has_daemon [] = false
has_daemon (a ∷ as') = if str_eqb a (codes "--daemon") then true else has_daemon as'

unfoldable pub library_of : List (List ℕ) → List ℕ
library_of [] = codes "runtime/libwxhld_jni.so"
library_of (a ∷ as') = a

unfoldable pub logs : (List ℕ → ℕ) → List (List ℕ) → Bool
logs atoi (a ∷ b ∷ as') = not (atoi b == 0)
logs atoi other = true

unfoldable pub mode_of : (List ℕ → ℕ) → List (List ℕ) → Mode
mode_of atoi args = record {
  daemon = has_daemon args;
  library = library_of args;
  verbose = if has_daemon args then false else logs atoi args;
}

-- `if (!v || !*v) v = …` on a variable of the environment.
unfoldable pub or_default : List ℕ → Option (List ℕ) → List ℕ
or_default d none = d
or_default d (some []) = d
or_default d (some (c ∷ cs)) = c ∷ cs

-- An entry of `g_dict_table`.
pub record Dict : Type 0 where
  pub name : List ℕ
  pub type : ℕ
  pub version : ℕ

abbrev pub dict : List ℕ → ℕ → ℕ → Dict
dict n t v = record { name = n; type = t; version = v }

abbrev pub dict_table : List Dict
dict_table =
    dict (codes "sw.bin") 65560 1643
    ∷ dict (codes "sd.bin") 65559 1542
    ∷ dict (codes "tts.bin") 65573 586
    ∷ dict (codes "ln2py.bin") 65547 962
    ∷ dict (codes "ssd.bin") 65635 32
    ∷ dict (codes "wsd.bin") 65549 1045
    ∷ dict (codes "prism_v2.bin") 65578 51
    ∷ dict (codes "awb.bin") 65544 1043
    ∷ dict (codes "bwcn.bin") 65536 1356
    ∷ dict (codes "pskvd.bin") 65568 1295
    ∷ dict (codes "ap.bin") 65543 1022
    ∷ dict (codes "md.bin") 262145 1022
    ∷ dict (codes "rsd.bin") 65561 958
    ∷ dict (codes "stt.bin") 65572 583
    ∷ dict (codes "ae.bin") 65569 1107
    ∷ dict (codes "lmcn.bin") 131072 1266
    ∷ dict (codes "bwcnen.bin") 65537 1227
    ∷ dict (codes "cell_dict.sc.zh") 0 867
    ∷ dict (codes "swbd86.bin") 524291 959
    ∷ dict (codes "bwen.bin") 65539 1058
    ∷ dict (codes "mdltr.bin") 262149 486
    ∷ dict (codes "wtid.bin") 65682 305
    ∷ dict (codes "wltm.bin") 65563 969
    ∷ dict (codes "bccn.bin") 65538 1028
    ∷ dict (codes "wpen.bin") 65540 955
    ∷ dict (codes "wwkvc2e.bin") 65566 992
    ∷ dict (codes "akv.bin") 65545 1086
    ∷ dict (codes "wkvc2e.bin") 65553 1535
    ∷ dict (codes "cell_dict.ssrc.zh") 7 1223
    ∷ dict (codes "hp_base.bin") 262144 1513
    ∷ dict (codes "wlwmd.bin") 65564 990
    ∷ dict (codes "tcd.bin") 65570 962
    ∷ dict (codes "enfont.bin") 65576 167
    ∷ dict (codes "editwordt9.bin") 65633 102
    ∷ dict (codes "pcc.bin") 65565 1008
    ∷ dict (codes "elc.bin") 262147 968
    ∷ dict (codes "editpinyin.bin") 65625 100
    ∷ dict (codes "hwd_hand_write.bin") 524290 1118
    ∷ dict (codes "noun_tag_dict.bin") 65580 48
    ∷ dict (codes "atp.bin") 262148 597
    ∷ []

abbrev pub is_base : Dict → Bool
is_base d = str_eqb d.name (codes "hp_base.bin")

-- A loop that collects the entries of the table that pass a test.
unfoldable pub pick : (Dict → Bool) → List Dict → List Dict
pick p [] = []
pick p (d ∷ ds) = let rest = pick p ds in if p d then d ∷ rest else rest

-- `order`: the base first, then the others.
unfoldable pub load_order : List Dict → List Dict
load_order table = pick is_base table ++ pick (λ d. not (is_base d)) table

-- `strtok(tmp, ",")` on the rest of the text, with what is read of a token so far.
unfoldable pub push_token : List ℕ → List (List ℕ) → List (List ℕ)
push_token [] ts = ts
push_token (c ∷ cs) ts = (c ∷ cs) ∷ ts

unfoldable pub tokens : List ℕ → List ℕ → List (List ℕ)
tokens word [] = push_token word []
tokens word (c ∷ cs) =
    let rest = tokens (if c == b',' then [] else word ++ c ∷ []) cs in
    if c == b',' then push_token word rest else rest

unfoldable pub among : List ℕ → List (List ℕ) → Bool
among name [] = false
among name (t ∷ ts) = if str_eqb t name then true else among name ts

-- Whether `WETYPE_SKIP_DICTS` leaves the dictionary out; `snprintf` cuts the list to its buffer.
unfoldable pub is_skipped : Option (List ℕ) → Dict → Bool
is_skipped none d = false
is_skipped (some skip) d =
    if str_eqb skip (codes "ALL") then true else among d.name (tokens [] (take 511 skip))

abbrev pub max_dicts : ℕ
max_dicts = 64

-- The loop over `order`, with `dn` dictionaries taken so far.
unfoldable pub take_dicts : Option (List ℕ) → ℕ → List Dict → List Dict
take_dicts skip dn [] = []
take_dicts skip dn (d ∷ ds) =
    let skipped = take_dicts skip dn ds in
    let taken = d ∷ take_dicts skip (suc dn) ds in
    if ltb dn max_dicts then (if is_skipped skip d then skipped else taken) else []

-- The dictionaries that are handed to the engine.
unfoldable pub chosen : Option (List ℕ) → List Dict → List Dict
chosen skip table = take_dicts skip 0 (load_order table)

-- The path of a dictionary, cut to its buffer.
unfoldable pub dict_path : List ℕ → Dict → List ℕ
dict_path dir d = take 599 (dir ++ b'/' ∷ d.name)

-- The fields of a `DictInfo`, whose path is the text at `path`.
unfoldable pub dict_info : ℕ → Dict → List JField
dict_info path d =
    put_field (plain (codes "version") b'i' d.version)
      (put_field (plain (codes "id") b'i' d.type) (put_field (plain (codes "path") b's' path) []))

-- The static objects of the session's configuration.
pub data Config : Type 0 where
  wubi_config input_augmenter local_most_likely_config local_process_input_config
        cloud_most_likely_config :
      Config
  cloud_process_input_config cloud_recommend_config cloud_text_rewrite_config
        cloud_resource_display_config cloud_engine_config group_sync_info :
      Config

-- The calls of `obj_set` on an object, in order: a name, and a type with a value.
abbrev pub Setting : Type 0
Setting = List ℕ × (ℕ × ℕ)

unfoldable pub set_fields : List Setting → List JField → List JField
set_fields [] fs = fs
set_fields ((name, (type, val)) ∷ ss) fs = set_fields ss (put_field (plain name type val) fs)

abbrev pub config_class : Config → List ℕ
config_class wubi_config = codes "com/tencent/wxhld/info/SessionConfig$WubiConfig"
config_class input_augmenter = codes "com/tencent/wxhld/info/SessionConfig$InputAugmenter"
config_class local_most_likely_config =
    codes "com/tencent/wxhld/info/SessionConfig$LocalMostLikelyConfig"
config_class local_process_input_config =
    codes "com/tencent/wxhld/info/SessionConfig$LocalProcessInputConfig"
config_class cloud_most_likely_config =
    codes "com/tencent/wxhld/info/SessionConfig$CloudMostLikelyConfig"
config_class cloud_process_input_config =
    codes "com/tencent/wxhld/info/SessionConfig$CloudProcessInputConfig"
config_class cloud_recommend_config =
    codes "com/tencent/wxhld/info/SessionConfig$CloudRecommendConfig"
config_class cloud_text_rewrite_config =
    codes "com/tencent/wxhld/info/SessionConfig$CloudTextRewriteConfig"
config_class cloud_resource_display_config =
    codes "com/tencent/wxhld/info/SessionConfig$CloudResourceDisplayConfig"
config_class cloud_engine_config = codes "com/tencent/wxhld/info/SessionConfig$CloudEngineConfig"
config_class group_sync_info = codes "com/tencent/wxhld/info/SessionConfig$GroupSyncInfo"

abbrev pub config_fields : (Config → ℕ) → Config → List Setting
config_fields at wubi_config = (codes "enable_comment", (b'z', 1)) ∷ []
config_fields at input_augmenter =
    (codes "wubi_config", (b'o', (at wubi_config)))
    ∷ (codes "enable_shift_key_correction", (b'z', 0))
    ∷ (codes "enable_exchange", (b'z', 1))
    ∷ (codes "enable_keyboard_neighbour", (b'z', 1))
    ∷ (codes "enable_insert_at_middle", (b'z', 1))
    ∷ (codes "enable_skip", (b'z', 1))
    ∷ (codes "double_pin_solution", (b'i', 0))
    ∷ []
config_fields at local_most_likely_config =
    (codes "enable_normal_emoji", (b'z', 1))
    ∷ (codes "enable_kao_emoji", (b'z', 1))
    ∷ (codes "enable_normal_text", (b'z', 1))
    ∷ (codes "enable_easter_egg", (b'z', 1))
    ∷ (codes "enable_easter_egg_sent_out_candidate", (b'z', 1))
    ∷ (codes "enable_most_likely_filter", (b'z', 1))
    ∷ []
config_fields at local_process_input_config =
    (codes "enable_normal_emoji", (b'z', 1))
    ∷ (codes "enable_kao_emoji", (b'z', 1))
    ∷ (codes "enable_emoji_in_user_dict", (b'z', 1))
    ∷ (codes "enable_symbol_emoji", (b'z', 1))
    ∷ []
config_fields at cloud_most_likely_config =
    (codes "enable_normal_emoji", (b'z', 1))
    ∷ (codes "enable_kao_emoji", (b'z', 1))
    ∷ (codes "enable_baike", (b'z', 1))
    ∷ (codes "enable_normal_text", (b'z', 1))
    ∷ (codes "enable_easter_egg", (b'z', 1))
    ∷ []
config_fields at cloud_process_input_config = (codes "return_cnt", (b'i', 3)) ∷ []
config_fields at cloud_recommend_config = []
config_fields at cloud_text_rewrite_config = []
config_fields at cloud_resource_display_config = []
config_fields at cloud_engine_config =
    (codes "most_likely_config", (b'o', (at cloud_most_likely_config)))
    ∷ (codes "process_input_config", (b'o', (at cloud_process_input_config)))
    ∷ (codes "recommend_config", (b'o', (at cloud_recommend_config)))
    ∷ (codes "text_rewrite_config", (b'o', (at cloud_text_rewrite_config)))
    ∷ (codes "resource_display_config", (b'o', (at cloud_resource_display_config)))
    ∷ []
config_fields at group_sync_info = []

-- `build_sesscfg_nested`: the fields of each object.
unfoldable pub build_sesscfg_nested : (Config → ℕ) → Config → List JField
build_sesscfg_nested at c = set_fields (config_fields at c) []

-- `g_sesscfg`: `keyboard` is `WETYPE_KB`, and `app_name` where the name of the application stands.
abbrev pub session_fields : (Config → ℕ) → ℕ → ℕ → List Setting
session_fields at app_name keyboard =
    (codes "app_name", (b's', app_name))
    ∷ (codes "app_scene", (b'i', 2))
    ∷ (codes "keyboard_type", (b'i', keyboard))
    ∷ (codes "with_async_session_wrapper", (b'z', 1))
    ∷ (codes "with_search_candidate_instantly_session_wrapper", (b'z', 1))
    ∷ (codes "enable_pre_input", (b'z', 1))
    ∷ (codes "enable_auto_most_likely", (b'z', 1))
    ∷ (codes "enable_user_hot_word_recommend", (b'z', 1))
    ∷ (codes "enable_local_correction", (b'z', 1))
    ∷ (codes "input_augmenter", (b'o', (at input_augmenter)))
    ∷ (codes "local_most_likely_config", (b'o', (at local_most_likely_config)))
    ∷ (codes "local_process_input_config", (b'o', (at local_process_input_config)))
    ∷ (codes "cloud_engine_config", (b'o', (at cloud_engine_config)))
    ∷ (codes "group_sync_info", (b'o', (at group_sync_info)))
    ∷ []

unfoldable pub session_config : (Config → ℕ) → ℕ → ℕ → List JField
session_config at app_name keyboard = set_fields (session_fields at app_name keyboard) []

-- `g_initinfo`: `str` is where a text stands, `device` where the scores of the device do; the two
-- variables of the environment.
abbrev pub init_fields : (List ℕ → ℕ) → ℕ → Option (List ℕ) → Option (List ℕ) → List Setting
init_fields str device work assets =
    (codes "platform", (b'i', 1))
    ∷ (codes "uin", (b's', str (codes "123456789012345")))
    ∷ (codes "workDir", (b's', str (or_default (codes "/tmp/wetype-work") work)))
    ∷ (codes "sourcePath", (b's', str (or_default (codes ".deps/wechat-ime/assets") assets)))
    ∷ (codes "appVer", (b's', str (codes "3.5.4")))
    ∷ (codes "systemVersion", (b's', str (codes "linux-6.1")))
    ∷ (codes "deviceName", (b's', str (codes "aarch64-linux")))
    ∷ (codes "devicePerformance", (b'i', 2))
    ∷ (codes "logLevel", (b'i', 0))
    ∷ (codes "packageType", (b'i', 0))
    ∷ (codes "debugLogConfig", (b's', str (codes "{}")))
    ∷ (codes "wevisDeviceScoreInfo", (b'o', device))
    ∷ []

-- The scores of the device: the fields take the addresses of the two floats.
abbrev pub score_fields : ℕ → ℕ → List Setting
score_fields cpu gpu = (codes "cpu_score", (b'f', cpu)) ∷ (codes "gpu_score", (b'f', gpu)) ∷ []

-- Where the dictionaries are, and where the user's own is kept.
unfoldable pub dict_dir : Option (List ℕ) → List ℕ
dict_dir v = or_default (codes ".deps/wechat-ime/assets/config/beta") v

unfoldable pub user_dict : Option (List ℕ) → List ℕ
user_dict work = take 599 (or_default (codes "/tmp/wetype-work") work ++ codes "/userdict")
