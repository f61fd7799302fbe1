-- ===== src/Config.antt =====
-- src/config.h and src/config.cpp. The environment is that of `Util.Env`.
pub mod Laws
use autodngconverter.Base.{
  Bool, true, false, ◌||◌, Option, none, some, List, [], ◌∷◌, map, Bytes, codes, tolower, bytes_eq,
  ℤ, pos, stoi,
}
use autodngconverter.Util.Trim.{skip_front, skip_back}
use autodngconverter.Util.Env.{Env, getenv}

pub record Config : Type 0 where
  pub db_host : Bytes
  pub db_port : ℤ
  pub db_user : Bytes
  pub db_password : Bytes
  pub db_name : Bytes
  pub watch_dir : Bytes
  pub output_dir : Bytes
  pub archive_dir : Bytes
  pub db_dir : Bytes
  pub folder_schema : Bytes
  pub file_pattern : Bytes
  pub converter_engine : Bytes
  pub converter_engine_bin : Bytes
  pub appdata_dir : Bytes
  pub exiftool_bin : Bytes
  pub gen_thumb_jpeg : Bool
  pub def_compression : Bytes
  pub def_dng_version : Bytes
  pub def_preview_medium : Bytes
  pub def_preview_full : Bytes
  pub def_jpeg_quality : ℤ
  pub def_linear : Bool
  pub poll_interval_sec : ℤ
  pub debounce_sec : ℤ
  pub queue_size : ℤ
  pub max_converter_workers : ℤ
  pub exiftool_daemon : Bool
  pub dead_letter_max_retries : ℤ
  pub fast_fingerprint : Bool
  pub alert_push_url : Bytes
  pub http_port : ℤ
  pub rotation_grace_ms : ℤ
  pub rotation_mode : Bytes
  pub immich_url : Bytes
  pub immich_token : Bytes
  pub digikam_rescan : Bytes
  pub api_token : Bytes

abbrev pub default_config : Config
default_config = record {
  db_host = codes "mariadb";
  db_port = pos 3306;
  db_user = codes "rawimport";
  db_password = codes "";
  db_name = codes "rawimport";
  watch_dir = codes "/watch";
  output_dir = codes "/output";
  archive_dir = codes "/archive";
  db_dir = codes "/db";
  folder_schema = codes "%Y/%m";
  file_pattern = codes "IMG_{seq}";
  converter_engine = codes "dnglab";
  converter_engine_bin = codes "";
  appdata_dir = codes "/appdata";
  exiftool_bin = codes "exiftool";
  gen_thumb_jpeg = false;
  def_compression = codes "lossless";
  def_dng_version = codes "1.4";
  def_preview_medium = codes "1024x1024";
  def_preview_full = codes "4000x3000";
  def_jpeg_quality = pos 92;
  def_linear = false;
  poll_interval_sec = pos 10;
  debounce_sec = pos 10;
  queue_size = pos 100;
  max_converter_workers = pos 0;
  exiftool_daemon = true;
  dead_letter_max_retries = pos 3;
  fast_fingerprint = true;
  alert_push_url = codes "";
  http_port = pos 8080;
  rotation_grace_ms = pos 2000;
  rotation_mode = codes "metadata";
  immich_url = codes "";
  immich_token = codes "";
  digikam_rescan = codes "touch";
  api_token = codes "";
}

-- The file's own `trim`, with `find_if_not` from both ends.
unfoldable pub trim : Bytes → Bytes
unfolding skip_front skip_back
trim s = elim (skip_front s) [ [] ↦ [] | c ∷ r ↦ skip_back (c ∷ r) ]

or_default : Bytes → Bytes → Bytes
or_default [] def = def
or_default (c ∷ s) def = c ∷ s

unfoldable pub env_or : Env → Bytes → Bytes → Bytes
unfolding or_default trim getenv
env_or env name def = elim (getenv env name) [ none ↦ def | some v ↦ or_default (trim v) def ]

unfoldable pub env_bool : Env → Bytes → Bool → Bool
unfolding tolower bytes_eq trim getenv
env_bool env name def = elim (getenv env name) [
  | none ↦ def
  | some v ↦
      let s = map tolower (trim v) in
      bytes_eq s (codes "1") || bytes_eq s (codes "true") || bytes_eq s (codes "yes")
]

-- `stoi`, or the default where it throws.
parse_or : Bytes → ℤ → ℤ
unfolding stoi
parse_or [] def = def
parse_or (c ∷ s) def = elim (stoi (c ∷ s)) [ none ↦ def | some n ↦ n ]

unfoldable pub env_int : Env → Bytes → ℤ → ℤ
unfolding parse_or trim getenv
env_int env name def = elim (getenv env name) [ none ↦ def | some v ↦ parse_or (trim v) def ]

-- `LoadConfig`
unfoldable pub load_config : Env → Config
load_config env =
    let c = default_config in
    record {
      db_host = env_or env (codes "DB_HOST") c.db_host;
      db_port = env_int env (codes "DB_PORT") c.db_port;
      db_user = env_or env (codes "DB_USER") c.db_user;
      db_password = env_or env (codes "DB_PASSWORD") c.db_password;
      db_name = env_or env (codes "DB_NAME") c.db_name;
      watch_dir = env_or env (codes "WATCH_DIR") c.watch_dir;
      output_dir = env_or env (codes "OUTPUT_DIR") c.output_dir;
      archive_dir = env_or env (codes "ARCHIVE_DIR") c.archive_dir;
      db_dir = env_or env (codes "DB_DIR") c.db_dir;
      folder_schema = env_or env (codes "FOLDER_SCHEMA") c.folder_schema;
      file_pattern = env_or env (codes "FILE_PATTERN") c.file_pattern;
      converter_engine = env_or env (codes "CONVERTER_ENGINE") c.converter_engine;
      converter_engine_bin = env_or env (codes "CONVERTER_ENGINE_BIN") c.converter_engine_bin;
      appdata_dir = env_or env (codes "APPDATA_DIR") c.appdata_dir;
      exiftool_bin = env_or env (codes "EXIFTOOL_BIN") c.exiftool_bin;
      gen_thumb_jpeg = env_bool env (codes "GEN_THUMB_JPEG") c.gen_thumb_jpeg;
      def_compression = env_or env (codes "DEF_COMPRESSION") c.def_compression;
      def_dng_version = env_or env (codes "DEF_DNG_VERSION") c.def_dng_version;
      def_preview_medium = env_or env (codes "DEF_PREVIEW_MEDIUM") c.def_preview_medium;
      def_preview_full = env_or env (codes "DEF_PREVIEW_FULL") c.def_preview_full;
      def_jpeg_quality = env_int env (codes "DEF_JPEG_QUALITY") c.def_jpeg_quality;
      def_linear = env_bool env (codes "DEF_LINEAR") c.def_linear;
      poll_interval_sec =
          env_int env (codes "POLL_INTERVAL")
            (env_int env (codes "POLL_INTERVAL_SEC") c.poll_interval_sec);
      debounce_sec = env_int env (codes "DEBOUNCE_SEC") c.debounce_sec;
      queue_size = env_int env (codes "QUEUE_SIZE") c.queue_size;
      max_converter_workers = env_int env (codes "MAX_CONVERTER_WORKERS") c.max_converter_workers;
      exiftool_daemon = env_bool env (codes "EXIFTOOL_DAEMON") c.exiftool_daemon;
      dead_letter_max_retries =
          env_int env (codes "DEAD_LETTER_MAX_RETRIES") c.dead_letter_max_retries;
      fast_fingerprint = env_bool env (codes "FAST_FINGERPRINT") c.fast_fingerprint;
      alert_push_url = env_or env (codes "ALERT_PUSH_URL") c.alert_push_url;
      http_port = env_int env (codes "HTTP_PORT") c.http_port;
      rotation_grace_ms = env_int env (codes "ROTATION_GRACE_MS") c.rotation_grace_ms;
      rotation_mode = env_or env (codes "ROTATION_MODE") c.rotation_mode;
      immich_url = env_or env (codes "IMMICH_URL") c.immich_url;
      immich_token = env_or env (codes "IMMICH_TOKEN") c.immich_token;
      digikam_rescan = env_or env (codes "DIGIKAM_RESCAN") c.digikam_rescan;
      api_token = env_or env (codes "API_TOKEN") c.api_token;
    }
