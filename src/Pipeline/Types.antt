-- ===== src/Pipeline/Types.antt =====
-- The data types of src/pipeline.h.
use autodngconverter.Base.{ℕ, Bool, false, Bytes, codes, ℤ, pos, ◌==◌, ◌&&◌}

pub record ConversionSettings : Type 0 where
  pub compression : Bytes
  pub preview_medium : Bytes
  pub preview_full : Bytes
  pub version : Bytes
  pub jpeg_quality : ℤ
  pub linear : Bool
  pub seed : Bytes

abbrev pub default_settings : ConversionSettings
default_settings = record {
  compression = codes "lossless";
  preview_medium = codes "1024x1024";
  preview_full = codes "4000x3000";
  version = codes "1.4";
  jpeg_quality = pos 92;
  linear = false;
  seed = codes "";
}

pub data ImportStatus : Type 0 where
  pending converting completed failed restored legacy : ImportStatus

-- `to_string(ImportStatus)`
unfoldable pub status_text : ImportStatus → Bytes
status_text pending = codes "pending"
status_text converting = codes "converting"
status_text completed = codes "completed"
status_text failed = codes "failed"
status_text restored = codes "restored"
status_text legacy = codes "legacy"

pub data DateSource : Type 0 where
  exif mtime : DateSource

pub record ImportRecord : Type 0 where
  pub id : ℕ
  pub sequence_id : ℕ
  pub source_path : Bytes
  pub source_hash : Bytes
  pub output_path : Bytes
  pub output_hash : Bytes
  pub camera_model : Bytes
  pub capture_date : Bytes
  pub capture_time : Bytes
  pub folder_schema : Bytes
  pub conversion_settings : Bytes
  pub status : ImportStatus
  pub date_source : DateSource
  pub orientation : ℤ
  pub created_at : Bytes
  pub completed_at : Bytes
  pub error_message : Bytes
  pub sequence_name : Bytes

abbrev pub empty_record : ImportRecord
empty_record = record {
  id = 0;
  sequence_id = 0;
  source_path = codes "";
  source_hash = codes "";
  output_path = codes "";
  output_hash = codes "";
  camera_model = codes "";
  capture_date = codes "";
  capture_time = codes "";
  folder_schema = codes "";
  conversion_settings = codes "";
  status = pending;
  date_source = exif;
  orientation = pos 0;
  created_at = codes "";
  completed_at = codes "";
  error_message = codes "";
  sequence_name = codes "";
}

pub record ReconversionJob : Type 0 where
  pub id : ℕ
  pub import_id : ℕ
  pub previous_output_hash : Bytes
  pub new_output_hash : Bytes
  pub settings : ConversionSettings
  pub reason : Bytes
  pub triggered_at : Bytes
  pub completed_at : Bytes
  pub status : ImportStatus
  pub error_message : Bytes

pub record ExifResult : Type 0 where
  pub date : Bytes
  pub time : Bytes
  pub source : DateSource

pub record FastFingerprint : Type 0 where
  pub size : ℕ
  pub mtime : ℕ
  pub fnv1a_4k : ℕ

-- `FastFingerprint::operator==`
unfoldable pub fingerprint_eq : FastFingerprint → FastFingerprint → Bool
fingerprint_eq a b = a.size == b.size && a.mtime == b.mtime && a.fnv1a_4k == b.fnv1a_4k
