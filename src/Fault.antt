-- ===== src/Fault.antt =====
-- crates/fslite-core/src/error.rs: `ErrorCode`, `FsError` and `FsResult`. A message is a label
-- that the code fixes, ": " and the subject; the model keeps the subject alone.
use fslite.Common.{ℕ, Option, none, Text}
use fslite.Path.{VirtualPath}

pub data ErrorCode : Type 0 where
  invalid_path_or_name_code not_found_code already_exists_code wrong_node_type_code : ErrorCode
  directory_not_empty_code link_loop_code broken_link_code : ErrorCode
  workspace_boundary_violation_code permission_denied_code revision_conflict_code : ErrorCode
  quota_exceeded_code invalid_range_code invalid_cursor_code storage_busy_code : ErrorCode
  internal_storage_failure_code : ErrorCode

-- What the constructors are given to display.
pub data Subject : Type 0 where
  of_path : VirtualPath → Subject
  of_trash : ℕ → Subject
  of_text : Text → Subject
  of_operation : ℕ → Subject
  of_limit : ℕ → Subject
  of_workspace : ℕ → Subject
  of_storage : Subject

-- `details` is null, or the index that `batch` adds.
pub record FsError : Type 0 where
  pub code : ErrorCode
  pub message : Subject
  pub details : Option ℕ

pub data FsResult {ℓ} (A : Type ℓ) : Type ℓ where
  ok : A → FsResult A
  err : FsError → FsResult A

abbrev pub for_subject : ErrorCode → Subject → FsError
for_subject code subject = record { code = code; message = subject; details = none }

abbrev pub invalid_path_or_name : Subject → FsError
invalid_path_or_name = for_subject invalid_path_or_name_code

abbrev pub not_found : Subject → FsError
not_found = for_subject not_found_code

abbrev pub already_exists : Subject → FsError
already_exists = for_subject already_exists_code

abbrev pub wrong_node_type : Subject → FsError
wrong_node_type = for_subject wrong_node_type_code

abbrev pub directory_not_empty : Subject → FsError
directory_not_empty = for_subject directory_not_empty_code

abbrev pub link_loop : Subject → FsError
link_loop = for_subject link_loop_code

abbrev pub broken_link : Subject → FsError
broken_link = for_subject broken_link_code

abbrev pub permission_denied : Subject → FsError
permission_denied = for_subject permission_denied_code

abbrev pub revision_conflict : Subject → FsError
revision_conflict = for_subject revision_conflict_code

abbrev pub quota_exceeded : Subject → FsError
quota_exceeded = for_subject quota_exceeded_code

abbrev pub invalid_range : Subject → FsError
invalid_range = for_subject invalid_range_code

abbrev pub internal_storage_failure : Subject → FsError
internal_storage_failure = for_subject internal_storage_failure_code
