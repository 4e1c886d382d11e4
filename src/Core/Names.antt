-- ===== src/Core/Names.antt =====
-- src/core/status.cpp and src/storage/format.cpp: the names of the codes of errors and of the types of
-- sections. A section's type is its underlying integer; `none` stands for `ErrorCode::Ok`.
use Prim.Native.String.{String}
use vector_forge.Common.{ℕ, Option, none, some, if◌then◌else◌, ◌==◌}
use vector_forge.Core.Status.{
  ErrorCode, invalid_argument, dimension_mismatch, not_found, already_exists, corrupt_data,
  unsupported_version, io_error, resource_exhausted, failed_precondition, unavailable, internal,
}

pub error_code_to_string : Option ErrorCode → String
error_code_to_string none = "OK"
error_code_to_string (some invalid_argument) = "INVALID_ARGUMENT"
error_code_to_string (some dimension_mismatch) = "DIMENSION_MISMATCH"
error_code_to_string (some not_found) = "NOT_FOUND"
error_code_to_string (some already_exists) = "ALREADY_EXISTS"
error_code_to_string (some corrupt_data) = "CORRUPT_DATA"
error_code_to_string (some unsupported_version) = "UNSUPPORTED_VERSION"
error_code_to_string (some io_error) = "IO_ERROR"
error_code_to_string (some resource_exhausted) = "RESOURCE_EXHAUSTED"
error_code_to_string (some failed_precondition) = "FAILED_PRECONDITION"
error_code_to_string (some unavailable) = "UNAVAILABLE"
error_code_to_string (some internal) = "INTERNAL"

pub section_type_to_string : ℕ → String
section_type_to_string type =
    if type == 1
    then "METADATA"
    else if type == 2
    then "VECTORS"
    else if type == 3
    then "LABELS"
    else if type == 4
    then "TOMBSTONES"
    else if type == 5
    then "LEVELS"
    else if type == 6
    then "L0_LINKS"
    else if type == 7
    then "UPPER_INDEX"
    else if type == 8
    then "UPPER_LINKS"
    else "UNKNOWN"
