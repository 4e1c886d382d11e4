-- ===== src/Core/Types.antt =====
-- include/vectorforge/types.hpp and src/core/types.cpp: ids, limits, the enumerations, their names.
use Prim.Native.String.{String}
use text.Mathlib.Text.{◌==◌ as str_eq}
use vector_forge.Common.{ℕ, ◌-◌, ◌^◌, ◌||◌, if◌then◌else◌}
use vector_forge.Core.Status.{Result, ok, err, invalid_argument}

pub data Metric : Type 0 where
  l2 inner_product cosine : Metric

pub data IndexType : Type 0 where
  flat hnsw : IndexType

pub data Concurrency : Type 0 where
  coarse concurrent : Concurrency

abbrev pub invalid_external_id : ℕ
invalid_external_id = 2 ^ 64 - 1

abbrev pub invalid_internal_id : ℕ
invalid_internal_id = 2 ^ 32 - 1

abbrev pub max_dim : ℕ
max_dim = 65536

-- Every internal id but the invalid one.
abbrev pub max_vectors_per_collection : ℕ
max_vectors_per_collection = invalid_internal_id

-- The three overloads of `to_string`.
pub metric_to_string : Metric → String
metric_to_string l2 = "l2"
metric_to_string inner_product = "ip"
metric_to_string cosine = "cosine"

pub index_type_to_string : IndexType → String
index_type_to_string flat = "flat"
index_type_to_string hnsw = "hnsw"

pub concurrency_to_string : Concurrency → String
concurrency_to_string coarse = "coarse"
concurrency_to_string concurrent = "concurrent"

pub parse_metric : String → Result Metric
parse_metric text =
    if str_eq text "l2"
    then ok l2
    else if str_eq text "ip" || str_eq text "inner_product"
    then ok inner_product
    else if str_eq text "cosine"
    then ok cosine
    else err invalid_argument

pub parse_index_type : String → Result IndexType
parse_index_type text =
    if str_eq text "flat"
    then ok flat
    else if str_eq text "hnsw"
    then ok hnsw
    else err invalid_argument

pub parse_concurrency : String → Result Concurrency
parse_concurrency text =
    if str_eq text "coarse"
    then ok coarse
    else if str_eq text "concurrent"
    then ok concurrent
    else err invalid_argument
