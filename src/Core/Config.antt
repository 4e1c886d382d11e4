-- ===== src/Core/Config.antt =====
-- include/vectorforge/config.hpp and src/core/config.cpp: parameters, their defaults and limits.
-- A field of an enumeration is its underlying integer, since a cast can give any; the messages and
-- `level_multiplier`, a floating-point logarithm, are left out.
use vector_forge.Common.{
  ℕ, ◌*◌, ◌%◌, ◌^◌, ◌≤◌, ◌<◌, ◌≡◌, Bool, false, ◌&&◌, ◌||◌, Option, none, some, if◌then◌else◌, ltb,
  ◌==◌, not, arith, ◌↔◌,
}
use vector_forge.Core.Status.{Status, ok, err, invalid_argument}
use vector_forge.Core.Types.{
  max_dim, Metric, IndexType, Concurrency, l2, inner_product, cosine, flat, hnsw, coarse,
  concurrent,
}

abbrev pub min_m : ℕ
min_m = 2

abbrev pub max_m : ℕ
max_m = 512

abbrev pub max_ef : ℕ
max_ef = 2 ^ 20

abbrev pub max_level_cap : ℕ
max_level_cap = 32

abbrev pub max_k : ℕ
max_k = 2 ^ 20

pub record HnswParams : Type 0 where
  pub m : ℕ
  pub ef_construction : ℕ
  pub ef_search : ℕ
  pub max_level : ℕ
  pub seed : ℕ

abbrev pub default_hnsw : HnswParams
default_hnsw = record {
  m = 16;
  ef_construction = 200;
  ef_search = 50;
  max_level = 16;
  seed = 25485434990;
}

pub record CollectionConfig : Type 0 where
  pub dim : ℕ
  pub metric : ℕ
  pub normalize : Bool
  pub index : ℕ
  pub hnsw_params : HnswParams
  pub concurrency : ℕ

pub record SearchParams : Type 0 where
  pub k : ℕ
  pub ef_search : Option ℕ

-- The enumerators of an underlying integer.
unfoldable pub metric_of : ℕ → Option Metric
metric_of n =
    if n == 0
    then some l2
    else if n == 1
    then some inner_product
    else if n == 2
    then some cosine
    else none

unfoldable pub index_type_of : ℕ → Option IndexType
index_type_of n = if n == 0 then some flat else if n == 1 then some hnsw else none

unfoldable pub concurrency_of : ℕ → Option Concurrency
concurrency_of n = if n == 0 then some coarse else if n == 1 then some concurrent else none

-- The two overloads of `is_valid`.
unfoldable pub is_valid_metric : ℕ → Bool
is_valid_metric n = n == 0 || n == 1 || n == 2

unfoldable pub is_valid_index_type : ℕ → Bool
is_valid_index_type n = n == 0 || n == 1

unfoldable pub validate_hnsw : HnswParams → Status
validate_hnsw p =
    if ltb p.m min_m || ltb max_m p.m
    then err invalid_argument
    else if ltb p.ef_construction p.m || ltb max_ef p.ef_construction
    then err invalid_argument
    else if ltb p.ef_search 1 || ltb max_ef p.ef_search
    then err invalid_argument
    else if ltb p.max_level 1 || ltb max_level_cap p.max_level
    then err invalid_argument
    else ok tt

unfoldable pub max_links_level0 : HnswParams → ℕ
max_links_level0 p = 2 * p.m % 2 ^ 32

unfoldable pub max_links_upper : HnswParams → ℕ
max_links_upper p = p.m

-- Whether an override of the beam width is out of range.
unfoldable pub bad_override : Option ℕ → Bool
bad_override none = false
bad_override (some ef) = ltb ef 1 || ltb max_ef ef

unfoldable pub validate_search : SearchParams → Status
unfolding bad_override
validate_search p =
    if ltb p.k 1 || ltb max_k p.k
    then err invalid_argument
    else if bad_override p.ef_search
    then err invalid_argument
    else ok tt

unfoldable pub validate_collection : CollectionConfig → Status
unfolding validate_hnsw is_valid_metric is_valid_index_type
validate_collection c =
    if ltb c.dim 1 || ltb max_dim c.dim
    then err invalid_argument
    else if not (is_valid_metric c.metric)
    then err invalid_argument
    else if not (is_valid_index_type c.index)
    then err invalid_argument
    else if not (c.concurrency == 0) && not (c.concurrency == 1)
    then err invalid_argument
    else if c.index == 1
    then validate_hnsw c.hnsw_params
    else ok tt

unfoldable pub effective_normalize : CollectionConfig → Bool
effective_normalize c = c.normalize || c.metric == 2

-- The limits of HnswParams.
pub record IsHnswParams (p : HnswParams) : Type 0 where
  pub m_low : 2 ≤ p.m
  pub m_high : p.m ≤ 512
  pub ef_construction_low : p.m ≤ p.ef_construction
  pub ef_construction_high : p.ef_construction ≤ 1048576
  pub ef_search_low : 1 ≤ p.ef_search
  pub ef_search_high : p.ef_search ≤ 1048576
  pub max_level_low : 1 ≤ p.max_level
  pub max_level_high : p.max_level ≤ 32

IsHnswParams-of_ok : (p : HnswParams) → validate_hnsw p ≡ ok tt → IsHnswParams p
unfolding validate_hnsw
IsHnswParams-of_ok p h = record {
  m_low = ground arith;
  m_high = ground arith;
  ef_construction_low = ground arith;
  ef_construction_high = ground arith;
  ef_search_low = ground arith;
  ef_search_high = ground arith;
  max_level_low = ground arith;
  max_level_high = ground arith;
}

validate_hnsw-ok : (p : HnswParams) → IsHnswParams p → validate_hnsw p ≡ ok tt
unfolding validate_hnsw
validate_hnsw-ok p v = ground (
  arith, v.m_low, v.m_high, v.ef_construction_low, v.ef_construction_high, v.ef_search_low,
  v.ef_search_high, v.max_level_low, v.max_level_high,
)

-- The limits of CollectionConfig.
pub record IsConfig (c : CollectionConfig) : Type 0 where
  pub dim_low : 1 ≤ c.dim
  pub dim_high : c.dim ≤ 65536
  pub metric : c.metric < 3
  pub index : c.index < 2
  pub concurrency : c.concurrency < 2
  pub params : c.index ≡ 1 → IsHnswParams c.hnsw_params

IsConfig-of_ok : (c : CollectionConfig) → validate_collection c ≡ ok tt → IsConfig c
unfolding validate_collection
IsConfig-of_ok c h = record {
  dim_low = ground arith;
  dim_high = ground arith;
  metric = ground arith;
  index = ground arith;
  concurrency = ground arith;
  params = λ e. IsHnswParams-of_ok c.hnsw_params (ground arith);
}

validate_collection-ok : (c : CollectionConfig) → IsConfig c → validate_collection c ≡ ok tt
unfolding validate_collection
validate_collection-ok c v =
    let params : c.index ≡ 1 → validate_hnsw c.hnsw_params ≡ ok tt =
      λ e. validate_hnsw-ok c.hnsw_params (v.params e) in
    ground (arith, v.dim_low, v.dim_high, v.metric, v.index, v.concurrency, params)

-- A configuration is accepted exactly when its dimension is between 1 and 65536, its enumerations
-- are enumerators, and, for an HNSW index, its parameters are within their limits.
pub validate_collection_iff : (c : CollectionConfig) → (validate_collection c ≡ ok tt) ↔ IsConfig c
validate_collection_iff c = (IsConfig-of_ok c, validate_collection-ok c)

-- The parameters of an accepted HNSW configuration give link limits without wrap-around: level 0
-- has twice the limit of the levels above, 1024 at most, and those have 2 at least.
pub max_links-bounds :
    (c : CollectionConfig)
    → c.index ≡ 1
    → validate_collection c ≡ ok tt
    → (max_links_level0 c.hnsw_params ≡ 2 * max_links_upper c.hnsw_params)
      × (max_links_level0 c.hnsw_params ≤ 1024)
      × (2 ≤ max_links_upper c.hnsw_params)
unfolding max_links_level0 max_links_upper
max_links-bounds c e h =
    let p = (IsConfig-of_ok c h).params e in
    (omega (arith, p.m_high), omega (arith, p.m_high), p.m_low)
