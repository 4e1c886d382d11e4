-- ===== src/Core/Options.antt =====
-- include/vectorforge/config.hpp: the options of an insertion and of loading an index file.
use vector_forge.Common.{Bool, true, false}
use vector_forge.Core.Types.{Concurrency, concurrent}

pub record InsertOptions : Type 0 where
  pub upsert : Bool

pub data Verify : Type 0 where
  auto no_payload metadata full : Verify

pub record LoadOptions : Type 0 where
  pub use_mmap : Bool
  pub verify : Verify
  pub prefault : Bool
  pub concurrency : Concurrency

abbrev pub default_load : LoadOptions
default_load = record { use_mmap = true; verify = auto; prefault = false; concurrency = concurrent }
