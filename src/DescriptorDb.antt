-- ===== src/DescriptorDb.antt =====
-- The descriptor sets of descriptor_db.hpp, as the queries read them.
pub mod Cache
use postgres_protobuf.Common.{ℕ, Option, none, some, List, [], ◌∷◌, if◌then◌else◌, Bytes, bytes_eq}

-- The pool and the type resolver are objects of the protobuf library: their addresses.
pub record DescSet : Type 0 where
  pub pool : ℕ
  pub type_resolver : ℕ

-- `desc_sets`, a map from names.
pub record DescDb : Type 0 where
  pub desc_sets : List (Bytes × DescSet)

-- `desc_sets.find(name)`.
unfoldable pub find_desc_set : Bytes → List (Bytes × DescSet) → Option DescSet
unfolding bytes_eq
find_desc_set name [] = none
find_desc_set name ((n, s) ∷ sets) = if bytes_eq n name then some s else find_desc_set name sets
