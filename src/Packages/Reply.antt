-- ===== src/Packages/Reply.antt =====
-- The results of dsl/package-manager: a value, or an exception with the paths that its text quotes.
use falcon_lib.Base.{String}

pub data Problem : Type 0 where
  cannot_hash : String → Problem
  cannot_copy : String → String → Problem
  cannot_remove : String → Problem
  cannot_write_index : String → Problem
  cannot_create : String → Problem
  import_not_found : String → Problem
  import_unresolved : String → String → String → Problem
  github_unsupported : String → Problem
  manifest_exists : String → Problem
  cannot_parse_manifest : String → Problem
  cannot_write_manifest : String → Problem
  source_not_found : String → Problem
  package_not_found : String → Problem

pub data Reply (A : Type 0) : Type 0 where
  done : A → Reply A
  thrown : Problem → Reply A
