-- ===== src/Packages.antt =====
-- dsl/package-manager: the cache of source files, the resolution of imports, the project manifest
-- and the commands of the manager. The digest (OpenSSL's SHA-256), the JSON text of the cache index
-- (nlohmann::json) and the YAML text of the manifest (yaml-cpp) are parameters. A command takes the
-- project and the file system and gives them back changed, together with its result or the
-- exception, since what was done before an exception stays done.
pub mod Reply
pub mod Cache
pub mod Manifest
pub mod Resolver
pub mod Manager
