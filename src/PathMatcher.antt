-- ===== src/PathMatcher.antt =====
-- The path matcher of src/api_manager/path_matcher.h: the builder, which registers templates, and
-- the lookup, which splits a request's path, walks the trie and extracts the variable bindings.
pub mod Unescape
pub mod Request
pub mod Bindings
pub mod Builder
