-- ===== src/Brand.antt =====
-- The configuration of a brand (frontend/T-010-brand-customization/src/brand): Merge is the deep
-- merge, Defaults the configuration that all others are merged into, Validate the check of the
-- result, and Loader the layers from which it is loaded, with the cache of the remote one.
pub mod Merge
pub mod Defaults
pub mod Validate
pub mod Loader
pub mod Tests
