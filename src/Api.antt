-- ===== src/Api.antt =====
-- The custom resources, api/v1beta1/*_types.go and meta.go: one module for each kind. A field that
-- the program only ranges over is a `List`; one whose nil it can see is a `Slice`. A pointer is an
-- `Option`. The kubebuilder markers (defaults, enums) bind the API server and not this code.
pub mod Meta
pub mod User
pub mod Organization
pub mod Client
pub mod Feature
pub mod Instance
