-- ===== src/Forms.antt =====
-- Forms, cope/domains/forms: what a definition may contain, and who may grant permissions on a form.
pub mod Definition
pub mod Compile
pub mod WellFormed
pub mod Emits
pub mod Tested
pub mod Meaning
pub mod Sensible
pub mod Accepted
pub mod Uuid
pub mod Permissions
