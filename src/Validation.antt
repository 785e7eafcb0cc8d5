-- ===== src/Validation.antt =====
-- packages/application/src/services/note-validation-service.ts
-- Every issue is an error; its field and message are its constructor. `to_lower_case` is JavaScript's.
pub mod Headings
pub mod Texts
pub mod Service
pub mod Valid
pub mod Writable
mod Examples
