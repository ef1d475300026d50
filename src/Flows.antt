-- ===== src/Flows.antt =====
-- The flows of the dialog (src/atc/flows).
pub mod Coordinator
pub mod CrossCountry
pub mod Pattern
pub mod Corrections
pub mod Ground
