-- ===== src/Phraseology.antt =====
-- German radio telephony (src/atc/de_phraseology.cpp): what is written becomes what is spoken, and
-- back. A text is a run of characters; one that is not ASCII is one number here and two bytes there.
pub mod Digits
pub mod Passes
pub mod Spoken
pub mod Icao
