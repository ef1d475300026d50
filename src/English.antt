-- ===== src/English.antt =====
-- English radio telephony (src/atc/en_phraseology.cpp): what is written becomes what is spoken, and
-- back. Where the file repeats src/atc/de_phraseology.cpp word for word, the helper is shared.
pub mod Digits
pub mod Passes
pub mod Speech
pub mod Spoken
pub mod Icao
