-- ===== src/Locale.antt =====
-- pkg/locale: the tables of locales, languages, countries and the names of translators. A constant is a
-- constructor, a function over constants goes through its cases.
pub mod Country
pub mod Iso
pub mod Tag
pub mod Translator
pub mod Web
pub mod Converted
pub mod Translated
pub mod Spoken
pub mod WebPlaced
pub mod Parsed
pub mod Laws
