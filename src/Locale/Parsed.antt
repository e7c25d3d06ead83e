-- ===== src/Locale/Parsed.antt =====
-- The `Try…FromString` functions of pkg/locale: the constant that a string is, among those listed.
use advinced_cache.Prelude.{Option, none, some, List, [], ◌∷◌, bytes_eq, if◌then◌else◌}
use advinced_cache.KeyValue.{Bytes}
use advinced_cache.Locale.Iso.{IsoLang, iso_lang_value, iso_list}
use advinced_cache.Locale.Tag.{Locale, locale_value, locales_list}
use advinced_cache.Locale.Translator.{TranslatorsName, translators_value, translators_list}
use advinced_cache.Locale.Web.{LanguageCode, language_code_value, language_code_list}

-- The cases of a `switch` over the constants of a type.
unfoldable pub find_constant : {A : Type 0} → (A → Bytes) → List A → Bytes → Option A
find_constant value [] b = none
find_constant value (c ∷ cs) b =
    let rest = find_constant value cs b in if bytes_eq (value c) b then some c else rest

unfoldable pub try_iso_lang_from_string : Bytes → Option IsoLang
unfolding find_constant
try_iso_lang_from_string = find_constant iso_lang_value iso_list

unfoldable pub try_locale_from_string : Bytes → Option Locale
unfolding find_constant
try_locale_from_string = find_constant locale_value locales_list

unfoldable pub try_translators_name_from_string : Bytes → Option TranslatorsName
unfolding find_constant
try_translators_name_from_string = find_constant translators_value translators_list

unfoldable pub try_language_code_from_string : Bytes → Option LanguageCode
unfolding find_constant
try_language_code_from_string = find_constant language_code_value language_code_list
