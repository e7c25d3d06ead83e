-- ===== src/Tests/Locales.antt =====
-- pkg/locale at two constants.
use advinced_cache.Prelude.{some, ◌≡◌}
use advinced_cache.Locale.Tag.{locale_german_germany, locale_value}
use advinced_cache.Locale.Web.{webname_german}
use advinced_cache.Locale.Spoken.{webname_iso_lang}
use advinced_cache.Locale.WebPlaced.{webname_locale}
use advinced_cache.Locale.Parsed.{try_locale_from_string}
use advinced_cache.Locale.Laws.{
  language_of, webname_iso_lang-webname_locale, try_locale_from_string-locale_value,
}

webname_iso_lang-webname_locale_example :
    webname_iso_lang webname_german ≡ language_of (webname_locale webname_german)
webname_iso_lang-webname_locale_example = webname_iso_lang-webname_locale webname_german

try_locale_from_string-locale_value_example :
    try_locale_from_string (locale_value locale_german_germany) ≡ some locale_german_germany
try_locale_from_string-locale_value_example =
    try_locale_from_string-locale_value locale_german_germany
