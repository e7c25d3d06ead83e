-- ===== src/Locale/Laws.antt =====
-- pkg/locale: the tables agree with each other, and the string of a locale reads back.
use advinced_cache.Prelude.{Option, some, none, ◌≡◌, refl, bytes_eq}
use advinced_cache.Locale.Iso.{IsoLang}
use advinced_cache.Locale.Tag.{
  Locale, locale_value, locale_afar_ethiopia, locale_albanian_albania, locale_amharic_ethiopia,
  locale_arabic_uae, locale_armenian_armenia, locale_azerbaijani_azerbaijan,
  locale_belarusian_belarus, locale_bengali_bangladesh, locale_bosnian_bosnia,
  locale_bulgarian_bulgaria, locale_burmese_myanmar, locale_afar_eritrea, locale_central_khmer,
  locale_chinese_china, locale_chinese_hong_kong, locale_chinese_taiwan, locale_croatian_croatia,
  locale_czech_czech_republic, locale_danish_denmark, locale_dutch_netherlands,
  locale_english_canada, locale_english_india, locale_english_new_zealand,
  locale_english_united_kingdom, locale_estonian_estonia, locale_finnish_finland,
  locale_french_france, locale_georgian_georgia, locale_german_germany, locale_greek_greece,
  locale_haitian_haiti, locale_hebrew_israel, locale_hindi_india, locale_hungarian_hungary,
  locale_icelandic_iceland, locale_indonesian_indonesia, locale_italian_italy,
  locale_japanese_japan, locale_kazakh_kazakhstan, locale_korean_south_korea, locale_kurdish_turkey,
  locale_kurdish_zaza, locale_kurdish_badini, locale_kurdish_sorani, locale_kyrgyz, locale_lao,
  locale_latvian_latvia, locale_lingala_congo, locale_lithuanian_lithuania,
  locale_macedonian_macedonia, locale_malay_malaysia, locale_mongolian_mongolia,
  locale_nepali_nepal, locale_norwegian_bokmal_norway, locale_persian_iran, locale_peruvian_spanish,
  locale_polish_poland, locale_portuguese_brazil, locale_portuguese_portugal,
  locale_romanian_romania, locale_russian_russia, locale_serbian_serbia,
  locale_serbian_serbia_latin, locale_sindhi_india, locale_sinhala_srilanka, locale_slovak_slovakia,
  locale_slovenian_slovenia, locale_somali_somalia, locale_spanish_mexico, locale_spanish_spain,
  locale_swahili_kenya, locale_swedish_sweden, locale_tagalog_philippines, locale_tajik_tajikistan,
  locale_thai_thailand, locale_telugu, locale_turkish_turkey, locale_ukrainian_ukraine,
  locale_urdu_pakistan, locale_uzbek_uzbekistan, locale_vietnamese_vietnam, locale_zulu_southafrica,
  locale_tamil_srilanka,
}
use advinced_cache.Locale.Web.{
  LanguageCode, webname_amharic, webname_albanian, webname_kurdish, webname_arabian,
  webname_english_australia, webname_azerbaijanian, webname_bulgarian, webname_bengali,
  webname_portuguese_brazil, webname_bosnian, webname_belarusian, webname_canadian, webname_chinese,
  webname_czech, webname_danish, webname_german, webname_greek, webname_english,
  webname_english_britain, webname_spanish, webname_spanish_peruvian, webname_estonian,
  webname_iranian, webname_finnish, webname_french, webname_hebrew, webname_hindu,
  webname_cantonese_hong_kong, webname_croatian, webname_haitian_creole, webname_hungarian,
  webname_armenian, webname_indonesian, webname_indian, webname_iraqi, webname_icelandic,
  webname_italian, webname_japanese, webname_georgian, webname_khmer, webname_korean,
  webname_kurdish_sorani, webname_kazakh, webname_lingala, webname_lao, webname_kyrgyz,
  webname_lithuanian, webname_latvian, webname_macedonian, webname_mongolian, webname_malay,
  webname_mexican, webname_burmese, webname_norwegian, webname_kurdish_kurmanci, webname_dutch,
  webname_new_zealand, webname_polish, webname_portuguese, webname_romanian, webname_russian,
  webname_nepali, webname_sinhalese, webname_slovak, webname_slovenian, webname_serbian,
  webname_serbian_latin, webname_swedish, webname_swahili, webname_thai, webname_telugu,
  webname_tajik, webname_tagalog, webname_turkish, webname_chinese_taiwan, webname_ukrainian,
  webname_urdu, webname_english_usa, webname_uzbek, webname_vietnamese, webname_iran,
  webname_kurdish_zaza, webname_korean_kr, webname_korean_zh, webname_tajik_tg,
  webname_ukrainian_uk, webname_albanian_sq, webname_somali, webname_cantonese, webname_tamil,
}
use advinced_cache.Locale.Converted.{locale_iso_lang}
use advinced_cache.Locale.Spoken.{webname_iso_lang}
use advinced_cache.Locale.WebPlaced.{webname_locale}
use advinced_cache.Locale.Parsed.{find_constant, try_locale_from_string}

-- The language of the locale, when there is a locale.
unfoldable pub language_of : Option Locale → Option IsoLang
unfolding locale_iso_lang
language_of none = none
language_of (some l) = locale_iso_lang l

-- For every web name, the language of the name is the language of the locale of the name, and a
-- name without a locale has no language.
pub webname_iso_lang-webname_locale :
    (w : LanguageCode) → webname_iso_lang w ≡ language_of (webname_locale w)
unfolding webname_iso_lang webname_locale language_of locale_iso_lang
webname_iso_lang-webname_locale webname_amharic = refl
webname_iso_lang-webname_locale webname_albanian = refl
webname_iso_lang-webname_locale webname_kurdish = refl
webname_iso_lang-webname_locale webname_arabian = refl
webname_iso_lang-webname_locale webname_english_australia = refl
webname_iso_lang-webname_locale webname_azerbaijanian = refl
webname_iso_lang-webname_locale webname_bulgarian = refl
webname_iso_lang-webname_locale webname_bengali = refl
webname_iso_lang-webname_locale webname_portuguese_brazil = refl
webname_iso_lang-webname_locale webname_bosnian = refl
webname_iso_lang-webname_locale webname_belarusian = refl
webname_iso_lang-webname_locale webname_canadian = refl
webname_iso_lang-webname_locale webname_chinese = refl
webname_iso_lang-webname_locale webname_czech = refl
webname_iso_lang-webname_locale webname_danish = refl
webname_iso_lang-webname_locale webname_german = refl
webname_iso_lang-webname_locale webname_greek = refl
webname_iso_lang-webname_locale webname_english = refl
webname_iso_lang-webname_locale webname_english_britain = refl
webname_iso_lang-webname_locale webname_spanish = refl
webname_iso_lang-webname_locale webname_spanish_peruvian = refl
webname_iso_lang-webname_locale webname_estonian = refl
webname_iso_lang-webname_locale webname_iranian = refl
webname_iso_lang-webname_locale webname_finnish = refl
webname_iso_lang-webname_locale webname_french = refl
webname_iso_lang-webname_locale webname_hebrew = refl
webname_iso_lang-webname_locale webname_hindu = refl
webname_iso_lang-webname_locale webname_cantonese_hong_kong = refl
webname_iso_lang-webname_locale webname_croatian = refl
webname_iso_lang-webname_locale webname_haitian_creole = refl
webname_iso_lang-webname_locale webname_hungarian = refl
webname_iso_lang-webname_locale webname_armenian = refl
webname_iso_lang-webname_locale webname_indonesian = refl
webname_iso_lang-webname_locale webname_indian = refl
webname_iso_lang-webname_locale webname_iraqi = refl
webname_iso_lang-webname_locale webname_icelandic = refl
webname_iso_lang-webname_locale webname_italian = refl
webname_iso_lang-webname_locale webname_japanese = refl
webname_iso_lang-webname_locale webname_georgian = refl
webname_iso_lang-webname_locale webname_khmer = refl
webname_iso_lang-webname_locale webname_korean = refl
webname_iso_lang-webname_locale webname_kurdish_sorani = refl
webname_iso_lang-webname_locale webname_kazakh = refl
webname_iso_lang-webname_locale webname_lingala = refl
webname_iso_lang-webname_locale webname_lao = refl
webname_iso_lang-webname_locale webname_kyrgyz = refl
webname_iso_lang-webname_locale webname_lithuanian = refl
webname_iso_lang-webname_locale webname_latvian = refl
webname_iso_lang-webname_locale webname_macedonian = refl
webname_iso_lang-webname_locale webname_mongolian = refl
webname_iso_lang-webname_locale webname_malay = refl
webname_iso_lang-webname_locale webname_mexican = refl
webname_iso_lang-webname_locale webname_burmese = refl
webname_iso_lang-webname_locale webname_norwegian = refl
webname_iso_lang-webname_locale webname_kurdish_kurmanci = refl
webname_iso_lang-webname_locale webname_dutch = refl
webname_iso_lang-webname_locale webname_new_zealand = refl
webname_iso_lang-webname_locale webname_polish = refl
webname_iso_lang-webname_locale webname_portuguese = refl
webname_iso_lang-webname_locale webname_romanian = refl
webname_iso_lang-webname_locale webname_russian = refl
webname_iso_lang-webname_locale webname_nepali = refl
webname_iso_lang-webname_locale webname_sinhalese = refl
webname_iso_lang-webname_locale webname_slovak = refl
webname_iso_lang-webname_locale webname_slovenian = refl
webname_iso_lang-webname_locale webname_serbian = refl
webname_iso_lang-webname_locale webname_serbian_latin = refl
webname_iso_lang-webname_locale webname_swedish = refl
webname_iso_lang-webname_locale webname_swahili = refl
webname_iso_lang-webname_locale webname_thai = refl
webname_iso_lang-webname_locale webname_telugu = refl
webname_iso_lang-webname_locale webname_tajik = refl
webname_iso_lang-webname_locale webname_tagalog = refl
webname_iso_lang-webname_locale webname_turkish = refl
webname_iso_lang-webname_locale webname_chinese_taiwan = refl
webname_iso_lang-webname_locale webname_ukrainian = refl
webname_iso_lang-webname_locale webname_urdu = refl
webname_iso_lang-webname_locale webname_english_usa = refl
webname_iso_lang-webname_locale webname_uzbek = refl
webname_iso_lang-webname_locale webname_vietnamese = refl
webname_iso_lang-webname_locale webname_iran = refl
webname_iso_lang-webname_locale webname_kurdish_zaza = refl
webname_iso_lang-webname_locale webname_korean_kr = refl
webname_iso_lang-webname_locale webname_korean_zh = refl
webname_iso_lang-webname_locale webname_tajik_tg = refl
webname_iso_lang-webname_locale webname_ukrainian_uk = refl
webname_iso_lang-webname_locale webname_albanian_sq = refl
webname_iso_lang-webname_locale webname_somali = refl
webname_iso_lang-webname_locale webname_cantonese = refl
webname_iso_lang-webname_locale webname_tamil = refl

-- The string of every locale is read back as that locale.
pub try_locale_from_string-locale_value :
    (l : Locale) → try_locale_from_string (locale_value l) ≡ some l
unfolding try_locale_from_string find_constant locale_value bytes_eq
try_locale_from_string-locale_value locale_afar_ethiopia = refl
try_locale_from_string-locale_value locale_albanian_albania = refl
try_locale_from_string-locale_value locale_amharic_ethiopia = refl
try_locale_from_string-locale_value locale_arabic_uae = refl
try_locale_from_string-locale_value locale_armenian_armenia = refl
try_locale_from_string-locale_value locale_azerbaijani_azerbaijan = refl
try_locale_from_string-locale_value locale_belarusian_belarus = refl
try_locale_from_string-locale_value locale_bengali_bangladesh = refl
try_locale_from_string-locale_value locale_bosnian_bosnia = refl
try_locale_from_string-locale_value locale_bulgarian_bulgaria = refl
try_locale_from_string-locale_value locale_burmese_myanmar = refl
try_locale_from_string-locale_value locale_afar_eritrea = refl
try_locale_from_string-locale_value locale_central_khmer = refl
try_locale_from_string-locale_value locale_chinese_china = refl
try_locale_from_string-locale_value locale_chinese_hong_kong = refl
try_locale_from_string-locale_value locale_chinese_taiwan = refl
try_locale_from_string-locale_value locale_croatian_croatia = refl
try_locale_from_string-locale_value locale_czech_czech_republic = refl
try_locale_from_string-locale_value locale_danish_denmark = refl
try_locale_from_string-locale_value locale_dutch_netherlands = refl
try_locale_from_string-locale_value locale_english_canada = refl
try_locale_from_string-locale_value locale_english_india = refl
try_locale_from_string-locale_value locale_english_new_zealand = refl
try_locale_from_string-locale_value locale_english_united_kingdom = refl
try_locale_from_string-locale_value locale_estonian_estonia = refl
try_locale_from_string-locale_value locale_finnish_finland = refl
try_locale_from_string-locale_value locale_french_france = refl
try_locale_from_string-locale_value locale_georgian_georgia = refl
try_locale_from_string-locale_value locale_german_germany = refl
try_locale_from_string-locale_value locale_greek_greece = refl
try_locale_from_string-locale_value locale_haitian_haiti = refl
try_locale_from_string-locale_value locale_hebrew_israel = refl
try_locale_from_string-locale_value locale_hindi_india = refl
try_locale_from_string-locale_value locale_hungarian_hungary = refl
try_locale_from_string-locale_value locale_icelandic_iceland = refl
try_locale_from_string-locale_value locale_indonesian_indonesia = refl
try_locale_from_string-locale_value locale_italian_italy = refl
try_locale_from_string-locale_value locale_japanese_japan = refl
try_locale_from_string-locale_value locale_kazakh_kazakhstan = refl
try_locale_from_string-locale_value locale_korean_south_korea = refl
try_locale_from_string-locale_value locale_kurdish_turkey = refl
try_locale_from_string-locale_value locale_kurdish_zaza = refl
try_locale_from_string-locale_value locale_kurdish_badini = refl
try_locale_from_string-locale_value locale_kurdish_sorani = refl
try_locale_from_string-locale_value locale_kyrgyz = refl
try_locale_from_string-locale_value locale_lao = refl
try_locale_from_string-locale_value locale_latvian_latvia = refl
try_locale_from_string-locale_value locale_lingala_congo = refl
try_locale_from_string-locale_value locale_lithuanian_lithuania = refl
try_locale_from_string-locale_value locale_macedonian_macedonia = refl
try_locale_from_string-locale_value locale_malay_malaysia = refl
try_locale_from_string-locale_value locale_mongolian_mongolia = refl
try_locale_from_string-locale_value locale_nepali_nepal = refl
try_locale_from_string-locale_value locale_norwegian_bokmal_norway = refl
try_locale_from_string-locale_value locale_persian_iran = refl
try_locale_from_string-locale_value locale_peruvian_spanish = refl
try_locale_from_string-locale_value locale_polish_poland = refl
try_locale_from_string-locale_value locale_portuguese_brazil = refl
try_locale_from_string-locale_value locale_portuguese_portugal = refl
try_locale_from_string-locale_value locale_romanian_romania = refl
try_locale_from_string-locale_value locale_russian_russia = refl
try_locale_from_string-locale_value locale_serbian_serbia = refl
try_locale_from_string-locale_value locale_serbian_serbia_latin = refl
try_locale_from_string-locale_value locale_sindhi_india = refl
try_locale_from_string-locale_value locale_sinhala_srilanka = refl
try_locale_from_string-locale_value locale_slovak_slovakia = refl
try_locale_from_string-locale_value locale_slovenian_slovenia = refl
try_locale_from_string-locale_value locale_somali_somalia = refl
try_locale_from_string-locale_value locale_spanish_mexico = refl
try_locale_from_string-locale_value locale_spanish_spain = refl
try_locale_from_string-locale_value locale_swahili_kenya = refl
try_locale_from_string-locale_value locale_swedish_sweden = refl
try_locale_from_string-locale_value locale_tagalog_philippines = refl
try_locale_from_string-locale_value locale_tajik_tajikistan = refl
try_locale_from_string-locale_value locale_thai_thailand = refl
try_locale_from_string-locale_value locale_telugu = refl
try_locale_from_string-locale_value locale_turkish_turkey = refl
try_locale_from_string-locale_value locale_ukrainian_ukraine = refl
try_locale_from_string-locale_value locale_urdu_pakistan = refl
try_locale_from_string-locale_value locale_uzbek_uzbekistan = refl
try_locale_from_string-locale_value locale_vietnamese_vietnam = refl
try_locale_from_string-locale_value locale_zulu_southafrica = refl
try_locale_from_string-locale_value locale_tamil_srilanka = refl
