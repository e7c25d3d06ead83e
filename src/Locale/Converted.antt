-- ===== src/Locale/Converted.antt =====
-- `Locale.LanguageCode` and `Locale.IsoLang` of pkg/locale; none is the
-- default case.
use advinced_cache.Prelude.{Option, some}
use advinced_cache.Locale.Iso.{
  IsoLang, iso_lang_afar, iso_lang_albanian, iso_lang_amharic, iso_lang_arabic, iso_lang_armenian,
  iso_lang_azerbaijani, iso_lang_belarusian, iso_lang_bengali, iso_lang_bosnian, iso_lang_bulgarian,
  iso_lang_burmese, iso_lang_cambodia, iso_lang_chinese, iso_lang_croatian, iso_lang_czech,
  iso_lang_danish, iso_lang_dutch, iso_lang_english, iso_lang_estonian, iso_lang_finnish,
  iso_lang_french, iso_lang_georgian, iso_lang_german, iso_lang_greek, iso_lang_haitian,
  iso_lang_hebrew, iso_lang_hindi, iso_lang_hungarian, iso_lang_icelandic, iso_lang_indonesian,
  iso_lang_italian, iso_lang_japanese, iso_lang_kazakh, iso_lang_korean, iso_lang_kurdish,
  iso_lang_kyrgyz, iso_lang_lao, iso_lang_latvian, iso_lang_lingala, iso_lang_lithuanian,
  iso_lang_macedonian, iso_lang_malay, iso_lang_mongolian, iso_lang_nepali,
  iso_lang_norwegian_bokmal, iso_lang_persian, iso_lang_polish, iso_lang_portuguese,
  iso_lang_romanian, iso_lang_russian, iso_lang_serbian, iso_lang_serbian_latin, iso_lang_sindhi,
  iso_lang_sinhala, iso_lang_slovak, iso_lang_slovenian, iso_lang_somali, iso_lang_spanish,
  iso_lang_swahili, iso_lang_swedish, iso_lang_tagalog, iso_lang_tajik, iso_lang_telugu,
  iso_lang_thai, iso_lang_turkish, iso_lang_ukrainian, iso_lang_urdu, iso_lang_uzbek,
  iso_lang_vietnamese, iso_lang_zulu,
}
use advinced_cache.Locale.Tag.{
  Locale, locale_afar_eritrea, locale_afar_ethiopia, locale_albanian_albania,
  locale_amharic_ethiopia, locale_arabic_uae, locale_armenian_armenia,
  locale_azerbaijani_azerbaijan, locale_belarusian_belarus, locale_bengali_bangladesh,
  locale_bosnian_bosnia, locale_bulgarian_bulgaria, locale_burmese_myanmar, locale_central_khmer,
  locale_chinese_china, locale_chinese_hong_kong, locale_chinese_taiwan, locale_croatian_croatia,
  locale_czech_czech_republic, locale_danish_denmark, locale_dutch_netherlands,
  locale_english_canada, locale_english_india, locale_english_new_zealand,
  locale_english_united_kingdom, locale_estonian_estonia, locale_finnish_finland,
  locale_french_france, locale_georgian_georgia, locale_german_germany, locale_greek_greece,
  locale_haitian_haiti, locale_hebrew_israel, locale_hindi_india, locale_hungarian_hungary,
  locale_icelandic_iceland, locale_indonesian_indonesia, locale_italian_italy,
  locale_japanese_japan, locale_kazakh_kazakhstan, locale_korean_south_korea, locale_kurdish_badini,
  locale_kurdish_sorani, locale_kurdish_turkey, locale_kurdish_zaza, locale_kyrgyz, locale_lao,
  locale_latvian_latvia, locale_lingala_congo, locale_lithuanian_lithuania,
  locale_macedonian_macedonia, locale_malay_malaysia, locale_mongolian_mongolia,
  locale_nepali_nepal, locale_norwegian_bokmal_norway, locale_persian_iran, locale_peruvian_spanish,
  locale_polish_poland, locale_portuguese_brazil, locale_portuguese_portugal,
  locale_romanian_romania, locale_russian_russia, locale_serbian_serbia,
  locale_serbian_serbia_latin, locale_sindhi_india, locale_sinhala_srilanka, locale_slovak_slovakia,
  locale_slovenian_slovenia, locale_somali_somalia, locale_spanish_mexico, locale_spanish_spain,
  locale_swahili_kenya, locale_swedish_sweden, locale_tagalog_philippines, locale_tajik_tajikistan,
  locale_tamil_srilanka, locale_telugu, locale_thai_thailand, locale_turkish_turkey,
  locale_ukrainian_ukraine, locale_urdu_pakistan, locale_uzbek_uzbekistan,
  locale_vietnamese_vietnam, locale_zulu_southafrica,
}
use advinced_cache.Locale.Web.{
  LanguageCode, webname_albanian, webname_amharic, webname_arabian, webname_armenian,
  webname_azerbaijanian, webname_belarusian, webname_bengali, webname_bosnian, webname_bulgarian,
  webname_burmese, webname_canadian, webname_cantonese, webname_cantonese_hong_kong,
  webname_chinese, webname_chinese_taiwan, webname_croatian, webname_czech, webname_danish,
  webname_dutch, webname_english, webname_estonian, webname_finnish, webname_french,
  webname_georgian, webname_german, webname_greek, webname_haitian_creole, webname_hebrew,
  webname_hindu, webname_hungarian, webname_icelandic, webname_indian, webname_indonesian,
  webname_iranian, webname_italian, webname_japanese, webname_kazakh, webname_khmer, webname_korean,
  webname_kurdish, webname_kurdish_kurmanci, webname_kurdish_sorani, webname_kurdish_zaza,
  webname_kyrgyz, webname_lao, webname_latvian, webname_lingala, webname_lithuanian,
  webname_macedonian, webname_malay, webname_mexican, webname_mongolian, webname_nepali,
  webname_new_zealand, webname_norwegian, webname_polish, webname_portuguese,
  webname_portuguese_brazil, webname_romanian, webname_russian, webname_serbian,
  webname_serbian_latin, webname_sinhalese, webname_slovak, webname_slovenian, webname_somali,
  webname_spanish, webname_spanish_peruvian, webname_swahili, webname_swedish, webname_tagalog,
  webname_tajik, webname_tamil, webname_telugu, webname_thai, webname_turkish, webname_ukrainian,
  webname_urdu, webname_uzbek, webname_vietnamese,
}

unfoldable pub language_code : Locale → Option LanguageCode
language_code locale_afar_eritrea = some webname_cantonese
language_code locale_afar_ethiopia = some webname_amharic
language_code locale_albanian_albania = some webname_albanian
language_code locale_amharic_ethiopia = some webname_amharic
language_code locale_arabic_uae = some webname_arabian
language_code locale_armenian_armenia = some webname_armenian
language_code locale_azerbaijani_azerbaijan = some webname_azerbaijanian
language_code locale_belarusian_belarus = some webname_belarusian
language_code locale_bengali_bangladesh = some webname_bengali
language_code locale_bosnian_bosnia = some webname_bosnian
language_code locale_bulgarian_bulgaria = some webname_bulgarian
language_code locale_burmese_myanmar = some webname_burmese
language_code locale_central_khmer = some webname_khmer
language_code locale_chinese_china = some webname_chinese
language_code locale_chinese_hong_kong = some webname_cantonese_hong_kong
language_code locale_chinese_taiwan = some webname_chinese_taiwan
language_code locale_croatian_croatia = some webname_croatian
language_code locale_czech_czech_republic = some webname_czech
language_code locale_danish_denmark = some webname_danish
language_code locale_dutch_netherlands = some webname_dutch
language_code locale_english_canada = some webname_canadian
language_code locale_english_india = some webname_indian
language_code locale_english_new_zealand = some webname_new_zealand
language_code locale_english_united_kingdom = some webname_english
language_code locale_estonian_estonia = some webname_estonian
language_code locale_finnish_finland = some webname_finnish
language_code locale_french_france = some webname_french
language_code locale_georgian_georgia = some webname_georgian
language_code locale_german_germany = some webname_german
language_code locale_greek_greece = some webname_greek
language_code locale_haitian_haiti = some webname_haitian_creole
language_code locale_hebrew_israel = some webname_hebrew
language_code locale_hindi_india = some webname_hindu
language_code locale_hungarian_hungary = some webname_hungarian
language_code locale_icelandic_iceland = some webname_icelandic
language_code locale_indonesian_indonesia = some webname_indonesian
language_code locale_italian_italy = some webname_italian
language_code locale_japanese_japan = some webname_japanese
language_code locale_kazakh_kazakhstan = some webname_kazakh
language_code locale_korean_south_korea = some webname_korean
language_code locale_kurdish_turkey = some webname_kurdish_kurmanci
language_code locale_kurdish_zaza = some webname_kurdish_zaza
language_code locale_kurdish_badini = some webname_kurdish
language_code locale_kurdish_sorani = some webname_kurdish_sorani
language_code locale_kyrgyz = some webname_kyrgyz
language_code locale_lao = some webname_lao
language_code locale_latvian_latvia = some webname_latvian
language_code locale_lingala_congo = some webname_lingala
language_code locale_lithuanian_lithuania = some webname_lithuanian
language_code locale_macedonian_macedonia = some webname_macedonian
language_code locale_malay_malaysia = some webname_malay
language_code locale_mongolian_mongolia = some webname_mongolian
language_code locale_nepali_nepal = some webname_nepali
language_code locale_norwegian_bokmal_norway = some webname_norwegian
language_code locale_persian_iran = some webname_iranian
language_code locale_peruvian_spanish = some webname_spanish_peruvian
language_code locale_polish_poland = some webname_polish
language_code locale_portuguese_brazil = some webname_portuguese_brazil
language_code locale_portuguese_portugal = some webname_portuguese
language_code locale_romanian_romania = some webname_romanian
language_code locale_russian_russia = some webname_russian
language_code locale_serbian_serbia = some webname_serbian
language_code locale_serbian_serbia_latin = some webname_serbian_latin
language_code locale_sindhi_india = some webname_nepali
language_code locale_sinhala_srilanka = some webname_sinhalese
language_code locale_slovak_slovakia = some webname_slovak
language_code locale_slovenian_slovenia = some webname_slovenian
language_code locale_somali_somalia = some webname_somali
language_code locale_spanish_mexico = some webname_mexican
language_code locale_spanish_spain = some webname_spanish
language_code locale_swahili_kenya = some webname_swahili
language_code locale_swedish_sweden = some webname_swedish
language_code locale_tagalog_philippines = some webname_tagalog
language_code locale_tajik_tajikistan = some webname_tajik
language_code locale_thai_thailand = some webname_thai
language_code locale_telugu = some webname_telugu
language_code locale_turkish_turkey = some webname_turkish
language_code locale_ukrainian_ukraine = some webname_ukrainian
language_code locale_urdu_pakistan = some webname_urdu
language_code locale_uzbek_uzbekistan = some webname_uzbek
language_code locale_vietnamese_vietnam = some webname_vietnamese
language_code locale_zulu_southafrica = some webname_kurdish_zaza
language_code locale_tamil_srilanka = some webname_tamil

unfoldable pub locale_iso_lang : Locale → Option IsoLang
locale_iso_lang locale_afar_eritrea = some iso_lang_chinese
locale_iso_lang locale_afar_ethiopia = some iso_lang_afar
locale_iso_lang locale_albanian_albania = some iso_lang_albanian
locale_iso_lang locale_amharic_ethiopia = some iso_lang_amharic
locale_iso_lang locale_arabic_uae = some iso_lang_arabic
locale_iso_lang locale_armenian_armenia = some iso_lang_armenian
locale_iso_lang locale_azerbaijani_azerbaijan = some iso_lang_azerbaijani
locale_iso_lang locale_belarusian_belarus = some iso_lang_belarusian
locale_iso_lang locale_bengali_bangladesh = some iso_lang_bengali
locale_iso_lang locale_bosnian_bosnia = some iso_lang_bosnian
locale_iso_lang locale_bulgarian_bulgaria = some iso_lang_bulgarian
locale_iso_lang locale_burmese_myanmar = some iso_lang_burmese
locale_iso_lang locale_central_khmer = some iso_lang_cambodia
locale_iso_lang locale_chinese_china = some iso_lang_chinese
locale_iso_lang locale_chinese_hong_kong = some iso_lang_chinese
locale_iso_lang locale_chinese_taiwan = some iso_lang_chinese
locale_iso_lang locale_croatian_croatia = some iso_lang_croatian
locale_iso_lang locale_czech_czech_republic = some iso_lang_czech
locale_iso_lang locale_danish_denmark = some iso_lang_danish
locale_iso_lang locale_dutch_netherlands = some iso_lang_dutch
locale_iso_lang locale_english_canada = some iso_lang_english
locale_iso_lang locale_english_india = some iso_lang_english
locale_iso_lang locale_english_new_zealand = some iso_lang_english
locale_iso_lang locale_english_united_kingdom = some iso_lang_english
locale_iso_lang locale_estonian_estonia = some iso_lang_estonian
locale_iso_lang locale_finnish_finland = some iso_lang_finnish
locale_iso_lang locale_french_france = some iso_lang_french
locale_iso_lang locale_georgian_georgia = some iso_lang_georgian
locale_iso_lang locale_german_germany = some iso_lang_german
locale_iso_lang locale_greek_greece = some iso_lang_greek
locale_iso_lang locale_haitian_haiti = some iso_lang_haitian
locale_iso_lang locale_hebrew_israel = some iso_lang_hebrew
locale_iso_lang locale_hindi_india = some iso_lang_hindi
locale_iso_lang locale_hungarian_hungary = some iso_lang_hungarian
locale_iso_lang locale_icelandic_iceland = some iso_lang_icelandic
locale_iso_lang locale_indonesian_indonesia = some iso_lang_indonesian
locale_iso_lang locale_italian_italy = some iso_lang_italian
locale_iso_lang locale_japanese_japan = some iso_lang_japanese
locale_iso_lang locale_kazakh_kazakhstan = some iso_lang_kazakh
locale_iso_lang locale_korean_south_korea = some iso_lang_korean
locale_iso_lang locale_kurdish_turkey = some iso_lang_kurdish
locale_iso_lang locale_kurdish_zaza = some iso_lang_kurdish
locale_iso_lang locale_kurdish_badini = some iso_lang_kurdish
locale_iso_lang locale_kurdish_sorani = some iso_lang_kurdish
locale_iso_lang locale_kyrgyz = some iso_lang_kyrgyz
locale_iso_lang locale_lao = some iso_lang_lao
locale_iso_lang locale_latvian_latvia = some iso_lang_latvian
locale_iso_lang locale_lingala_congo = some iso_lang_lingala
locale_iso_lang locale_lithuanian_lithuania = some iso_lang_lithuanian
locale_iso_lang locale_macedonian_macedonia = some iso_lang_macedonian
locale_iso_lang locale_malay_malaysia = some iso_lang_malay
locale_iso_lang locale_mongolian_mongolia = some iso_lang_mongolian
locale_iso_lang locale_nepali_nepal = some iso_lang_nepali
locale_iso_lang locale_norwegian_bokmal_norway = some iso_lang_norwegian_bokmal
locale_iso_lang locale_persian_iran = some iso_lang_persian
locale_iso_lang locale_peruvian_spanish = some iso_lang_spanish
locale_iso_lang locale_spanish_mexico = some iso_lang_spanish
locale_iso_lang locale_spanish_spain = some iso_lang_spanish
locale_iso_lang locale_polish_poland = some iso_lang_polish
locale_iso_lang locale_portuguese_brazil = some iso_lang_portuguese
locale_iso_lang locale_portuguese_portugal = some iso_lang_portuguese
locale_iso_lang locale_romanian_romania = some iso_lang_romanian
locale_iso_lang locale_russian_russia = some iso_lang_russian
locale_iso_lang locale_serbian_serbia = some iso_lang_serbian
locale_iso_lang locale_serbian_serbia_latin = some iso_lang_serbian_latin
locale_iso_lang locale_sindhi_india = some iso_lang_sindhi
locale_iso_lang locale_sinhala_srilanka = some iso_lang_sinhala
locale_iso_lang locale_slovak_slovakia = some iso_lang_slovak
locale_iso_lang locale_slovenian_slovenia = some iso_lang_slovenian
locale_iso_lang locale_somali_somalia = some iso_lang_somali
locale_iso_lang locale_swahili_kenya = some iso_lang_swahili
locale_iso_lang locale_swedish_sweden = some iso_lang_swedish
locale_iso_lang locale_tagalog_philippines = some iso_lang_tagalog
locale_iso_lang locale_tajik_tajikistan = some iso_lang_tajik
locale_iso_lang locale_thai_thailand = some iso_lang_thai
locale_iso_lang locale_telugu = some iso_lang_telugu
locale_iso_lang locale_turkish_turkey = some iso_lang_turkish
locale_iso_lang locale_ukrainian_ukraine = some iso_lang_ukrainian
locale_iso_lang locale_urdu_pakistan = some iso_lang_urdu
locale_iso_lang locale_uzbek_uzbekistan = some iso_lang_uzbek
locale_iso_lang locale_vietnamese_vietnam = some iso_lang_vietnamese
locale_iso_lang locale_zulu_southafrica = some iso_lang_zulu
locale_iso_lang locale_tamil_srilanka = some iso_lang_sinhala
