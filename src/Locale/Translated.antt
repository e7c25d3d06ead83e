-- ===== src/Locale/Translated.antt =====
-- `Locale.TranslatorsName` and `TranslatorsName.Locale` of pkg/locale; none is the
-- default case.
use advinced_cache.Prelude.{Option, some}
use advinced_cache.Locale.Tag.{
  Locale, locale_afar_eritrea, locale_afar_ethiopia, locale_albanian_albania,
  locale_amharic_ethiopia, locale_arabic_uae, locale_armenian_armenia,
  locale_azerbaijani_azerbaijan, locale_belarusian_belarus, locale_bengali_bangladesh,
  locale_bosnian_bosnia, locale_bulgarian_bulgaria, locale_burmese_myanmar, locale_central_khmer,
  locale_chinese_china, locale_chinese_hong_kong, locale_chinese_taiwan, locale_croatian_croatia,
  locale_czech_czech_republic, locale_danish_denmark, locale_dutch_netherlands,
  locale_english_canada, locale_english_india, locale_english_new_zealand,
  locale_english_united_kingdom, locale_estonian_estonia, locale_finnish_finland,
  locale_french_france, locale_georgian_georgia, locale_german_germany, locale_greek_greece,
  locale_haitian_haiti, locale_hebrew_israel, locale_hindi_india, locale_hungarian_hungary,
  locale_icelandic_iceland, locale_indonesian_indonesia, locale_italian_italy,
  locale_japanese_japan, locale_kazakh_kazakhstan, locale_korean_south_korea, locale_kurdish_badini,
  locale_kurdish_sorani, locale_kurdish_turkey, locale_kurdish_zaza, locale_kyrgyz, locale_lao,
  locale_latvian_latvia, locale_lingala_congo, locale_lithuanian_lithuania,
  locale_macedonian_macedonia, locale_malay_malaysia, locale_mongolian_mongolia,
  locale_nepali_nepal, locale_norwegian_bokmal_norway, locale_persian_iran, locale_peruvian_spanish,
  locale_polish_poland, locale_portuguese_brazil, locale_portuguese_portugal,
  locale_romanian_romania, locale_russian_russia, locale_serbian_serbia,
  locale_serbian_serbia_latin, locale_sindhi_india, locale_sinhala_srilanka, locale_slovak_slovakia,
  locale_slovenian_slovenia, locale_somali_somalia, locale_spanish_mexico, locale_spanish_spain,
  locale_swahili_kenya, locale_swedish_sweden, locale_tagalog_philippines, locale_tajik_tajikistan,
  locale_tamil_srilanka, locale_telugu, locale_thai_thailand, locale_turkish_turkey,
  locale_ukrainian_ukraine, locale_urdu_pakistan, locale_uzbek_uzbekistan,
  locale_vietnamese_vietnam, locale_zulu_southafrica,
}
use advinced_cache.Locale.Translator.{
  TranslatorsName, translators_albanian, translators_amharic, translators_arabic_uae,
  translators_armenian, translators_azerbaijani, translators_belarusian, translators_bengali,
  translators_bosnian, translators_bulgarian, translators_burmese, translators_canadian_english,
  translators_cantonese, translators_cantonese_katon, translators_chinese, translators_croatian,
  translators_czech_czechia, translators_danish, translators_dutch, translators_english,
  translators_estonian, translators_finnish, translators_french, translators_georgian_georgia,
  translators_german, translators_greek, translators_haitian_creole, translators_hebrew,
  translators_hindi, translators_hungarian, translators_icelandic, translators_indian_english,
  translators_indonesian, translators_italian, translators_japanese, translators_kazakh,
  translators_khmer, translators_korean, translators_kurdish_badini, translators_kurdish_zaza,
  translators_kurmanji_kurdish, translators_kyrgyz, translators_lao, translators_latvian,
  translators_lingala, translators_lithuanian, translators_macedonian, translators_malay,
  translators_mexican_spanish, translators_mongolian, translators_nepali,
  translators_new_zealand_english, translators_norwegian, translators_persian_iran,
  translators_peruvian_spanish, translators_polish, translators_portuguese,
  translators_portuguese_brazil, translators_romanian, translators_russian,
  translators_serbian_serbia, translators_serbian_serbia_latin, translators_sinhala,
  translators_slovak, translators_slovenian, translators_somali, translators_sorani_kurdish,
  translators_spanish, translators_swahili, translators_swedish_sweden, translators_tagalog,
  translators_tajik, translators_tajik_tajikistan, translators_tamil_sri_lanka, translators_telugu,
  translators_thai, translators_traditional_chinese, translators_turkish, translators_ukrainian,
  translators_urdu, translators_uzbek, translators_uzbek_latin, translators_uzbek_latin_uzbekistan,
  translators_vietnamese,
}

unfoldable pub translators_name : Locale → Option TranslatorsName
translators_name locale_afar_eritrea = some translators_cantonese
translators_name locale_afar_ethiopia = some translators_amharic
translators_name locale_albanian_albania = some translators_albanian
translators_name locale_amharic_ethiopia = some translators_amharic
translators_name locale_arabic_uae = some translators_arabic_uae
translators_name locale_armenian_armenia = some translators_armenian
translators_name locale_azerbaijani_azerbaijan = some translators_azerbaijani
translators_name locale_belarusian_belarus = some translators_belarusian
translators_name locale_bengali_bangladesh = some translators_bengali
translators_name locale_bosnian_bosnia = some translators_bosnian
translators_name locale_bulgarian_bulgaria = some translators_bulgarian
translators_name locale_burmese_myanmar = some translators_burmese
translators_name locale_central_khmer = some translators_khmer
translators_name locale_chinese_china = some translators_chinese
translators_name locale_chinese_hong_kong = some translators_cantonese_katon
translators_name locale_chinese_taiwan = some translators_traditional_chinese
translators_name locale_croatian_croatia = some translators_croatian
translators_name locale_czech_czech_republic = some translators_czech_czechia
translators_name locale_danish_denmark = some translators_danish
translators_name locale_dutch_netherlands = some translators_dutch
translators_name locale_english_canada = some translators_canadian_english
translators_name locale_english_india = some translators_indian_english
translators_name locale_english_new_zealand = some translators_new_zealand_english
translators_name locale_english_united_kingdom = some translators_english
translators_name locale_estonian_estonia = some translators_estonian
translators_name locale_finnish_finland = some translators_finnish
translators_name locale_french_france = some translators_french
translators_name locale_georgian_georgia = some translators_georgian_georgia
translators_name locale_german_germany = some translators_german
translators_name locale_greek_greece = some translators_greek
translators_name locale_haitian_haiti = some translators_haitian_creole
translators_name locale_hebrew_israel = some translators_hebrew
translators_name locale_hindi_india = some translators_hindi
translators_name locale_hungarian_hungary = some translators_hungarian
translators_name locale_icelandic_iceland = some translators_icelandic
translators_name locale_indonesian_indonesia = some translators_indonesian
translators_name locale_italian_italy = some translators_italian
translators_name locale_japanese_japan = some translators_japanese
translators_name locale_kazakh_kazakhstan = some translators_kazakh
translators_name locale_korean_south_korea = some translators_korean
translators_name locale_kurdish_turkey = some translators_kurmanji_kurdish
translators_name locale_kurdish_zaza = some translators_kurdish_zaza
translators_name locale_kurdish_badini = some translators_kurdish_badini
translators_name locale_kurdish_sorani = some translators_sorani_kurdish
translators_name locale_kyrgyz = some translators_kyrgyz
translators_name locale_lao = some translators_lao
translators_name locale_latvian_latvia = some translators_latvian
translators_name locale_lingala_congo = some translators_lingala
translators_name locale_lithuanian_lithuania = some translators_lithuanian
translators_name locale_macedonian_macedonia = some translators_macedonian
translators_name locale_malay_malaysia = some translators_malay
translators_name locale_mongolian_mongolia = some translators_mongolian
translators_name locale_nepali_nepal = some translators_nepali
translators_name locale_norwegian_bokmal_norway = some translators_norwegian
translators_name locale_persian_iran = some translators_persian_iran
translators_name locale_peruvian_spanish = some translators_peruvian_spanish
translators_name locale_polish_poland = some translators_polish
translators_name locale_portuguese_brazil = some translators_portuguese_brazil
translators_name locale_portuguese_portugal = some translators_portuguese
translators_name locale_romanian_romania = some translators_romanian
translators_name locale_russian_russia = some translators_russian
translators_name locale_serbian_serbia = some translators_serbian_serbia
translators_name locale_serbian_serbia_latin = some translators_serbian_serbia_latin
translators_name locale_sindhi_india = some translators_nepali
translators_name locale_sinhala_srilanka = some translators_sinhala
translators_name locale_slovak_slovakia = some translators_slovak
translators_name locale_slovenian_slovenia = some translators_slovenian
translators_name locale_somali_somalia = some translators_somali
translators_name locale_spanish_mexico = some translators_mexican_spanish
translators_name locale_spanish_spain = some translators_spanish
translators_name locale_swahili_kenya = some translators_swahili
translators_name locale_swedish_sweden = some translators_swedish_sweden
translators_name locale_tagalog_philippines = some translators_tagalog
translators_name locale_tajik_tajikistan = some translators_tajik
translators_name locale_thai_thailand = some translators_thai
translators_name locale_telugu = some translators_telugu
translators_name locale_turkish_turkey = some translators_turkish
translators_name locale_ukrainian_ukraine = some translators_ukrainian
translators_name locale_urdu_pakistan = some translators_urdu
translators_name locale_uzbek_uzbekistan = some translators_uzbek
translators_name locale_vietnamese_vietnam = some translators_vietnamese
translators_name locale_zulu_southafrica = some translators_kurdish_zaza
translators_name locale_tamil_srilanka = some translators_tamil_sri_lanka

unfoldable pub translators_locale : TranslatorsName → Option Locale
translators_locale translators_cantonese = some locale_afar_eritrea
translators_locale translators_amharic = some locale_amharic_ethiopia
translators_locale translators_albanian = some locale_albanian_albania
translators_locale translators_kurdish_badini = some locale_kurdish_badini
translators_locale translators_arabic_uae = some locale_arabic_uae
translators_locale translators_armenian = some locale_armenian_armenia
translators_locale translators_azerbaijani = some locale_azerbaijani_azerbaijan
translators_locale translators_belarusian = some locale_belarusian_belarus
translators_locale translators_bengali = some locale_bengali_bangladesh
translators_locale translators_bosnian = some locale_bosnian_bosnia
translators_locale translators_bulgarian = some locale_bulgarian_bulgaria
translators_locale translators_burmese = some locale_burmese_myanmar
translators_locale translators_khmer = some locale_central_khmer
translators_locale translators_chinese = some locale_chinese_china
translators_locale translators_cantonese_katon = some locale_chinese_hong_kong
translators_locale translators_traditional_chinese = some locale_chinese_taiwan
translators_locale translators_croatian = some locale_croatian_croatia
translators_locale translators_czech_czechia = some locale_czech_czech_republic
translators_locale translators_danish = some locale_danish_denmark
translators_locale translators_dutch = some locale_dutch_netherlands
translators_locale translators_canadian_english = some locale_english_canada
translators_locale translators_indian_english = some locale_english_india
translators_locale translators_new_zealand_english = some locale_english_new_zealand
translators_locale translators_english = some locale_english_united_kingdom
translators_locale translators_estonian = some locale_estonian_estonia
translators_locale translators_finnish = some locale_finnish_finland
translators_locale translators_french = some locale_french_france
translators_locale translators_georgian_georgia = some locale_georgian_georgia
translators_locale translators_german = some locale_german_germany
translators_locale translators_greek = some locale_greek_greece
translators_locale translators_haitian_creole = some locale_haitian_haiti
translators_locale translators_hebrew = some locale_hebrew_israel
translators_locale translators_hindi = some locale_hindi_india
translators_locale translators_hungarian = some locale_hungarian_hungary
translators_locale translators_icelandic = some locale_icelandic_iceland
translators_locale translators_indonesian = some locale_indonesian_indonesia
translators_locale translators_italian = some locale_italian_italy
translators_locale translators_japanese = some locale_japanese_japan
translators_locale translators_kazakh = some locale_kazakh_kazakhstan
translators_locale translators_korean = some locale_korean_south_korea
translators_locale translators_sorani_kurdish = some locale_kurdish_sorani
translators_locale translators_kyrgyz = some locale_kyrgyz
translators_locale translators_lao = some locale_lao
translators_locale translators_latvian = some locale_latvian_latvia
translators_locale translators_lingala = some locale_lingala_congo
translators_locale translators_lithuanian = some locale_lithuanian_lithuania
translators_locale translators_macedonian = some locale_macedonian_macedonia
translators_locale translators_malay = some locale_malay_malaysia
translators_locale translators_mongolian = some locale_mongolian_mongolia
translators_locale translators_kurmanji_kurdish = some locale_kurdish_turkey
translators_locale translators_norwegian = some locale_norwegian_bokmal_norway
translators_locale translators_persian_iran = some locale_persian_iran
translators_locale translators_peruvian_spanish = some locale_peruvian_spanish
translators_locale translators_polish = some locale_polish_poland
translators_locale translators_portuguese_brazil = some locale_portuguese_brazil
translators_locale translators_portuguese = some locale_portuguese_portugal
translators_locale translators_romanian = some locale_romanian_romania
translators_locale translators_russian = some locale_russian_russia
translators_locale translators_serbian_serbia = some locale_serbian_serbia
translators_locale translators_serbian_serbia_latin = some locale_serbian_serbia_latin
translators_locale translators_nepali = some locale_nepali_nepal
translators_locale translators_sinhala = some locale_sinhala_srilanka
translators_locale translators_slovak = some locale_slovak_slovakia
translators_locale translators_slovenian = some locale_slovenian_slovenia
translators_locale translators_somali = some locale_somali_somalia
translators_locale translators_mexican_spanish = some locale_spanish_mexico
translators_locale translators_spanish = some locale_spanish_spain
translators_locale translators_swahili = some locale_swahili_kenya
translators_locale translators_swedish_sweden = some locale_swedish_sweden
translators_locale translators_tagalog = some locale_tagalog_philippines
translators_locale translators_tajik = some locale_tajik_tajikistan
translators_locale translators_thai = some locale_thai_thailand
translators_locale translators_telugu = some locale_telugu
translators_locale translators_turkish = some locale_turkish_turkey
translators_locale translators_ukrainian = some locale_ukrainian_ukraine
translators_locale translators_urdu = some locale_urdu_pakistan
translators_locale translators_uzbek = some locale_uzbek_uzbekistan
translators_locale translators_vietnamese = some locale_vietnamese_vietnam
translators_locale translators_kurdish_zaza = some locale_kurdish_zaza
translators_locale translators_tajik_tajikistan = some locale_tajik_tajikistan
translators_locale translators_tamil_sri_lanka = some locale_tamil_srilanka
translators_locale translators_uzbek_latin = some locale_uzbek_uzbekistan
translators_locale translators_uzbek_latin_uzbekistan = some locale_uzbek_uzbekistan
