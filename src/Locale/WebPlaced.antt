-- ===== src/Locale/WebPlaced.antt =====
-- `LanguageCode.Country` and `LanguageCode.Locale` of pkg/locale; none is the
-- default case.
use advinced_cache.Prelude.{Option, some}
use advinced_cache.Locale.Country.{
  CountryEnum, country_albania, country_armenia, country_azerbaijan, country_bangladesh,
  country_belarus, country_bosnia, country_brazil, country_bulgaria, country_cambodia,
  country_canada, country_china, country_congo_kinshasa, country_croatia, country_czech_republic,
  country_denmark, country_estonia, country_ethiopia, country_finland, country_france,
  country_georgia, country_germany, country_greece, country_haiti, country_hong_kong,
  country_hungary, country_iceland, country_india, country_indonesia, country_iran, country_israel,
  country_italy, country_japan, country_kazakhstan, country_kenya, country_korea,
  country_kyrgyzstan, country_laos, country_latvia, country_lithuania, country_macedonia,
  country_malaysia, country_mexico, country_mongolia, country_myanmar, country_nepal,
  country_netherlands, country_new_zealand, country_norway, country_pakistan, country_peru,
  country_philippines, country_poland, country_portugal, country_romania, country_russian,
  country_serbia, country_slovakia, country_slovenia, country_somalia, country_spain,
  country_sri_lanka, country_sweden, country_taiwan, country_tajikistan, country_thailand,
  country_turkey, country_uae, country_ukraine, country_united_kingdom, country_uzbekistan,
  country_viet_nam,
}
use advinced_cache.Locale.Tag.{
  Locale, locale_afar_eritrea, locale_albanian_albania, locale_amharic_ethiopia, locale_arabic_uae,
  locale_armenian_armenia, locale_azerbaijani_azerbaijan, locale_belarusian_belarus,
  locale_bengali_bangladesh, locale_bosnian_bosnia, locale_bulgarian_bulgaria,
  locale_burmese_myanmar, locale_central_khmer, locale_chinese_china, locale_chinese_hong_kong,
  locale_chinese_taiwan, locale_croatian_croatia, locale_czech_czech_republic,
  locale_danish_denmark, locale_dutch_netherlands, locale_english_canada, locale_english_india,
  locale_english_new_zealand, locale_english_united_kingdom, locale_estonian_estonia,
  locale_finnish_finland, locale_french_france, locale_georgian_georgia, locale_german_germany,
  locale_greek_greece, locale_haitian_haiti, locale_hebrew_israel, locale_hindi_india,
  locale_hungarian_hungary, locale_icelandic_iceland, locale_indonesian_indonesia,
  locale_italian_italy, locale_japanese_japan, locale_kazakh_kazakhstan, locale_korean_south_korea,
  locale_kurdish_badini, locale_kurdish_sorani, locale_kurdish_turkey, locale_kurdish_zaza,
  locale_kyrgyz, locale_lao, locale_latvian_latvia, locale_lingala_congo,
  locale_lithuanian_lithuania, locale_macedonian_macedonia, locale_malay_malaysia,
  locale_mongolian_mongolia, locale_nepali_nepal, locale_norwegian_bokmal_norway,
  locale_persian_iran, locale_peruvian_spanish, locale_polish_poland, locale_portuguese_brazil,
  locale_portuguese_portugal, locale_romanian_romania, locale_russian_russia, locale_serbian_serbia,
  locale_serbian_serbia_latin, locale_sinhala_srilanka, locale_slovak_slovakia,
  locale_slovenian_slovenia, locale_somali_somalia, locale_spanish_mexico, locale_spanish_spain,
  locale_swahili_kenya, locale_swedish_sweden, locale_tagalog_philippines, locale_tajik_tajikistan,
  locale_tamil_srilanka, locale_telugu, locale_thai_thailand, locale_turkish_turkey,
  locale_ukrainian_ukraine, locale_urdu_pakistan, locale_uzbek_uzbekistan,
  locale_vietnamese_vietnam,
}
use advinced_cache.Locale.Web.{
  LanguageCode, webname_albanian, webname_albanian_sq, webname_amharic, webname_arabian,
  webname_armenian, webname_azerbaijanian, webname_belarusian, webname_bengali, webname_bosnian,
  webname_bulgarian, webname_burmese, webname_canadian, webname_cantonese,
  webname_cantonese_hong_kong, webname_chinese, webname_chinese_taiwan, webname_croatian,
  webname_czech, webname_danish, webname_dutch, webname_english, webname_english_australia,
  webname_english_britain, webname_english_usa, webname_estonian, webname_finnish, webname_french,
  webname_georgian, webname_german, webname_greek, webname_haitian_creole, webname_hebrew,
  webname_hindu, webname_hungarian, webname_icelandic, webname_indian, webname_indonesian,
  webname_iran, webname_iranian, webname_iraqi, webname_italian, webname_japanese, webname_kazakh,
  webname_khmer, webname_korean, webname_korean_kr, webname_korean_zh, webname_kurdish,
  webname_kurdish_kurmanci, webname_kurdish_sorani, webname_kurdish_zaza, webname_kyrgyz,
  webname_lao, webname_latvian, webname_lingala, webname_lithuanian, webname_macedonian,
  webname_malay, webname_mexican, webname_mongolian, webname_nepali, webname_new_zealand,
  webname_norwegian, webname_polish, webname_portuguese, webname_portuguese_brazil,
  webname_romanian, webname_russian, webname_serbian, webname_serbian_latin, webname_sinhalese,
  webname_slovak, webname_slovenian, webname_somali, webname_spanish, webname_spanish_peruvian,
  webname_swahili, webname_swedish, webname_tagalog, webname_tajik, webname_tajik_tg, webname_tamil,
  webname_telugu, webname_thai, webname_turkish, webname_ukrainian, webname_ukrainian_uk,
  webname_urdu, webname_uzbek, webname_vietnamese,
}

unfoldable pub webname_country : LanguageCode → Option CountryEnum
webname_country webname_amharic = some country_ethiopia
webname_country webname_arabian = some country_uae
webname_country webname_iraqi = some country_uae
webname_country webname_azerbaijanian = some country_azerbaijan
webname_country webname_belarusian = some country_belarus
webname_country webname_bulgarian = some country_bulgaria
webname_country webname_bengali = some country_bangladesh
webname_country webname_bosnian = some country_bosnia
webname_country webname_czech = some country_czech_republic
webname_country webname_danish = some country_denmark
webname_country webname_german = some country_germany
webname_country webname_greek = some country_greece
webname_country webname_canadian = some country_canada
webname_country webname_english_britain = some country_united_kingdom
webname_country webname_english_australia = some country_united_kingdom
webname_country webname_english = some country_united_kingdom
webname_country webname_english_usa = some country_united_kingdom
webname_country webname_indian = some country_india
webname_country webname_hindu = some country_india
webname_country webname_nepali = some country_nepal
webname_country webname_new_zealand = some country_new_zealand
webname_country webname_spanish = some country_spain
webname_country webname_spanish_peruvian = some country_peru
webname_country webname_mexican = some country_mexico
webname_country webname_estonian = some country_estonia
webname_country webname_iranian = some country_iran
webname_country webname_iran = some country_iran
webname_country webname_finnish = some country_finland
webname_country webname_french = some country_france
webname_country webname_hebrew = some country_israel
webname_country webname_croatian = some country_croatia
webname_country webname_haitian_creole = some country_haiti
webname_country webname_hungarian = some country_hungary
webname_country webname_armenian = some country_armenia
webname_country webname_indonesian = some country_indonesia
webname_country webname_icelandic = some country_iceland
webname_country webname_italian = some country_italy
webname_country webname_japanese = some country_japan
webname_country webname_georgian = some country_georgia
webname_country webname_kazakh = some country_kazakhstan
webname_country webname_khmer = some country_cambodia
webname_country webname_korean = some country_korea
webname_country webname_korean_kr = some country_korea
webname_country webname_kurdish = some country_turkey
webname_country webname_kurdish_kurmanci = some country_turkey
webname_country webname_kurdish_sorani = some country_turkey
webname_country webname_kurdish_zaza = some country_turkey
webname_country webname_turkish = some country_turkey
webname_country webname_lingala = some country_congo_kinshasa
webname_country webname_kyrgyz = some country_kyrgyzstan
webname_country webname_lao = some country_laos
webname_country webname_lithuanian = some country_lithuania
webname_country webname_latvian = some country_latvia
webname_country webname_macedonian = some country_macedonia
webname_country webname_mongolian = some country_mongolia
webname_country webname_malay = some country_malaysia
webname_country webname_burmese = some country_myanmar
webname_country webname_norwegian = some country_norway
webname_country webname_dutch = some country_netherlands
webname_country webname_polish = some country_poland
webname_country webname_portuguese_brazil = some country_brazil
webname_country webname_portuguese = some country_portugal
webname_country webname_romanian = some country_romania
webname_country webname_russian = some country_russian
webname_country webname_sinhalese = some country_sri_lanka
webname_country webname_slovak = some country_slovakia
webname_country webname_slovenian = some country_slovenia
webname_country webname_albanian = some country_albania
webname_country webname_albanian_sq = some country_albania
webname_country webname_serbian = some country_serbia
webname_country webname_serbian_latin = some country_serbia
webname_country webname_swedish = some country_sweden
webname_country webname_swahili = some country_kenya
webname_country webname_tajik = some country_tajikistan
webname_country webname_tajik_tg = some country_tajikistan
webname_country webname_tamil = some country_sri_lanka
webname_country webname_thai = some country_thailand
webname_country webname_telugu = some country_india
webname_country webname_tagalog = some country_philippines
webname_country webname_ukrainian = some country_ukraine
webname_country webname_ukrainian_uk = some country_ukraine
webname_country webname_urdu = some country_pakistan
webname_country webname_uzbek = some country_uzbekistan
webname_country webname_vietnamese = some country_viet_nam
webname_country webname_chinese = some country_china
webname_country webname_korean_zh = some country_china
webname_country webname_cantonese = some country_china
webname_country webname_cantonese_hong_kong = some country_hong_kong
webname_country webname_chinese_taiwan = some country_taiwan
webname_country webname_somali = some country_somalia

unfoldable pub webname_locale : LanguageCode → Option Locale
webname_locale webname_amharic = some locale_amharic_ethiopia
webname_locale webname_kurdish = some locale_kurdish_badini
webname_locale webname_arabian = some locale_arabic_uae
webname_locale webname_iraqi = some locale_arabic_uae
webname_locale webname_azerbaijanian = some locale_azerbaijani_azerbaijan
webname_locale webname_belarusian = some locale_belarusian_belarus
webname_locale webname_bulgarian = some locale_bulgarian_bulgaria
webname_locale webname_bengali = some locale_bengali_bangladesh
webname_locale webname_bosnian = some locale_bosnian_bosnia
webname_locale webname_czech = some locale_czech_czech_republic
webname_locale webname_danish = some locale_danish_denmark
webname_locale webname_german = some locale_german_germany
webname_locale webname_greek = some locale_greek_greece
webname_locale webname_canadian = some locale_english_canada
webname_locale webname_english_britain = some locale_english_united_kingdom
webname_locale webname_english_australia = some locale_english_united_kingdom
webname_locale webname_english = some locale_english_united_kingdom
webname_locale webname_english_usa = some locale_english_united_kingdom
webname_locale webname_indian = some locale_english_india
webname_locale webname_new_zealand = some locale_english_new_zealand
webname_locale webname_spanish = some locale_spanish_spain
webname_locale webname_spanish_peruvian = some locale_peruvian_spanish
webname_locale webname_mexican = some locale_spanish_mexico
webname_locale webname_estonian = some locale_estonian_estonia
webname_locale webname_iranian = some locale_persian_iran
webname_locale webname_iran = some locale_persian_iran
webname_locale webname_finnish = some locale_finnish_finland
webname_locale webname_french = some locale_french_france
webname_locale webname_hebrew = some locale_hebrew_israel
webname_locale webname_hindu = some locale_hindi_india
webname_locale webname_croatian = some locale_croatian_croatia
webname_locale webname_haitian_creole = some locale_haitian_haiti
webname_locale webname_hungarian = some locale_hungarian_hungary
webname_locale webname_armenian = some locale_armenian_armenia
webname_locale webname_indonesian = some locale_indonesian_indonesia
webname_locale webname_icelandic = some locale_icelandic_iceland
webname_locale webname_italian = some locale_italian_italy
webname_locale webname_japanese = some locale_japanese_japan
webname_locale webname_georgian = some locale_georgian_georgia
webname_locale webname_kazakh = some locale_kazakh_kazakhstan
webname_locale webname_khmer = some locale_central_khmer
webname_locale webname_korean = some locale_korean_south_korea
webname_locale webname_korean_kr = some locale_korean_south_korea
webname_locale webname_kurdish_sorani = some locale_kurdish_sorani
webname_locale webname_lingala = some locale_lingala_congo
webname_locale webname_kyrgyz = some locale_kyrgyz
webname_locale webname_lao = some locale_lao
webname_locale webname_lithuanian = some locale_lithuanian_lithuania
webname_locale webname_latvian = some locale_latvian_latvia
webname_locale webname_macedonian = some locale_macedonian_macedonia
webname_locale webname_mongolian = some locale_mongolian_mongolia
webname_locale webname_malay = some locale_malay_malaysia
webname_locale webname_burmese = some locale_burmese_myanmar
webname_locale webname_norwegian = some locale_norwegian_bokmal_norway
webname_locale webname_kurdish_kurmanci = some locale_kurdish_turkey
webname_locale webname_dutch = some locale_dutch_netherlands
webname_locale webname_polish = some locale_polish_poland
webname_locale webname_portuguese_brazil = some locale_portuguese_brazil
webname_locale webname_portuguese = some locale_portuguese_portugal
webname_locale webname_romanian = some locale_romanian_romania
webname_locale webname_russian = some locale_russian_russia
webname_locale webname_nepali = some locale_nepali_nepal
webname_locale webname_sinhalese = some locale_sinhala_srilanka
webname_locale webname_slovak = some locale_slovak_slovakia
webname_locale webname_slovenian = some locale_slovenian_slovenia
webname_locale webname_albanian = some locale_albanian_albania
webname_locale webname_albanian_sq = some locale_albanian_albania
webname_locale webname_serbian = some locale_serbian_serbia
webname_locale webname_serbian_latin = some locale_serbian_serbia_latin
webname_locale webname_swedish = some locale_swedish_sweden
webname_locale webname_swahili = some locale_swahili_kenya
webname_locale webname_tajik = some locale_tajik_tajikistan
webname_locale webname_tajik_tg = some locale_tajik_tajikistan
webname_locale webname_tamil = some locale_tamil_srilanka
webname_locale webname_thai = some locale_thai_thailand
webname_locale webname_telugu = some locale_telugu
webname_locale webname_tagalog = some locale_tagalog_philippines
webname_locale webname_turkish = some locale_turkish_turkey
webname_locale webname_ukrainian = some locale_ukrainian_ukraine
webname_locale webname_ukrainian_uk = some locale_ukrainian_ukraine
webname_locale webname_urdu = some locale_urdu_pakistan
webname_locale webname_uzbek = some locale_uzbek_uzbekistan
webname_locale webname_vietnamese = some locale_vietnamese_vietnam
webname_locale webname_chinese = some locale_chinese_china
webname_locale webname_korean_zh = some locale_chinese_china
webname_locale webname_cantonese_hong_kong = some locale_chinese_hong_kong
webname_locale webname_chinese_taiwan = some locale_chinese_taiwan
webname_locale webname_kurdish_zaza = some locale_kurdish_zaza
webname_locale webname_somali = some locale_somali_somalia
webname_locale webname_cantonese = some locale_afar_eritrea
