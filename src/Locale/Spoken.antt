-- ===== src/Locale/Spoken.antt =====
-- `IsoLang.Locale` and `LanguageCode.IsoLang` of pkg/locale; none is the
-- default case.
use advinced_cache.Prelude.{Option, some, List, [], ◌∷◌}
use advinced_cache.Locale.Iso.{
  IsoLang, iso_lang_afar, iso_lang_albanian, iso_lang_amharic, iso_lang_arabic, iso_lang_armenian,
  iso_lang_azerbaijani, iso_lang_belarusian, iso_lang_bengali, iso_lang_bosnian, iso_lang_bulgarian,
  iso_lang_burmese, iso_lang_cambodia, iso_lang_chinese, iso_lang_croatian, iso_lang_czech,
  iso_lang_danish, iso_lang_dutch, iso_lang_english, iso_lang_estonian, iso_lang_finnish,
  iso_lang_french, iso_lang_georgian, iso_lang_german, iso_lang_greek, iso_lang_haitian,
  iso_lang_hebrew, iso_lang_hindi, iso_lang_hungarian, iso_lang_icelandic, iso_lang_indonesian,
  iso_lang_italian, iso_lang_japanese, iso_lang_kazakh, iso_lang_korean, iso_lang_kurdish,
  iso_lang_kyrgyz, iso_lang_lao, iso_lang_latvian, iso_lang_lingala, iso_lang_lithuanian,
  iso_lang_macedonian, iso_lang_malay, iso_lang_mongolian, iso_lang_nepali,
  iso_lang_norwegian_bokmal, iso_lang_persian, iso_lang_polish, iso_lang_portuguese,
  iso_lang_romanian, iso_lang_russian, iso_lang_serbian, iso_lang_serbian_latin, iso_lang_sindhi,
  iso_lang_sinhala, iso_lang_slovak, iso_lang_slovenian, iso_lang_somali, iso_lang_spanish,
  iso_lang_swahili, iso_lang_swedish, iso_lang_tagalog, iso_lang_tajik, iso_lang_telugu,
  iso_lang_thai, iso_lang_turkish, iso_lang_ukrainian, iso_lang_urdu, iso_lang_uzbek,
  iso_lang_vietnamese, iso_lang_zulu,
}
use advinced_cache.Locale.Tag.{
  Locale, locale_afar_ethiopia, locale_albanian_albania, locale_amharic_ethiopia, locale_arabic_uae,
  locale_armenian_armenia, locale_azerbaijani_azerbaijan, locale_belarusian_belarus,
  locale_bengali_bangladesh, locale_bosnian_bosnia, locale_bulgarian_bulgaria,
  locale_burmese_myanmar, locale_central_khmer, locale_chinese_china, locale_chinese_hong_kong,
  locale_chinese_taiwan, locale_croatian_croatia, locale_czech_czech_republic,
  locale_danish_denmark, locale_dutch_netherlands, locale_english_canada, locale_english_india,
  locale_english_new_zealand, locale_english_united_kingdom, locale_estonian_estonia,
  locale_finnish_finland, locale_french_france, locale_georgian_georgia, locale_german_germany,
  locale_greek_greece, locale_haitian_haiti, locale_hebrew_israel, locale_hindi_india,
  locale_hungarian_hungary, locale_icelandic_iceland, locale_indonesian_indonesia,
  locale_italian_italy, locale_japanese_japan, locale_kazakh_kazakhstan, locale_korean_south_korea,
  locale_kurdish_turkey, locale_kyrgyz, locale_lao, locale_latvian_latvia, locale_lingala_congo,
  locale_lithuanian_lithuania, locale_macedonian_macedonia, locale_malay_malaysia,
  locale_mongolian_mongolia, locale_nepali_nepal, locale_norwegian_bokmal_norway,
  locale_persian_iran, locale_polish_poland, locale_portuguese_brazil, locale_portuguese_portugal,
  locale_romanian_romania, locale_russian_russia, locale_serbian_serbia,
  locale_serbian_serbia_latin, locale_sindhi_india, locale_sinhala_srilanka, locale_slovak_slovakia,
  locale_slovenian_slovenia, locale_somali_somalia, locale_spanish_mexico, locale_spanish_spain,
  locale_swahili_kenya, locale_swedish_sweden, locale_tagalog_philippines, locale_tajik_tajikistan,
  locale_telugu, locale_thai_thailand, locale_turkish_turkey, locale_ukrainian_ukraine,
  locale_urdu_pakistan, locale_uzbek_uzbekistan, locale_vietnamese_vietnam, locale_zulu_southafrica,
}
use advinced_cache.Locale.Web.{
  LanguageCode, webname_albanian, webname_albanian_sq, webname_amharic, webname_arabian,
  webname_armenian, webname_azerbaijanian, webname_belarusian, webname_bengali, webname_bosnian,
  webname_bulgarian, webname_burmese, webname_canadian, webname_cantonese,
  webname_cantonese_hong_kong, webname_chinese, webname_chinese_taiwan, webname_croatian,
  webname_czech, webname_danish, webname_dutch, webname_english, webname_english_australia,
  webname_english_britain, webname_english_usa, webname_estonian, webname_finnish, webname_french,
  webname_georgian, webname_german, webname_greek, webname_haitian_creole, webname_hebrew,
  webname_hindu, webname_hungarian, webname_icelandic, webname_indian, webname_indonesian,
  webname_iran, webname_iranian, webname_iraqi, webname_italian, webname_japanese, webname_kazakh,
  webname_khmer, webname_korean, webname_korean_kr, webname_korean_zh, webname_kurdish,
  webname_kurdish_kurmanci, webname_kurdish_sorani, webname_kurdish_zaza, webname_kyrgyz,
  webname_lao, webname_latvian, webname_lingala, webname_lithuanian, webname_macedonian,
  webname_malay, webname_mexican, webname_mongolian, webname_nepali, webname_new_zealand,
  webname_norwegian, webname_polish, webname_portuguese, webname_portuguese_brazil,
  webname_romanian, webname_russian, webname_serbian, webname_serbian_latin, webname_sinhalese,
  webname_slovak, webname_slovenian, webname_somali, webname_spanish, webname_spanish_peruvian,
  webname_swahili, webname_swedish, webname_tagalog, webname_tajik, webname_tajik_tg, webname_tamil,
  webname_telugu, webname_thai, webname_turkish, webname_ukrainian, webname_ukrainian_uk,
  webname_urdu, webname_uzbek, webname_vietnamese,
}

unfoldable pub iso_lang_locales : IsoLang → Option (List Locale)
iso_lang_locales iso_lang_afar = some (locale_afar_ethiopia ∷ [])
iso_lang_locales iso_lang_amharic = some (locale_amharic_ethiopia ∷ [])
iso_lang_locales iso_lang_arabic = some (locale_arabic_uae ∷ [])
iso_lang_locales iso_lang_azerbaijani = some (locale_azerbaijani_azerbaijan ∷ [])
iso_lang_locales iso_lang_belarusian = some (locale_belarusian_belarus ∷ [])
iso_lang_locales iso_lang_bulgarian = some (locale_bulgarian_bulgaria ∷ [])
iso_lang_locales iso_lang_bengali = some (locale_bengali_bangladesh ∷ [])
iso_lang_locales iso_lang_bosnian = some (locale_bosnian_bosnia ∷ [])
iso_lang_locales iso_lang_czech = some (locale_czech_czech_republic ∷ [])
iso_lang_locales iso_lang_danish = some (locale_danish_denmark ∷ [])
iso_lang_locales iso_lang_german = some (locale_german_germany ∷ [])
iso_lang_locales iso_lang_greek = some (locale_greek_greece ∷ [])
iso_lang_locales iso_lang_english = some (
    locale_english_united_kingdom ∷ locale_english_canada ∷ locale_english_india
    ∷ locale_english_new_zealand ∷ [])
iso_lang_locales iso_lang_spanish = some (locale_spanish_spain ∷ locale_spanish_mexico ∷ [])
iso_lang_locales iso_lang_estonian = some (locale_estonian_estonia ∷ [])
iso_lang_locales iso_lang_persian = some (locale_persian_iran ∷ [])
iso_lang_locales iso_lang_finnish = some (locale_finnish_finland ∷ [])
iso_lang_locales iso_lang_french = some (locale_french_france ∷ [])
iso_lang_locales iso_lang_hebrew = some (locale_hebrew_israel ∷ [])
iso_lang_locales iso_lang_hindi = some (locale_hindi_india ∷ [])
iso_lang_locales iso_lang_croatian = some (locale_croatian_croatia ∷ [])
iso_lang_locales iso_lang_haitian = some (locale_haitian_haiti ∷ [])
iso_lang_locales iso_lang_hungarian = some (locale_hungarian_hungary ∷ [])
iso_lang_locales iso_lang_armenian = some (locale_armenian_armenia ∷ [])
iso_lang_locales iso_lang_indonesian = some (locale_indonesian_indonesia ∷ [])
iso_lang_locales iso_lang_icelandic = some (locale_icelandic_iceland ∷ [])
iso_lang_locales iso_lang_italian = some (locale_italian_italy ∷ [])
iso_lang_locales iso_lang_japanese = some (locale_japanese_japan ∷ [])
iso_lang_locales iso_lang_georgian = some (locale_georgian_georgia ∷ [])
iso_lang_locales iso_lang_kazakh = some (locale_kazakh_kazakhstan ∷ [])
iso_lang_locales iso_lang_cambodia = some (locale_central_khmer ∷ [])
iso_lang_locales iso_lang_korean = some (locale_korean_south_korea ∷ [])
iso_lang_locales iso_lang_kurdish = some (locale_kurdish_turkey ∷ [])
iso_lang_locales iso_lang_lingala = some (locale_lingala_congo ∷ [])
iso_lang_locales iso_lang_kyrgyz = some (locale_kyrgyz ∷ [])
iso_lang_locales iso_lang_lao = some (locale_lao ∷ [])
iso_lang_locales iso_lang_lithuanian = some (locale_lithuanian_lithuania ∷ [])
iso_lang_locales iso_lang_latvian = some (locale_latvian_latvia ∷ [])
iso_lang_locales iso_lang_macedonian = some (locale_macedonian_macedonia ∷ [])
iso_lang_locales iso_lang_mongolian = some (locale_mongolian_mongolia ∷ [])
iso_lang_locales iso_lang_malay = some (locale_malay_malaysia ∷ [])
iso_lang_locales iso_lang_burmese = some (locale_burmese_myanmar ∷ [])
iso_lang_locales iso_lang_norwegian_bokmal = some (locale_norwegian_bokmal_norway ∷ [])
iso_lang_locales iso_lang_nepali = some (locale_nepali_nepal ∷ [])
iso_lang_locales iso_lang_dutch = some (locale_dutch_netherlands ∷ [])
iso_lang_locales iso_lang_polish = some (locale_polish_poland ∷ [])
iso_lang_locales iso_lang_portuguese =
    some (locale_portuguese_brazil ∷ locale_portuguese_portugal ∷ [])
iso_lang_locales iso_lang_romanian = some (locale_romanian_romania ∷ [])
iso_lang_locales iso_lang_russian = some (locale_russian_russia ∷ [])
iso_lang_locales iso_lang_sindhi = some (locale_sindhi_india ∷ [])
iso_lang_locales iso_lang_sinhala = some (locale_sinhala_srilanka ∷ [])
iso_lang_locales iso_lang_slovak = some (locale_slovak_slovakia ∷ [])
iso_lang_locales iso_lang_slovenian = some (locale_slovenian_slovenia ∷ [])
iso_lang_locales iso_lang_somali = some (locale_somali_somalia ∷ [])
iso_lang_locales iso_lang_albanian = some (locale_albanian_albania ∷ [])
iso_lang_locales iso_lang_serbian = some (locale_serbian_serbia ∷ [])
iso_lang_locales iso_lang_serbian_latin = some (locale_serbian_serbia_latin ∷ [])
iso_lang_locales iso_lang_swedish = some (locale_swedish_sweden ∷ [])
iso_lang_locales iso_lang_swahili = some (locale_swahili_kenya ∷ [])
iso_lang_locales iso_lang_tajik = some (locale_tajik_tajikistan ∷ [])
iso_lang_locales iso_lang_thai = some (locale_thai_thailand ∷ [])
iso_lang_locales iso_lang_telugu = some (locale_telugu ∷ [])
iso_lang_locales iso_lang_tagalog = some (locale_tagalog_philippines ∷ [])
iso_lang_locales iso_lang_turkish = some (locale_turkish_turkey ∷ [])
iso_lang_locales iso_lang_ukrainian = some (locale_ukrainian_ukraine ∷ [])
iso_lang_locales iso_lang_urdu = some (locale_urdu_pakistan ∷ [])
iso_lang_locales iso_lang_uzbek = some (locale_uzbek_uzbekistan ∷ locale_uzbek_uzbekistan ∷ [])
iso_lang_locales iso_lang_vietnamese = some (locale_vietnamese_vietnam ∷ [])
iso_lang_locales iso_lang_chinese =
    some (locale_chinese_china ∷ locale_chinese_hong_kong ∷ locale_chinese_taiwan ∷ [])
iso_lang_locales iso_lang_zulu = some (locale_zulu_southafrica ∷ [])

unfoldable pub webname_iso_lang : LanguageCode → Option IsoLang
webname_iso_lang webname_amharic = some iso_lang_amharic
webname_iso_lang webname_kurdish = some iso_lang_kurdish
webname_iso_lang webname_arabian = some iso_lang_arabic
webname_iso_lang webname_iraqi = some iso_lang_arabic
webname_iso_lang webname_azerbaijanian = some iso_lang_azerbaijani
webname_iso_lang webname_belarusian = some iso_lang_belarusian
webname_iso_lang webname_bulgarian = some iso_lang_bulgarian
webname_iso_lang webname_bengali = some iso_lang_bengali
webname_iso_lang webname_bosnian = some iso_lang_bosnian
webname_iso_lang webname_czech = some iso_lang_czech
webname_iso_lang webname_danish = some iso_lang_danish
webname_iso_lang webname_german = some iso_lang_german
webname_iso_lang webname_greek = some iso_lang_greek
webname_iso_lang webname_canadian = some iso_lang_english
webname_iso_lang webname_new_zealand = some iso_lang_english
webname_iso_lang webname_indian = some iso_lang_english
webname_iso_lang webname_english_usa = some iso_lang_english
webname_iso_lang webname_english = some iso_lang_english
webname_iso_lang webname_english_australia = some iso_lang_english
webname_iso_lang webname_english_britain = some iso_lang_english
webname_iso_lang webname_spanish = some iso_lang_spanish
webname_iso_lang webname_mexican = some iso_lang_spanish
webname_iso_lang webname_spanish_peruvian = some iso_lang_spanish
webname_iso_lang webname_estonian = some iso_lang_estonian
webname_iso_lang webname_iranian = some iso_lang_persian
webname_iso_lang webname_iran = some iso_lang_persian
webname_iso_lang webname_finnish = some iso_lang_finnish
webname_iso_lang webname_french = some iso_lang_french
webname_iso_lang webname_hebrew = some iso_lang_hebrew
webname_iso_lang webname_hindu = some iso_lang_hindi
webname_iso_lang webname_croatian = some iso_lang_croatian
webname_iso_lang webname_haitian_creole = some iso_lang_haitian
webname_iso_lang webname_hungarian = some iso_lang_hungarian
webname_iso_lang webname_armenian = some iso_lang_armenian
webname_iso_lang webname_indonesian = some iso_lang_indonesian
webname_iso_lang webname_icelandic = some iso_lang_icelandic
webname_iso_lang webname_italian = some iso_lang_italian
webname_iso_lang webname_japanese = some iso_lang_japanese
webname_iso_lang webname_georgian = some iso_lang_georgian
webname_iso_lang webname_kazakh = some iso_lang_kazakh
webname_iso_lang webname_khmer = some iso_lang_cambodia
webname_iso_lang webname_korean = some iso_lang_korean
webname_iso_lang webname_korean_kr = some iso_lang_korean
webname_iso_lang webname_kurdish_sorani = some iso_lang_kurdish
webname_iso_lang webname_lingala = some iso_lang_lingala
webname_iso_lang webname_kyrgyz = some iso_lang_kyrgyz
webname_iso_lang webname_lao = some iso_lang_lao
webname_iso_lang webname_lithuanian = some iso_lang_lithuanian
webname_iso_lang webname_latvian = some iso_lang_latvian
webname_iso_lang webname_macedonian = some iso_lang_macedonian
webname_iso_lang webname_mongolian = some iso_lang_mongolian
webname_iso_lang webname_malay = some iso_lang_malay
webname_iso_lang webname_burmese = some iso_lang_burmese
webname_iso_lang webname_norwegian = some iso_lang_norwegian_bokmal
webname_iso_lang webname_kurdish_kurmanci = some iso_lang_kurdish
webname_iso_lang webname_dutch = some iso_lang_dutch
webname_iso_lang webname_polish = some iso_lang_polish
webname_iso_lang webname_portuguese_brazil = some iso_lang_portuguese
webname_iso_lang webname_portuguese = some iso_lang_portuguese
webname_iso_lang webname_romanian = some iso_lang_romanian
webname_iso_lang webname_russian = some iso_lang_russian
webname_iso_lang webname_nepali = some iso_lang_nepali
webname_iso_lang webname_sinhalese = some iso_lang_sinhala
webname_iso_lang webname_slovak = some iso_lang_slovak
webname_iso_lang webname_slovenian = some iso_lang_slovenian
webname_iso_lang webname_albanian = some iso_lang_albanian
webname_iso_lang webname_albanian_sq = some iso_lang_albanian
webname_iso_lang webname_serbian = some iso_lang_serbian
webname_iso_lang webname_serbian_latin = some iso_lang_serbian_latin
webname_iso_lang webname_swedish = some iso_lang_swedish
webname_iso_lang webname_swahili = some iso_lang_swahili
webname_iso_lang webname_tajik = some iso_lang_tajik
webname_iso_lang webname_tajik_tg = some iso_lang_tajik
webname_iso_lang webname_thai = some iso_lang_thai
webname_iso_lang webname_telugu = some iso_lang_telugu
webname_iso_lang webname_tagalog = some iso_lang_tagalog
webname_iso_lang webname_turkish = some iso_lang_turkish
webname_iso_lang webname_ukrainian = some iso_lang_ukrainian
webname_iso_lang webname_ukrainian_uk = some iso_lang_ukrainian
webname_iso_lang webname_urdu = some iso_lang_urdu
webname_iso_lang webname_uzbek = some iso_lang_uzbek
webname_iso_lang webname_vietnamese = some iso_lang_vietnamese
webname_iso_lang webname_chinese = some iso_lang_chinese
webname_iso_lang webname_chinese_taiwan = some iso_lang_chinese
webname_iso_lang webname_korean_zh = some iso_lang_chinese
webname_iso_lang webname_cantonese_hong_kong = some iso_lang_chinese
webname_iso_lang webname_cantonese = some iso_lang_chinese
webname_iso_lang webname_kurdish_zaza = some iso_lang_kurdish
webname_iso_lang webname_somali = some iso_lang_somali
webname_iso_lang webname_tamil = some iso_lang_sinhala
