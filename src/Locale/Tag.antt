-- ===== src/Locale/Tag.antt =====
-- pkg/locale/locale.go: the constants of `Locale`, their strings and the list of them.
use advinced_cache.Prelude.{List, [], ◌∷◌}
use advinced_cache.KeyValue.{Bytes}

pub data Locale : Type 0 where
  locale_afar_ethiopia : Locale
  locale_albanian_albania : Locale
  locale_amharic_ethiopia : Locale
  locale_arabic_uae : Locale
  locale_armenian_armenia : Locale
  locale_azerbaijani_azerbaijan : Locale
  locale_belarusian_belarus : Locale
  locale_bengali_bangladesh : Locale
  locale_bosnian_bosnia : Locale
  locale_bulgarian_bulgaria : Locale
  locale_burmese_myanmar : Locale
  locale_afar_eritrea : Locale
  locale_central_khmer : Locale
  locale_chinese_china : Locale
  locale_chinese_hong_kong : Locale
  locale_chinese_taiwan : Locale
  locale_croatian_croatia : Locale
  locale_czech_czech_republic : Locale
  locale_danish_denmark : Locale
  locale_dutch_netherlands : Locale
  locale_english_canada : Locale
  locale_english_india : Locale
  locale_english_new_zealand : Locale
  locale_english_united_kingdom : Locale
  locale_estonian_estonia : Locale
  locale_finnish_finland : Locale
  locale_french_france : Locale
  locale_georgian_georgia : Locale
  locale_german_germany : Locale
  locale_greek_greece : Locale
  locale_haitian_haiti : Locale
  locale_hebrew_israel : Locale
  locale_hindi_india : Locale
  locale_hungarian_hungary : Locale
  locale_icelandic_iceland : Locale
  locale_indonesian_indonesia : Locale
  locale_italian_italy : Locale
  locale_japanese_japan : Locale
  locale_kazakh_kazakhstan : Locale
  locale_korean_south_korea : Locale
  locale_kurdish_turkey : Locale
  locale_kurdish_zaza : Locale
  locale_kurdish_badini : Locale
  locale_kurdish_sorani : Locale
  locale_kyrgyz : Locale
  locale_lao : Locale
  locale_latvian_latvia : Locale
  locale_lingala_congo : Locale
  locale_lithuanian_lithuania : Locale
  locale_macedonian_macedonia : Locale
  locale_malay_malaysia : Locale
  locale_mongolian_mongolia : Locale
  locale_nepali_nepal : Locale
  locale_norwegian_bokmal_norway : Locale
  locale_persian_iran : Locale
  locale_peruvian_spanish : Locale
  locale_polish_poland : Locale
  locale_portuguese_brazil : Locale
  locale_portuguese_portugal : Locale
  locale_romanian_romania : Locale
  locale_russian_russia : Locale
  locale_serbian_serbia : Locale
  locale_serbian_serbia_latin : Locale
  locale_sindhi_india : Locale
  locale_sinhala_srilanka : Locale
  locale_slovak_slovakia : Locale
  locale_slovenian_slovenia : Locale
  locale_somali_somalia : Locale
  locale_spanish_mexico : Locale
  locale_spanish_spain : Locale
  locale_swahili_kenya : Locale
  locale_swedish_sweden : Locale
  locale_tagalog_philippines : Locale
  locale_tajik_tajikistan : Locale
  locale_thai_thailand : Locale
  locale_telugu : Locale
  locale_turkish_turkey : Locale
  locale_ukrainian_ukraine : Locale
  locale_urdu_pakistan : Locale
  locale_uzbek_uzbekistan : Locale
  locale_vietnamese_vietnam : Locale
  locale_zulu_southafrica : Locale
  locale_tamil_srilanka : Locale

unfoldable pub locale_value : Locale → Bytes
locale_value locale_afar_ethiopia = b'a' ∷ b'a' ∷ b'_' ∷ b'E' ∷ b'T' ∷ []
locale_value locale_albanian_albania = b's' ∷ b'q' ∷ b'_' ∷ b'A' ∷ b'L' ∷ []
locale_value locale_amharic_ethiopia = b'a' ∷ b'm' ∷ b'_' ∷ b'E' ∷ b'T' ∷ []
locale_value locale_arabic_uae = b'a' ∷ b'r' ∷ b'_' ∷ b'A' ∷ b'E' ∷ []
locale_value locale_armenian_armenia = b'h' ∷ b'y' ∷ b'_' ∷ b'A' ∷ b'M' ∷ []
locale_value locale_azerbaijani_azerbaijan = b'a' ∷ b'z' ∷ b'_' ∷ b'A' ∷ b'Z' ∷ []
locale_value locale_belarusian_belarus = b'b' ∷ b'e' ∷ b'_' ∷ b'B' ∷ b'Y' ∷ []
locale_value locale_bengali_bangladesh = b'b' ∷ b'n' ∷ b'_' ∷ b'B' ∷ b'D' ∷ []
locale_value locale_bosnian_bosnia = b'b' ∷ b's' ∷ b'_' ∷ b'B' ∷ b'A' ∷ []
locale_value locale_bulgarian_bulgaria = b'b' ∷ b'g' ∷ b'_' ∷ b'B' ∷ b'G' ∷ []
locale_value locale_burmese_myanmar = b'm' ∷ b'y' ∷ b'_' ∷ b'M' ∷ b'M' ∷ []
locale_value locale_afar_eritrea = b'a' ∷ b'a' ∷ b'_' ∷ b'E' ∷ b'R' ∷ []
locale_value locale_central_khmer = b'k' ∷ b'm' ∷ b'_' ∷ b'K' ∷ b'H' ∷ []
locale_value locale_chinese_china = b'z' ∷ b'h' ∷ b'_' ∷ b'C' ∷ b'N' ∷ []
locale_value locale_chinese_hong_kong = b'z' ∷ b'h' ∷ b'_' ∷ b'H' ∷ b'K' ∷ []
locale_value locale_chinese_taiwan = b'z' ∷ b'h' ∷ b'_' ∷ b'T' ∷ b'W' ∷ []
locale_value locale_croatian_croatia = b'h' ∷ b'r' ∷ b'_' ∷ b'H' ∷ b'R' ∷ []
locale_value locale_czech_czech_republic = b'c' ∷ b's' ∷ b'_' ∷ b'C' ∷ b'Z' ∷ []
locale_value locale_danish_denmark = b'd' ∷ b'a' ∷ b'_' ∷ b'D' ∷ b'K' ∷ []
locale_value locale_dutch_netherlands = b'n' ∷ b'l' ∷ b'_' ∷ b'N' ∷ b'L' ∷ []
locale_value locale_english_canada = b'e' ∷ b'n' ∷ b'_' ∷ b'C' ∷ b'A' ∷ []
locale_value locale_english_india = b'e' ∷ b'n' ∷ b'_' ∷ b'I' ∷ b'N' ∷ []
locale_value locale_english_new_zealand = b'e' ∷ b'n' ∷ b'_' ∷ b'N' ∷ b'Z' ∷ []
locale_value locale_english_united_kingdom = b'e' ∷ b'n' ∷ b'_' ∷ b'G' ∷ b'B' ∷ []
locale_value locale_estonian_estonia = b'e' ∷ b't' ∷ b'_' ∷ b'E' ∷ b'E' ∷ []
locale_value locale_finnish_finland = b'f' ∷ b'i' ∷ b'_' ∷ b'F' ∷ b'I' ∷ []
locale_value locale_french_france = b'f' ∷ b'r' ∷ b'_' ∷ b'F' ∷ b'R' ∷ []
locale_value locale_georgian_georgia = b'k' ∷ b'a' ∷ b'_' ∷ b'G' ∷ b'E' ∷ []
locale_value locale_german_germany = b'd' ∷ b'e' ∷ b'_' ∷ b'D' ∷ b'E' ∷ []
locale_value locale_greek_greece = b'e' ∷ b'l' ∷ b'_' ∷ b'G' ∷ b'R' ∷ []
locale_value locale_haitian_haiti = b'h' ∷ b't' ∷ b'_' ∷ b'H' ∷ b'T' ∷ []
locale_value locale_hebrew_israel = b'h' ∷ b'e' ∷ b'_' ∷ b'I' ∷ b'L' ∷ []
locale_value locale_hindi_india = b'h' ∷ b'i' ∷ b'_' ∷ b'I' ∷ b'N' ∷ []
locale_value locale_hungarian_hungary = b'h' ∷ b'u' ∷ b'_' ∷ b'H' ∷ b'U' ∷ []
locale_value locale_icelandic_iceland = b'i' ∷ b's' ∷ b'_' ∷ b'I' ∷ b'S' ∷ []
locale_value locale_indonesian_indonesia = b'i' ∷ b'd' ∷ b'_' ∷ b'I' ∷ b'D' ∷ []
locale_value locale_italian_italy = b'i' ∷ b't' ∷ b'_' ∷ b'I' ∷ b'T' ∷ []
locale_value locale_japanese_japan = b'j' ∷ b'a' ∷ b'_' ∷ b'J' ∷ b'P' ∷ []
locale_value locale_kazakh_kazakhstan = b'k' ∷ b'k' ∷ b'_' ∷ b'K' ∷ b'Z' ∷ []
locale_value locale_korean_south_korea = b'k' ∷ b'o' ∷ b'_' ∷ b'K' ∷ b'R' ∷ []
locale_value locale_kurdish_turkey = b'k' ∷ b'u' ∷ b'_' ∷ b'T' ∷ b'R' ∷ []
locale_value locale_kurdish_zaza = b'k' ∷ b'u' ∷ b'_' ∷ b'G' ∷ b'E' ∷ []
locale_value locale_kurdish_badini = b'k' ∷ b'u' ∷ b'_' ∷ b'I' ∷ b'Q' ∷ []
locale_value locale_kurdish_sorani = b'k' ∷ b'u' ∷ b'_' ∷ b'I' ∷ b'R' ∷ []
locale_value locale_kyrgyz = b'k' ∷ b'y' ∷ b'_' ∷ b'K' ∷ b'G' ∷ []
locale_value locale_lao = b'l' ∷ b'o' ∷ b'_' ∷ b'L' ∷ b'A' ∷ []
locale_value locale_latvian_latvia = b'l' ∷ b'v' ∷ b'_' ∷ b'L' ∷ b'V' ∷ []
locale_value locale_lingala_congo = b'l' ∷ b'n' ∷ b'_' ∷ b'C' ∷ b'D' ∷ []
locale_value locale_lithuanian_lithuania = b'l' ∷ b't' ∷ b'_' ∷ b'L' ∷ b'T' ∷ []
locale_value locale_macedonian_macedonia = b'm' ∷ b'k' ∷ b'_' ∷ b'M' ∷ b'K' ∷ []
locale_value locale_malay_malaysia = b'm' ∷ b's' ∷ b'_' ∷ b'M' ∷ b'Y' ∷ []
locale_value locale_mongolian_mongolia = b'm' ∷ b'n' ∷ b'_' ∷ b'M' ∷ b'N' ∷ []
locale_value locale_nepali_nepal = b'n' ∷ b'e' ∷ b'_' ∷ b'N' ∷ b'P' ∷ []
locale_value locale_norwegian_bokmal_norway = b'n' ∷ b'b' ∷ b'_' ∷ b'N' ∷ b'O' ∷ []
locale_value locale_persian_iran = b'f' ∷ b'a' ∷ b'_' ∷ b'I' ∷ b'R' ∷ []
locale_value locale_peruvian_spanish = b'e' ∷ b's' ∷ b'_' ∷ b'P' ∷ b'E' ∷ []
locale_value locale_polish_poland = b'p' ∷ b'l' ∷ b'_' ∷ b'P' ∷ b'L' ∷ []
locale_value locale_portuguese_brazil = b'p' ∷ b't' ∷ b'_' ∷ b'B' ∷ b'R' ∷ []
locale_value locale_portuguese_portugal = b'p' ∷ b't' ∷ b'_' ∷ b'P' ∷ b'T' ∷ []
locale_value locale_romanian_romania = b'r' ∷ b'o' ∷ b'_' ∷ b'R' ∷ b'O' ∷ []
locale_value locale_russian_russia = b'r' ∷ b'u' ∷ b'_' ∷ b'R' ∷ b'U' ∷ []
locale_value locale_serbian_serbia = b's' ∷ b'r' ∷ b'_' ∷ b'R' ∷ b'S' ∷ []
locale_value locale_serbian_serbia_latin = b's' ∷ b'r' ∷ b'_' ∷ b'S' ∷ b'P' ∷ []
locale_value locale_sindhi_india = b's' ∷ b'd' ∷ b'_' ∷ b'I' ∷ b'N' ∷ []
locale_value locale_sinhala_srilanka = b's' ∷ b'i' ∷ b'_' ∷ b'L' ∷ b'K' ∷ []
locale_value locale_slovak_slovakia = b's' ∷ b'k' ∷ b'_' ∷ b'S' ∷ b'K' ∷ []
locale_value locale_slovenian_slovenia = b's' ∷ b'l' ∷ b'_' ∷ b'S' ∷ b'I' ∷ []
locale_value locale_somali_somalia = b's' ∷ b'o' ∷ b'_' ∷ b'S' ∷ b'O' ∷ []
locale_value locale_spanish_mexico = b'e' ∷ b's' ∷ b'_' ∷ b'M' ∷ b'X' ∷ []
locale_value locale_spanish_spain = b'e' ∷ b's' ∷ b'_' ∷ b'E' ∷ b'S' ∷ []
locale_value locale_swahili_kenya = b's' ∷ b'w' ∷ b'_' ∷ b'K' ∷ b'E' ∷ []
locale_value locale_swedish_sweden = b's' ∷ b'v' ∷ b'_' ∷ b'S' ∷ b'E' ∷ []
locale_value locale_tagalog_philippines = b't' ∷ b'l' ∷ b'_' ∷ b'P' ∷ b'H' ∷ []
locale_value locale_tajik_tajikistan = b't' ∷ b'g' ∷ b'_' ∷ b'T' ∷ b'J' ∷ []
locale_value locale_thai_thailand = b't' ∷ b'h' ∷ b'_' ∷ b'T' ∷ b'H' ∷ []
locale_value locale_telugu = b't' ∷ b'e' ∷ b'_' ∷ b'T' ∷ b'E' ∷ []
locale_value locale_turkish_turkey = b't' ∷ b'r' ∷ b'_' ∷ b'T' ∷ b'R' ∷ []
locale_value locale_ukrainian_ukraine = b'u' ∷ b'k' ∷ b'_' ∷ b'U' ∷ b'A' ∷ []
locale_value locale_urdu_pakistan = b'u' ∷ b'r' ∷ b'_' ∷ b'P' ∷ b'K' ∷ []
locale_value locale_uzbek_uzbekistan = b'u' ∷ b'z' ∷ b'_' ∷ b'U' ∷ b'Z' ∷ []
locale_value locale_vietnamese_vietnam = b'v' ∷ b'i' ∷ b'_' ∷ b'V' ∷ b'N' ∷ []
locale_value locale_zulu_southafrica = b'z' ∷ b'u' ∷ b'_' ∷ b'Z' ∷ b'A' ∷ []
locale_value locale_tamil_srilanka = b't' ∷ b'a' ∷ b'_' ∷ b'L' ∷ b'K' ∷ []

abbrev pub locales_list : List Locale
locales_list =
    locale_afar_ethiopia ∷ locale_albanian_albania ∷ locale_amharic_ethiopia ∷ locale_arabic_uae
    ∷ locale_armenian_armenia ∷ locale_azerbaijani_azerbaijan ∷ locale_belarusian_belarus
    ∷ locale_bengali_bangladesh ∷ locale_bosnian_bosnia ∷ locale_bulgarian_bulgaria
    ∷ locale_burmese_myanmar ∷ locale_afar_eritrea ∷ locale_central_khmer ∷ locale_chinese_china
    ∷ locale_chinese_hong_kong ∷ locale_chinese_taiwan ∷ locale_croatian_croatia
    ∷ locale_czech_czech_republic ∷ locale_danish_denmark ∷ locale_dutch_netherlands
    ∷ locale_english_canada ∷ locale_english_india ∷ locale_english_new_zealand
    ∷ locale_english_united_kingdom ∷ locale_estonian_estonia ∷ locale_finnish_finland
    ∷ locale_french_france ∷ locale_georgian_georgia ∷ locale_german_germany ∷ locale_greek_greece
    ∷ locale_haitian_haiti ∷ locale_hebrew_israel ∷ locale_hindi_india ∷ locale_hungarian_hungary
    ∷ locale_icelandic_iceland ∷ locale_indonesian_indonesia ∷ locale_italian_italy
    ∷ locale_japanese_japan ∷ locale_kazakh_kazakhstan ∷ locale_korean_south_korea
    ∷ locale_kurdish_turkey ∷ locale_kurdish_zaza ∷ locale_kurdish_badini ∷ locale_kurdish_sorani
    ∷ locale_kyrgyz ∷ locale_lao ∷ locale_latvian_latvia ∷ locale_lingala_congo
    ∷ locale_lithuanian_lithuania ∷ locale_macedonian_macedonia ∷ locale_malay_malaysia
    ∷ locale_mongolian_mongolia ∷ locale_nepali_nepal ∷ locale_norwegian_bokmal_norway
    ∷ locale_persian_iran ∷ locale_peruvian_spanish ∷ locale_polish_poland
    ∷ locale_portuguese_brazil ∷ locale_portuguese_portugal ∷ locale_romanian_romania
    ∷ locale_russian_russia ∷ locale_serbian_serbia ∷ locale_serbian_serbia_latin
    ∷ locale_sindhi_india ∷ locale_sinhala_srilanka ∷ locale_slovak_slovakia
    ∷ locale_slovenian_slovenia ∷ locale_somali_somalia ∷ locale_spanish_mexico
    ∷ locale_spanish_spain ∷ locale_swahili_kenya ∷ locale_swedish_sweden
    ∷ locale_tagalog_philippines ∷ locale_tajik_tajikistan ∷ locale_thai_thailand ∷ locale_telugu
    ∷ locale_turkish_turkey ∷ locale_ukrainian_ukraine ∷ locale_urdu_pakistan
    ∷ locale_uzbek_uzbekistan ∷ locale_vietnamese_vietnam ∷ locale_zulu_southafrica
    ∷ locale_tamil_srilanka ∷ []
