-- ===== src/Locale/Translator.antt =====
-- pkg/locale/translators.go: the constants of `TranslatorsName`, their strings and the list of them.
use advinced_cache.Prelude.{List, [], ◌∷◌}
use advinced_cache.KeyValue.{Bytes}

pub data TranslatorsName : Type 0 where
  translators_albanian : TranslatorsName
  translators_amharic : TranslatorsName
  translators_arabic_uae : TranslatorsName
  translators_armenian : TranslatorsName
  translators_azerbaijani : TranslatorsName
  translators_belarusian : TranslatorsName
  translators_bengali : TranslatorsName
  translators_bosnian : TranslatorsName
  translators_bulgarian : TranslatorsName
  translators_burmese : TranslatorsName
  translators_canadian_english : TranslatorsName
  translators_cantonese : TranslatorsName
  translators_cantonese_katon : TranslatorsName
  translators_chinese : TranslatorsName
  translators_croatian : TranslatorsName
  translators_czech_czechia : TranslatorsName
  translators_danish : TranslatorsName
  translators_dutch : TranslatorsName
  translators_english : TranslatorsName
  translators_estonian : TranslatorsName
  translators_finnish : TranslatorsName
  translators_french : TranslatorsName
  translators_georgian_georgia : TranslatorsName
  translators_german : TranslatorsName
  translators_greek : TranslatorsName
  translators_haitian_creole : TranslatorsName
  translators_hebrew : TranslatorsName
  translators_hindi : TranslatorsName
  translators_hungarian : TranslatorsName
  translators_icelandic : TranslatorsName
  translators_indian_english : TranslatorsName
  translators_indonesian : TranslatorsName
  translators_italian : TranslatorsName
  translators_japanese : TranslatorsName
  translators_kazakh : TranslatorsName
  translators_khmer : TranslatorsName
  translators_korean : TranslatorsName
  translators_kurdish_zaza : TranslatorsName
  translators_kurdish_badini : TranslatorsName
  translators_kurmanji_kurdish : TranslatorsName
  translators_kyrgyz : TranslatorsName
  translators_lao : TranslatorsName
  translators_latvian : TranslatorsName
  translators_lingala : TranslatorsName
  translators_lithuanian : TranslatorsName
  translators_macedonian : TranslatorsName
  translators_malay : TranslatorsName
  translators_mexican_spanish : TranslatorsName
  translators_mongolian : TranslatorsName
  translators_nepali : TranslatorsName
  translators_new_zealand_english : TranslatorsName
  translators_norwegian : TranslatorsName
  translators_persian_iran : TranslatorsName
  translators_peruvian_spanish : TranslatorsName
  translators_polish : TranslatorsName
  translators_portuguese : TranslatorsName
  translators_portuguese_brazil : TranslatorsName
  translators_romanian : TranslatorsName
  translators_russian : TranslatorsName
  translators_serbian_serbia : TranslatorsName
  translators_serbian_serbia_latin : TranslatorsName
  translators_sinhala : TranslatorsName
  translators_slovak : TranslatorsName
  translators_slovenian : TranslatorsName
  translators_somali : TranslatorsName
  translators_sorani_kurdish : TranslatorsName
  translators_spanish : TranslatorsName
  translators_swahili : TranslatorsName
  translators_swedish_sweden : TranslatorsName
  translators_tagalog : TranslatorsName
  translators_tajik : TranslatorsName
  translators_tajik_tajikistan : TranslatorsName
  translators_tamil_sri_lanka : TranslatorsName
  translators_thai : TranslatorsName
  translators_telugu : TranslatorsName
  translators_traditional_chinese : TranslatorsName
  translators_turkish : TranslatorsName
  translators_ukrainian : TranslatorsName
  translators_urdu : TranslatorsName
  translators_uzbek : TranslatorsName
  translators_uzbek_latin : TranslatorsName
  translators_uzbek_latin_uzbekistan : TranslatorsName
  translators_vietnamese : TranslatorsName

unfoldable pub translators_value : TranslatorsName → Bytes
translators_value translators_albanian = b's' ∷ b'q' ∷ b'_' ∷ b'A' ∷ b'L' ∷ []
translators_value translators_amharic = b'a' ∷ b'a' ∷ b'_' ∷ b'E' ∷ b'T' ∷ []
translators_value translators_arabic_uae = b'a' ∷ b'r' ∷ b'_' ∷ b'A' ∷ b'E' ∷ []
translators_value translators_armenian = b'h' ∷ b'y' ∷ b'_' ∷ b'A' ∷ b'M' ∷ []
translators_value translators_azerbaijani = b'a' ∷ b'z' ∷ b'_' ∷ b'A' ∷ b'Z' ∷ []
translators_value translators_belarusian = b'b' ∷ b'e' ∷ b'_' ∷ b'B' ∷ b'Y' ∷ []
translators_value translators_bengali = b'b' ∷ b'n' ∷ b'_' ∷ b'B' ∷ b'D' ∷ []
translators_value translators_bosnian = b'b' ∷ b's' ∷ b'_' ∷ b'B' ∷ b'A' ∷ []
translators_value translators_bulgarian = b'b' ∷ b'g' ∷ b'_' ∷ b'B' ∷ b'G' ∷ []
translators_value translators_burmese = b'm' ∷ b'y' ∷ b'_' ∷ b'M' ∷ b'M' ∷ []
translators_value translators_canadian_english = b'e' ∷ b'n' ∷ b'_' ∷ b'C' ∷ b'A' ∷ []
translators_value translators_cantonese = b'a' ∷ b'a' ∷ b'_' ∷ b'E' ∷ b'R' ∷ []
translators_value translators_cantonese_katon = b'z' ∷ b'h' ∷ b'_' ∷ b'H' ∷ b'K' ∷ []
translators_value translators_chinese = b'z' ∷ b'h' ∷ b'_' ∷ b'C' ∷ b'N' ∷ []
translators_value translators_croatian = b'h' ∷ b'r' ∷ b'_' ∷ b'H' ∷ b'R' ∷ []
translators_value translators_czech_czechia = b'c' ∷ b's' ∷ b'_' ∷ b'C' ∷ b'Z' ∷ []
translators_value translators_danish = b'd' ∷ b'a' ∷ b'_' ∷ b'D' ∷ b'K' ∷ []
translators_value translators_dutch = b'n' ∷ b'l' ∷ b'_' ∷ b'N' ∷ b'L' ∷ []
translators_value translators_english = b'e' ∷ b'n' ∷ b'_' ∷ b'G' ∷ b'B' ∷ []
translators_value translators_estonian = b'e' ∷ b't' ∷ b'_' ∷ b'E' ∷ b'E' ∷ []
translators_value translators_finnish = b'f' ∷ b'i' ∷ b'_' ∷ b'F' ∷ b'I' ∷ []
translators_value translators_french = b'f' ∷ b'r' ∷ b'_' ∷ b'F' ∷ b'R' ∷ []
translators_value translators_georgian_georgia = b'k' ∷ b'a' ∷ b'_' ∷ b'G' ∷ b'E' ∷ []
translators_value translators_german = b'd' ∷ b'e' ∷ b'_' ∷ b'D' ∷ b'E' ∷ []
translators_value translators_greek = b'e' ∷ b'l' ∷ b'_' ∷ b'G' ∷ b'R' ∷ []
translators_value translators_haitian_creole = b'h' ∷ b't' ∷ b'_' ∷ b'H' ∷ b'T' ∷ []
translators_value translators_hebrew = b'h' ∷ b'e' ∷ b'_' ∷ b'I' ∷ b'L' ∷ []
translators_value translators_hindi = b'h' ∷ b'i' ∷ b'_' ∷ b'I' ∷ b'N' ∷ []
translators_value translators_hungarian = b'h' ∷ b'u' ∷ b'_' ∷ b'H' ∷ b'U' ∷ []
translators_value translators_icelandic = b'i' ∷ b's' ∷ b'_' ∷ b'I' ∷ b'S' ∷ []
translators_value translators_indian_english = b'e' ∷ b'n' ∷ b'_' ∷ b'I' ∷ b'N' ∷ []
translators_value translators_indonesian = b'i' ∷ b'd' ∷ b'_' ∷ b'I' ∷ b'D' ∷ []
translators_value translators_italian = b'i' ∷ b't' ∷ b'_' ∷ b'I' ∷ b'T' ∷ []
translators_value translators_japanese = b'j' ∷ b'a' ∷ b'_' ∷ b'J' ∷ b'P' ∷ []
translators_value translators_kazakh = b'k' ∷ b'k' ∷ b'_' ∷ b'K' ∷ b'Z' ∷ []
translators_value translators_khmer = b'k' ∷ b'm' ∷ b'_' ∷ b'K' ∷ b'H' ∷ []
translators_value translators_korean = b'k' ∷ b'o' ∷ b'_' ∷ b'K' ∷ b'R' ∷ []
translators_value translators_kurdish_zaza = b'z' ∷ b'u' ∷ b'_' ∷ b'Z' ∷ b'A' ∷ []
translators_value translators_kurdish_badini = b'a' ∷ b'm' ∷ b'_' ∷ b'E' ∷ b'T' ∷ []
translators_value translators_kurmanji_kurdish = b'n' ∷ b'e' ∷ b'_' ∷ b'N' ∷ b'P' ∷ []
translators_value translators_kyrgyz = b'k' ∷ b'y' ∷ b'_' ∷ b'K' ∷ b'G' ∷ []
translators_value translators_lao = b'l' ∷ b'o' ∷ b'_' ∷ b'L' ∷ b'A' ∷ []
translators_value translators_latvian = b'l' ∷ b'v' ∷ b'_' ∷ b'L' ∷ b'V' ∷ []
translators_value translators_lingala = b'l' ∷ b'n' ∷ b'_' ∷ b'C' ∷ b'D' ∷ []
translators_value translators_lithuanian = b'l' ∷ b't' ∷ b'_' ∷ b'L' ∷ b'T' ∷ []
translators_value translators_macedonian = b'm' ∷ b'k' ∷ b'_' ∷ b'M' ∷ b'K' ∷ []
translators_value translators_malay = b'm' ∷ b's' ∷ b'_' ∷ b'M' ∷ b'Y' ∷ []
translators_value translators_mexican_spanish = b'e' ∷ b's' ∷ b'_' ∷ b'M' ∷ b'X' ∷ []
translators_value translators_mongolian = b'm' ∷ b'n' ∷ b'_' ∷ b'M' ∷ b'N' ∷ []
translators_value translators_nepali = b's' ∷ b'd' ∷ b'_' ∷ b'I' ∷ b'N' ∷ []
translators_value translators_new_zealand_english = b'e' ∷ b'n' ∷ b'_' ∷ b'N' ∷ b'Z' ∷ []
translators_value translators_norwegian = b'n' ∷ b'b' ∷ b'_' ∷ b'N' ∷ b'O' ∷ []
translators_value translators_persian_iran = b'f' ∷ b'a' ∷ b'_' ∷ b'I' ∷ b'R' ∷ []
translators_value translators_peruvian_spanish = b'e' ∷ b's' ∷ b'_' ∷ b'P' ∷ b'E' ∷ []
translators_value translators_polish = b'p' ∷ b'l' ∷ b'_' ∷ b'P' ∷ b'L' ∷ []
translators_value translators_portuguese = b'p' ∷ b't' ∷ b'_' ∷ b'P' ∷ b'T' ∷ []
translators_value translators_portuguese_brazil = b'p' ∷ b't' ∷ b'_' ∷ b'B' ∷ b'R' ∷ []
translators_value translators_romanian = b'r' ∷ b'o' ∷ b'_' ∷ b'R' ∷ b'O' ∷ []
translators_value translators_russian = b'r' ∷ b'u' ∷ b'_' ∷ b'R' ∷ b'U' ∷ []
translators_value translators_serbian_serbia = b's' ∷ b'r' ∷ b'_' ∷ b'R' ∷ b'S' ∷ []
translators_value translators_serbian_serbia_latin = b's' ∷ b'r' ∷ b'_' ∷ b'S' ∷ b'P' ∷ []
translators_value translators_sinhala = b's' ∷ b'i' ∷ b'_' ∷ b'L' ∷ b'K' ∷ []
translators_value translators_slovak = b's' ∷ b'k' ∷ b'_' ∷ b'S' ∷ b'K' ∷ []
translators_value translators_slovenian = b's' ∷ b'l' ∷ b'_' ∷ b'S' ∷ b'I' ∷ []
translators_value translators_somali = b's' ∷ b'o' ∷ b'_' ∷ b'S' ∷ b'O' ∷ []
translators_value translators_sorani_kurdish = b'k' ∷ b'u' ∷ b'_' ∷ b'T' ∷ b'R' ∷ []
translators_value translators_spanish = b'e' ∷ b's' ∷ b'_' ∷ b'E' ∷ b'S' ∷ []
translators_value translators_swahili = b's' ∷ b'w' ∷ b'_' ∷ b'K' ∷ b'E' ∷ []
translators_value translators_swedish_sweden = b's' ∷ b'v' ∷ b'_' ∷ b'S' ∷ b'E' ∷ []
translators_value translators_tagalog = b't' ∷ b'l' ∷ b'_' ∷ b'P' ∷ b'H' ∷ []
translators_value translators_tajik = b't' ∷ b'g' ∷ b'_' ∷ b'T' ∷ b'J' ∷ []
translators_value translators_tajik_tajikistan = b't' ∷ b'j' ∷ b'_' ∷ b'T' ∷ b'J' ∷ []
translators_value translators_tamil_sri_lanka = b't' ∷ b'a' ∷ b'_' ∷ b'L' ∷ b'K' ∷ []
translators_value translators_thai = b't' ∷ b'h' ∷ b'_' ∷ b'T' ∷ b'H' ∷ []
translators_value translators_telugu = b't' ∷ b'e' ∷ b'_' ∷ b'T' ∷ b'E' ∷ []
translators_value translators_traditional_chinese = b'z' ∷ b'h' ∷ b'_' ∷ b'T' ∷ b'W' ∷ []
translators_value translators_turkish = b't' ∷ b'r' ∷ b'_' ∷ b'T' ∷ b'R' ∷ []
translators_value translators_ukrainian = b'u' ∷ b'k' ∷ b'_' ∷ b'U' ∷ b'A' ∷ []
translators_value translators_urdu = b'u' ∷ b'r' ∷ b'_' ∷ b'P' ∷ b'K' ∷ []
translators_value translators_uzbek = b'u' ∷ b'z' ∷ b'_' ∷ b'U' ∷ b'Z' ∷ []
translators_value translators_uzbek_latin = b'u' ∷ b'z' ∷ b'_' ∷ b'L' ∷ b'a' ∷ b't' ∷ b'n' ∷ []
translators_value translators_uzbek_latin_uzbekistan =
    b'u' ∷ b'z' ∷ b'_' ∷ b'L' ∷ b'a' ∷ b't' ∷ b'n' ∷ b'_' ∷ b'U' ∷ b'Z' ∷ []
translators_value translators_vietnamese = b'v' ∷ b'i' ∷ b'_' ∷ b'V' ∷ b'N' ∷ []

abbrev pub translators_list : List TranslatorsName
translators_list =
    translators_cantonese ∷ translators_amharic ∷ translators_albanian ∷ translators_arabic_uae
    ∷ translators_armenian ∷ translators_azerbaijani ∷ translators_belarusian ∷ translators_bengali
    ∷ translators_bosnian ∷ translators_bulgarian ∷ translators_burmese ∷ translators_khmer
    ∷ translators_chinese ∷ translators_cantonese_katon ∷ translators_traditional_chinese
    ∷ translators_croatian ∷ translators_czech_czechia ∷ translators_danish ∷ translators_dutch
    ∷ translators_canadian_english ∷ translators_indian_english ∷ translators_new_zealand_english
    ∷ translators_english ∷ translators_estonian ∷ translators_finnish ∷ translators_french
    ∷ translators_georgian_georgia ∷ translators_german ∷ translators_greek
    ∷ translators_haitian_creole ∷ translators_hebrew ∷ translators_hindi ∷ translators_hungarian
    ∷ translators_icelandic ∷ translators_indonesian ∷ translators_italian ∷ translators_japanese
    ∷ translators_kazakh ∷ translators_korean ∷ translators_kurmanji_kurdish
    ∷ translators_kurdish_zaza ∷ translators_kurdish_badini ∷ translators_sorani_kurdish
    ∷ translators_kyrgyz ∷ translators_lao ∷ translators_latvian ∷ translators_lingala
    ∷ translators_lithuanian ∷ translators_macedonian ∷ translators_malay ∷ translators_mongolian
    ∷ translators_nepali ∷ translators_norwegian ∷ translators_persian_iran
    ∷ translators_peruvian_spanish ∷ translators_polish ∷ translators_portuguese_brazil
    ∷ translators_portuguese ∷ translators_romanian ∷ translators_russian
    ∷ translators_serbian_serbia ∷ translators_serbian_serbia_latin ∷ translators_sinhala
    ∷ translators_slovak ∷ translators_slovenian ∷ translators_somali ∷ translators_mexican_spanish
    ∷ translators_spanish ∷ translators_swahili ∷ translators_swedish_sweden ∷ translators_tagalog
    ∷ translators_tajik ∷ translators_thai ∷ translators_telugu ∷ translators_turkish
    ∷ translators_ukrainian ∷ translators_urdu ∷ translators_uzbek ∷ translators_vietnamese
    ∷ translators_tamil_sri_lanka ∷ []
