-- ===== src/Locale/Web.antt =====
-- pkg/locale/webname.go: the constants of `LanguageCode`, their strings and the list of them.
use advinced_cache.Prelude.{List, [], ◌∷◌}
use advinced_cache.KeyValue.{Bytes}

pub data LanguageCode : Type 0 where
  webname_amharic : LanguageCode
  webname_albanian : LanguageCode
  webname_kurdish : LanguageCode
  webname_arabian : LanguageCode
  webname_english_australia : LanguageCode
  webname_azerbaijanian : LanguageCode
  webname_bulgarian : LanguageCode
  webname_bengali : LanguageCode
  webname_portuguese_brazil : LanguageCode
  webname_bosnian : LanguageCode
  webname_belarusian : LanguageCode
  webname_canadian : LanguageCode
  webname_chinese : LanguageCode
  webname_czech : LanguageCode
  webname_danish : LanguageCode
  webname_german : LanguageCode
  webname_greek : LanguageCode
  webname_english : LanguageCode
  webname_english_britain : LanguageCode
  webname_spanish : LanguageCode
  webname_spanish_peruvian : LanguageCode
  webname_estonian : LanguageCode
  webname_iranian : LanguageCode
  webname_finnish : LanguageCode
  webname_french : LanguageCode
  webname_hebrew : LanguageCode
  webname_hindu : LanguageCode
  webname_cantonese_hong_kong : LanguageCode
  webname_croatian : LanguageCode
  webname_haitian_creole : LanguageCode
  webname_hungarian : LanguageCode
  webname_armenian : LanguageCode
  webname_indonesian : LanguageCode
  webname_indian : LanguageCode
  webname_iraqi : LanguageCode
  webname_icelandic : LanguageCode
  webname_italian : LanguageCode
  webname_japanese : LanguageCode
  webname_georgian : LanguageCode
  webname_khmer : LanguageCode
  webname_korean : LanguageCode
  webname_kurdish_sorani : LanguageCode
  webname_kazakh : LanguageCode
  webname_lingala : LanguageCode
  webname_lao : LanguageCode
  webname_kyrgyz : LanguageCode
  webname_lithuanian : LanguageCode
  webname_latvian : LanguageCode
  webname_macedonian : LanguageCode
  webname_mongolian : LanguageCode
  webname_malay : LanguageCode
  webname_mexican : LanguageCode
  webname_burmese : LanguageCode
  webname_norwegian : LanguageCode
  webname_kurdish_kurmanci : LanguageCode
  webname_dutch : LanguageCode
  webname_new_zealand : LanguageCode
  webname_polish : LanguageCode
  webname_portuguese : LanguageCode
  webname_romanian : LanguageCode
  webname_russian : LanguageCode
  webname_nepali : LanguageCode
  webname_sinhalese : LanguageCode
  webname_slovak : LanguageCode
  webname_slovenian : LanguageCode
  webname_serbian : LanguageCode
  webname_serbian_latin : LanguageCode
  webname_swedish : LanguageCode
  webname_swahili : LanguageCode
  webname_thai : LanguageCode
  webname_telugu : LanguageCode
  webname_tajik : LanguageCode
  webname_tagalog : LanguageCode
  webname_turkish : LanguageCode
  webname_chinese_taiwan : LanguageCode
  webname_ukrainian : LanguageCode
  webname_urdu : LanguageCode
  webname_english_usa : LanguageCode
  webname_uzbek : LanguageCode
  webname_vietnamese : LanguageCode
  webname_iran : LanguageCode
  webname_kurdish_zaza : LanguageCode
  webname_korean_kr : LanguageCode
  webname_korean_zh : LanguageCode
  webname_tajik_tg : LanguageCode
  webname_ukrainian_uk : LanguageCode
  webname_albanian_sq : LanguageCode
  webname_somali : LanguageCode
  webname_cantonese : LanguageCode
  webname_tamil : LanguageCode

unfoldable pub language_code_value : LanguageCode → Bytes
language_code_value webname_amharic = b'a' ∷ b'a' ∷ []
language_code_value webname_albanian = b'a' ∷ b'l' ∷ []
language_code_value webname_kurdish = b'a' ∷ b'm' ∷ []
language_code_value webname_arabian = b'a' ∷ b'r' ∷ []
language_code_value webname_english_australia = b'a' ∷ b'u' ∷ []
language_code_value webname_azerbaijanian = b'a' ∷ b'z' ∷ []
language_code_value webname_bulgarian = b'b' ∷ b'g' ∷ []
language_code_value webname_bengali = b'b' ∷ b'n' ∷ []
language_code_value webname_portuguese_brazil = b'b' ∷ b'r' ∷ []
language_code_value webname_bosnian = b'b' ∷ b's' ∷ []
language_code_value webname_belarusian = b'b' ∷ b'y' ∷ []
language_code_value webname_canadian = b'c' ∷ b'a' ∷ []
language_code_value webname_chinese = b'c' ∷ b'n' ∷ []
language_code_value webname_czech = b'c' ∷ b's' ∷ []
language_code_value webname_danish = b'd' ∷ b'a' ∷ []
language_code_value webname_german = b'd' ∷ b'e' ∷ []
language_code_value webname_greek = b'e' ∷ b'l' ∷ []
language_code_value webname_english = b'e' ∷ b'n' ∷ []
language_code_value webname_english_britain = b'g' ∷ b'b' ∷ []
language_code_value webname_spanish = b'e' ∷ b's' ∷ []
language_code_value webname_spanish_peruvian = b'p' ∷ b'e' ∷ []
language_code_value webname_estonian = b'e' ∷ b't' ∷ []
language_code_value webname_iranian = b'f' ∷ b'a' ∷ []
language_code_value webname_finnish = b'f' ∷ b'i' ∷ []
language_code_value webname_french = b'f' ∷ b'r' ∷ []
language_code_value webname_hebrew = b'h' ∷ b'e' ∷ []
language_code_value webname_hindu = b'h' ∷ b'i' ∷ []
language_code_value webname_cantonese_hong_kong = b'h' ∷ b'k' ∷ []
language_code_value webname_croatian = b'h' ∷ b'r' ∷ []
language_code_value webname_haitian_creole = b'h' ∷ b't' ∷ []
language_code_value webname_hungarian = b'h' ∷ b'u' ∷ []
language_code_value webname_armenian = b'h' ∷ b'y' ∷ []
language_code_value webname_indonesian = b'i' ∷ b'd' ∷ []
language_code_value webname_indian = b'i' ∷ b'n' ∷ []
language_code_value webname_iraqi = b'i' ∷ b'q' ∷ []
language_code_value webname_icelandic = b'i' ∷ b's' ∷ []
language_code_value webname_italian = b'i' ∷ b't' ∷ []
language_code_value webname_japanese = b'j' ∷ b'a' ∷ []
language_code_value webname_georgian = b'k' ∷ b'a' ∷ []
language_code_value webname_khmer = b'k' ∷ b'm' ∷ []
language_code_value webname_korean = b'k' ∷ b'o' ∷ []
language_code_value webname_kurdish_sorani = b'k' ∷ b'u' ∷ []
language_code_value webname_kazakh = b'k' ∷ b'z' ∷ []
language_code_value webname_lingala = b'l' ∷ b'n' ∷ []
language_code_value webname_lao = b'l' ∷ b'o' ∷ []
language_code_value webname_kyrgyz = b'k' ∷ b'y' ∷ []
language_code_value webname_lithuanian = b'l' ∷ b't' ∷ []
language_code_value webname_latvian = b'l' ∷ b'v' ∷ []
language_code_value webname_macedonian = b'm' ∷ b'k' ∷ []
language_code_value webname_mongolian = b'm' ∷ b'n' ∷ []
language_code_value webname_malay = b'm' ∷ b's' ∷ []
language_code_value webname_mexican = b'm' ∷ b'x' ∷ []
language_code_value webname_burmese = b'm' ∷ b'y' ∷ []
language_code_value webname_norwegian = b'n' ∷ b'b' ∷ []
language_code_value webname_kurdish_kurmanci = b'n' ∷ b'e' ∷ []
language_code_value webname_dutch = b'n' ∷ b'l' ∷ []
language_code_value webname_new_zealand = b'n' ∷ b'z' ∷ []
language_code_value webname_polish = b'p' ∷ b'l' ∷ []
language_code_value webname_portuguese = b'p' ∷ b't' ∷ []
language_code_value webname_romanian = b'r' ∷ b'o' ∷ []
language_code_value webname_russian = b'r' ∷ b'u' ∷ []
language_code_value webname_nepali = b's' ∷ b'd' ∷ []
language_code_value webname_sinhalese = b's' ∷ b'i' ∷ []
language_code_value webname_slovak = b's' ∷ b'k' ∷ []
language_code_value webname_slovenian = b's' ∷ b'l' ∷ []
language_code_value webname_serbian = b's' ∷ b'r' ∷ []
language_code_value webname_serbian_latin = b's' ∷ b'p' ∷ []
language_code_value webname_swedish = b's' ∷ b'v' ∷ []
language_code_value webname_swahili = b's' ∷ b'w' ∷ []
language_code_value webname_thai = b't' ∷ b'h' ∷ []
language_code_value webname_telugu = b't' ∷ b'e' ∷ []
language_code_value webname_tajik = b't' ∷ b'j' ∷ []
language_code_value webname_tagalog = b't' ∷ b'l' ∷ []
language_code_value webname_turkish = b't' ∷ b'r' ∷ []
language_code_value webname_chinese_taiwan = b't' ∷ b'w' ∷ []
language_code_value webname_ukrainian = b'u' ∷ b'a' ∷ []
language_code_value webname_urdu = b'u' ∷ b'r' ∷ []
language_code_value webname_english_usa = b'u' ∷ b's' ∷ []
language_code_value webname_uzbek = b'u' ∷ b'z' ∷ []
language_code_value webname_vietnamese = b'v' ∷ b'i' ∷ []
language_code_value webname_iran = b'i' ∷ b'r' ∷ []
language_code_value webname_kurdish_zaza = b'z' ∷ b'u' ∷ []
language_code_value webname_korean_kr = b'k' ∷ b'r' ∷ []
language_code_value webname_korean_zh = b'z' ∷ b'h' ∷ []
language_code_value webname_tajik_tg = b't' ∷ b'g' ∷ []
language_code_value webname_ukrainian_uk = b'u' ∷ b'k' ∷ []
language_code_value webname_albanian_sq = b's' ∷ b'q' ∷ []
language_code_value webname_somali = b's' ∷ b'o' ∷ []
language_code_value webname_cantonese = b'e' ∷ b'r' ∷ []
language_code_value webname_tamil = b't' ∷ b'a' ∷ []

abbrev pub language_code_list : List LanguageCode
language_code_list =
    webname_amharic ∷ webname_albanian ∷ webname_arabian ∷ webname_armenian ∷ webname_azerbaijanian
    ∷ webname_belarusian ∷ webname_bengali ∷ webname_bosnian ∷ webname_bulgarian ∷ webname_burmese
    ∷ webname_khmer ∷ webname_chinese ∷ webname_cantonese_hong_kong ∷ webname_chinese_taiwan
    ∷ webname_croatian ∷ webname_czech ∷ webname_danish ∷ webname_dutch ∷ webname_canadian
    ∷ webname_indian ∷ webname_new_zealand ∷ webname_english ∷ webname_estonian ∷ webname_finnish
    ∷ webname_french ∷ webname_georgian ∷ webname_german ∷ webname_greek ∷ webname_haitian_creole
    ∷ webname_hebrew ∷ webname_hindu ∷ webname_hungarian ∷ webname_icelandic ∷ webname_indonesian
    ∷ webname_italian ∷ webname_japanese ∷ webname_kazakh ∷ webname_korean
    ∷ webname_kurdish_kurmanci ∷ webname_kurdish_zaza ∷ webname_kurdish ∷ webname_kurdish_sorani
    ∷ webname_kyrgyz ∷ webname_lao ∷ webname_latvian ∷ webname_lingala ∷ webname_lithuanian
    ∷ webname_macedonian ∷ webname_malay ∷ webname_mongolian ∷ webname_nepali ∷ webname_norwegian
    ∷ webname_iranian ∷ webname_spanish_peruvian ∷ webname_polish ∷ webname_portuguese_brazil
    ∷ webname_portuguese ∷ webname_romanian ∷ webname_russian ∷ webname_serbian
    ∷ webname_serbian_latin ∷ webname_sinhalese ∷ webname_slovak ∷ webname_slovenian
    ∷ webname_somali ∷ webname_mexican ∷ webname_spanish ∷ webname_swahili ∷ webname_swedish
    ∷ webname_tagalog ∷ webname_tajik ∷ webname_thai ∷ webname_telugu ∷ webname_turkish
    ∷ webname_ukrainian ∷ webname_urdu ∷ webname_uzbek ∷ webname_vietnamese ∷ webname_tamil
    ∷ webname_cantonese ∷ []
