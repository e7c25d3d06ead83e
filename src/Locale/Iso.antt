-- ===== src/Locale/Iso.antt =====
-- pkg/locale/iso.go: the constants of `IsoLang`, their strings and the list of them.
use advinced_cache.Prelude.{List, [], ◌∷◌}
use advinced_cache.KeyValue.{Bytes}

pub data IsoLang : Type 0 where
  iso_lang_afar : IsoLang
  iso_lang_albanian : IsoLang
  iso_lang_amharic : IsoLang
  iso_lang_arabic : IsoLang
  iso_lang_armenian : IsoLang
  iso_lang_azerbaijani : IsoLang
  iso_lang_belarusian : IsoLang
  iso_lang_bengali : IsoLang
  iso_lang_bosnian : IsoLang
  iso_lang_bulgarian : IsoLang
  iso_lang_burmese : IsoLang
  iso_lang_chinese : IsoLang
  iso_lang_croatian : IsoLang
  iso_lang_czech : IsoLang
  iso_lang_danish : IsoLang
  iso_lang_dutch : IsoLang
  iso_lang_english : IsoLang
  iso_lang_estonian : IsoLang
  iso_lang_finnish : IsoLang
  iso_lang_french : IsoLang
  iso_lang_georgian : IsoLang
  iso_lang_german : IsoLang
  iso_lang_greek : IsoLang
  iso_lang_haitian : IsoLang
  iso_lang_hebrew : IsoLang
  iso_lang_hindi : IsoLang
  iso_lang_hungarian : IsoLang
  iso_lang_icelandic : IsoLang
  iso_lang_indonesian : IsoLang
  iso_lang_italian : IsoLang
  iso_lang_japanese : IsoLang
  iso_lang_kazakh : IsoLang
  iso_lang_cambodia : IsoLang
  iso_lang_korean : IsoLang
  iso_lang_kurdish : IsoLang
  iso_lang_kyrgyz : IsoLang
  iso_lang_lao : IsoLang
  iso_lang_latvian : IsoLang
  iso_lang_lingala : IsoLang
  iso_lang_lithuanian : IsoLang
  iso_lang_macedonian : IsoLang
  iso_lang_malay : IsoLang
  iso_lang_mongolian : IsoLang
  iso_lang_nepali : IsoLang
  iso_lang_norwegian_bokmal : IsoLang
  iso_lang_persian : IsoLang
  iso_lang_polish : IsoLang
  iso_lang_portuguese : IsoLang
  iso_lang_romanian : IsoLang
  iso_lang_russian : IsoLang
  iso_lang_serbian : IsoLang
  iso_lang_serbian_latin : IsoLang
  iso_lang_sindhi : IsoLang
  iso_lang_sinhala : IsoLang
  iso_lang_slovak : IsoLang
  iso_lang_slovenian : IsoLang
  iso_lang_somali : IsoLang
  iso_lang_spanish : IsoLang
  iso_lang_swahili : IsoLang
  iso_lang_swedish : IsoLang
  iso_lang_tagalog : IsoLang
  iso_lang_tajik : IsoLang
  iso_lang_thai : IsoLang
  iso_lang_telugu : IsoLang
  iso_lang_turkish : IsoLang
  iso_lang_ukrainian : IsoLang
  iso_lang_urdu : IsoLang
  iso_lang_uzbek : IsoLang
  iso_lang_vietnamese : IsoLang
  iso_lang_zulu : IsoLang

unfoldable pub iso_lang_value : IsoLang → Bytes
iso_lang_value iso_lang_afar = b'a' ∷ b'a' ∷ []
iso_lang_value iso_lang_albanian = b's' ∷ b'q' ∷ []
iso_lang_value iso_lang_amharic = b'a' ∷ b'm' ∷ []
iso_lang_value iso_lang_arabic = b'a' ∷ b'r' ∷ []
iso_lang_value iso_lang_armenian = b'h' ∷ b'y' ∷ []
iso_lang_value iso_lang_azerbaijani = b'a' ∷ b'z' ∷ []
iso_lang_value iso_lang_belarusian = b'b' ∷ b'e' ∷ []
iso_lang_value iso_lang_bengali = b'b' ∷ b'n' ∷ []
iso_lang_value iso_lang_bosnian = b'b' ∷ b's' ∷ []
iso_lang_value iso_lang_bulgarian = b'b' ∷ b'g' ∷ []
iso_lang_value iso_lang_burmese = b'm' ∷ b'y' ∷ []
iso_lang_value iso_lang_chinese = b'z' ∷ b'h' ∷ []
iso_lang_value iso_lang_croatian = b'h' ∷ b'r' ∷ []
iso_lang_value iso_lang_czech = b'c' ∷ b's' ∷ []
iso_lang_value iso_lang_danish = b'd' ∷ b'a' ∷ []
iso_lang_value iso_lang_dutch = b'n' ∷ b'l' ∷ []
iso_lang_value iso_lang_english = b'e' ∷ b'n' ∷ []
iso_lang_value iso_lang_estonian = b'e' ∷ b't' ∷ []
iso_lang_value iso_lang_finnish = b'f' ∷ b'i' ∷ []
iso_lang_value iso_lang_french = b'f' ∷ b'r' ∷ []
iso_lang_value iso_lang_georgian = b'k' ∷ b'a' ∷ []
iso_lang_value iso_lang_german = b'd' ∷ b'e' ∷ []
iso_lang_value iso_lang_greek = b'e' ∷ b'l' ∷ []
iso_lang_value iso_lang_haitian = b'h' ∷ b't' ∷ []
iso_lang_value iso_lang_hebrew = b'h' ∷ b'e' ∷ []
iso_lang_value iso_lang_hindi = b'h' ∷ b'i' ∷ []
iso_lang_value iso_lang_hungarian = b'h' ∷ b'u' ∷ []
iso_lang_value iso_lang_icelandic = b'i' ∷ b's' ∷ []
iso_lang_value iso_lang_indonesian = b'i' ∷ b'd' ∷ []
iso_lang_value iso_lang_italian = b'i' ∷ b't' ∷ []
iso_lang_value iso_lang_japanese = b'j' ∷ b'a' ∷ []
iso_lang_value iso_lang_kazakh = b'k' ∷ b'k' ∷ []
iso_lang_value iso_lang_cambodia = b'k' ∷ b'm' ∷ []
iso_lang_value iso_lang_korean = b'k' ∷ b'o' ∷ []
iso_lang_value iso_lang_kurdish = b'k' ∷ b'u' ∷ []
iso_lang_value iso_lang_kyrgyz = b'k' ∷ b'y' ∷ []
iso_lang_value iso_lang_lao = b'l' ∷ b'o' ∷ []
iso_lang_value iso_lang_latvian = b'l' ∷ b'v' ∷ []
iso_lang_value iso_lang_lingala = b'l' ∷ b'n' ∷ []
iso_lang_value iso_lang_lithuanian = b'l' ∷ b't' ∷ []
iso_lang_value iso_lang_macedonian = b'm' ∷ b'k' ∷ []
iso_lang_value iso_lang_malay = b'm' ∷ b's' ∷ []
iso_lang_value iso_lang_mongolian = b'm' ∷ b'n' ∷ []
iso_lang_value iso_lang_nepali = b'n' ∷ b'e' ∷ []
iso_lang_value iso_lang_norwegian_bokmal = b'n' ∷ b'b' ∷ []
iso_lang_value iso_lang_persian = b'f' ∷ b'a' ∷ []
iso_lang_value iso_lang_polish = b'p' ∷ b'l' ∷ []
iso_lang_value iso_lang_portuguese = b'p' ∷ b't' ∷ []
iso_lang_value iso_lang_romanian = b'r' ∷ b'o' ∷ []
iso_lang_value iso_lang_russian = b'r' ∷ b'u' ∷ []
iso_lang_value iso_lang_serbian = b's' ∷ b'r' ∷ []
iso_lang_value iso_lang_serbian_latin = b's' ∷ b'p' ∷ []
iso_lang_value iso_lang_sindhi = b's' ∷ b'd' ∷ []
iso_lang_value iso_lang_sinhala = b's' ∷ b'i' ∷ []
iso_lang_value iso_lang_slovak = b's' ∷ b'k' ∷ []
iso_lang_value iso_lang_slovenian = b's' ∷ b'l' ∷ []
iso_lang_value iso_lang_somali = b's' ∷ b'o' ∷ []
iso_lang_value iso_lang_spanish = b'e' ∷ b's' ∷ []
iso_lang_value iso_lang_swahili = b's' ∷ b'w' ∷ []
iso_lang_value iso_lang_swedish = b's' ∷ b'v' ∷ []
iso_lang_value iso_lang_tagalog = b't' ∷ b'l' ∷ []
iso_lang_value iso_lang_tajik = b't' ∷ b'g' ∷ []
iso_lang_value iso_lang_thai = b't' ∷ b'h' ∷ []
iso_lang_value iso_lang_telugu = b't' ∷ b'e' ∷ []
iso_lang_value iso_lang_turkish = b't' ∷ b'r' ∷ []
iso_lang_value iso_lang_ukrainian = b'u' ∷ b'k' ∷ []
iso_lang_value iso_lang_urdu = b'u' ∷ b'r' ∷ []
iso_lang_value iso_lang_uzbek = b'u' ∷ b'z' ∷ []
iso_lang_value iso_lang_vietnamese = b'v' ∷ b'i' ∷ []
iso_lang_value iso_lang_zulu = b'z' ∷ b'u' ∷ []

abbrev pub iso_list : List IsoLang
iso_list =
    iso_lang_afar ∷ iso_lang_albanian ∷ iso_lang_amharic ∷ iso_lang_arabic ∷ iso_lang_armenian
    ∷ iso_lang_azerbaijani ∷ iso_lang_belarusian ∷ iso_lang_bengali ∷ iso_lang_bosnian
    ∷ iso_lang_bulgarian ∷ iso_lang_burmese ∷ iso_lang_cambodia ∷ iso_lang_chinese
    ∷ iso_lang_croatian ∷ iso_lang_czech ∷ iso_lang_danish ∷ iso_lang_dutch ∷ iso_lang_english
    ∷ iso_lang_estonian ∷ iso_lang_finnish ∷ iso_lang_french ∷ iso_lang_georgian ∷ iso_lang_german
    ∷ iso_lang_greek ∷ iso_lang_haitian ∷ iso_lang_hebrew ∷ iso_lang_hindi ∷ iso_lang_hungarian
    ∷ iso_lang_icelandic ∷ iso_lang_indonesian ∷ iso_lang_italian ∷ iso_lang_japanese
    ∷ iso_lang_kazakh ∷ iso_lang_korean ∷ iso_lang_kurdish ∷ iso_lang_kyrgyz ∷ iso_lang_lao
    ∷ iso_lang_latvian ∷ iso_lang_lingala ∷ iso_lang_lithuanian ∷ iso_lang_macedonian
    ∷ iso_lang_malay ∷ iso_lang_mongolian ∷ iso_lang_nepali ∷ iso_lang_norwegian_bokmal
    ∷ iso_lang_persian ∷ iso_lang_spanish ∷ iso_lang_polish ∷ iso_lang_portuguese
    ∷ iso_lang_romanian ∷ iso_lang_russian ∷ iso_lang_serbian ∷ iso_lang_serbian_latin
    ∷ iso_lang_sindhi ∷ iso_lang_sinhala ∷ iso_lang_slovak ∷ iso_lang_slovenian ∷ iso_lang_somali
    ∷ iso_lang_swahili ∷ iso_lang_swedish ∷ iso_lang_tagalog ∷ iso_lang_tajik ∷ iso_lang_thai
    ∷ iso_lang_telugu ∷ iso_lang_turkish ∷ iso_lang_ukrainian ∷ iso_lang_urdu ∷ iso_lang_uzbek
    ∷ iso_lang_vietnamese ∷ iso_lang_zulu ∷ []
