-- ===== src/Locale/Country.antt =====
-- pkg/locale/country.go: the constants of `CountryEnum`, their strings and the list of them.
use advinced_cache.Prelude.{List, [], ◌∷◌}
use advinced_cache.KeyValue.{Bytes}

pub data CountryEnum : Type 0 where
  country_abkhazia : CountryEnum
  country_afghanistan : CountryEnum
  country_aland_islands : CountryEnum
  country_albania : CountryEnum
  country_algeria : CountryEnum
  country_american_samoa : CountryEnum
  country_andorra : CountryEnum
  country_angola : CountryEnum
  country_anguilla : CountryEnum
  country_antarctica : CountryEnum
  country_antigua : CountryEnum
  country_argentina : CountryEnum
  country_armenia : CountryEnum
  country_aruba : CountryEnum
  country_ascension_island : CountryEnum
  country_australia : CountryEnum
  country_austria : CountryEnum
  country_azerbaijan : CountryEnum
  country_bahamas : CountryEnum
  country_bahrain : CountryEnum
  country_bangladesh : CountryEnum
  country_barbados : CountryEnum
  country_belarus : CountryEnum
  country_belgium : CountryEnum
  country_belize : CountryEnum
  country_benin : CountryEnum
  country_bermuda : CountryEnum
  country_bhutan : CountryEnum
  country_bolivia : CountryEnum
  country_bonaire : CountryEnum
  country_bosnia : CountryEnum
  country_botswana : CountryEnum
  country_bouvet_island : CountryEnum
  country_brazil : CountryEnum
  country_british_indian_ocean_territory : CountryEnum
  country_brunei : CountryEnum
  country_bulgaria : CountryEnum
  country_burkina_faso : CountryEnum
  country_burundi : CountryEnum
  country_car : CountryEnum
  country_cambodia : CountryEnum
  country_cameroon : CountryEnum
  country_canada : CountryEnum
  country_cape_verde : CountryEnum
  country_cayman_islands : CountryEnum
  country_chad : CountryEnum
  country_channel_islands : CountryEnum
  country_chile : CountryEnum
  country_china : CountryEnum
  country_christmas_island : CountryEnum
  country_cocos_islands : CountryEnum
  country_colombia : CountryEnum
  country_comoros : CountryEnum
  country_congo : CountryEnum
  country_congo_kinshasa : CountryEnum
  country_cook_islands : CountryEnum
  country_costa_rica : CountryEnum
  country_croatia : CountryEnum
  country_cuba : CountryEnum
  country_curacao : CountryEnum
  country_cyprus : CountryEnum
  country_czech_republic : CountryEnum
  country_denmark : CountryEnum
  country_djibouti : CountryEnum
  country_dominica : CountryEnum
  country_dominican_republic : CountryEnum
  country_east_timor : CountryEnum
  country_ecuador : CountryEnum
  country_egypt : CountryEnum
  country_el_salvador : CountryEnum
  country_england : CountryEnum
  country_equatorial_guinea : CountryEnum
  country_eritrea : CountryEnum
  country_estonia : CountryEnum
  country_ethiopia : CountryEnum
  country_falkland_islands : CountryEnum
  country_faroe_islands : CountryEnum
  country_fiji : CountryEnum
  country_finland : CountryEnum
  country_france : CountryEnum
  country_french_guiana : CountryEnum
  country_french_polynesia : CountryEnum
  country_french_southern_territories : CountryEnum
  country_gabon : CountryEnum
  country_gambia : CountryEnum
  country_georgia : CountryEnum
  country_germany : CountryEnum
  country_ghana : CountryEnum
  country_gibraltar : CountryEnum
  country_great_britain : CountryEnum
  country_greece : CountryEnum
  country_greenland : CountryEnum
  country_grenada : CountryEnum
  country_guadeloupe : CountryEnum
  country_guam : CountryEnum
  country_guatemala : CountryEnum
  country_guernsey : CountryEnum
  country_guinea : CountryEnum
  country_guinea_bissau : CountryEnum
  country_guyana : CountryEnum
  country_haiti : CountryEnum
  country_hawaiian_islands : CountryEnum
  country_heard_island : CountryEnum
  country_holy_see : CountryEnum
  country_honduras : CountryEnum
  country_hong_kong : CountryEnum
  country_hungary : CountryEnum
  country_iceland : CountryEnum
  country_india : CountryEnum
  country_indonesia : CountryEnum
  country_iran : CountryEnum
  country_iraq : CountryEnum
  country_ireland : CountryEnum
  country_isle_of_man : CountryEnum
  country_israel : CountryEnum
  country_italy : CountryEnum
  country_ivory_coast : CountryEnum
  country_jamaica : CountryEnum
  country_japan : CountryEnum
  country_jersey : CountryEnum
  country_jordan : CountryEnum
  country_kndr : CountryEnum
  country_kazakhstan : CountryEnum
  country_kenya : CountryEnum
  country_kiribati : CountryEnum
  country_korea : CountryEnum
  country_kosovo : CountryEnum
  country_kuwait : CountryEnum
  country_kyrgyzstan : CountryEnum
  country_laos : CountryEnum
  country_latvia : CountryEnum
  country_lebanon : CountryEnum
  country_lesotho : CountryEnum
  country_liberia : CountryEnum
  country_libya : CountryEnum
  country_liechtenstein : CountryEnum
  country_lithuania : CountryEnum
  country_luxembourg : CountryEnum
  country_macao : CountryEnum
  country_macedonia : CountryEnum
  country_madagascar : CountryEnum
  country_malawi : CountryEnum
  country_malaysia : CountryEnum
  country_maldives : CountryEnum
  country_mali : CountryEnum
  country_malta : CountryEnum
  country_marshall_islands : CountryEnum
  country_martinique : CountryEnum
  country_mauritania : CountryEnum
  country_mauritius : CountryEnum
  country_mayotte : CountryEnum
  country_mexico : CountryEnum
  country_micronesia : CountryEnum
  country_moldova_republic : CountryEnum
  country_monaco : CountryEnum
  country_mongolia : CountryEnum
  country_montenegro : CountryEnum
  country_montserrat : CountryEnum
  country_morocco : CountryEnum
  country_mozambique : CountryEnum
  country_myanmar : CountryEnum
  country_namibia : CountryEnum
  country_nauru : CountryEnum
  country_nederlandse_antillen : CountryEnum
  country_nepal : CountryEnum
  country_netherlands : CountryEnum
  country_new_caledonia : CountryEnum
  country_new_zealand : CountryEnum
  country_nicaragua : CountryEnum
  country_niger : CountryEnum
  country_nigeria : CountryEnum
  country_niue : CountryEnum
  country_norfolk_island : CountryEnum
  country_northern_mariana_islands : CountryEnum
  country_norway : CountryEnum
  country_oman : CountryEnum
  country_pakistan : CountryEnum
  country_palau : CountryEnum
  country_palestine_state : CountryEnum
  country_panama : CountryEnum
  country_papua_new_guinea : CountryEnum
  country_paraguay : CountryEnum
  country_peru : CountryEnum
  country_philippines : CountryEnum
  country_pitcairn : CountryEnum
  country_poland : CountryEnum
  country_portugal : CountryEnum
  country_puerto_rico : CountryEnum
  country_qatar : CountryEnum
  country_reunion_island : CountryEnum
  country_romania : CountryEnum
  country_russian : CountryEnum
  country_rwanda : CountryEnum
  country_saint_barthelemy : CountryEnum
  country_saint_helena : CountryEnum
  country_saint_kitts : CountryEnum
  country_saint_lucia : CountryEnum
  country_saint_martin : CountryEnum
  country_saint_pierre : CountryEnum
  country_saint_vincent : CountryEnum
  country_samoa : CountryEnum
  country_san_marino : CountryEnum
  country_sao_tome : CountryEnum
  country_saudi_arabia : CountryEnum
  country_senegal : CountryEnum
  country_serbia : CountryEnum
  country_serbia_and_montenegro : CountryEnum
  country_seychelles : CountryEnum
  country_sierra_leone : CountryEnum
  country_singapore : CountryEnum
  country_sint_maarten : CountryEnum
  country_slovakia : CountryEnum
  country_slovenia : CountryEnum
  country_solomon_islands : CountryEnum
  country_somalia : CountryEnum
  country_south_africa : CountryEnum
  country_south_georgia : CountryEnum
  country_south_ossetia : CountryEnum
  country_south_sudan : CountryEnum
  country_spain : CountryEnum
  country_sri_lanka : CountryEnum
  country_sudan : CountryEnum
  country_suriname : CountryEnum
  country_svalbard : CountryEnum
  country_swaziland : CountryEnum
  country_sweden : CountryEnum
  country_switzerland : CountryEnum
  country_syrian_arab_republic : CountryEnum
  country_taiwan : CountryEnum
  country_tajikistan : CountryEnum
  country_tanzania : CountryEnum
  country_thailand : CountryEnum
  country_timor_leste : CountryEnum
  country_togo : CountryEnum
  country_tokelau : CountryEnum
  country_tonga : CountryEnum
  country_trinidad : CountryEnum
  country_tunisia : CountryEnum
  country_turkey : CountryEnum
  country_turkmenistan : CountryEnum
  country_turks : CountryEnum
  country_tuvalu : CountryEnum
  country_uae : CountryEnum
  country_ussr : CountryEnum
  country_uganda : CountryEnum
  country_ukraine : CountryEnum
  country_united_kingdom : CountryEnum
  country_united_states : CountryEnum
  country_united_states_minor_outlying_islands : CountryEnum
  country_uruguay : CountryEnum
  country_uzbekistan : CountryEnum
  country_vanuatu : CountryEnum
  country_venezuela : CountryEnum
  country_viet_nam : CountryEnum
  country_virgin_islands : CountryEnum
  country_virgin_islands_british : CountryEnum
  country_wallis_futuna : CountryEnum
  country_western_sahara : CountryEnum
  country_yemen : CountryEnum
  country_yugoslavia : CountryEnum
  country_zambia : CountryEnum
  country_zimbabwe : CountryEnum

unfoldable pub country_value : CountryEnum → Bytes
country_value country_abkhazia = b'a' ∷ b'b' ∷ []
country_value country_afghanistan = b'a' ∷ b'f' ∷ []
country_value country_aland_islands = b'a' ∷ b'x' ∷ []
country_value country_albania = b'a' ∷ b'l' ∷ []
country_value country_algeria = b'd' ∷ b'z' ∷ []
country_value country_american_samoa = b'a' ∷ b's' ∷ []
country_value country_andorra = b'a' ∷ b'd' ∷ []
country_value country_angola = b'a' ∷ b'o' ∷ []
country_value country_anguilla = b'a' ∷ b'i' ∷ []
country_value country_antarctica = b'a' ∷ b'q' ∷ []
country_value country_antigua = b'a' ∷ b'g' ∷ []
country_value country_argentina = b'a' ∷ b'r' ∷ []
country_value country_armenia = b'a' ∷ b'm' ∷ []
country_value country_aruba = b'a' ∷ b'w' ∷ []
country_value country_ascension_island = b'a' ∷ b'c' ∷ []
country_value country_australia = b'a' ∷ b'u' ∷ []
country_value country_austria = b'a' ∷ b't' ∷ []
country_value country_azerbaijan = b'a' ∷ b'z' ∷ []
country_value country_bahamas = b'b' ∷ b's' ∷ []
country_value country_bahrain = b'b' ∷ b'h' ∷ []
country_value country_bangladesh = b'b' ∷ b'd' ∷ []
country_value country_barbados = b'b' ∷ b'b' ∷ []
country_value country_belarus = b'b' ∷ b'y' ∷ []
country_value country_belgium = b'b' ∷ b'e' ∷ []
country_value country_belize = b'b' ∷ b'z' ∷ []
country_value country_benin = b'b' ∷ b'j' ∷ []
country_value country_bermuda = b'b' ∷ b'm' ∷ []
country_value country_bhutan = b'b' ∷ b't' ∷ []
country_value country_bolivia = b'b' ∷ b'o' ∷ []
country_value country_bonaire = b'b' ∷ b'q' ∷ []
country_value country_bosnia = b'b' ∷ b'a' ∷ []
country_value country_botswana = b'b' ∷ b'w' ∷ []
country_value country_bouvet_island = b'b' ∷ b'v' ∷ []
country_value country_brazil = b'b' ∷ b'r' ∷ []
country_value country_british_indian_ocean_territory = b'i' ∷ b'o' ∷ []
country_value country_brunei = b'b' ∷ b'n' ∷ []
country_value country_bulgaria = b'b' ∷ b'g' ∷ []
country_value country_burkina_faso = b'b' ∷ b'f' ∷ []
country_value country_burundi = b'b' ∷ b'i' ∷ []
country_value country_car = b'c' ∷ b'f' ∷ []
country_value country_cambodia = b'k' ∷ b'h' ∷ []
country_value country_cameroon = b'c' ∷ b'm' ∷ []
country_value country_canada = b'c' ∷ b'a' ∷ []
country_value country_cape_verde = b'c' ∷ b'v' ∷ []
country_value country_cayman_islands = b'k' ∷ b'y' ∷ []
country_value country_chad = b't' ∷ b'd' ∷ []
country_value country_channel_islands = b'n' ∷ b'n' ∷ []
country_value country_chile = b'c' ∷ b'l' ∷ []
country_value country_china = b'c' ∷ b'n' ∷ []
country_value country_christmas_island = b'c' ∷ b'x' ∷ []
country_value country_cocos_islands = b'c' ∷ b'c' ∷ []
country_value country_colombia = b'c' ∷ b'o' ∷ []
country_value country_comoros = b'k' ∷ b'm' ∷ []
country_value country_congo = b'c' ∷ b'g' ∷ []
country_value country_congo_kinshasa = b'c' ∷ b'd' ∷ []
country_value country_cook_islands = b'c' ∷ b'k' ∷ []
country_value country_costa_rica = b'c' ∷ b'r' ∷ []
country_value country_croatia = b'h' ∷ b'r' ∷ []
country_value country_cuba = b'c' ∷ b'u' ∷ []
country_value country_curacao = b'c' ∷ b'w' ∷ []
country_value country_cyprus = b'c' ∷ b'y' ∷ []
country_value country_czech_republic = b'c' ∷ b'z' ∷ []
country_value country_denmark = b'd' ∷ b'k' ∷ []
country_value country_djibouti = b'd' ∷ b'j' ∷ []
country_value country_dominica = b'd' ∷ b'm' ∷ []
country_value country_dominican_republic = b'd' ∷ b'o' ∷ []
country_value country_east_timor = b't' ∷ b'p' ∷ []
country_value country_ecuador = b'e' ∷ b'c' ∷ []
country_value country_egypt = b'e' ∷ b'g' ∷ []
country_value country_el_salvador = b's' ∷ b'v' ∷ []
country_value country_england = b'e' ∷ b'n' ∷ []
country_value country_equatorial_guinea = b'g' ∷ b'q' ∷ []
country_value country_eritrea = b'e' ∷ b'r' ∷ []
country_value country_estonia = b'e' ∷ b'e' ∷ []
country_value country_ethiopia = b'e' ∷ b't' ∷ []
country_value country_falkland_islands = b'f' ∷ b'k' ∷ []
country_value country_faroe_islands = b'f' ∷ b'o' ∷ []
country_value country_fiji = b'f' ∷ b'j' ∷ []
country_value country_finland = b'f' ∷ b'i' ∷ []
country_value country_france = b'f' ∷ b'r' ∷ []
country_value country_french_guiana = b'g' ∷ b'f' ∷ []
country_value country_french_polynesia = b'p' ∷ b'f' ∷ []
country_value country_french_southern_territories = b't' ∷ b'f' ∷ []
country_value country_gabon = b'g' ∷ b'a' ∷ []
country_value country_gambia = b'g' ∷ b'm' ∷ []
country_value country_georgia = b'g' ∷ b'e' ∷ []
country_value country_germany = b'd' ∷ b'e' ∷ []
country_value country_ghana = b'g' ∷ b'h' ∷ []
country_value country_gibraltar = b'g' ∷ b'i' ∷ []
country_value country_great_britain = b'u' ∷ b'k' ∷ []
country_value country_greece = b'g' ∷ b'r' ∷ []
country_value country_greenland = b'g' ∷ b'l' ∷ []
country_value country_grenada = b'g' ∷ b'd' ∷ []
country_value country_guadeloupe = b'g' ∷ b'p' ∷ []
country_value country_guam = b'g' ∷ b'u' ∷ []
country_value country_guatemala = b'g' ∷ b't' ∷ []
country_value country_guernsey = b'g' ∷ b'g' ∷ []
country_value country_guinea = b'g' ∷ b'n' ∷ []
country_value country_guinea_bissau = b'g' ∷ b'w' ∷ []
country_value country_guyana = b'g' ∷ b'y' ∷ []
country_value country_haiti = b'h' ∷ b't' ∷ []
country_value country_hawaiian_islands = b'g' ∷ b'v' ∷ []
country_value country_heard_island = b'h' ∷ b'm' ∷ []
country_value country_holy_see = b'v' ∷ b'a' ∷ []
country_value country_honduras = b'h' ∷ b'n' ∷ []
country_value country_hong_kong = b'h' ∷ b'k' ∷ []
country_value country_hungary = b'h' ∷ b'u' ∷ []
country_value country_iceland = b'i' ∷ b's' ∷ []
country_value country_india = b'i' ∷ b'n' ∷ []
country_value country_indonesia = b'i' ∷ b'd' ∷ []
country_value country_iran = b'i' ∷ b'r' ∷ []
country_value country_iraq = b'i' ∷ b'q' ∷ []
country_value country_ireland = b'i' ∷ b'e' ∷ []
country_value country_isle_of_man = b'i' ∷ b'm' ∷ []
country_value country_israel = b'i' ∷ b'l' ∷ []
country_value country_italy = b'i' ∷ b't' ∷ []
country_value country_ivory_coast = b'c' ∷ b'i' ∷ []
country_value country_jamaica = b'j' ∷ b'm' ∷ []
country_value country_japan = b'j' ∷ b'p' ∷ []
country_value country_jersey = b'j' ∷ b'e' ∷ []
country_value country_jordan = b'j' ∷ b'o' ∷ []
country_value country_kndr = b'k' ∷ b'p' ∷ []
country_value country_kazakhstan = b'k' ∷ b'z' ∷ []
country_value country_kenya = b'k' ∷ b'e' ∷ []
country_value country_kiribati = b'k' ∷ b'i' ∷ []
country_value country_korea = b'k' ∷ b'r' ∷ []
country_value country_kosovo = b'x' ∷ b'k' ∷ []
country_value country_kuwait = b'k' ∷ b'w' ∷ []
country_value country_kyrgyzstan = b'k' ∷ b'g' ∷ []
country_value country_laos = b'l' ∷ b'a' ∷ []
country_value country_latvia = b'l' ∷ b'v' ∷ []
country_value country_lebanon = b'l' ∷ b'b' ∷ []
country_value country_lesotho = b'l' ∷ b's' ∷ []
country_value country_liberia = b'l' ∷ b'r' ∷ []
country_value country_libya = b'l' ∷ b'y' ∷ []
country_value country_liechtenstein = b'l' ∷ b'i' ∷ []
country_value country_lithuania = b'l' ∷ b't' ∷ []
country_value country_luxembourg = b'l' ∷ b'u' ∷ []
country_value country_macao = b'm' ∷ b'o' ∷ []
country_value country_macedonia = b'm' ∷ b'k' ∷ []
country_value country_madagascar = b'm' ∷ b'g' ∷ []
country_value country_malawi = b'm' ∷ b'w' ∷ []
country_value country_malaysia = b'm' ∷ b'y' ∷ []
country_value country_maldives = b'm' ∷ b'v' ∷ []
country_value country_mali = b'm' ∷ b'l' ∷ []
country_value country_malta = b'm' ∷ b't' ∷ []
country_value country_marshall_islands = b'm' ∷ b'h' ∷ []
country_value country_martinique = b'm' ∷ b'q' ∷ []
country_value country_mauritania = b'm' ∷ b'r' ∷ []
country_value country_mauritius = b'm' ∷ b'u' ∷ []
country_value country_mayotte = b'y' ∷ b't' ∷ []
country_value country_mexico = b'm' ∷ b'x' ∷ []
country_value country_micronesia = b'f' ∷ b'm' ∷ []
country_value country_moldova_republic = b'm' ∷ b'd' ∷ []
country_value country_monaco = b'm' ∷ b'c' ∷ []
country_value country_mongolia = b'm' ∷ b'n' ∷ []
country_value country_montenegro = b'm' ∷ b'e' ∷ []
country_value country_montserrat = b'm' ∷ b's' ∷ []
country_value country_morocco = b'm' ∷ b'a' ∷ []
country_value country_mozambique = b'm' ∷ b'z' ∷ []
country_value country_myanmar = b'm' ∷ b'm' ∷ []
country_value country_namibia = b'n' ∷ b'a' ∷ []
country_value country_nauru = b'n' ∷ b'r' ∷ []
country_value country_nederlandse_antillen = b'a' ∷ b'n' ∷ []
country_value country_nepal = b'n' ∷ b'p' ∷ []
country_value country_netherlands = b'n' ∷ b'l' ∷ []
country_value country_new_caledonia = b'n' ∷ b'c' ∷ []
country_value country_new_zealand = b'n' ∷ b'z' ∷ []
country_value country_nicaragua = b'n' ∷ b'i' ∷ []
country_value country_niger = b'n' ∷ b'e' ∷ []
country_value country_nigeria = b'n' ∷ b'g' ∷ []
country_value country_niue = b'n' ∷ b'u' ∷ []
country_value country_norfolk_island = b'n' ∷ b'f' ∷ []
country_value country_northern_mariana_islands = b'm' ∷ b'p' ∷ []
country_value country_norway = b'n' ∷ b'o' ∷ []
country_value country_oman = b'o' ∷ b'm' ∷ []
country_value country_pakistan = b'p' ∷ b'k' ∷ []
country_value country_palau = b'p' ∷ b'w' ∷ []
country_value country_palestine_state = b'p' ∷ b's' ∷ []
country_value country_panama = b'p' ∷ b'a' ∷ []
country_value country_papua_new_guinea = b'p' ∷ b'g' ∷ []
country_value country_paraguay = b'p' ∷ b'y' ∷ []
country_value country_peru = b'p' ∷ b'e' ∷ []
country_value country_philippines = b'p' ∷ b'h' ∷ []
country_value country_pitcairn = b'p' ∷ b'n' ∷ []
country_value country_poland = b'p' ∷ b'l' ∷ []
country_value country_portugal = b'p' ∷ b't' ∷ []
country_value country_puerto_rico = b'p' ∷ b'r' ∷ []
country_value country_qatar = b'q' ∷ b'a' ∷ []
country_value country_reunion_island = b'r' ∷ b'e' ∷ []
country_value country_romania = b'r' ∷ b'o' ∷ []
country_value country_russian = b'r' ∷ b'u' ∷ []
country_value country_rwanda = b'r' ∷ b'w' ∷ []
country_value country_saint_barthelemy = b'b' ∷ b'l' ∷ []
country_value country_saint_helena = b's' ∷ b'h' ∷ []
country_value country_saint_kitts = b'k' ∷ b'n' ∷ []
country_value country_saint_lucia = b'l' ∷ b'c' ∷ []
country_value country_saint_martin = b'm' ∷ b'f' ∷ []
country_value country_saint_pierre = b'p' ∷ b'm' ∷ []
country_value country_saint_vincent = b'v' ∷ b'c' ∷ []
country_value country_samoa = b'w' ∷ b's' ∷ []
country_value country_san_marino = b's' ∷ b'm' ∷ []
country_value country_sao_tome = b's' ∷ b't' ∷ []
country_value country_saudi_arabia = b's' ∷ b'a' ∷ []
country_value country_senegal = b's' ∷ b'n' ∷ []
country_value country_serbia = b'r' ∷ b's' ∷ []
country_value country_serbia_and_montenegro = b'c' ∷ b's' ∷ []
country_value country_seychelles = b's' ∷ b'c' ∷ []
country_value country_sierra_leone = b's' ∷ b'l' ∷ []
country_value country_singapore = b's' ∷ b'g' ∷ []
country_value country_sint_maarten = b's' ∷ b'x' ∷ []
country_value country_slovakia = b's' ∷ b'k' ∷ []
country_value country_slovenia = b's' ∷ b'i' ∷ []
country_value country_solomon_islands = b's' ∷ b'b' ∷ []
country_value country_somalia = b's' ∷ b'o' ∷ []
country_value country_south_africa = b'z' ∷ b'a' ∷ []
country_value country_south_georgia = b'g' ∷ b's' ∷ []
country_value country_south_ossetia = b'o' ∷ b's' ∷ []
country_value country_south_sudan = b's' ∷ b's' ∷ []
country_value country_spain = b'e' ∷ b's' ∷ []
country_value country_sri_lanka = b'l' ∷ b'k' ∷ []
country_value country_sudan = b's' ∷ b'd' ∷ []
country_value country_suriname = b's' ∷ b'r' ∷ []
country_value country_svalbard = b's' ∷ b'j' ∷ []
country_value country_swaziland = b's' ∷ b'z' ∷ []
country_value country_sweden = b's' ∷ b'e' ∷ []
country_value country_switzerland = b'c' ∷ b'h' ∷ []
country_value country_syrian_arab_republic = b's' ∷ b'y' ∷ []
country_value country_taiwan = b't' ∷ b'w' ∷ []
country_value country_tajikistan = b't' ∷ b'j' ∷ []
country_value country_tanzania = b't' ∷ b'z' ∷ []
country_value country_thailand = b't' ∷ b'h' ∷ []
country_value country_timor_leste = b't' ∷ b'l' ∷ []
country_value country_togo = b't' ∷ b'g' ∷ []
country_value country_tokelau = b't' ∷ b'k' ∷ []
country_value country_tonga = b't' ∷ b'o' ∷ []
country_value country_trinidad = b't' ∷ b't' ∷ []
country_value country_tunisia = b't' ∷ b'n' ∷ []
country_value country_turkey = b't' ∷ b'r' ∷ []
country_value country_turkmenistan = b't' ∷ b'm' ∷ []
country_value country_turks = b't' ∷ b'c' ∷ []
country_value country_tuvalu = b't' ∷ b'v' ∷ []
country_value country_uae = b'a' ∷ b'e' ∷ []
country_value country_ussr = b's' ∷ b'u' ∷ []
country_value country_uganda = b'u' ∷ b'g' ∷ []
country_value country_ukraine = b'u' ∷ b'a' ∷ []
country_value country_united_kingdom = b'g' ∷ b'b' ∷ []
country_value country_united_states = b'u' ∷ b's' ∷ []
country_value country_united_states_minor_outlying_islands = b'u' ∷ b'm' ∷ []
country_value country_uruguay = b'u' ∷ b'y' ∷ []
country_value country_uzbekistan = b'u' ∷ b'z' ∷ []
country_value country_vanuatu = b'v' ∷ b'u' ∷ []
country_value country_venezuela = b'v' ∷ b'e' ∷ []
country_value country_viet_nam = b'v' ∷ b'n' ∷ []
country_value country_virgin_islands = b'v' ∷ b'i' ∷ []
country_value country_virgin_islands_british = b'v' ∷ b'g' ∷ []
country_value country_wallis_futuna = b'w' ∷ b'f' ∷ []
country_value country_western_sahara = b'e' ∷ b'h' ∷ []
country_value country_yemen = b'y' ∷ b'e' ∷ []
country_value country_yugoslavia = b'y' ∷ b'u' ∷ []
country_value country_zambia = b'z' ∷ b'm' ∷ []
country_value country_zimbabwe = b'z' ∷ b'w' ∷ []

abbrev pub countries_list : List CountryEnum
countries_list =
    country_abkhazia ∷ country_afghanistan ∷ country_aland_islands ∷ country_albania
    ∷ country_algeria ∷ country_american_samoa ∷ country_andorra ∷ country_angola ∷ country_anguilla
    ∷ country_antarctica ∷ country_antigua ∷ country_argentina ∷ country_armenia ∷ country_aruba
    ∷ country_ascension_island ∷ country_australia ∷ country_austria ∷ country_azerbaijan
    ∷ country_bahamas ∷ country_bahrain ∷ country_bangladesh ∷ country_barbados ∷ country_belarus
    ∷ country_belgium ∷ country_belize ∷ country_benin ∷ country_bermuda ∷ country_bhutan
    ∷ country_bolivia ∷ country_bonaire ∷ country_bosnia ∷ country_botswana ∷ country_bouvet_island
    ∷ country_brazil ∷ country_british_indian_ocean_territory ∷ country_brunei ∷ country_bulgaria
    ∷ country_burkina_faso ∷ country_burundi ∷ country_car ∷ country_cambodia ∷ country_cameroon
    ∷ country_canada ∷ country_cape_verde ∷ country_cayman_islands ∷ country_chad
    ∷ country_channel_islands ∷ country_chile ∷ country_china ∷ country_christmas_island
    ∷ country_cocos_islands ∷ country_colombia ∷ country_comoros ∷ country_congo
    ∷ country_congo_kinshasa ∷ country_cook_islands ∷ country_costa_rica ∷ country_croatia
    ∷ country_cuba ∷ country_curacao ∷ country_cyprus ∷ country_czech_republic ∷ country_denmark
    ∷ country_djibouti ∷ country_dominica ∷ country_dominican_republic ∷ country_east_timor
    ∷ country_ecuador ∷ country_egypt ∷ country_el_salvador ∷ country_england
    ∷ country_equatorial_guinea ∷ country_eritrea ∷ country_estonia ∷ country_ethiopia
    ∷ country_falkland_islands ∷ country_faroe_islands ∷ country_fiji ∷ country_finland
    ∷ country_france ∷ country_french_guiana ∷ country_french_polynesia
    ∷ country_french_southern_territories ∷ country_gabon ∷ country_gambia ∷ country_georgia
    ∷ country_germany ∷ country_ghana ∷ country_gibraltar ∷ country_great_britain ∷ country_greece
    ∷ country_greenland ∷ country_grenada ∷ country_guadeloupe ∷ country_guam ∷ country_guatemala
    ∷ country_guernsey ∷ country_guinea ∷ country_guinea_bissau ∷ country_guyana ∷ country_haiti
    ∷ country_hawaiian_islands ∷ country_heard_island ∷ country_holy_see ∷ country_honduras
    ∷ country_hong_kong ∷ country_hungary ∷ country_iceland ∷ country_india ∷ country_indonesia
    ∷ country_iran ∷ country_iraq ∷ country_ireland ∷ country_isle_of_man ∷ country_israel
    ∷ country_italy ∷ country_ivory_coast ∷ country_jamaica ∷ country_japan ∷ country_jersey
    ∷ country_jordan ∷ country_kndr ∷ country_kazakhstan ∷ country_kenya ∷ country_kiribati
    ∷ country_korea ∷ country_kosovo ∷ country_kuwait ∷ country_kyrgyzstan ∷ country_laos
    ∷ country_latvia ∷ country_lebanon ∷ country_lesotho ∷ country_liberia ∷ country_libya
    ∷ country_liechtenstein ∷ country_lithuania ∷ country_luxembourg ∷ country_macao
    ∷ country_macedonia ∷ country_madagascar ∷ country_malawi ∷ country_malaysia ∷ country_maldives
    ∷ country_mali ∷ country_malta ∷ country_marshall_islands ∷ country_martinique
    ∷ country_mauritania ∷ country_mauritius ∷ country_mayotte ∷ country_mexico ∷ country_micronesia
    ∷ country_moldova_republic ∷ country_monaco ∷ country_mongolia ∷ country_montenegro
    ∷ country_montserrat ∷ country_morocco ∷ country_mozambique ∷ country_myanmar ∷ country_namibia
    ∷ country_nauru ∷ country_nederlandse_antillen ∷ country_nepal ∷ country_netherlands
    ∷ country_new_caledonia ∷ country_new_zealand ∷ country_nicaragua ∷ country_niger
    ∷ country_nigeria ∷ country_niue ∷ country_norfolk_island ∷ country_northern_mariana_islands
    ∷ country_norway ∷ country_oman ∷ country_pakistan ∷ country_palau ∷ country_palestine_state
    ∷ country_panama ∷ country_papua_new_guinea ∷ country_paraguay ∷ country_peru
    ∷ country_philippines ∷ country_pitcairn ∷ country_poland ∷ country_portugal
    ∷ country_puerto_rico ∷ country_qatar ∷ country_reunion_island ∷ country_romania
    ∷ country_russian ∷ country_rwanda ∷ country_saint_barthelemy ∷ country_saint_helena
    ∷ country_saint_kitts ∷ country_saint_lucia ∷ country_saint_martin ∷ country_saint_pierre
    ∷ country_saint_vincent ∷ country_samoa ∷ country_san_marino ∷ country_sao_tome
    ∷ country_saudi_arabia ∷ country_senegal ∷ country_serbia ∷ country_serbia_and_montenegro
    ∷ country_seychelles ∷ country_sierra_leone ∷ country_singapore ∷ country_sint_maarten
    ∷ country_slovakia ∷ country_slovenia ∷ country_solomon_islands ∷ country_somalia
    ∷ country_south_africa ∷ country_south_georgia ∷ country_south_ossetia ∷ country_south_sudan
    ∷ country_spain ∷ country_sri_lanka ∷ country_sudan ∷ country_suriname ∷ country_svalbard
    ∷ country_swaziland ∷ country_sweden ∷ country_switzerland ∷ country_syrian_arab_republic
    ∷ country_taiwan ∷ country_tajikistan ∷ country_tanzania ∷ country_thailand
    ∷ country_timor_leste ∷ country_togo ∷ country_tokelau ∷ country_tonga ∷ country_trinidad
    ∷ country_tunisia ∷ country_turkey ∷ country_turkmenistan ∷ country_turks ∷ country_tuvalu
    ∷ country_uae ∷ country_ussr ∷ country_uganda ∷ country_ukraine ∷ country_united_kingdom
    ∷ country_united_states ∷ country_united_states_minor_outlying_islands ∷ country_uruguay
    ∷ country_uzbekistan ∷ country_vanuatu ∷ country_venezuela ∷ country_viet_nam
    ∷ country_virgin_islands ∷ country_virgin_islands_british ∷ country_wallis_futuna
    ∷ country_western_sahara ∷ country_yemen ∷ country_yugoslavia ∷ country_zambia
    ∷ country_zimbabwe ∷ []
