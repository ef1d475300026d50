-- ===== src/Atis/Text.antt =====
-- The text of the ATIS in both languages (src/atc/atis_generator.cpp).
use xp_wellys_devfr_atc.Base.{
  ℕ, ◌-◌, not, ◌||◌, String, List, [], ◌∷◌, ◌==◌, concat, get_elem?, or_empty, text_eq, is_empty,
  if◌then◌else◌,
}
use xp_wellys_devfr_atc.Double.{Double, ◌<?◌, ◌≤?◌, mul, div, lit, whole}
use xp_wellys_devfr_atc.Context.{XplaneContext}
use xp_wellys_devfr_atc.Settings.{Settings}
use xp_wellys_devfr_atc.Phonetic.{nato_letters}
use xp_wellys_devfr_atc.Machine.{Machine}
use xp_wellys_devfr_atc.World.{effective_runway}
use xp_wellys_devfr_atc.Atis.{Atis}

-- `kLetterNames`.
abbrev pub letter_names : List String
letter_names =
    "Alpha" ∷ "Bravo" ∷ "Charlie" ∷ "Delta" ∷ "Echo" ∷ "Foxtrot" ∷ "Golf" ∷ "Hotel" ∷ "India"
    ∷ "Juliet" ∷ "Kilo" ∷ "Lima" ∷ "Mike" ∷ "November" ∷ "Oscar" ∷ "Papa" ∷ "Quebec" ∷ "Romeo"
    ∷ "Sierra" ∷ "Tango" ∷ "Uniform" ∷ "Victor" ∷ "Whiskey" ∷ "X-ray" ∷ "Yankee" ∷ "Zulu" ∷ []

abbrev pub letter_names_de : List String
letter_names_de = nato_letters "X-Ray"

-- `names[letter_ - 'A']`.
abbrev pub name_of : List String → ℕ → String
name_of names letter = or_empty (get_elem? names (letter - b'A'))

abbrev coverage_de : ℕ → String
coverage_de cloud_type =
    if cloud_type == 2
    then "vereinzelte Wolken"
    else if cloud_type == 3
    then "aufgelockerte Wolken"
    else if cloud_type == 4
    then "bedeckt"
    else "wenige Wolken"

abbrev coverage_en : ℕ → String
coverage_en cloud_type =
    if cloud_type == 2
    then "scattered clouds"
    else if cloud_type == 3
    then "broken clouds"
    else if cloud_type == 4
    then "overcast"
    else "few clouds"

-- The name, else the identifier, else the last resort.
abbrev first_of : String → String → String → String
first_of name id resort =
    if not (is_empty name) then name else if not (is_empty id) then id else resort

abbrev or_resort : String → String → String
or_resort runway resort = if is_empty runway then resort else runway

module _ {F : Type 0} ⦃d : Double F⦄ where
  unfoldable pub format_visibility : F → String
  format_visibility vis_m =
      if whole 10000 ≤? vis_m
      then "ueber 10 Kilometer"
      else if whole 1000 ≤? vis_m
      then concat (d.print_int (div vis_m (whole 1000)) ∷ " Kilometer" ∷ [])
      else concat (d.print_int vis_m ∷ " Meter" ∷ [])

  -- Rounded to 100 ft.
  abbrev cloud_base : F → String
  cloud_base cloud_base_ft = d.print_int (mul (d.round (div cloud_base_ft (whole 100))) (whole 100))

  unfoldable pub format_clouds : ℕ → F → String
  format_clouds cloud_type cloud_base_ft =
      if cloud_type == 0 || cloud_base_ft <? whole 100
      then "Wolkenlos."
      else concat (coverage_de cloud_type ∷ " in " ∷ cloud_base cloud_base_ft ∷ " Fuss." ∷ [])

  unfoldable pub format_wind : F → F → String
  format_wind dir spd =
      if spd <? whole 3
      then "ruhig"
      else concat (d.print_fixed 0 dir ∷ " Grad " ∷ d.print_fixed 0 spd ∷ " Knoten" ∷ [])

  unfoldable pub format_qnh : F → String
  format_qnh inhg = d.print_int (d.round (mul inhg (lit 338639 4)))

  unfoldable pub format_visibility_en : F → String
  format_visibility_en vis_m =
      if whole 10000 ≤? vis_m
      then "more than 10 kilometers"
      else if whole 1000 ≤? vis_m
      then concat (d.print_int (div vis_m (whole 1000)) ∷ " kilometers" ∷ [])
      else concat (d.print_int vis_m ∷ " meters" ∷ [])

  unfoldable pub format_clouds_en : ℕ → F → String
  format_clouds_en cloud_type cloud_base_ft =
      if cloud_type == 0 || cloud_base_ft <? whole 100
      then "Sky clear."
      else concat (coverage_en cloud_type ∷ " at " ∷ cloud_base cloud_base_ft ∷ " feet." ∷ [])

  unfoldable pub format_wind_en : F → F → String
  format_wind_en dir spd =
      if spd <? whole 3
      then "calm"
      else concat (d.print_padded 3 dir ∷ " degrees " ∷ d.print_padded 2 spd ∷ " knots" ∷ [])

  unfoldable pub generate_atis_text_de : Machine F → XplaneContext F → Atis F → String
  unfolding effective_runway format_wind format_visibility format_clouds format_qnh
  generate_atis_text_de m ctx s =
      let airport = first_of ctx.nearest_airport_name ctx.nearest_airport_id "Flugplatz" in
      let letter_name = name_of letter_names_de s.letter in
      let runway = or_resort (effective_runway m ctx) "unbekannt" in
      concat (
        concat (airport ∷ " Information " ∷ letter_name ∷ " aktuell. " ∷ [])
        ∷ concat ("Piste " ∷ runway ∷ " in Betrieb. " ∷ [])
        ∷ concat ("Wind " ∷ format_wind ctx.wind_direction_deg ctx.wind_speed_kt ∷ ". " ∷ [])
        ∷ concat ("Sicht " ∷ format_visibility ctx.visibility_m ∷ ". " ∷ [])
        ∷ concat (format_clouds ctx.cloud_type ctx.cloud_base_ft_msl ∷ " " ∷ [])
        ∷ concat (
            "Temperatur "
            ∷ d.print_int ctx.temperature_c
            ∷ ", Taupunkt "
            ∷ d.print_int ctx.dewpoint_c
            ∷ ". "
            ∷ [])
        ∷ concat ("QNH " ∷ format_qnh ctx.qnh_inhg ∷ ". " ∷ [])
        ∷ concat ("Bei Erstanruf Information " ∷ letter_name ∷ " angeben." ∷ [])
        ∷ [])

  unfoldable pub generate_atis_text_en : Machine F → XplaneContext F → Atis F → String
  unfolding effective_runway format_wind_en format_visibility_en format_clouds_en format_qnh
  generate_atis_text_en m ctx s =
      let airport = first_of ctx.nearest_airport_name ctx.nearest_airport_id "Airport" in
      let letter_name = name_of letter_names s.letter in
      let runway = or_resort (effective_runway m ctx) "unknown" in
      concat (
        concat (airport ∷ " Information " ∷ letter_name ∷ ". " ∷ [])
        ∷ concat ("Runway " ∷ runway ∷ " in use. " ∷ [])
        ∷ concat ("Wind " ∷ format_wind_en ctx.wind_direction_deg ctx.wind_speed_kt ∷ ". " ∷ [])
        ∷ concat ("Visibility " ∷ format_visibility_en ctx.visibility_m ∷ ". " ∷ [])
        ∷ concat (format_clouds_en ctx.cloud_type ctx.cloud_base_ft_msl ∷ " " ∷ [])
        ∷ concat (
            "Temperature "
            ∷ d.print_int ctx.temperature_c
            ∷ ", dew point "
            ∷ d.print_int ctx.dewpoint_c
            ∷ ". "
            ∷ [])
        ∷ concat ("QNH " ∷ format_qnh ctx.qnh_inhg ∷ ". " ∷ [])
        ∷ concat ("On initial contact advise you have information " ∷ letter_name ∷ "." ∷ [])
        ∷ [])

  unfoldable pub generate_atis_text : Settings F → Machine F → XplaneContext F → Atis F → String
  unfolding generate_atis_text_de generate_atis_text_en
  generate_atis_text settings m ctx s =
      if text_eq settings.atc_profile "EN"
      then generate_atis_text_en m ctx s
      else generate_atis_text_de m ctx s
