-- ===== src/IntentParser/Words.antt =====
-- The tables of spoken words in the order of their keys (src/atc/intent_parser.cpp).
use xp_wellys_devfr_atc.Base.{
  String, Option, none, some, List, [], ◌∷◌, length, ◌==◌, if◌then◌else◌,
}
use xp_wellys_devfr_atc.Base.Runs.{Run, codes, begins_with}
use xp_wellys_devfr_atc.Base.Scan.{drop}

abbrev pub Table : Type 0
Table = List (String × String)

abbrev later_digits : Table
later_digits =
    ("thirty six", "36")
    ∷ ("thirty three", "33")
    ∷ ("thirty two", "32")
    ∷ ("three", "3")
    ∷ ("twelve", "12")
    ∷ ("twenty", "20")
    ∷ ("twenty eight", "28")
    ∷ ("twenty five", "25")
    ∷ ("twenty four", "24")
    ∷ ("twenty nine", "29")
    ∷ ("twenty one", "21")
    ∷ ("twenty seven", "27")
    ∷ ("twenty six", "26")
    ∷ ("twenty three", "23")
    ∷ ("twenty two", "22")
    ∷ ("two", "2")
    ∷ ("zero", "0")
    ∷ []

-- `kSpokenDigits`.
abbrev pub spoken_digits : Table
spoken_digits =
    ("eight", "8")
    ∷ ("eighteen", "18")
    ∷ ("eleven", "11")
    ∷ ("fifteen", "15")
    ∷ ("five", "5")
    ∷ ("four", "4")
    ∷ ("fourteen", "14")
    ∷ ("nine", "9")
    ∷ ("niner", "9")
    ∷ ("nineteen", "19")
    ∷ ("one", "1")
    ∷ ("seven", "7")
    ∷ ("seventeen", "17")
    ∷ ("six", "6")
    ∷ ("sixteen", "16")
    ∷ ("ten", "10")
    ∷ ("thirteen", "13")
    ∷ ("thirty", "30")
    ∷ ("thirty five", "35")
    ∷ ("thirty four", "34")
    ∷ ("thirty one", "31")
    ∷ later_digits

abbrev pub spoken_digits_de : Table
spoken_digits_de =
    ("acht", "8")
    ∷ ("drei", "3")
    ∷ ("eins", "1")
    ∷ ("fuenf", "5")
    ∷ ("neun", "9")
    ∷ ("null", "0")
    ∷ ("sechs", "6")
    ∷ ("sieben", "7")
    ∷ ("vier", "4")
    ∷ ("zwei", "2")
    ∷ ("zwo", "2")
    ∷ []

abbrev pub runway_suffix : Table
runway_suffix = ("center", "C") ∷ ("left", "L") ∷ ("right", "R") ∷ []

abbrev pub runway_suffix_de : Table
runway_suffix_de = ("links", "L") ∷ ("mitte", "C") ∷ ("rechts", "R") ∷ []

-- Without the blank in front.
abbrev pub after_blank : Run → Run
after_blank [] = []
after_blank (c ∷ s) = if c == 32 then s else c ∷ s

-- The first word of the table that the text starts with: its value, and what follows.
unfoldable pub word_of : Table → Run → Option (Run × Run)
unfolding begins_with
word_of [] text = none
word_of ((word, value) ∷ table) text =
    if begins_with (codes word) text
    then some (codes value, after_blank (drop (length (codes word)) text))
    else word_of table text
