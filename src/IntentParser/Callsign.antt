-- ===== src/IntentParser/Callsign.antt =====
-- `extract_callsign` (src/atc/intent_parser.cpp).
use xp_wellys_devfr_atc.Base.{
  ℕ, suc, ◌-◌, Bool, true, false, not, ◌&&◌, ◌||◌, String, Option, none, some, List, [], ◌∷◌, ◌++◌,
  leb, ◌==◌, length, any, keep, reverse, text_eq, is_empty, if◌then◌else◌,
}
use xp_wellys_devfr_atc.Base.Runs.{
  Run, codes, text_of, run_eq, is_nil, is_upper, is_lower, to_lower, contains, tokens_from,
}
use xp_wellys_devfr_atc.Base.Scan.{take}
use xp_wellys_devfr_atc.IntentParser.Words.{spoken_digits}

abbrev phonetic_alphabet : List String
phonetic_alphabet =
    "alpha" ∷ "bravo" ∷ "charlie" ∷ "delta" ∷ "echo" ∷ "foxtrot" ∷ "golf" ∷ "hotel" ∷ "india"
    ∷ "juliet" ∷ "kilo" ∷ "lima" ∷ "mike" ∷ "november" ∷ "oscar" ∷ "papa" ∷ "quebec" ∷ "romeo"
    ∷ "sierra" ∷ "tango" ∷ "uniform" ∷ "victor" ∷ "whiskey" ∷ "xray" ∷ "yankee" ∷ "zulu" ∷ []

abbrev is_alpha : ℕ → Bool
is_alpha c = is_upper c || is_lower c

-- `std::ispunct`.
abbrev is_punct : ℕ → Bool
is_punct c =
    (leb 33 c && leb c 47)
    || (leb 58 c && leb c 64)
    || (leb 91 c && leb c 96)
    || (leb 123 c && leb c 126)

-- Punctuation becomes blanks; digits and other characters are dropped.
unfoldable pub strip_punctuation : Run → Run
strip_punctuation [] = []
strip_punctuation (c ∷ s) =
    let rest = strip_punctuation s in
    if is_alpha c || c == 32 then c ∷ rest else if is_punct c then 32 ∷ rest else rest

unfoldable pub split_words : Run → List Run
unfolding tokens_from
split_words s = tokens_from (λ c. not (c == 32)) [] s

unfoldable pub is_phonetic_word : Run → Bool
is_phonetic_word w = any (λ pa. run_eq w (codes pa)) phonetic_alphabet

abbrev is_digit_word : Run → Bool
is_digit_word w = any (λ e. run_eq w (codes e.0)) spoken_digits

-- The words in front that spell something.
unfoldable pub collect_phonetic_sequence : List Run → List Run
unfolding is_phonetic_word
collect_phonetic_sequence [] = []
collect_phonetic_sequence (w ∷ words) =
    let rest = collect_phonetic_sequence words in
    if is_phonetic_word w || is_digit_word w then w ∷ rest else []

abbrev capitalised : Run → Run
capitalised [] = []
capitalised (c ∷ s) = (if is_lower c then c - 32 else c) ∷ s

-- The words with their capitals, a blank between them.
abbrev joined : List Run → Run
joined [] = []
joined (w ∷ []) = capitalised w
joined (w ∷ v ∷ words) = capitalised w ++ (32 ∷ joined (v ∷ words))

-- How many words agree, pairwise.
abbrev agreeing : List Run → List Run → ℕ
agreeing (v ∷ vs) (w ∷ ws) = let rest = agreeing vs ws in if run_eq v w then suc rest else rest
agreeing _ _ = 0

abbrev least : ℕ → ℕ → ℕ
least a b = if leb a b then a else b

-- The last words, three at most, agree but for one.
unfoldable pub matches_configured_callsign : String → Run → Bool
unfolding split_words
matches_configured_callsign pilot_callsign extracted =
    let configured = reverse (split_words (to_lower (codes pilot_callsign))) in
    let found = reverse (split_words (to_lower extracted)) in
    let n = least (least (length found) (length configured)) 3 in
    if is_empty pilot_callsign
    then true
    else if n == 0
    then false
    else leb (n - 1) (agreeing (take n found) (take n configured))

-- From a word that announces a registration.
unfoldable pub announced : Bool → String → List Run → Option Run
unfolding collect_phonetic_sequence matches_configured_callsign
announced de pilot_callsign [] = none
announced de pilot_callsign (w ∷ words) =
    let cs = joined (collect_phonetic_sequence (w ∷ words)) in
    let later = announced de pilot_callsign words in
    if (run_eq w (codes "november") || (de && run_eq w (codes "delta")))
      && not (is_nil cs)
      && matches_configured_callsign pilot_callsign cs
    then some cs
    else later

-- From any word of the alphabet.
unfoldable pub spelled : String → List Run → Option Run
unfolding collect_phonetic_sequence is_phonetic_word matches_configured_callsign
spelled pilot_callsign [] = none
spelled pilot_callsign (w ∷ words) =
    let run = collect_phonetic_sequence (w ∷ words) in
    let phonetic_count = length (keep is_phonetic_word run) in
    let cs = joined run in
    let later = spelled pilot_callsign words in
    if is_phonetic_word w
      && (leb 2 (length run) && leb 1 phonetic_count)
      && (run_eq cs (codes "Hotel Bravo") || leb 2 phonetic_count)
      && matches_configured_callsign pilot_callsign cs
    then some cs
    else later

unfoldable pub extract_callsign : String → String → Run → String
unfolding strip_punctuation split_words announced spelled contains
extract_callsign profile pilot_callsign text =
    let clean = strip_punctuation text in
    let words = split_words clean in
    if not (is_empty pilot_callsign) && contains (to_lower (codes pilot_callsign)) clean
    then pilot_callsign
    else elim (announced (text_eq profile "DE") pilot_callsign words) [
      | some cs ↦ text_of cs
      | none ↦ elim (spelled pilot_callsign words) [ some cs ↦ text_of cs | none ↦ "" ]
    ]
