-- ===== src/Readback/Match.antt =====
-- How a readback is matched against the cleared values (src/atc/bzf_compliance.cpp): the canonical
-- forms, the callsign, the values that the pilot stated, and the verdict for each element. The
-- reversal of spoken numbers (src/atc/de_phraseology.cpp) is an argument; the callers pass
-- `parse_spoken_number`.
use xp_wellys_devfr_atc.Base.{
  ℕ, zero, suc, Bool, true, false, not, ◌&&◌, ◌||◌, String, Option, none, some, List, [], ◌∷◌, ◌++◌,
  leb, ◌==◌, length, keep, map, reverse, if◌then◌else◌,
}
use xp_wellys_devfr_atc.Base.Runs.{
  Run, codes, run_eq, is_nil, is_digit, is_alnum, is_space, to_lower, begins_with, contains,
  replace_run, tokens_from,
}
use xp_wellys_devfr_atc.Readback.{
  Element, callsign, runway, qnh, frequency, squawk, ClearanceComponents, covered, missing, wrong,
  is_covered, FieldDiff, expected_value,
}

abbrev variants : List (String × String)
variants =
    ("vector", "victor")
    ∷ ("juliet ", "juliett ")
    ∷ ("juliet,", "juliett,")
    ∷ ("wisky", "whiskey")
    ∷ ("whiskee", "whiskey")
    ∷ ("xray", "x-ray")
    ∷ ("x ray", "x-ray")
    ∷ ("alfa", "alpha")
    ∷ []

unfoldable pub replace_variants : List (String × String) → Run → Run
unfolding replace_run
replace_variants [] lc = lc
replace_variants ((seen, canonical) ∷ rest) lc =
    replace_variants rest (replace_run (codes seen) (codes canonical) lc)

abbrev ends_with : Run → Run → Bool
ends_with p s = begins_with (reverse p) (reverse s)

-- A trailing " juliet" gets its second t.
unfoldable pub normalize_whisper_nato_variants : Run → Run
unfolding replace_variants
normalize_whisper_nato_variants text =
    let lc = replace_variants variants text in
    if ends_with (codes " juliet") lc then lc ++ codes "t" else lc

abbrev digit_words : List (String × ℕ)
digit_words =
    ("null", b'0')
    ∷ ("eins", b'1')
    ∷ ("zwo", b'2')
    ∷ ("zwei", b'2')
    ∷ ("drei", b'3')
    ∷ ("vier", b'4')
    ∷ ("fuenf", b'5')
    ∷ ("fünf", b'5')
    ∷ ("sechs", b'6')
    ∷ ("sieben", b'7')
    ∷ ("acht", b'8')
    ∷ ("neun", b'9')
    ∷ []

abbrev find_word : Run → List (String × ℕ) → Run
find_word tok [] = tok
find_word tok ((word, digit) ∷ rest) =
    if run_eq tok (codes word) then digit ∷ [] else find_word tok rest

abbrev weld : List Run → Run
weld [] = []
weld (tok ∷ toks) = find_word tok digit_words ++ weld toks

unfoldable pub canon_callsign : Run → Run
unfolding normalize_whisper_nato_variants tokens_from
canon_callsign s = weld (tokens_from is_alnum [] (normalize_whisper_nato_variants (to_lower s)))

-- What stands behind the blank before last, or the whole text; `none` if there is no blank.
-- `s.rfind(' ', sp1 - 1)` at `sp1 == 0` searches from `npos`, so it finds `sp1` again.
unfoldable pub cut_at_blank : Run → Option (Run × Run)
cut_at_blank [] = none
cut_at_blank (c ∷ s) =
    let rest = cut_at_blank s in
    if c == 32
    then some ([], s)
    else elim rest [ none ↦ none | some (before, behind) ↦ some (c ∷ before, behind) ]

unfoldable pub last_two_tokens : Run → Option Run
unfolding cut_at_blank
last_two_tokens cs = elim (cut_at_blank (reverse cs)) [
  | none ↦ none
  | some (last, front) ↦ elim (cut_at_blank front) [
    | none ↦ some (if is_nil front then reverse last else cs)
    | some (word, _) ↦ some (reverse word ++ (32 ∷ reverse last))
  ]
]

unfoldable pub pilot_has_callsign : Run → Run → Bool
unfolding canon_callsign last_two_tokens contains
pilot_has_callsign pilot_lc callsign_lc =
    if is_nil callsign_lc
    then true
    else let p = canon_callsign pilot_lc in
      let c = canon_callsign callsign_lc in
      if is_nil c then true else if contains c p then true else elim (last_two_tokens callsign_lc) [
        | none ↦ false
        | some tail ↦ let tail_c = canon_callsign tail in not (is_nil tail_c) && contains tail_c p
      ]

-- The digits at the front, at most `n` of them, and what follows.
unfoldable pub take_digits : ℕ → Run → Run × Run
take_digits zero s = ([], s)
take_digits (suc n) [] = ([], [])
take_digits (suc n) (c ∷ s) =
    let (ds, rest) = take_digits n s in if is_digit c then (c ∷ ds, rest) else ([], c ∷ s)

abbrev drop_spaces : Run → Run
drop_spaces [] = []
drop_spaces (c ∷ s) = let rest = drop_spaces s in if is_space c then rest else c ∷ s

-- `word\s+(\d{least,most})` at the front of the text.
unfoldable pub word_and_digits : Run → ℕ → ℕ → Run → Option (Run × Run)
unfolding take_digits
word_and_digits [] least most [] = none
word_and_digits [] least most (c ∷ s) =
    let (ds, rest) = take_digits most (drop_spaces s) in
    if is_space c && leb least (length ds) then some (ds, rest) else none
word_and_digits (w ∷ word) least most [] = none
word_and_digits (w ∷ word) least most (c ∷ s) =
    let rest = word_and_digits word least most s in if w == c then rest else none

abbrev digits_of : Option (Run × Run) → Option Run
digits_of none = none
digits_of (some (ds, _)) = some ds

-- The optional `[lrc]` behind a runway number.
abbrev with_side : Option (Run × Run) → Option Run
with_side none = none
with_side (some (ds, [])) = some ds
with_side (some (ds, c ∷ s)) =
    some (if c == b'l' || c == b'r' || c == b'c' then ds ++ (c ∷ []) else ds)

abbrev or_else : Option Run → Option Run → Option Run
or_else none o = o
or_else (some r) o = some r

abbrev runway_at : Run → Option Run
runway_at s =
    or_else (with_side (word_and_digits (codes "piste") 1 2 s))
      (with_side (word_and_digits (codes "runway") 1 2 s))

-- `\d{3}\.\d{1,3}` at the front of the text.
unfoldable pub decimal_at : Run → Option Run
unfolding take_digits
decimal_at s =
    let (ds, behind) = take_digits 3 s in
    elim behind [
      | [] ↦ none
      | c ∷ rest ↦
          let (fraction, _) = take_digits 3 rest in
          if length ds == 3 && c == b'.' && leb 1 (length fraction)
          then some (ds ++ (c ∷ fraction))
          else none
    ]

-- `std::regex_search`: the first position at which the pattern matches; "" if there is none.
unfoldable pub search_first : (Run → Option Run) → Run → Run
search_first at [] = []
search_first at (c ∷ s) =
    let rest = search_first at s in elim (at (c ∷ s)) [ none ↦ rest | some r ↦ r ]

unfoldable pub stated_value : Element → Run → Run
unfolding search_first word_and_digits decimal_at
stated_value qnh norm = search_first (λ s. digits_of (word_and_digits (codes "qnh") 3 4 s)) norm
stated_value runway norm = search_first runway_at norm
stated_value frequency norm =
    let decimal = search_first decimal_at norm in
    if is_nil decimal
    then search_first (λ s. digits_of (word_and_digits (codes "frequenz") 1 (length norm) s)) norm
    else decimal
stated_value squawk norm =
    search_first (λ s. digits_of (word_and_digits (codes "squawk") 4 4 s)) norm
stated_value callsign norm = []

abbrev pub not_read_back : List FieldDiff → List Element
not_read_back [] = []
not_read_back (f ∷ diff) =
    let rest = not_read_back diff in if is_covered f.status then rest else f.element ∷ rest

module _ (parse_spoken_number : Run → Run) where
  unfoldable pub canon_stripped : Run → Run
  unfolding normalize_whisper_nato_variants
  canon_stripped s =
      keep is_alnum (normalize_whisper_nato_variants (to_lower (parse_spoken_number (to_lower s))))

  unfoldable pub value_covered : Run → String → Bool
  unfolding canon_stripped contains
  value_covered haystack_canon value =
      let v = canon_stripped (codes value) in if is_nil v then true else contains v haystack_canon

  unfoldable pub normalize_spoken : Run → Run
  normalize_spoken s = to_lower (parse_spoken_number (to_lower s))

  -- One round of the loop of `diff_readback`.
  unfoldable pub verdict : ClearanceComponents → Run → Element → FieldDiff
  unfolding pilot_has_callsign value_covered stated_value normalize_spoken
  verdict comp transcript callsign = record {
    element = callsign;
    status =
        if pilot_has_callsign (to_lower transcript) (to_lower (codes comp.callsign))
        then covered
        else missing;
    expected = "";
    stated = [];
  }
  verdict comp transcript e =
      let expected = expected_value comp e in
      let stated = stated_value e (normalize_spoken transcript) in
      if value_covered (canon_stripped transcript) expected
      then record { element = e; status = covered; expected = expected; stated = [] }
      else if is_nil stated
      then record { element = e; status = missing; expected = expected; stated = [] }
      else record { element = e; status = wrong; expected = expected; stated = stated }

  unfoldable pub diff_readback : ClearanceComponents → Run → List FieldDiff
  unfolding verdict
  diff_readback comp transcript = map (verdict comp transcript) comp.required

  unfoldable pub missing_readback_elements : ClearanceComponents → Run → List Element
  unfolding diff_readback
  missing_readback_elements comp transcript = not_read_back (diff_readback comp transcript)
