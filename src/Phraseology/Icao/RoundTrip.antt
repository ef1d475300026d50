-- ===== src/Phraseology/Icao/RoundTrip.antt =====
-- Spelled letters are understood.
use xp_wellys_devfr_atc.Base.{
  ℕ, ◌+◌, ◌-◌, ◌<◌, ◌≤◌, ◌≡◌, refl, sym, ap, ◌∙◌, Bool, true, false, not, ◌&&◌, ◌||◌, Option, none,
  some, List, [], ◌∷◌, ◌++◌, ◌==◌, ltb, map, length, length-append, All, get_elem?, or_empty, arith,
}
use mathlib.Core.List.{append_assoc, append-nil, map-append}
use xp_wellys_devfr_atc.Base.Runs.{Run, codes, is_nil, to_lower}
use xp_wellys_devfr_atc.Phonetic.{nato_letters}
use xp_wellys_devfr_atc.Phraseology.Passes.{nato_words}
use xp_wellys_devfr_atc.Phraseology.Spoken.RoundTrip.{below, below_sound}
use xp_wellys_devfr_atc.Phraseology.Icao.{
  is_alpha, nato_word_to_letter, keep_word, words_from, settled, icao_from, parse_spoken_icao,
}

abbrev goes_on : Run → ℕ → Bool
goes_on word c = is_alpha c || (c == b'-' && not (is_nil word))

-- The word grows through all of the run.
unfoldable grows : Run → Run → Bool
grows word [] = true
grows word (c ∷ s) = goes_on word c && grows (word ++ (c ∷ [])) s

words_from-grows :
    (word s rest : Run)
    → grows word s ≡ true
    → words_from word (s ++ rest) ≡ words_from (word ++ s) rest
unfolding grows words_from
words_from-grows word [] rest h = ap (λ w. words_from w rest) (sym (append-nil word))
words_from-grows word (c ∷ s) rest h =
    let here : goes_on word c ≡ true = ground arith in
    let ih = words_from-grows (word ++ (c ∷ [])) s rest (ground arith) in
    rw (here, words_from) (ih ∙ ap (λ w. words_from w rest) (append_assoc word (c ∷ []) s))

-- The word of a letter by its place in the alphabet.
unfoldable word : ℕ → Run
word i = to_lower (codes (or_empty (get_elem? (nato_letters "X-Ray") i)))

abbrev pub letter : ℕ → ℕ
letter i = b'A' + i

abbrev is_letter : ℕ → Option ℕ → Bool
is_letter c none = false
is_letter c (some b) = b == c

words_grow : below 26 (λ i. grows [] (word i)) ≡ true
unfolding below grows word
words_grow = refl

words_filled : below 26 (λ i. not (is_nil (word i))) ≡ true
unfolding below word
words_filled = refl

words_known : below 26 (λ i. is_letter (letter i) (nato_word_to_letter (word i))) ≡ true
unfolding below word nato_word_to_letter
words_known = refl

known : (c : ℕ) (o : Option ℕ) → is_letter c o ≡ true → o ≡ some c
known c none h = absurd (ground arith)
known c (some b) h = ground arith

nato_word_to_letter-word : (i : ℕ) → i < 26 → nato_word_to_letter (word i) ≡ some (letter i)
nato_word_to_letter-word i h =
    known _ _
      (below_sound 26 (λ i. is_letter (letter i) (nato_word_to_letter (word i))) i words_known h)

keep_word-filled :
    (w : Run) (words : List Run) → not (is_nil w) ≡ true → keep_word w words ≡ w ∷ words
keep_word-filled [] words h = absurd (ground arith)
keep_word-filled (c ∷ w) words h = refl

lowered-cons :
    (i : ℕ) (is : List ℕ)
    → to_lower (nato_words (map letter (i ∷ is)))
      ≡ 32 ∷ (word i ++ to_lower (nato_words (map letter is)))
unfolding word
lowered-cons i is =
    let place : letter i - b'A' ≡ i = omega arith in rw place (ap (λ s. 32 ∷ s) (map-append _ _ _))

words_from-nato_words :
    (w : Run) (is : List ℕ)
    → All (λ i. i < 26) is
    → words_from w (to_lower (nato_words (map letter is))) ≡ keep_word w (map word is)
unfolding words_from
words_from-nato_words w [] h = refl
words_from-nato_words w (i ∷ is) h =
    let rest = to_lower (nato_words (map letter is)) in
    let grown = below_sound 26 (λ i. grows [] (word i)) i words_grow h.0 in
    let filled = below_sound 26 (λ i. not (is_nil (word i))) i words_filled h.0 in
    ap (words_from w) (lowered-cons i is)
    ∙ ap (keep_word w) (
        words_from-grows [] (word i) rest grown
        ∙ words_from-nato_words (word i) is h.1
        ∙ keep_word-filled (word i) (map word is) filled)

settled-short : (icao : Run) → 3 ≤ length icao → length icao ≤ 4 → settled icao ≡ icao
settled-short icao h k = ground arith

icao_from-words :
    (icao : Run) (is : List ℕ)
    → All (λ i. i < 26) is
    → 3 ≤ length icao + length is
    → length icao + length is ≤ 4
    → icao_from nato_word_to_letter icao (map word is) ≡ icao ++ map letter is
unfolding icao_from nato_word_to_letter word
icao_from-words icao [] h k l =
    settled-short icao (omega arith) (omega arith) ∙ sym (append-nil icao)
icao_from-words icao (i ∷ is) h k l =
    let c = letter i in
    let size = length-append icao (c ∷ []) in
    let fits : ltb 4 (length (icao ++ (c ∷ []))) ≡ false = ground (arith, size) in
    let ih =
      icao_from-words (icao ++ (c ∷ [])) is h.1 (omega (arith, size)) (omega (arith, size)) in
    rw (nato_word_to_letter-word i h.0, fits) (ih ∙ append_assoc icao (c ∷ []) (map letter is))

-- Three or four letters that are spelled with the words of the phonetic alphabet are understood as
-- the same aerodrome.
pub parse_spoken_icao-nato_words :
    (is : List ℕ)
    → All (λ i. i < 26) is
    → 3 ≤ length is
    → length is ≤ 4
    → parse_spoken_icao (to_lower (nato_words (map letter is))) ≡ map letter is
unfolding parse_spoken_icao
parse_spoken_icao-nato_words is h k l =
    ap (icao_from nato_word_to_letter []) (words_from-nato_words [] is h)
    ∙ icao_from-words [] is h (omega arith) (omega arith)
