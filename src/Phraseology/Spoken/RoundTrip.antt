-- ===== src/Phraseology/Spoken/RoundTrip.antt =====
-- Digits that are spelled are understood.
use xp_wellys_devfr_atc.Base.{
  ℕ, zero, suc, ◌+◌, ◌-◌, ◌<◌, ◌≤◌, ◌≡◌, inl, inr, refl, ap, ◌∙◌, Bool, true, false, not, ◌&&◌,
  Option, none, some, List, [], ◌∷◌, ◌++◌, ◌==◌, ltb, all, any, map, length, All, Bool-cases,
  if◌then◌else◌, arith,
}
use mathlib.Core.List.{append_assoc, append-nil}
use xp_wellys_devfr_atc.Base.Runs.{Run, codes, run_eq, run_eq→eq, is_nil, is_digit, tokens_from}
use xp_wellys_devfr_atc.Base.Scan.{scan, take}
use xp_wellys_devfr_atc.Phraseology.Digits.{digit_word, spell, ziffernweise}
use xp_wellys_devfr_atc.Phraseology.Spoken.{
  Token, is_blank, token_of, tokenize, spoken_digit_value, collect_from, collect_digit_run,
  spoken_rule, weld_from, parse_spoken_number,
}

unfoldable pub below : ℕ → (ℕ → Bool) → Bool
below zero p = true
below (suc n) p = p n && below n p

pub below_sound : (n : ℕ) (p : ℕ → Bool) (x : ℕ) → below n p ≡ true → x < n → p x ≡ true
unfolding below
below_sound zero p x h k = absurd (omega arith)
below_sound (suc n) p x h k = ground (arith, below_sound n p x)

abbrev has_value : ℕ → Option ℕ → Bool
has_value x none = false
has_value x (some v) = v == x

-- The character of a digit.
abbrev pub digit_char : ℕ → ℕ
digit_char x = b'0' + x

abbrev plain : ℕ → Token
plain x = record { raw = digit_word x; lc_word = digit_word x; trailing = [] }

nil_of : (r : Run) → is_nil r ≡ true → r ≡ []
nil_of [] h = refl
nil_of (c ∷ r) h = absurd (ground arith)

value_of : (x : ℕ) (o : Option ℕ) → has_value x o ≡ true → o ≡ some x
value_of x none h = absurd (ground arith)
value_of x (some v) h = ground arith

-- What holds of each of the ten words, by evaluation.
abbrev AtEachWord : (Run → Bool) → Type 0
AtEachWord p = below 10 (λ x. p (digit_word x)) ≡ true

words_solid : AtEachWord (λ w. all (λ c. not (is_blank c)) w)
unfolding below
words_solid = refl

words_lower : AtEachWord (λ w. run_eq (token_of w).lc_word w)
unfolding below token_of
words_lower = refl

words_bare : AtEachWord (λ w. is_nil (token_of w).trailing)
unfolding below token_of
words_bare = refl

words_valued : below 10 (λ x. has_value x (spoken_digit_value (digit_word x))) ≡ true
unfolding below spoken_digit_value
words_valued = refl

words_alphabetic : AtEachWord (λ w. not (any is_digit w))
unfolding below
words_alphabetic = refl

words_no_komma : AtEachWord (λ w. not (run_eq w (codes "komma")))
unfolding below
words_no_komma = refl

words_filled : AtEachWord (λ w. not (is_nil w))
unfolding below
words_filled = refl

unnot : (b : Bool) → not b ≡ true → b ≡ false
unnot b h = ground arith

module _ (x : ℕ) (h : x < 10) where
  word_value : spoken_digit_value (digit_word x) ≡ some x
  word_value = value_of x (spoken_digit_value (digit_word x)) (below_sound 10 _ x words_valued h)

  word_has_no_digit : any is_digit (digit_word x) ≡ false
  word_has_no_digit =
      unnot _ (below_sound 10 (λ x. not (any is_digit (digit_word x))) x words_alphabetic h)

  word_is_no_komma : run_eq (digit_word x) (codes "komma") ≡ false
  word_is_no_komma =
      unnot _ (below_sound 10 (λ x. not (run_eq (digit_word x) (codes "komma"))) x words_no_komma h)

  word_solid : all (λ c. not (is_blank c)) (digit_word x) ≡ true
  word_solid = below_sound 10 (λ x. all (λ c. not (is_blank c)) (digit_word x)) x words_solid h

  word_filled : is_nil (digit_word x) ≡ false
  word_filled = unnot _ (below_sound 10 (λ x. not (is_nil (digit_word x))) x words_filled h)

  char_is_digit : is_digit (digit_char x) ≡ true
  char_is_digit = ground arith

  token_of-word : token_of (digit_word x) ≡ plain x
  unfolding token_of
  token_of-word =
      let lower_case = run_eq→eq _ _ (
        below_sound 10 (λ x. run_eq (token_of (digit_word x)).lc_word (digit_word x)) x words_lower
          h) in
      let bare =
        nil_of _ (below_sound 10 (λ x. is_nil (token_of (digit_word x)).trailing) x words_bare h) in
      λ i. record { raw = digit_word x; lc_word = lower_case i; trailing = bare i }

-- No blank in the word: it is read into the token.
tokens_from-solid :
    (w s cur : Run)
    → all (λ c. not (is_blank c)) w ≡ true
    → tokens_from (λ c. not (is_blank c)) cur (w ++ s)
      ≡ tokens_from (λ c. not (is_blank c)) (cur ++ w) s
unfolding tokens_from
tokens_from-solid [] s cur h = rw (append-nil cur) refl
tokens_from-solid (c ∷ w) s cur h = elim (Bool-cases (is_blank c)) [
  | inl e ↦ absurd (ground arith)
  | inr e ↦
      let ih = tokens_from-solid w s (cur ++ (c ∷ [])) (ground arith) in
      rw (e) (ih ∙ ap (λ t. tokens_from (λ c. not (is_blank c)) t s) (append_assoc cur (c ∷ []) w))
]

tokens_from-spell :
    (xs : List ℕ) (cur : Run)
    → All (λ x. x < 10) xs
    → is_nil cur ≡ false
    → tokens_from (λ c. not (is_blank c)) cur (spell false (map digit_char xs))
      ≡ cur ∷ map digit_word xs
unfolding tokens_from spell
tokens_from-spell [] [] h k = absurd (ground arith)
tokens_from-spell [] (c ∷ cur) h k = refl
tokens_from-spell (x ∷ xs) [] h k = absurd (ground arith)
tokens_from-spell (x ∷ xs) (c ∷ cur) h k =
    let value : digit_char x - b'0' ≡ x = omega arith in
    let rest = spell false (map digit_char xs) in
    let ih = tokens_from-spell xs (digit_word x) h.1 (word_filled x h.0) in
    rw (char_is_digit x h.0, value)
      (ap (λ ts. (c ∷ cur) ∷ ts) (tokens_from-solid (digit_word x) rest [] (word_solid x h.0) ∙ ih))

map-token_of :
    (xs : List ℕ) → All (λ x. x < 10) xs → map token_of (map digit_word xs) ≡ map plain xs
map-token_of [] h = refl
map-token_of (x ∷ xs) h = rw (token_of-word x h.0, map-token_of xs h.1) refl

tokenize-ziffernweise :
    (x : ℕ) (xs : List ℕ)
    → All (λ x. x < 10) (x ∷ xs)
    → tokenize (ziffernweise (map digit_char (x ∷ xs))) ≡ map plain (x ∷ xs)
unfolding tokenize ziffernweise spell
tokenize-ziffernweise x xs h =
    let value : digit_char x - b'0' ≡ x = omega arith in
    let rest = spell false (map digit_char xs) in
    rw (char_is_digit x h.0, value, tokenize)
      (ap (map token_of) (
          tokens_from-solid (digit_word x) rest [] (word_solid x h.0)
          ∙ tokens_from-spell xs (digit_word x) h.1 (word_filled x h.0))
        ∙ map-token_of (x ∷ xs) h)

collect_from-plain :
    (room : ℕ) (xs : List ℕ)
    → All (λ x. x < 10) xs
    → collect_from room (map plain xs) ≡ map digit_char (take room xs)
unfolding collect_from
collect_from-plain zero [] h = refl
collect_from-plain zero (x ∷ xs) h = refl
collect_from-plain (suc room) [] h = refl
collect_from-plain (suc room) (x ∷ xs) h =
    rw (word_value x h.0, collect_from-plain room xs h.1) refl

collect_digit_run-plain :
    (xs : List ℕ) (least most : ℕ)
    → All (λ x. x < 10) xs
    → collect_digit_run (map plain xs) least most ≡ (
        if ltb (length (map digit_char (take most xs))) least
        then []
        else map digit_char (take most xs))
unfolding collect_digit_run
collect_digit_run-plain xs least most h = rw (collect_from-plain most xs h) refl

-- Two to four words of digits are one number.
scan-plain :
    (xs : List ℕ)
    → All (λ x. x < 10) xs
    → 2 ≤ length xs
    → length xs ≤ 4
    → scan spoken_rule (λ t. t.raw) none 0 (map plain xs) ≡ map digit_char xs ∷ []
unfolding scan spoken_rule
scan-plain [] h k l = absurd (omega arith)
scan-plain (x ∷ []) h k l = absurd (omega arith)
scan-plain (x ∷ y ∷ []) h k l =
    let xs = x ∷ y ∷ [] in
    rw (word_has_no_digit x h.0, collect_digit_run-plain xs 2 3 h, collect_digit_run-plain xs 2 4 h)
      refl
scan-plain (x ∷ y ∷ z ∷ []) h k l =
    let xs = x ∷ y ∷ z ∷ [] in
    rw (word_has_no_digit x h.0, collect_digit_run-plain xs 2 3 h, collect_digit_run-plain xs 2 4 h)
      refl
scan-plain (x ∷ y ∷ z ∷ w ∷ []) h k l =
    let xs = x ∷ y ∷ z ∷ w ∷ [] in
    rw
      (
        word_has_no_digit x h.0,
        collect_digit_run-plain xs 2 3 h,
        word_is_no_komma w h.1.1.1.0,
        collect_digit_run-plain xs 2 4 h,
      )
      refl
scan-plain (x ∷ y ∷ z ∷ w ∷ v ∷ xs) h k l = absurd (omega arith)

parse_spoken_number-tokens :
    (text : Run) (t : Token) (ts : List Token)
    → tokenize text ≡ t ∷ ts
    → parse_spoken_number text ≡ weld_from [] (scan spoken_rule (λ t. t.raw) none 0 (t ∷ ts))
unfolding parse_spoken_number
parse_spoken_number-tokens text t ts e =
    rw (e, parse_spoken_number)
      (ap (λ tokens. weld_from [] (scan spoken_rule (λ t. t.raw) none 0 tokens)) e)

-- Two, three or four digits that are spelled word by word are understood as the same number.
pub parse_spoken_number-ziffernweise :
    (xs : List ℕ)
    → All (λ x. x < 10) xs
    → 2 ≤ length xs
    → length xs ≤ 4
    → parse_spoken_number (ziffernweise (map digit_char xs)) ≡ map digit_char xs
unfolding weld_from
parse_spoken_number-ziffernweise [] h k l = absurd (omega arith)
parse_spoken_number-ziffernweise (x ∷ xs) h k l =
    parse_spoken_number-tokens _ (plain x) (map plain xs) (tokenize-ziffernweise x xs h)
    ∙ ap (weld_from []) (scan-plain (x ∷ xs) h k l)
