-- ===== src/Readback/Verdict.antt =====
-- The verdicts on a readback.
use xp_wellys_devfr_atc.Base.{
  ◌≡◌, refl, Bool, true, false, not, ◌&&◌, ◌||◌, List, [], ◌∷◌, any, if◌then◌else◌, arith,
}
use xp_wellys_devfr_atc.Readback.{
  Element, callsign, runway, qnh, frequency, squawk, element_eq, has_element, readback_covers_core,
}

abbrev pub others_covered : List Element → List Element → Bool
others_covered missing_elements es =
    any (λ e. not (element_eq e callsign) && not (has_element e missing_elements)) es

abbrev covered_at : List Element → List Element → Element → Bool
covered_at required missing_elements e =
    has_element e required && not (has_element e missing_elements)

absorb_first : (h n b c e o : Bool) → ((h && n) || b || c || e) ≡ o → (n || b || c || e) ≡ (n || o)
absorb_first h n b c e o k = ground arith

absorb_second : (b h n c e o : Bool) → (b || (h && n) || c || e) ≡ o → (b || n || c || e) ≡ (n || o)
absorb_second b h n c e o k = ground arith

absorb_third : (b c h n e o : Bool) → (b || c || (h && n) || e) ≡ o → (b || c || n || e) ≡ (n || o)
absorb_third b c h n e o k = ground arith

absorb_fourth : (b c f h n o : Bool) → (b || c || f || (h && n)) ≡ o → (b || c || f || n) ≡ (n || o)
absorb_fourth b c f h n o k = ground arith

chained :
    (a b o f : Bool)
    → (if not (a && b) then false else if not o then true else f) ≡ (a && b && (not o || f))
chained a b o f = ground arith

-- The four tests of the source are one search.
four_tests :
    (missing_elements es : List Element)
    → (covered_at es missing_elements runway
        || covered_at es missing_elements qnh
        || covered_at es missing_elements frequency
        || covered_at es missing_elements squawk)
      ≡ others_covered missing_elements es
four_tests ms [] = refl
four_tests ms (callsign ∷ es) = four_tests ms es
four_tests ms (runway ∷ es) =
    absorb_first (has_element runway es) (not (has_element runway ms)) (covered_at es ms qnh)
      (covered_at es ms frequency) (covered_at es ms squawk) (others_covered ms es)
      (four_tests ms es)
four_tests ms (qnh ∷ es) =
    absorb_second (covered_at es ms runway) (has_element qnh es) (not (has_element qnh ms))
      (covered_at es ms frequency) (covered_at es ms squawk) (others_covered ms es)
      (four_tests ms es)
four_tests ms (frequency ∷ es) =
    absorb_third (covered_at es ms runway) (covered_at es ms qnh) (has_element frequency es)
      (not (has_element frequency ms)) (covered_at es ms squawk) (others_covered ms es)
      (four_tests ms es)
four_tests ms (squawk ∷ es) =
    absorb_fourth (covered_at es ms runway) (covered_at es ms qnh) (covered_at es ms frequency)
      (has_element squawk es) (not (has_element squawk ms)) (others_covered ms es)
      (four_tests ms es)

-- A readback covers the core exactly if the callsign is owed and was read back, and, where anything
-- else is owed, at least one other element that is owed was read back as well.
pub covers_core_iff :
    (required missing_elements : List Element)
    → readback_covers_core required missing_elements ≡ (
        has_element callsign required
        && not (has_element callsign missing_elements)
        && (not (any (λ e. not (element_eq e callsign)) required)
            || others_covered missing_elements required))
unfolding readback_covers_core
covers_core_iff required ms = rw (← four_tests ms required) (
    chained (has_element callsign required) (not (has_element callsign ms))
      (any (λ e. not (element_eq e callsign)) required) _)
