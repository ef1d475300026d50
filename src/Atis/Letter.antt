-- ===== src/Atis/Letter.antt =====
-- The letter of the ATIS over a whole session.
use xp_wellys_devfr_atc.Base.{
  ℕ, ◌+◌, ◌-◌, ◌%◌, ◌<◌, ◌≤◌, ◌≡◌, ◌⊎◌, inl, inr, refl, sym, ◌∙◌, true, false, List, [], ◌∷◌, ◌==◌,
  length, is_empty, Bool-cases, if◌then◌else◌, arith,
}
use xp_wellys_devfr_atc.Double.{Double, ◌<?◌, sub, whole}
use xp_wellys_devfr_atc.Context.{XplaneContext}
use xp_wellys_devfr_atc.Machine.{Machine}
use xp_wellys_devfr_atc.Atis.{Atis, at_start, init, stop, has_changed, check_for_update}

-- The letter after so many increments from A.
abbrev pub letter_after : ℕ → ℕ
letter_after n = b'A' + n % 26

-- The letter behind this one, and A behind Z.
abbrev pub next_letter : ℕ → ℕ
next_letter letter = b'A' + (letter - b'A' + 1) % 26

pub data Call (F : Type 0) : Type 0 where
  start finish : Call F
  update : Machine F → XplaneContext F → F → Call F

module _ {F : Type 0} where
  -- The times of the increments since the last call of `init` or `stop`, newest first.
  abbrev pub log_increment : F → Atis F → Atis F → List F → List F
  log_increment now before after log = if after.letter == before.letter then log else now ∷ log

module _ {F : Type 0} ⦃d : Double F⦄ where
  unfoldable pub run : List (Call F) → Atis F → List F → Atis F × List F
  unfolding init stop check_for_update
  run [] s log = (s, log)
  run (start ∷ calls) s log = run calls (init s) []
  run (finish ∷ calls) s log = run calls (stop s) []
  run (update m ctx now ∷ calls) s log =
      let s' = check_for_update m ctx now s in run calls s' (log_increment now s s' log)

  -- Five minutes at least between two increments.
  abbrev pub ArePaced : List F → Type 0
  ArePaced [] = Unit
  ArePaced (t ∷ []) = Unit
  ArePaced (t ∷ u ∷ log) = ((sub t u <? whole 300) ≡ false) × ArePaced (u ∷ log)

  abbrev Newest : F → List F → Type 0
  Newest t [] = Unit
  Newest t (u ∷ log) = u ≡ t

  -- The letter counts the increments, and the last one is remembered.
  abbrev Holds : Atis F × List F → Type 0
  Holds (s, log) =
      (s.letter ≡ letter_after (length log)) × ArePaced log × Newest s.last_increment_time log

  -- The letter moves on.
  abbrev pub Advances : Machine F → XplaneContext F → F → Atis F → Type 0
  Advances m ctx now s =
      (is_empty m.assigned_runway ≡ true)
      × (s.baseline_initialized ≡ true)
      × (has_changed ctx s ≡ true)
      × ((sub now s.last_increment_time <? whole 300) ≡ false)

  check_for_update-cases :
      (m : Machine F) (ctx : XplaneContext F) (now : F) (s : Atis F)
      → ((check_for_update m ctx now s).letter ≡ s.letter)
          × ((check_for_update m ctx now s).last_increment_time ≡ s.last_increment_time)
        ⊎ ((check_for_update m ctx now s).letter ≡ next_letter s.letter)
          × ((check_for_update m ctx now s).last_increment_time ≡ now)
          × Advances m ctx now s
  unfolding check_for_update
  check_for_update-cases m ctx now s = elim (Bool-cases (is_empty m.assigned_runway)) [
    | inr e ↦ inl (rw (e, check_for_update) refl, rw (e, check_for_update) refl)
    | inl e ↦ elim (Bool-cases s.baseline_initialized) [
      | inr f ↦ inl (ground arith, ground arith)
      | inl f ↦ elim (Bool-cases (has_changed ctx s)) [
        | inr g ↦ inl (ground arith, ground arith)
        | inl g ↦ elim (Bool-cases (sub now s.last_increment_time <? whole 300)) [
          | inl h ↦ inl (ground arith, ground arith)
          | inr h ↦ inr (ground arith, ground arith, (e, f, g, h))
        ]
      ]
    ]
  ]

  paced-cons :
      (now t : F) (log : List F)
      → (sub now t <? whole 300) ≡ false
      → Newest t log
      → ArePaced log
      → ArePaced (now ∷ log)
  paced-cons now t [] h e p = tt
  paced-cons now t (u ∷ log) h e p = (rw e h, p)

  same-Newest : (t u : F) (log : List F) → t ≡ u → Newest u log → Newest t log
  same-Newest t u [] e h = tt
  same-Newest t u (v ∷ log) e h = h ∙ sym e

  check_for_update-Holds :
      (m : Machine F) (ctx : XplaneContext F) (now : F) (s : Atis F) (log : List F)
      → Holds (s, log)
      → let s' = check_for_update m ctx now s in Holds (s', log_increment now s s' log)
  check_for_update-Holds m ctx now s log (counted, paced, newest) =
      elim (check_for_update-cases m ctx now s) [
        | inl (e, f) ↦
            let same : ((check_for_update m ctx now s).letter == s.letter) ≡ true =
              ground (arith, e) in
            rw same (e ∙ counted, paced, same-Newest _ _ log f newest)
        | inr (e, f, (_, _, _, rested)) ↦
            let other : ((check_for_update m ctx now s).letter == s.letter) ≡ false =
              ground (arith, e, counted) in
            rw other (
              omega (arith, e, counted),
              paced-cons now s.last_increment_time log rested newest paced,
              sym f,
            )
      ]

  run-Holds :
      (calls : List (Call F)) (s : Atis F) (log : List F) → Holds (s, log) → Holds (run calls s log)
  unfolding run
  run-Holds [] s log h = h
  run-Holds (start ∷ calls) s log h = run-Holds calls (init s) [] (refl, tt, tt)
  run-Holds (finish ∷ calls) s log h = run-Holds calls (stop s) [] (refl, tt, tt)
  run-Holds (update m ctx now ∷ calls) s log h =
      run-Holds calls (check_for_update m ctx now s) _ (check_for_update-Holds m ctx now s log h)

  -- Whatever the calls from the start on, the letter is A moved on by the number of increments since
  -- the last `init` or `stop`, in a circle of 26, so it is always one of the letters that have a name;
  -- and two successive ones of these increments, with no `init` or `stop` between them, are at least
  -- five minutes apart.
  pub run-ArePaced :
      (calls : List (Call F))
      → let (s, log) = run calls at_start [] in
        (s.letter ≡ letter_after (length log))
        × (b'A' ≤ s.letter)
        × (s.letter - b'A' < 26)
        × ArePaced log
  run-ArePaced calls =
      let (counted, paced, _) = run-Holds calls at_start [] (refl, tt, tt) in
      (counted, omega (arith, counted), omega (arith, counted), paced)
