-- ===== src/Airspace/Cache.antt =====
-- The cache of the polygons.
use xp_wellys_devfr_atc.Base.{
  ℕ, zero, suc, ◌≤◌, ◌≡◌, ◌⊎◌, inl, inr, refl, sym, ap, ◌∙◌, Bool, true, false, not, ◌&&◌, ◌||◌,
  Option, none, some, List, [], ◌∷◌, ◌++◌, ltb, ◌==◌, any, length, get_elem?, Bool-cases,
  if◌then◌else◌, arith,
}
use xp_wellys_devfr_atc.Double.{Double}
use xp_wellys_devfr_atc.Airspace.{
  Controller, Index, Source, update_at, erase_first, forget, load_polygons_locked, evict,
  ensure_polygons, bbox_contains, encloses, enclosing_from, find_enclosing, by_freq_from,
  lookup_by_freq, stop,
}

abbrev pub is_cached : ℕ → List ℕ → Bool
is_cached i lru = any (λ j. j == i) lru

is_cached-last : (i : ℕ) (lru : List ℕ) → is_cached i (lru ++ (i ∷ [])) ≡ true
is_cached-last i [] = ground arith
is_cached-last i (j ∷ lru) = ground (arith, is_cached-last i lru)

is_cached-append :
    (j : ℕ) (lru rest : List ℕ) → is_cached j lru ≡ true → is_cached j (lru ++ rest) ≡ true
is_cached-append j [] rest h = absurd (ground arith)
is_cached-append j (l ∷ lru) rest h = ground (arith, is_cached-append j lru rest)

is_cached-erase_first :
    (i j : ℕ) (lru : List ℕ)
    → (i == j) ≡ false
    → is_cached j lru ≡ true
    → is_cached j (erase_first i lru ++ (i ∷ [])) ≡ true
is_cached-erase_first i j [] h k = absurd (ground arith)
is_cached-erase_first i j (l ∷ lru) h k = elim (Bool-cases (l == i)) [
  | inl e ↦
      let later : is_cached j lru ≡ true = ground arith in
      rw e (is_cached-append j lru (i ∷ []) later)
  | inr e ↦ elim (Bool-cases (l == j)) [
    | inl f ↦ rw (e, f) refl
    | inr f ↦ rw (e, f) (is_cached-erase_first i j lru h (ground arith))
  ]
]

module _ {F : Type 0} where
  -- It has no polygon, and does not count as loaded.
  abbrev pub IsUnloaded : Controller F → Type 0
  IsUnloaded c = (c.polygons ≡ []) × (c.polygons_loaded ≡ false)

  -- Only a controller of the cache has polygons.
  abbrev pub Cached : List ℕ → List (Controller F) → Type 0
  Cached lru cs =
      (i : ℕ) (c : Controller F) → get_elem? cs i ≡ some c → (is_cached i lru ≡ true) ⊎ IsUnloaded c

  -- At most fifty, and no other has polygons.
  abbrev pub IsBounded : Index F → Type 0
  IsBounded db = (length db.lru ≤ 50) × Cached db.lru db.controllers

  get_elem?-update_at-other :
      (f : Controller F → Controller F) (i j : ℕ) (cs : List (Controller F))
      → (i == j) ≡ false
      → get_elem? (update_at f i cs) j ≡ get_elem? cs j
  get_elem?-update_at-other f i j [] h = refl
  get_elem?-update_at-other f zero zero (c ∷ cs) h = absurd (ground arith)
  get_elem?-update_at-other f zero (suc j) (c ∷ cs) h = refl
  get_elem?-update_at-other f (suc i) zero (c ∷ cs) h = refl
  get_elem?-update_at-other f (suc i) (suc j) (c ∷ cs) h =
      get_elem?-update_at-other f i j cs (ground arith)

  abbrev pub loaded_of : Option (Controller F) → Bool
  loaded_of none = false
  loaded_of (some c) = c.polygons_loaded

  abbrev pub polygons_of : Option (Controller F) → List (List (F × F))
  polygons_of none = []
  polygons_of (some c) = c.polygons

  -- A forgotten controller has no polygons, and the others are as before.
  forgotten :
      (i j : ℕ) (cs : List (Controller F)) (c : Controller F)
      → get_elem? (update_at forget i cs) j ≡ some c
      → IsUnloaded c ⊎ (get_elem? cs j ≡ some c) × ((i == j) ≡ false)
  forgotten i j [] c h = absurd (ground arith)
  forgotten zero zero (b ∷ cs) c h = inl (sym (ap polygons_of h), sym (ap loaded_of h))
  forgotten zero (suc j) (b ∷ cs) c h = inr (h, ground arith)
  forgotten (suc i) zero (b ∷ cs) c h = inr (h, ground arith)
  forgotten (suc i) (suc j) (b ∷ cs) c h = elim (forgotten i j cs c h) [
    | inl u ↦ inl u
    | inr (e, f) ↦ inr (e, ground arith)
  ]

  evict-IsBounded :
      (lru : List ℕ) (cs : List (Controller F))
      → Cached lru cs
      → (length (evict lru cs).0 ≤ 50) × Cached (evict lru cs).0 (evict lru cs).1
  unfolding evict
  evict-IsBounded [] cs h = (omega arith, h)
  evict-IsBounded (i ∷ lru) cs h = elim (Bool-cases (ltb 50 (length (i ∷ lru)))) [
    | inr e ↦ rw e (ground arith, h)
    | inl e ↦ rw e (
        evict-IsBounded lru (update_at forget i cs) (λ j c found. elim (forgotten i j cs c found) [
          | inl u ↦ inr u
          | inr (before, other) ↦ elim (h j c before) [
            | inl in_front ↦ inl (ground (arith, in_front, other))
            | inr u ↦ inr u
          ]
        ]))
  ]

  ensure_polygons-IsBounded :
      (source : Source F) (i : ℕ) (db : Index F)
      → IsBounded db
      → IsBounded (ensure_polygons source i db)
  unfolding ensure_polygons
  ensure_polygons-IsBounded source i db (size, cached) =
      evict-IsBounded (erase_first i db.lru ++ (i ∷ []))
        (update_at (load_polygons_locked source) i db.controllers)
        (λ j c found. elim (Bool-cases (i == j)) [
          | inl e ↦
              let same : i ≡ j = ground (arith, e) in
              inl (rw (← same) (is_cached-last i (erase_first i db.lru)))
          | inr e ↦
              let before =
                get_elem?-update_at-other (load_polygons_locked source) i j db.controllers e in
              elim (cached j c (sym before ∙ found)) [
                | inl in_cache ↦ inl (is_cached-erase_first i j db.lru e in_cache)
                | inr u ↦ inr u
              ]
        ])

-- The calls that go through the cache.
pub data Query (F : Type 0) : Type 0 where
  enclosing : F → F → F → Query F
  by_freq : ℕ → F → F → F → Query F
  closing : Query F

module _ {F : Type 0} ⦃d : Double F⦄ where
  unfoldable pub ask : Source F → Query F → Index F → Index F
  unfolding stop
  ask source (enclosing lat lon alt_ft) db = (find_enclosing source lat lon alt_ft db).0
  ask source (by_freq freq lat lon alt_ft) db = (lookup_by_freq source freq lat lon alt_ft db).0
  ask source closing db = stop db

  unfoldable pub ask_all : Source F → List (Query F) → Index F → Index F
  unfolding ask
  ask_all source [] db = db
  ask_all source (q ∷ qs) db = ask_all source qs (ask source q db)

  either-IsBounded :
      {A : Type 0} (b : Bool) (r r' : Index F × A)
      → IsBounded r.0
      → IsBounded r'.0
      → IsBounded (if b then r else r').0
  either-IsBounded true r r' h k = h
  either-IsBounded false r r' h k = k

  if_ensured-IsBounded :
      (b : Bool) (source : Source F) (i : ℕ) (db : Index F)
      → IsBounded db
      → IsBounded (if b then ensure_polygons source i db else db)
  if_ensured-IsBounded true source i db h = ensure_polygons-IsBounded source i db h
  if_ensured-IsBounded false source i db h = h

  enclosing_from-IsBounded :
      (source : Source F) (lat lon alt_ft : F) (i : ℕ) (cs : List (Controller F)) (db : Index F)
      → IsBounded db
      → IsBounded (enclosing_from source lat lon alt_ft i cs db).0
  unfolding enclosing_from
  enclosing_from-IsBounded source lat lon alt_ft i [] db h = h
  enclosing_from-IsBounded source lat lon alt_ft i (c ∷ cs) db h =
      let near = bbox_contains c lat lon alt_ft in
      let db' = if near then ensure_polygons source i db else db in
      let later =
        enclosing_from-IsBounded source lat lon alt_ft (suc i) cs db'
          (if_ensured-IsBounded near source i db h) in
      elim (Bool-cases (near && encloses lat lon i db')) [ inl e ↦ rw e later | inr e ↦ rw e later ]

  by_freq_from-IsBounded :
      (source : Source F) (freq : ℕ) (lat lon alt_ft : F) (nearest : Option (ℕ × F)) (i : ℕ)
      (cs : List (Controller F)) (db : Index F)
      → IsBounded db
      → IsBounded (by_freq_from source freq lat lon alt_ft nearest i cs db).0
  unfolding by_freq_from
  by_freq_from-IsBounded source freq lat lon alt_ft nearest i [] db h = h
  by_freq_from-IsBounded source freq lat lon alt_ft nearest i (c ∷ cs) db h =
      let near = any (λ f. f == freq) c.freqs_khz && bbox_contains c lat lon alt_ft in
      let db' = if near then ensure_polygons source i db else db in
      let here = if_ensured-IsBounded near source i db h in
      let later = λ (nearest' : Option (ℕ × F)).
        by_freq_from-IsBounded source freq lat lon alt_ft nearest' (suc i) cs db' here in
      elim (Bool-cases (near && encloses lat lon i db')) [
        | inl e ↦ rw e here
        | inr e ↦ rw e (later _)
      ]

  ask-IsBounded :
      (source : Source F) (q : Query F) (db : Index F) → IsBounded db → IsBounded (ask source q db)
  unfolding ask find_enclosing lookup_by_freq
  ask-IsBounded source (enclosing lat lon alt_ft) db h =
      either-IsBounded (not db.enabled) _ _ h
        (enclosing_from-IsBounded source lat lon alt_ft 0 db.controllers db h)
  ask-IsBounded source (by_freq freq lat lon alt_ft) db h =
      either-IsBounded (not db.enabled || freq == 0) _ _ h
        (by_freq_from-IsBounded source freq lat lon alt_ft none 0 db.controllers db h)
  ask-IsBounded source closing db h = (omega arith, λ i c found. absurd (ground arith))

  -- However often the index is asked or closed, the cache names at most fifty controllers, and every
  -- controller outside of it has no polygon in memory and does not count as loaded; if this holds
  -- before.
  pub ask_all-IsBounded :
      (source : Source F) (qs : List (Query F)) (db : Index F)
      → IsBounded db
      → IsBounded (ask_all source qs db)
  unfolding ask_all
  ask_all-IsBounded source [] db h = h
  ask_all-IsBounded source (q ∷ qs) db h =
      ask_all-IsBounded source qs (ask source q db) (ask-IsBounded source q db h)
