-- ===== src/Templates.antt =====
-- The response templates (src/atc/atc_templates.hpp and .cpp): lookup, the valid intents of a state
-- and the filling of placeholders. The parsed JSON is a value of `Templates`.
pub mod Fill
pub mod Lookup
use Prim.Native.Char.{code}
use Prim.Native.Nat.{pred}
use Prim.Native.String
use xp_wellys_devfr_atc.Base.{
  ℕ, zero, suc, Bool, true, false, not, ◌&&◌, String, Option, none, some, List, [], ◌∷◌, ◌==◌, ◌||◌,
  text_eq, concat, lookup as find_key, if◌then◌else◌,
}

pub record TemplateEntry : Type 0 where
  pub response_template : String
  pub next_state : String
  pub requires_readback : Bool

-- A leaf of the file; each field may be missing.
pub record TemplateNode : Type 0 where
  pub response : Option String
  pub next_state : Option String
  pub requires_readback : Option Bool

abbrev pub StateBlock : Type 0
StateBlock = List (String × TemplateNode)

pub record Templates : Type 0 where
  pub loaded : Bool
  pub blocks : List (String × List (String × StateBlock))
  pub fallbacks : List (String × String)
  pub bzf_strict : List (String × String)

abbrev pub fallback : TemplateEntry
fallback = record {
  response_template = "Say again, {callsign}.";
  next_state = "IDLE";
  requires_readback = false;
}

abbrev pub or_else {ℓ} : {A : Type ℓ} → Option A → A → A
or_else none a = a
or_else (some b) a = b

abbrev pub is_some {ℓ} : {A : Type ℓ} → Option A → Bool
is_some none = false
is_some (some a) = true

abbrev type_key : Bool → String
type_key true = "towered"
type_key false = "uncontrolled"

-- `templates_[type][state]`, if both keys are there.
unfoldable pub state_block : Templates → Bool → String → Option StateBlock
state_block t is_towered state = elim (find_key (type_key is_towered) t.blocks) [
  | none ↦ none
  | some states ↦ find_key state states
]

-- The key that is read: the tower-only variant, the intent, or "_INVALID".
unfoldable pub chosen_key : StateBlock → String → Bool → String
chosen_key block intent_key tower_only =
    if tower_only && is_some (find_key (concat (intent_key ∷ "_TOWER_ONLY" ∷ [])) block)
    then concat (intent_key ∷ "_TOWER_ONLY" ∷ [])
    else if is_some (find_key intent_key block)
    then intent_key
    else "_INVALID"

unfoldable pub entry_of : String → TemplateNode → TemplateEntry
entry_of state node = record {
  response_template = or_else node.response fallback.response_template;
  next_state = or_else node.next_state state;
  requires_readback = or_else node.requires_readback false;
}

unfoldable pub lookup : Templates → Bool → String → String → Bool → TemplateEntry
unfolding state_block chosen_key entry_of
lookup t is_towered state intent_key tower_only =
    if not t.loaded then fallback else elim (state_block t is_towered state) [
      | none ↦ fallback
      | some block ↦ elim (find_key (chosen_key block intent_key tower_only) block) [
        | none ↦ fallback
        | some node ↦ entry_of state node
      ]
    ]

abbrev is_first_contact : String → Bool
is_first_contact key = text_eq key "INITIAL_CALL_GROUND" || text_eq key "INITIAL_CALL_TOWER"

-- The tests of the loop of `valid_intents`, with `filter_idle` and `post_landing`.
unfoldable pub is_offered : Bool → Bool → String → Bool
is_offered filter_idle post_landing key =
    if text_eq key "_INVALID"
    then false
    else if filter_idle && post_landing && is_first_contact key
    then false
    else if filter_idle && not post_landing && text_eq key "LEAVING_FREQUENCY"
    then false
    else true

unfoldable pub offered_keys : Bool → Bool → StateBlock → List String
unfolding is_offered
offered_keys filter_idle post_landing [] = []
offered_keys filter_idle post_landing ((key, _) ∷ block) =
    let rest = offered_keys filter_idle post_landing block in
    if is_offered filter_idle post_landing key then key ∷ rest else rest

unfoldable pub valid_intents : Templates → Bool → String → Bool → List String
unfolding state_block offered_keys
valid_intents t is_towered state post_landing =
    if not t.loaded then [] else elim (state_block t is_towered state) [
      | none ↦ []
      | some block ↦ offered_keys (is_towered && text_eq state "IDLE") post_landing block
    ]

unfoldable pub lookup_fallback : Templates → String → String → String
lookup_fallback t key default_value =
    if not t.loaded then default_value else or_else (find_key key t.fallbacks) default_value

unfoldable pub lookup_bzf_strict : Templates → String → String → String
lookup_bzf_strict t key default_value =
    if not t.loaded then default_value else or_else (find_key key t.bzf_strict) default_value

-- Does the text begin with the pattern?
unfoldable pub begins_with : String → String → Bool
begins_with String.[] s = true
begins_with (String.◌∷◌ c p) String.[] = false
begins_with (String.◌∷◌ c p) (String.◌∷◌ b s) = code c == code b && begins_with p s

abbrev pub size : String → ℕ
size String.[] = 0
size (String.◌∷◌ c s) = suc (size s)

-- The replace loop: from left to right, without looking into what was put in. `skip` counts the
-- characters of a found placeholder that are still to be dropped.
unfoldable pub replace_from : String → String → ℕ → String → String
replace_from slot value skip String.[] = String.[]
replace_from slot value (suc skip) (String.◌∷◌ c s) = replace_from slot value skip s
replace_from slot value zero (String.◌∷◌ c s) =
    let hit = begins_with slot (String.◌∷◌ c s) in
    let rest = replace_from slot value (if hit then pred (size slot) else zero) s in
    if hit then String.◌++◌ value rest else String.◌∷◌ c rest

unfoldable pub replace_all : String → String → String → String
unfolding replace_from begins_with
replace_all slot value text = replace_from slot value 0 text

-- `vars` is in key order, as a `std::map` is.
unfoldable pub fill : String → List (String × String) → String
unfolding replace_all
fill text [] = text
fill text ((key, value) ∷ vars) = fill (replace_all (concat ("{" ∷ key ∷ "}" ∷ [])) value text) vars
