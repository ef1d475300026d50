-- ===== src/Templates/Lookup.antt =====
-- Offered intents have templates.
use xp_wellys_devfr_atc.Base.{◌≡◌, Bool, false, String, some, lookup as find_key}
use xp_wellys_devfr_atc.Templates.{
  Templates, TemplateNode, StateBlock, state_block, entry_of, lookup,
}

-- The block has an entry of its own for the key.
abbrev pub HasEntry : StateBlock → String → Type 0
HasEntry block key = (node : TemplateNode) × (find_key key block ≡ some node)

-- The file has a node at the key in the block of the state, and the lookup gives its entry.
abbrev pub Answers : Templates → Bool → String → String → Type 0
Answers t is_towered state key =
    (block : StateBlock) × (node : TemplateNode) × (state_block t is_towered state ≡ some block)
    × (find_key key block ≡ some node)
    × (lookup t is_towered state key false ≡ entry_of state node)
