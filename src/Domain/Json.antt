-- ===== src/Domain/Json.antt =====
-- JSON values, as app/ stores them in metadata and payloads, and Python's `==` on them.
use ogaforeman.Base.{
  ℕ, String, Bool, true, false, ◌&&◌, not, Option, none, some, [], ◌∷◌, ◌==◌, str_eq, suc,
  if◌then◌else◌,
}
use ogaforeman.Base.Dict.{Dict}

-- The JSON values of metadata and payloads.
mutual
  pub data Json : Type 0 where
    null : Json
    boolean : Bool → Json
    number : ℕ → Json
    text : String → Json
    array : Elements → Json
    object : Members → Json

  pub data Elements : Type 0 where
    finished : Elements
    element : Json → Elements → Elements

  pub data Members : Type 0 where
    done : Members
    member : String → Json → Members → Members

abbrev pub members : Dict Json → Members
members [] = Members.done
members ((key, value) ∷ d) = Members.member key value (members d)

abbrev look : Members → String → Option Json
look Members.done key = none
look (Members.member k value rest) key = if str_eq k key then some value else look rest key

abbrev size : Members → ℕ
size Members.done = 0
size (Members.member k value rest) = suc (size rest)

abbrev same_bool : Bool → Bool → Bool
same_bool true b = b
same_bool false b = not b

-- `a == b`: lists in order, dicts key by key
unfoldable mutual
  pub same_json : Json → Json → Bool
  same_json Json.null Json.null = true
  same_json (Json.boolean a) (Json.boolean b) = same_bool a b
  same_json (Json.number a) (Json.number b) = a == b
  same_json (Json.text a) (Json.text b) = str_eq a b
  same_json (Json.array a) (Json.array b) = same_elements a b
  same_json (Json.object a) (Json.object b) = size a == size b && is_within a b
  same_json _ _ = false

  same_elements : Elements → Elements → Bool
  same_elements Elements.finished Elements.finished = true
  same_elements (Elements.element a xs) (Elements.element b ys) =
      same_json a b && same_elements xs ys
  same_elements _ _ = false

  -- every key of the one dict has an equal value in the other
  is_within : Members → Members → Bool
  is_within Members.done b = true
  is_within (Members.member key value rest) b =
      (elim (look b key) [ none ↦ false | some other ↦ same_json value other ]) && is_within rest b

abbrev pub same_dict : Dict Json → Dict Json → Bool
same_dict a b = same_json (Json.object (members a)) (Json.object (members b))
