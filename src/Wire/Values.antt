-- ===== src/Wire/Values.antt =====
-- JSON values as `json.loads` returns them; a number is an integer or the text of a float.
use belgrade_os.Base.{String, Bool, true, false, Option, none, some, ◌==◌, if◌then◌else◌}
use belgrade_os.Base.Int.{ℤ}

mutual
  pub data Json : Type 0 where
    null : Json
    bool : Bool → Json
    int : ℤ → Json
    float : String → Json
    str : String → Json
    arr : Items → Json
    obj : Members → Json

  pub data Items : Type 0 where
    nil : Items
    item : Json → Items → Items

  pub data Members : Type 0 where
    end : Members
    member : String → Json → Members → Members

-- `d.get(key)`: of a key that is written twice, `json.loads` keeps the last value.
unfoldable pub get_member : String → Members → Option Json
get_member k end = none
get_member k (member j v ms) = elim (get_member k ms) [
  | some w ↦ some w
  | none ↦ if j == k then some v else none
]

abbrev pub is_obj : Json → Bool
is_obj (obj ms) = true
is_obj _ = false
