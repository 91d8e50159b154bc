-- ===== src/Json.antt =====
-- The values of JSON, which requests, responses and stored payloads hold.
use llm_inference_gpu_server.Common.{
  String, ◌≡◌, refl, Bool, Option, none, some, str_eq, eq_iff, if◌then◌else◌, arith,
}
use llm_inference_gpu_server.Common.Int.{ℤ}

-- A float is known by what `int` makes of it, `none` where that raises, and by its truth value.
mutual
  pub data Json : Type 0 where
    null : Json
    bool : Bool → Json
    int : ℤ → Json
    float : Option ℤ → Bool → Json
    str : String → Json
    arr : Items → Json
    obj : Fields → Json

  pub data Items : Type 0 where
    nil : Items
    cons : Json → Items → Items

  -- A `dict`, in the order of insertion.
  pub data Fields : Type 0 where
    end : Fields
    field : String → Json → Fields → Fields

-- `d.get(key)`
unfoldable pub get_field : Fields → String → Option Json
get_field end key = none
get_field (field j v d) key = if str_eq j key then some v else get_field d key

-- `d[key] = value`
unfoldable pub set_field : Fields → String → Json → Fields
set_field end key value = field key value end
set_field (field j v d) key value =
    if str_eq j key then field j value d else field j v (set_field d key value)

pub get_field-set_field :
    (d : Fields) (k : String) (v : Json) (j : String)
    → get_field (set_field d k v) j ≡ (if str_eq k j then some v else get_field d j)
unfolding get_field set_field
get_field-set_field end k v j = refl
get_field-set_field (field i w d) k v j =
    ground (arith, eq_iff k j, eq_iff i k, eq_iff i j, get_field-set_field d k v j)
