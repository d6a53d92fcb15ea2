-- ===== src/Tests/Calls.antt =====
-- The table of APIs of src/afb-apis.c at concrete inputs.
use app_framework_binder.Base.{◌≡◌, ◌↔◌, refl, true, false, some, List, [], ◌∷◌, get_elem?, arith}
use app_framework_binder.Base.Text.{strcase_eq}
use app_framework_binder.Apis.{
  ApiDesc, apis_add, find_api, is_valid_api_name, is_known, all_allowed, is_forbidden,
}
use app_framework_binder.Apis.Registry.{IsRegistry, find_api_iff}

-- "ab" is there.
abbrev table : List ApiDesc
table = record { api = 1; name = 97 ∷ 98 ∷ []; namelen = 2 } ∷ []

table-IsRegistry : IsRegistry table
unfolding is_valid_api_name all_allowed is_forbidden is_known
table-IsRegistry = (refl, refl, refl, tt)

-- "AB" is refused, since "ab" is there.
apis_add_case : (apis_add true table (65 ∷ 66 ∷ []) 2).1 ≡ false
unfolding apis_add is_valid_api_name all_allowed is_forbidden is_known strcase_eq
apis_add_case = refl

-- The text "AB/c" of which two bytes name the API.
find_api_example :
    (find_api table (65 ∷ 66 ∷ 47 ∷ 99 ∷ []) 2 0
      ≡ some (0, record { api = 1; name = 97 ∷ 98 ∷ []; namelen = 2 }))
    ↔ ((get_elem? table 0 ≡ some (record { api = 1; name = 97 ∷ 98 ∷ []; namelen = 2 }))
        × (strcase_eq (97 ∷ 98 ∷ []) (65 ∷ 66 ∷ []) ≡ true))
find_api_example =
    find_api_iff table (65 ∷ 66 ∷ 47 ∷ 99 ∷ []) 2 0
      (record { api = 1; name = 97 ∷ 98 ∷ []; namelen = 2 }) table-IsRegistry (omega arith)
