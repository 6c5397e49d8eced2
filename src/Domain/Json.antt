-- ===== src/Domain/Json.antt =====
-- JSON values as the program passes them around (`unknown` payloads and metadata). The program
-- never computes with their numbers, which are kept as natural numbers here.
use telegram_job_search_auto.Common.{
  ℕ, String, Bool, List, [], ◌∷◌, Option, none, some, ◌==◌, if◌then◌else◌,
}

mutual
  pub data Json : Type 0 where
    null : Json
    bool : Bool → Json
    num : ℕ → Json
    str : String → Json
    arr : Items → Json
    obj : Fields → Json

  pub data Items : Type 0 where
    nil : Items
    cons : Json → Items → Items

  pub data Fields : Type 0 where
    end : Fields
    field : String → Json → Fields → Fields

abbrev pub items : Items → List Json
items nil = []
items (cons x xs) = x ∷ items xs

-- `value[key]`; `none` is `undefined`.
unfoldable pub get : String → Fields → Option Json
get k end = none
get k (field j v fs) = if j == k then some v else get k fs
