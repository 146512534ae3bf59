-- ===== src/Common/Distinct.antt =====
-- Lists of names without repeats.
use mathlib.Core.Path.{◌≡◌, refl}
use mathlib.Core.Bool.{false}
use mathlib.Core.Logic.{inl, inr}
use mathlib.Core.List.{List, [], ◌∷◌}
use Prim.Native.String.{String}
use native.Mathlib.Omega.{arith}
use text.Mathlib.Text.{◌==◌}
use nvsentinel_capi_remediat.Common.Tests.{Bool-cases}
use nvsentinel_capi_remediat.Common.Lists.{exists_in, insert_by, sort_by}
use nvsentinel_capi_remediat.Common.Search.{exists_in-insert_by, exists_in-sort_by}
use nvsentinel_capi_remediat.Common.Dicts.{==_comm}
use nvsentinel_capi_remediat.Common.Text.{str_lt}

-- No name stands in the list twice.
abbrev pub IsDistinct : List String → Type 0
IsDistinct [] = Unit
IsDistinct (name ∷ names) = (exists_in (λ other. name == other) names ≡ false) × IsDistinct names

insert_by-IsDistinct :
    (a : String) (names : List String)
    → exists_in (λ other. a == other) names ≡ false
    → IsDistinct names
    → IsDistinct (insert_by str_lt a names)
unfolding insert_by
insert_by-IsDistinct a [] h d = (refl, tt)
insert_by-IsDistinct a (x ∷ xs) h d = elim (Bool-cases (str_lt x a)) [
  | inl e ↦ rw e (
    ground (arith, d.0, h, exists_in-insert_by (λ other. x == other) str_lt a xs, ==_comm a x),
    insert_by-IsDistinct a xs (ground (arith, h)) d.1,
  )
  | inr e ↦ rw e (h, d)
]

pub sort_by-IsDistinct :
    (names : List String) → IsDistinct names → IsDistinct (sort_by str_lt names)
unfolding sort_by
sort_by-IsDistinct [] d = tt
sort_by-IsDistinct (name ∷ names) d =
    insert_by-IsDistinct name (sort_by str_lt names)
      (ground (arith, d.0, exists_in-sort_by (λ other. name == other) str_lt names))
      (sort_by-IsDistinct names d.1)
