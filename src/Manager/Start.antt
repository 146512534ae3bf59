-- ===== src/Manager/Start.antt =====
-- What a process that starts has read from its flags.
use nvsentinel_capi_remediat.Common.{
  String, ◌==◌, ◌≡◌, refl, Bool, true, false, not, ◌&&◌, ◌||◌, List, [], ◌∷◌, exists_in, is_empty,
  All, All-append, split, trim, is_blank, arith, Bool-cases, inl, inr,
}
use nvsentinel_capi_remediat.Quarantine.Request.{add_name}
use nvsentinel_capi_remediat.Quarantine.Request.Selection.{lists}
use nvsentinel_capi_remediat.Quarantine.Request.Parsing.{lists-add_name}
use nvsentinel_capi_remediat.Manager.{Parsed, good, DriverError, parse_fields, parse_drivers}

-- whether the field, without the spaces around it, is the name, which is not empty
abbrev pub is_field : String → String → Bool
is_field name field = trim field == name && not (is_blank (trim field))

module _ (problems : String → List String) where
  good_same :
      (a b : List String) (t : Parsed (List String) DriverError) → t ≡ good a → t ≡ good b → b ≡ a
  good_same a b t h h' = cc (h, h')

  lists-parse_fields :
      (fields drivers ds : List String)
      → parse_fields problems drivers fields ≡ good ds
      → (s : String) → lists ds s ≡ (lists drivers s || exists_in (is_field s) fields)
  unfolding parse_fields
  lists-parse_fields [] drivers ds h s = elim (Bool-cases (is_empty drivers)) [
    | inl e ↦ absurd (cc (rw e at h))
    | inr e ↦ ground (arith, good_same drivers ds _ refl (rw e at h))
  ]
  lists-parse_fields (field ∷ fields) drivers ds h s = elim (Bool-cases (is_blank (trim field))) [
    | inl e ↦ ground (arith, e, lists-parse_fields fields drivers ds (rw e at h) s)
    | inr e ↦ elim (Bool-cases (is_empty (problems (trim field)))) [
      | inl f ↦ ground (
        arith,
        e,
        lists-add_name drivers (trim field) s,
        lists-parse_fields fields (add_name drivers (trim field)) ds (rw f at (rw e at h)) s,
      )
      | inr f ↦ absurd (cc (rw f at (rw e at h)))
    ]
  ]

  -- nothing is wrong with the name
  abbrev pub IsValid : String → Type 0
  IsValid name = is_empty (problems name) ≡ true

  add_name-IsValid :
      (drivers : List String) (name : String)
      → IsValid name
      → All IsValid drivers
      → All IsValid (add_name drivers name)
  unfolding add_name
  add_name-IsValid drivers name v h = elim (Bool-cases (lists drivers name)) [
    | inl e ↦ rw e h
    | inr e ↦ rw e (All-append IsValid drivers (name ∷ []) h (v, tt))
  ]

  parse_fields-IsValid :
      (fields drivers ds : List String)
      → All IsValid drivers
      → parse_fields problems drivers fields ≡ good ds
      → All IsValid ds × (is_empty ds ≡ false)
  unfolding parse_fields
  parse_fields-IsValid [] drivers ds v h = elim (Bool-cases (is_empty drivers)) [
    | inl e ↦ absurd (cc (rw e at h))
    | inr e ↦ rw (good_same drivers ds _ refl (rw e at h)) (v, e)
  ]
  parse_fields-IsValid (field ∷ fields) drivers ds v h = elim (Bool-cases (is_blank (trim field))) [
    | inl e ↦ parse_fields-IsValid fields drivers ds v (rw e at h)
    | inr e ↦ elim (Bool-cases (is_empty (problems (trim field)))) [
      | inl f ↦
          parse_fields-IsValid fields (add_name drivers (trim field)) ds
            (add_name-IsValid drivers (trim field) f v) (rw f at (rw e at h))
      | inr f ↦ absurd (cc (rw f at (rw e at h)))
    ]
  ]

  -- The drivers that `--quarantine-drivers` gives are the texts between its commas that are not
  -- empty once the spaces around them are gone. There is one at least, and nothing is wrong with any.
  pub parse_drivers-lists :
      (s : String) (ds : List String) (name : String)
      → parse_drivers problems s ≡ good ds
      → (is_empty ds ≡ false)
        × All IsValid ds
        × (lists ds name ≡ exists_in (is_field name) (split b',' s))
  unfolding parse_drivers
  parse_drivers-lists s ds name h =
      let v = parse_fields-IsValid (split b',' s) [] ds tt h in
      (v.1, v.0, lists-parse_fields (split b',' s) [] ds h name)
