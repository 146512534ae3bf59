-- ===== src/Quarantine/Request/Sorted.antt =====
-- That the devices which `Select` picks are sorted and without repeats.
use nvsentinel_capi_remediat.Common.{
  ℕ, String, ◌==◌, ◌≡◌, refl, true, false, List, [], ◌∷◌, ◌++◌, keep, insert_by, sort_by,
  exists_in-append, exists_in-sort_by, Bool-cases, inl, inr, arith,
}
use nvsentinel_capi_remediat.Quarantine.Device.{Device, device_lt, same_device}
use nvsentinel_capi_remediat.Quarantine.Device.Order.{same_device_comm, device_lt_total}
use nvsentinel_capi_remediat.Quarantine.Try.{done, done_of_bind, done_same}
use nvsentinel_capi_remediat.Quarantine.Request.{
  add_device, candidates_of, select_only, select_match, select_named, select,
}
use nvsentinel_capi_remediat.Quarantine.Request.Selection.{holds}

-- Each device stands strictly before the next.
abbrev pub IsSorted : List Device → Type 0
IsSorted [] = Unit
IsSorted (d ∷ []) = Unit
IsSorted (d ∷ e ∷ ds) = (device_lt d e ≡ true) × IsSorted (e ∷ ds)

-- No device stands in the list twice.
abbrev IsDistinct : List Device → Type 0
IsDistinct [] = Unit
IsDistinct (d ∷ ds) = (holds ds d ≡ false) × IsDistinct ds

insert_by-IsSorted :
    (a : Device) (ds : List Device)
    → IsSorted ds
    → holds ds a ≡ false
    → IsSorted (insert_by device_lt a ds)
unfolding insert_by
insert_by-IsSorted a [] s f = tt
insert_by-IsSorted a (x ∷ []) s f = elim (Bool-cases (device_lt x a)) [
  | inl e ↦ rw e (e, tt)
  | inr e ↦ rw e (device_lt_total x a e (ground (arith, f, same_device_comm x a)), tt)
]
insert_by-IsSorted a (x ∷ y ∷ ds) s f =
    let rest = insert_by-IsSorted a (y ∷ ds) s.1 (ground (arith, f)) in
    elim (Bool-cases (device_lt x a)) [
      | inl e ↦ elim (Bool-cases (device_lt y a)) [
        | inl g ↦ rw e (rw g (s.0, rw g at rest))
        | inr g ↦ rw e (rw g (e, rw g at rest))
      ]
      | inr e ↦ rw e (device_lt_total x a e (ground (arith, f, same_device_comm x a)), s)
    ]

sort_by-IsSorted : (ds : List Device) → IsDistinct ds → IsSorted (sort_by device_lt ds)
unfolding sort_by
sort_by-IsSorted [] h = tt
sort_by-IsSorted (d ∷ ds) h =
    insert_by-IsSorted d (sort_by device_lt ds) (sort_by-IsSorted ds h.1)
      (ground (arith, h.0, exists_in-sort_by (λ c. same_device c d) device_lt ds))

append-IsDistinct :
    (ds : List Device) (e : Device) → IsDistinct ds → holds ds e ≡ false → IsDistinct (ds ++ e ∷ [])
append-IsDistinct [] e h f = (refl, tt)
append-IsDistinct (d ∷ ds) e h f = (
  ground (arith, h.0, f, exists_in-append (λ c. same_device c d) ds (e ∷ []), same_device_comm e d),
  append-IsDistinct ds e h.1 (ground (arith, f)),
)

add_device-IsDistinct :
    (ds : List Device) (e : Device) → IsDistinct ds → IsDistinct (add_device ds e)
unfolding add_device
add_device-IsDistinct ds e h = elim (Bool-cases (holds ds e)) [
  | inl f ↦ rw f h
  | inr f ↦ rw f (append-IsDistinct ds e h f)
]

module _ (quote : String → String) (decimal : ℕ → String) (drivers : List String) where
  match-IsDistinct :
      (cs selected : List Device) (name : String) (found s : List Device)
      → IsDistinct selected
      → select_match quote decimal drivers cs name selected found ≡ done s
      → IsDistinct s
  unfolding select_match
  match-IsDistinct cs selected name [] s h e = absurd (cc e)
  match-IsDistinct cs selected name (c ∷ []) s h e =
      rw (done_same s (add_device selected c) e) (add_device-IsDistinct selected c h)
  match-IsDistinct cs selected name (c ∷ c2 ∷ more) s h e = absurd (cc e)

  named-IsDistinct :
      (cs selected : List Device) (names : List String) (ds : List Device)
      → IsDistinct selected
      → select_named quote decimal drivers cs selected names ≡ done ds
      → IsDistinct ds
  unfolding select_named
  named-IsDistinct cs selected [] ds h e = rw (done_same ds selected e) h
  named-IsDistinct cs selected (name ∷ names) ds h e =
      let m =
        done_of_bind
          (select_match quote decimal drivers cs name selected (keep (λ c. c.name == name) cs))
          (λ s. select_named quote decimal drivers cs s names) ds e in
      named-IsDistinct cs m.0 names ds (match-IsDistinct cs selected name _ m.0 h m.1) m.2

  only-IsSorted :
      (all cs ds : List Device) → select_only quote decimal all drivers cs ≡ done ds → IsSorted ds
  unfolding select_only
  only-IsSorted all [] ds e = absurd (cc e)
  only-IsSorted all (c ∷ []) ds e = rw (done_same ds (c ∷ []) e) tt
  only-IsSorted all (c ∷ c2 ∷ more) ds e = absurd (cc e)

  -- The devices that a request selects are sorted, by driver, pool and name, and none is repeated.
  pub select-IsSorted :
      (all : List Device) (names : List String) (ds : List Device)
      → select quote decimal all drivers names ≡ done ds
      → IsSorted ds
  unfolding select
  select-IsSorted all [] ds e = only-IsSorted all (candidates_of drivers all) ds e
  select-IsSorted all (name ∷ names) ds e =
      let m =
        done_of_bind
          (select_named quote decimal drivers (candidates_of drivers all) [] (name ∷ names))
          (λ s. done (sort_by device_lt s)) ds e in
      rw (done_same ds (sort_by device_lt m.0) m.2) (
        sort_by-IsSorted m.0
          (named-IsDistinct (candidates_of drivers all) [] (name ∷ names) m.0 tt m.1))
