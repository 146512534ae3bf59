-- ===== src/Quarantine/Request/Selection.antt =====
-- Which devices `Select` picks, and why it refuses.
use nvsentinel_capi_remediat.Common.{
  All, ℕ, String, ◌==◌, eq_iff, Bool, true, false, not, ◌&&◌, ◌||◌, List, [], ◌∷◌, keep, exists_in,
  is_empty, sort_by, exists_in-append, exists_in-sort_by, exists_in-same, arith, ◌≡◌, refl, sym, ap,
  ◌∙◌, Bool-cases, inl, inr,
}
use text.Mathlib.TextPositions.{eq_refl}
use nvsentinel_capi_remediat.Quarantine.Device.{Device, same_device, device_lt}
use nvsentinel_capi_remediat.Quarantine.Try.{done, done_of_bind, done_same}
use nvsentinel_capi_remediat.Quarantine.Request.{
  add_device, gather, candidates_of, select_only, select_match, select_named, select,
}
use nvsentinel_capi_remediat.Quarantine.Rules.{covers}

-- whether the device is in the list
abbrev pub holds : List Device → Device → Bool
holds ds d = exists_in (λ c. same_device c d) ds

-- whether the text is in the list
abbrev pub lists : List String → String → Bool
lists names s = exists_in (λ n. n == s) names

same_device-≡ : (a b : Device) → same_device a b ≡ true → a ≡ b
unfolding same_device
same_device-≡ a b h = λ i. record {
  driver = (eq_iff a.driver b.driver).0 (ground (arith, h)) i;
  pool = (eq_iff a.pool b.pool).0 (ground (arith, h)) i;
  name = (eq_iff a.name b.name).0 (ground (arith, h)) i;
}

-- a test that holds of a device holds of the same one
same_device-test :
    (p : Device → Bool) (a b : Device) → (same_device a b && p a) ≡ (same_device a b && p b)
same_device-test p a b = elim (Bool-cases (same_device a b)) [
  | inl e ↦ rw (e, same_device-≡ a b e)
  | inr e ↦ rw e
]

holds-add_device :
    (ds : List Device) (e d : Device) → holds (add_device ds e) d ≡ (holds ds d || same_device e d)
unfolding add_device
holds-add_device ds e d = ground (
  arith,
  same_device-test (λ x. holds ds x) e d,
  exists_in-append (λ c. same_device c d) ds (e ∷ []),
)

holds-gather :
    (drivers : List String) (found all : List Device) (d : Device)
    → holds (gather drivers found all) d
      ≡ (holds found d || (lists drivers d.driver && holds all d))
unfolding gather
holds-gather drivers found [] d = ground arith
holds-gather drivers found (e ∷ all) d = ground (
  arith,
  holds-gather drivers (add_device found e) all d,
  holds-gather drivers found all d,
  holds-add_device found e d,
  same_device-test (λ x. lists drivers x.driver) e d,
)

holds-candidates_of :
    (drivers : List String) (all : List Device) (d : Device)
    → holds (candidates_of drivers all) d ≡ (lists drivers d.driver && holds all d)
unfolding candidates_of
holds-candidates_of drivers all d = ground (
  arith,
  holds-gather drivers [] all d,
  exists_in-sort_by (λ c. same_device c d) device_lt (gather drivers [] all),
)

-- the candidates that a name keeps
holds-keep_named :
    (cs : List Device) (name : String) (d : Device)
    → holds (keep (λ c. c.name == name) cs) d ≡ (d.name == name && holds cs d)
holds-keep_named [] name d = ground arith
holds-keep_named (c ∷ cs) name d =
    ground (arith, holds-keep_named cs name d, same_device-test (λ x. x.name == name) c d)

module _ (quote : String → String) (decimal : ℕ → String) (drivers : List String) where
  holds-select_match :
      (cs selected : List Device) (name : String) (found : List Device) (s : List Device)
      → keep (λ c. c.name == name) cs ≡ found
      → select_match quote decimal drivers cs name selected found ≡ done s
      → (d : Device) → holds s d ≡ (holds selected d || (d.name == name && holds cs d))
  unfolding select_match
  holds-select_match cs selected name [] s e h d = absurd (cc h)
  holds-select_match cs selected name (c ∷ []) s e h d = ground (
    arith,
    h,
    holds-add_device selected c d,
    sym (holds-keep_named cs name d) ∙ ap (λ f. holds f d) e,
  )
  holds-select_match cs selected name (c ∷ c2 ∷ more) s e h d = absurd (cc h)

  holds-select_named :
      (cs selected : List Device) (names : List String) (ds : List Device)
      → select_named quote decimal drivers cs selected names ≡ done ds
      → (d : Device) → holds ds d ≡ (holds selected d || (lists names d.name && holds cs d))
  unfolding select_named
  holds-select_named cs selected [] ds h d = ground (arith, h)
  holds-select_named cs selected (name ∷ names) ds h d =
      let m =
        done_of_bind
          (select_match quote decimal drivers cs name selected (keep (λ c. c.name == name) cs))
          (λ s. select_named quote decimal drivers cs s names) ds h in
      ground (
        arith,
        eq_iff d.name name,
        eq_iff name d.name,
        holds-select_match cs selected name _ m.0 refl m.1 d,
        holds-select_named cs m.0 names ds m.2 d,
      )

  holds-select_only :
      (all cs ds : List Device)
      → select_only quote decimal all drivers cs ≡ done ds
      → (d : Device) → holds ds d ≡ holds cs d
  unfolding select_only
  holds-select_only all [] ds h d = absurd (cc h)
  holds-select_only all (c ∷ []) ds h d = ground (arith, h)
  holds-select_only all (c ∷ c2 ∷ more) ds h d = absurd (cc h)

  covers-select_only :
      (all cs ds : List Device)
      → select_only quote decimal all drivers cs ≡ done ds
      → covers ds [] ≡ true
  unfolding select_only covers
  covers-select_only all [] ds h = absurd (cc h)
  covers-select_only all (c ∷ []) [] h = absurd (cc h)
  covers-select_only all (c ∷ []) (d ∷ ds) h = refl
  covers-select_only all (c ∷ c2 ∷ more) ds h = absurd (cc h)

  -- When a request selects devices, they are exactly the Machine's devices of the drivers that the request asks
  -- for: any, for a request that names none, and else those of the names it lists.
  pub holds-select :
      (all : List Device) (names : List String) (ds : List Device)
      → select quote decimal all drivers names ≡ done ds
      → (d : Device)
      → holds ds d
        ≡ (lists drivers d.driver && (is_empty names || lists names d.name) && holds all d)
  unfolding select select_only
  holds-select all [] ds h d = ground (
    arith,
    holds-select_only all (candidates_of drivers all) ds h d,
    holds-candidates_of drivers all d,
  )
  holds-select all (name ∷ names) ds h d =
      let m =
        done_of_bind
          (select_named quote decimal drivers (candidates_of drivers all) [] (name ∷ names))
          (λ s. done (sort_by device_lt s)) ds h in
      ground (
        arith,
        m.2,
        exists_in-sort_by (λ c. same_device c d) device_lt m.0,
        holds-select_named (candidates_of drivers all) [] (name ∷ names) m.0 m.1 d,
        holds-candidates_of drivers all d,
      )

  -- whether a device of the name is in the list
  abbrev named : List Device → String → Bool
  named ds name = exists_in (λ d. d.name == name) ds

  named-holds :
      (ds : List Device) (e : Device) (name : String)
      → (holds ds e && e.name == name && not (named ds name)) ≡ false
  named-holds [] e name = refl
  named-holds (c ∷ ds) e name =
      ground (arith, named-holds ds e name, same_device-test (λ x. x.name == name) c e)

  named-add_device :
      (ds : List Device) (e : Device) (name : String)
      → named (add_device ds e) name ≡ (named ds name || e.name == name)
  unfolding add_device
  named-add_device ds e name =
      ground (arith, named-holds ds e name, exists_in-append (λ d. d.name == name) ds (e ∷ []))

  named-kept :
      (cs : List Device) (name : String) (c : Device)
      → keep (λ d. d.name == name) cs ≡ c ∷ []
      → (c.name == name) ≡ true
  unfolding same_device
  named-kept cs name c e = ground (
    arith,
    sym (holds-keep_named cs name c) ∙ ap (λ f. holds f c) e,
    eq_refl c.driver,
    eq_refl c.pool,
    eq_refl c.name,
  )

  named-select_match :
      (cs selected : List Device) (name : String) (found : List Device) (s : List Device)
      → keep (λ c. c.name == name) cs ≡ found
      → select_match quote decimal drivers cs name selected found ≡ done s
      → (named s name ≡ true) × ((n : String) → named selected n ≡ true → named s n ≡ true)
  unfolding select_match
  named-select_match cs selected name [] s e h = absurd (cc h)
  named-select_match cs selected name (c ∷ []) s e h = (
    ground (arith, h, named-add_device selected c name, named-kept cs name c e),
    λ n k. ground (arith, h, named-add_device selected c n, k),
  )
  named-select_match cs selected name (c ∷ c2 ∷ more) s e h = absurd (cc h)

  named-select_named :
      (cs selected : List Device) (names : List String) (ds : List Device)
      → select_named quote decimal drivers cs selected names ≡ done ds
      → (exists_in (λ n. not (named ds n)) names ≡ false)
        × ((n : String) → named selected n ≡ true → named ds n ≡ true)
  unfolding select_named
  named-select_named cs selected [] ds h = (refl, λ n k. ground (arith, h, k))
  named-select_named cs selected (name ∷ names) ds h =
      let m =
        done_of_bind
          (select_match quote decimal drivers cs name selected (keep (λ c. c.name == name) cs))
          (λ s. select_named quote decimal drivers cs s names) ds h in
      let first = named-select_match cs selected name _ m.0 refl m.1 in
      let rest = named-select_named cs m.0 names ds m.2 in
      (ground (arith, rest.0, rest.1 name first.0), λ n k. rest.1 n (first.1 n k))

  some_unless_empty : (ds : List Device) → exists_in (λ d. true) ds ≡ not (is_empty ds)
  some_unless_empty [] = refl
  some_unless_empty (d ∷ ds) = refl

  not_empty : (ds : List Device) (name : String) → named ds name ≡ true → is_empty ds ≡ false
  not_empty [] name h = absurd (cc h)
  not_empty (d ∷ ds) name h = refl

  covers_sorted :
      (s : List Device) (names : List String)
      → exists_in (λ n. not (named s n)) names ≡ false
      → is_empty s ≡ false
      → covers (sort_by device_lt s) names ≡ true
  unfolding covers
  covers_sorted s names h e = ground (
    arith,
    h,
    exists_in-same (λ n. not (named (sort_by device_lt s) n)) (λ n. not (named s n))
        (λ n. ap not (exists_in-sort_by (λ d. d.name == n) device_lt s)) names,
    exists_in-sort_by (λ d. true) device_lt s,
    some_unless_empty s,
    some_unless_empty (sort_by device_lt s),
  )

  -- When a request selects devices, they cover it: there is one, and one for each name it lists.
  pub covers-select :
      (all : List Device) (names : List String) (ds : List Device)
      → select quote decimal all drivers names ≡ done ds
      → covers ds names ≡ true
  unfolding select covers
  covers-select all [] ds h = covers-select_only all (candidates_of drivers all) ds h
  covers-select all (name ∷ names) ds h =
      let m =
        done_of_bind
          (select_named quote decimal drivers (candidates_of drivers all) [] (name ∷ names))
          (λ s. done (sort_by device_lt s)) ds h in
      let found = named-select_named (candidates_of drivers all) [] (name ∷ names) m.0 m.1 in
      ap (λ t. covers t (name ∷ names)) (done_same ds (sort_by device_lt m.0) m.2)
      ∙ covers_sorted m.0 (name ∷ names) found.0 (not_empty m.0 name (ground (arith, found.0)))

same_device_refl : (d : Device) → same_device d d ≡ true
unfolding same_device
same_device_refl d = ground (arith, eq_refl d.driver, eq_refl d.pool, eq_refl d.name)

-- what holds of the devices that are found in a list holds of all in it
pub All-holds :
    (P : Device → Type 0) (ds : List Device) → ((d : Device) → holds ds d ≡ true → P d) → All P ds
All-holds P [] f = tt
All-holds P (d ∷ ds) f =
    (f d (ground (arith, same_device_refl d)), All-holds P ds (λ c h. f c (ground (arith, h))))
