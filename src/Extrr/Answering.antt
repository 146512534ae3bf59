-- ===== src/Extrr/Answering.antt =====
-- What an answer does to a request's conditions.
use nvsentinel_capi_remediat.Common.{
  ℕ, String, ◌==◌, ◌≡◌, ◌≢◌, refl, sym, ap, Bool, true, false, ◌||◌, List, [], ◌∷◌, ◌++◌, exists_in,
  eq_iff, ==_of_ne, Bool-cases, inl, inr, if◌then◌else◌, arith,
}
use nvsentinel_capi_remediat.Objects.{Item, item, no_condition, Answered, Request, Library}
use nvsentinel_capi_remediat.Extrr.{
  condition_complete, condition_status, is_answered, pending, replace_conditions, is_complete,
  with_answer, answer_of,
}

module _ (a : Answered) (own : a.type ≡ condition_complete) where
  own_test : (a.type == condition_complete) ≡ true
  own_test = (eq_iff a.type condition_complete).1 own

  status-replace_conditions :
      (cs : List Item)
      → exists_in is_complete cs ≡ true
      → condition_status (replace_conditions a cs) condition_complete ≡ a.status
  unfolding condition_status replace_conditions
  status-replace_conditions [] h = cc
  status-replace_conditions (no_condition ∷ cs) h = status-replace_conditions cs h
  status-replace_conditions (item c ∷ cs) h = elim (Bool-cases (c.type == condition_complete)) [
    | inl e ↦ rw e (rw own_test)
    | inr e ↦ rw e (rw e (status-replace_conditions cs (rw e at h)))
  ]

  status-append :
      (cs : List Item)
      → exists_in is_complete cs ≡ false
      → condition_status (cs ++ item a ∷ []) condition_complete ≡ a.status
  unfolding condition_status
  status-append [] h = rw own_test
  status-append (no_condition ∷ cs) h = status-append cs h
  status-append (item c ∷ cs) h = elim (Bool-cases (c.type == condition_complete)) [
    | inl e ↦ cc (rw e at h)
    | inr e ↦ rw e (status-append cs (rw e at h))
  ]

  status-with_answer :
      (cs : List Item) → condition_status (with_answer a cs) condition_complete ≡ a.status
  unfolding with_answer
  status-with_answer cs = elim (Bool-cases (exists_in is_complete cs)) [
    | inl e ↦ rw e (status-replace_conditions cs e)
    | inr e ↦ rw e (status-append cs e)
  ]

  module _ (type : String) (foreign : (condition_complete == type) ≡ false) where
    foreign_own : (a.type == type) ≡ false
    foreign_own = rw own foreign

    other-replace_conditions :
        (cs : List Item)
        → condition_status (replace_conditions a cs) type ≡ condition_status cs type
    unfolding condition_status replace_conditions
    other-replace_conditions [] = refl
    other-replace_conditions (no_condition ∷ cs) = other-replace_conditions cs
    other-replace_conditions (item c ∷ cs) = elim (Bool-cases (c.type == condition_complete)) [
      | inl e ↦
          let same : c.type ≡ condition_complete = (eq_iff c.type condition_complete).0 e in
          let skips : (c.type == type) ≡ false = rw same foreign in
          rw e (rw (foreign_own, skips) (other-replace_conditions cs))
      | inr e ↦
          rw e (ap (λ s. if c.type == type then c.status else s) (other-replace_conditions cs))
    ]

    other-append :
        (cs : List Item) → condition_status (cs ++ item a ∷ []) type ≡ condition_status cs type
    unfolding condition_status
    other-append [] = rw foreign_own
    other-append (no_condition ∷ cs) = other-append cs
    other-append (item c ∷ cs) = ap (λ s. if c.type == type then c.status else s) (other-append cs)

    other-with_answer :
        (cs : List Item) → condition_status (with_answer a cs) type ≡ condition_status cs type
    unfolding with_answer
    other-with_answer cs = elim (Bool-cases (exists_in is_complete cs)) [
      | inl e ↦ rw e (other-replace_conditions cs)
      | inr e ↦ rw e (other-append cs)
    ]

decided :
    (complete : Bool)
    → ((if complete then "True" else "False") == "True"
        || (if complete then "True" else "False") == "False")
      ≡ true
decided true = refl
decided false = refl

module _ (lib : Library) (obj : Request) (complete : Bool) (reason message : String) (now : ℕ) where
  abbrev given : Answered
  given = answer_of lib obj complete reason message now

  -- the request as an answer leaves it
  abbrev pub with_given : Request
  with_given = record obj { conditions = with_answer given obj.conditions }

  given_type : given.type ≡ condition_complete
  unfolding answer_of
  given_type = refl

  given_status :
      condition_status with_given.conditions condition_complete
      ≡ (if complete then "True" else "False")
  given_status = unfold answer_of in status-with_answer given given_type obj.conditions

  pub is_answered-given : is_answered with_given ≡ true
  unfolding is_answered
  is_answered-given = rw given_status (decided complete)

  pub not_pending : pending with_given ≡ false
  unfolding pending
  not_pending = ground (arith, is_answered-given)

  -- Once answered, a request is answered and not pending, its completion condition reads the answer
  -- that was given, and the status of every other type of condition is as it was.
  pub answered_not_pending :
      (type : String)
      → type ≢ condition_complete
      → (is_answered with_given ≡ true)
        × (pending with_given ≡ false)
        × (condition_status with_given.conditions condition_complete
            ≡ (if complete then "True" else "False"))
        × (condition_status with_given.conditions type ≡ condition_status obj.conditions type)
  answered_not_pending type ne = (
    is_answered-given,
    not_pending,
    given_status,
    other-with_answer given given_type type (==_of_ne _ _ (λ e. ne (sym e))) obj.conditions,
  )
