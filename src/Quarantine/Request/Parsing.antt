-- ===== src/Quarantine/Request/Parsing.antt =====
-- What `ParseRequest` reads, and the texts of a request's status.
use text.Mathlib.TextLemmas.{nil-append, cons-append, cons≢nil}
use nvsentinel_capi_remediat.Common.{
  String, ◌⧺◌, ◌==◌, ◌≡◌, ◌≢◌, refl, ap, Bool, true, false, Option, none, some, is_some, cut_prefix,
  arith, ℕ, ◌||◌, ◌⊎◌, inl, inr, List, [], ◌∷◌, exists_in, exists_in-append, eq_iff, ==_of_ne,
  is_blank, trim, split, Bool-cases,
}
use nvsentinel_capi_remediat.Quarantine.Try.{done, done_same}
use nvsentinel_capi_remediat.Quarantine.Request.Selection.{lists}
use nvsentinel_capi_remediat.Quarantine.Request.{
  add_name, parse_names, parse_list, parse_request, request_quarantine, rejected_prefix,
  rejected_status, is_rejected, status_replacing, status_quarantining,
}

cut_prefix-append : (p s : String) → cut_prefix p (p ⧺ s) ≡ some s
unfolding cut_prefix
cut_prefix-append String.[] s = rw (nil-append s) refl
cut_prefix-append (String.◌∷◌ c p) s =
    rw (cons-append c p s) (ground (arith, cut_prefix-append p s))

-- A status that rejects a request, for whatever reason, is read back as one.
pub is_rejected-rejected_status : (reason : String) → is_rejected (rejected_status reason) ≡ true
unfolding is_rejected rejected_status
is_rejected-rejected_status reason = ap is_some (cut_prefix-append rejected_prefix reason)

not_both : (b : Bool) → b ≡ true → b ≡ false → ⊥
not_both b e f = cc (e, f)

-- A status that rejects a request does not say that the Machine is being replaced.
pub rejected_not_replacing : (reason : String) → rejected_status reason ≢ status_replacing
unfolding is_rejected cut_prefix
rejected_not_replacing reason e = not_both _ (is_rejected-rejected_status reason) (ap is_rejected e)

pub quarantining_not_replacing : status_quarantining ≢ status_replacing
quarantining_not_replacing e =
    not_both (status_quarantining == status_replacing) (ap (λ s. s == status_replacing) e) refl

pub blank_not_replacing : "" ≢ status_replacing
blank_not_replacing e = not_both ("" == status_replacing) (ap (λ s. s == status_replacing) e) refl

pub lists-add_name :
    (names : List String) (n s : String) → lists (add_name names n) s ≡ (lists names s || n == s)
unfolding add_name
lists-add_name names n s =
    let same : (n == s) ≡ true → lists names n ≡ lists names s =
      λ h. ap (lists names) ((eq_iff n s).0 h) in
    ground (arith, same, exists_in-append (λ m. m == s) names (n ∷ []))

not_blank : (s : String) → is_blank s ≡ false → (s == "") ≡ false
not_blank String.[] h = absurd (cc h)
not_blank (String.◌∷◌ c s) h = ==_of_ne _ _ (λ e. cons≢nil e)

-- the text, without the spaces around it, is the name
abbrev pub is_trimmed : String → String → Bool
is_trimmed name field = trim field == name

module _ (quote : String → String) (decimal : ℕ → String) where
  parse_names-lists :
      (value : String) (fields names out : List String)
      → parse_names quote decimal value names fields ≡ done out
      → (exists_in (is_trimmed "") fields ≡ false)
        × ((s : String) → lists out s ≡ (lists names s || exists_in (is_trimmed s) fields))
  unfolding parse_names
  parse_names-lists value [] names out h = (refl, λ s. ground (arith, done_same out names h))
  parse_names-lists value (field ∷ fields) names out h = elim (Bool-cases (is_blank (trim field))) [
    | inl e ↦ absurd (cc (rw e at h))
    | inr e ↦
        let rest = parse_names-lists value fields (add_name names (trim field)) out (rw e at h) in
        (
          ground (arith, rest.0, not_blank (trim field) e),
          λ s. ground (arith, rest.1 s, lists-add_name names (trim field) s),
        )
  ]

  -- A request that parses is the word alone, and lists no name; or the word, a colon and texts
  -- between commas, none empty once the spaces around it are gone, and it lists these.
  pub parse_request-lists :
      (value : String) (names : List String) (s : String)
      → parse_request quote decimal value ≡ done names
      → ((value ≡ request_quarantine) × (names ≡ []))
        ⊎ ((list : String) × (cut_prefix (request_quarantine ⧺ ":") value ≡ some list)
            × (exists_in (is_trimmed "") (split b',' list) ≡ false)
            × (lists names s ≡ exists_in (is_trimmed s) (split b',' list)))
  unfolding parse_request
  parse_request-lists value names s h = elim (Bool-cases (value == request_quarantine)) [
    | inl e ↦ inl ((eq_iff value request_quarantine).0 e, done_same names [] (rw e at h))
    | inr e ↦ inr (listed (cut_prefix (request_quarantine ⧺ ":") value) refl (rw e at h))
  ]
    where
      listed :
          (o : Option String)
          → cut_prefix (request_quarantine ⧺ ":") value ≡ o
          → parse_list quote decimal value o ≡ done names
          → (list : String) × (cut_prefix (request_quarantine ⧺ ":") value ≡ some list)
            × (exists_in (is_trimmed "") (split b',' list) ≡ false)
            × (lists names s ≡ exists_in (is_trimmed s) (split b',' list))
      listed none e k = absurd (cc k)
      listed (some list) e k =
          let q = parse_names-lists value (split b',' list) [] names k in (list, e, q.0, q.1 s)
