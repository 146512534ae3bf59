-- ===== src/Quarantine/Naming/Apart.antt =====
-- That devices are digested apart: no two devices have the same text to take the digest of.
use Prim.Native.Char.{code, nul}
use text.Mathlib.TextLemmas.{nil-append, cons-append}
use nvsentinel_capi_remediat.Common.{
  String, ◌⧺◌, ◌≡◌, refl, sym, ap, ◌∙◌, Bool, true, not, ◌&&◌, some, cut, same_code, extend_before,
  arith,
}
use nvsentinel_capi_remediat.Quarantine.Device.{Device}
use nvsentinel_capi_remediat.Quarantine.Naming.{device_key}

-- no character of the text is NUL
abbrev pub is_plain : String → Bool
is_plain String.[] = true
is_plain (String.◌∷◌ c s) = not (same_code (code c) 0) && is_plain s

nul_append : (t : String) → "\0" ⧺ t ≡ String.◌∷◌ nul t
nul_append t = cons-append nul "" t ∙ ap (λ u. String.◌∷◌ nul u) (nil-append t)

-- a text is cut off before the first NUL
cut-append : (s t : String) → is_plain s ≡ true → cut 0 (s ⧺ "\0" ⧺ t) ≡ some (s, t)
unfolding cut
cut-append String.[] t h = rw (nil-append ("\0" ⧺ t)) (rw (nul_append t) refl)
cut-append (String.◌∷◌ c s) t h =
    rw (cons-append c s ("\0" ⧺ t))
      (ground (arith, h, ap (extend_before c) (cut-append s t (ground (arith, h)))))

parts_same : (p q : String × String) → some p ≡ some q → (p.0 ≡ q.0) × (p.1 ≡ q.1)
parts_same p q h = let same : p ≡ q = cc h in (ap (λ x. x.0) same, ap (λ x. x.1) same)

cut_same :
    (a b s t : String)
    → is_plain a ≡ true
    → is_plain b ≡ true
    → a ⧺ "\0" ⧺ s ≡ b ⧺ "\0" ⧺ t
    → (a ≡ b) × (s ≡ t)
cut_same a b s t p q h =
    parts_same (a, s) (b, t) (sym (cut-append a s p) ∙ ap (cut 0) h ∙ cut-append b t q)

-- Two devices for which the digest of a rule's name is taken of the same text are the same, if no
-- NUL stands in their drivers and pools.
pub device_key-Injective :
    (a b : Device)
    → (is_plain a.driver && is_plain a.pool) ≡ true
    → (is_plain b.driver && is_plain b.pool) ≡ true
    → device_key a ≡ device_key b
    → a ≡ b
unfolding device_key
device_key-Injective a b p q h =
    let first =
      cut_same a.driver b.driver (a.pool ⧺ "\0" ⧺ a.name) (b.pool ⧺ "\0" ⧺ b.name)
        (ground (arith, p)) (ground (arith, q)) h in
    let rest =
      cut_same a.pool b.pool a.name b.name (ground (arith, p)) (ground (arith, q)) first.1 in
    λ i. record { driver = first.0 i; pool = rest.0 i; name = rest.1 i }
