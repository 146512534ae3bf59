-- ===== src/Quarantine/Naming/Bounds.antt =====
-- How long the values of labels are.
use Prim.Native.Nat.{◌/◌, ◌%◌}
use text.Mathlib.TextLemmas.{nil-append, cons-append}
use mathlib.Core.List.{append_assoc}
use nvsentinel_capi_remediat.Common.{
  ℕ, zero, suc, ◌+◌, ◌-◌, ◌*◌, ◌≤◌, ◌<◌, ◌⊎◌, leb, String, ◌⧺◌, ◌≡◌, refl, sym, false, List, [],
  ◌∷◌, ◌++◌, length, arith, not, exists_in, Bool-cases, inl, inr,
}
use nvsentinel_capi_remediat.Capi.Note.{utf8, take}
use nvsentinel_capi_remediat.Capi.Note.Length.{length-append}
use nvsentinel_capi_remediat.Quarantine.Naming.{
  text_at, hex, digest, label_value, label_value_max_length, hex_digits,
}

utf8-append : (s t : String) → utf8 (s ⧺ t) ≡ utf8 s ++ utf8 t
unfolding utf8
utf8-append String.[] t = rw (nil-append t) refl
utf8-append (String.◌∷◌ c s) t =
    rw (cons-append c s t) (rw (utf8-append s t) (sym (append_assoc _ (utf8 s) (utf8 t))))

length-text : (s t : String) → length (utf8 (s ⧺ t)) ≡ length (utf8 s) + length (utf8 t)
length-text s t = rw (utf8-append s t) (length-append (utf8 s) (utf8 t))

take_at_most : (n : ℕ) (xs : List ℕ) → length (take n xs) ≤ n
unfolding take
take_at_most zero xs = ground arith
take_at_most (suc n) [] = ground arith
take_at_most (suc n) (x ∷ xs) = ground (arith, take_at_most n xs)

-- every text of the list is of one byte at most
digit_fits :
    (ss : List String) (i : ℕ)
    → exists_in (λ s. not (leb (length (utf8 s)) 1)) ss ≡ false
    → length (utf8 (text_at ss i)) ≤ 1
unfolding text_at utf8
digit_fits [] i h = ground arith
digit_fits (s ∷ ss) zero h = ground (arith, h)
digit_fits (s ∷ ss) (suc i) h = digit_fits ss i (ground (arith, h))

digits_fit : (i : ℕ) → length (utf8 (text_at hex_digits i)) ≤ 1
unfolding utf8
digits_fit i = digit_fits hex_digits i refl

length-hex : (bs : List ℕ) → length (utf8 (hex bs)) ≤ 2 * length bs
unfolding hex utf8
length-hex [] = ground arith
length-hex (b ∷ bs) = omega (
  arith,
  length-text (text_at hex_digits (b / 16 % 16)) (text_at hex_digits (b % 16) ⧺ hex bs),
  length-text (text_at hex_digits (b % 16)) (hex bs),
  digits_fit (b / 16 % 16),
  digits_fit (b % 16),
  length-hex bs,
)

length-dash : length (utf8 "-") ≡ 1
unfolding utf8
length-dash = refl

cut_fits :
    (bytes d : List ℕ)
    → length d ≤ 16
    → length (take (label_value_max_length - length d - 1) bytes ++ utf8 "-" ++ d)
      ≤ label_value_max_length
cut_fits bytes d h =
    let kept = take (label_value_max_length - length d - 1) bytes in
    omega (
      arith,
      h,
      length-append (kept ++ utf8 "-") d,
      length-append kept (utf8 "-"),
      take_at_most (label_value_max_length - length d - 1) bytes,
      length-dash,
    )

module _ (sha256 : List ℕ → List ℕ) where
  length-digest : (s : String) → length (utf8 (digest sha256 s)) ≤ 16
  unfolding digest
  length-digest s =
      omega (arith, length-hex (take 8 (sha256 (utf8 s))), take_at_most 8 (sha256 (utf8 s)))

  -- The value of a label has at most 63 bytes: the name itself where that has no more, and else the
  -- first bytes of the name, a dash and the digest of the whole name.
  pub label_value_fits :
      (name : String)
      → (length (label_value sha256 name) ≤ label_value_max_length)
        × (((length (utf8 name) ≤ label_value_max_length) × (label_value sha256 name ≡ utf8 name))
            ⊎ ((label_value_max_length < length (utf8 name))
                × ((n : ℕ) × (label_value sha256 name
                      ≡ take n (utf8 name) ++ utf8 "-" ++ utf8 (digest sha256 name)))))
  unfolding label_value
  label_value_fits name = elim (Bool-cases (leb (length (utf8 name)) label_value_max_length)) [
    | inl short ↦ rw short (ground (arith, short), inl (ground (arith, short), refl))
    | inr long ↦ rw long (
      cut_fits (utf8 name) (utf8 (digest sha256 name)) (length-digest name),
      inr (
        ground (arith, long),
        (label_value_max_length - length (utf8 (digest sha256 name)) - 1, refl),
      ),
    )
  ]
