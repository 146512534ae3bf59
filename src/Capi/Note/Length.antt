-- ===== src/Capi/Note/Length.antt =====
-- `EventNote` fits every note into what the events API accepts.
use native.Mathlib.Decide.{dec_le}
use nvsentinel_capi_remediat.Common.{
  ℕ, zero, suc, ◌+◌, ◌≤◌, ◌<◌, leb, leb→le, leb→lt, ◌≡◌, refl, ◌⊎◌, inl, inr, true, false,
  Bool-cases, List, [], ◌∷◌, ◌++◌, length, arith,
}
use nvsentinel_capi_remediat.Capi.Note.{
  event_note_limit, rune_start, byte_at, take, back_up, marker, event_note,
}

pub length-append : (xs ys : List ℕ) → length (xs ++ ys) ≡ length xs + length ys
length-append [] ys = omega arith
length-append (x ∷ xs) ys = omega (arith, length-append xs ys)

length-take : (n : ℕ) (bs : List ℕ) → n ≤ length bs → length (take n bs) ≡ n
unfolding take
length-take zero bs h = refl
length-take (suc n) [] h = absurd (omega arith)
length-take (suc n) (b ∷ bs) h = omega (arith, length-take n bs)

-- the loop stops at the last place at or before `n` where a rune starts, or at 0
pub record Cut (note : List ℕ) (n cut : ℕ) : Type 0 where
  pub below : cut ≤ n
  pub at_start : (cut ≡ 0) ⊎ (rune_start (byte_at note cut) ≡ true)
  pub last : (i : ℕ) → cut < i → i ≤ n → rune_start (byte_at note i) ≡ false

last_step :
    (note : List ℕ) (n : ℕ)
    → rune_start (byte_at note (suc n)) ≡ false
    → (i : ℕ) → i ≤ suc n
    → (i ≤ n → rune_start (byte_at note i) ≡ false)
    → rune_start (byte_at note i) ≡ false
last_step note n e i le below = elim (dec_le i n) [
  | yes p ↦ below p
  | no p ↦ let same : i ≡ suc n = omega arith in rw same e
]

back_up-Cut : (note : List ℕ) (n : ℕ) → Cut note n (back_up note n)
unfolding back_up
back_up-Cut note zero = record {
  below = omega arith;
  at_start = inl refl;
  last = λ i lt le. absurd (omega arith);
}
back_up-Cut note (suc n) = elim (Bool-cases (rune_start (byte_at note (suc n)))) [
  | inl e ↦
      rw e
        (record { below = omega arith; at_start = inr e; last = λ i lt le. absurd (omega arith) })
  | inr e ↦
      let h = back_up-Cut note n in
      rw e (record {
        below = omega (arith, h.below);
        at_start = h.at_start;
        last = λ i lt le. last_step note n e i le (h.last i lt);
      })
]

-- A note of at most 1024 bytes is kept. A longer one is cut at the last place at or before byte
-- 1021 where a rune starts (or at 0), and ends in "..."; the result has at most 1024 bytes.
pub event_note_fits :
    (note : List ℕ)
    → (length (event_note note) ≤ event_note_limit)
      × ((length note ≤ event_note_limit) × (event_note note ≡ note)
          ⊎ (event_note_limit < length note)
            × ((cut : ℕ) × Cut note 1021 cut × (event_note note ≡ take cut note ++ marker)))
unfolding event_note
event_note_fits note = elim (Bool-cases (leb (length note) event_note_limit)) [
  | inl e ↦ let short : length note ≤ 1024 = leb→le _ _ e in rw e (short, inl (short, refl))
  | inr e ↦
      let long : 1024 < length note = leb→lt _ _ e in
      let h = back_up-Cut note 1021 in
      let fits : back_up note 1021 ≤ 1021 = h.below in
      rw e (
        omega (
          arith,
          length-append (take (back_up note 1021) note) marker,
          length-take (back_up note 1021) note (omega arith),
        ),
        inr (long, (back_up note 1021, h, refl)),
      )
]
