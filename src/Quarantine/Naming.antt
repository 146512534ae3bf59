-- ===== src/Quarantine/Naming.antt =====
-- internal/quarantine/quarantine.go: the names of rules and the values of labels. The hash is a
-- parameter: bytes to bytes.
pub mod Bounds
pub mod Apart
use Prim.Native.Nat.{◌/◌, ◌%◌}
use nvsentinel_capi_remediat.Common.{
  ℕ, zero, suc, ◌-◌, leb, String, ◌⧺◌, List, [], ◌∷◌, ◌++◌, length, if◌then◌else◌,
}
use nvsentinel_capi_remediat.Capi.Note.{utf8, take}
use nvsentinel_capi_remediat.Quarantine.Device.{Device}

abbrev pub rule_prefix : String
rule_prefix = "quarantine-"

-- `validation.LabelValueMaxLength`
abbrev pub label_value_max_length : ℕ
label_value_max_length = 63

abbrev pub hex_digits : List String
hex_digits =
    "0" ∷ "1" ∷ "2" ∷ "3" ∷ "4" ∷ "5" ∷ "6" ∷ "7" ∷ "8" ∷ "9" ∷ "a" ∷ "b" ∷ "c" ∷ "d" ∷ "e" ∷ "f"
    ∷ []

-- the element at a place, which is always inside
unfoldable pub text_at : List String → ℕ → String
text_at [] i = ""
text_at (s ∷ ss) zero = s
text_at (s ∷ ss) (suc i) = text_at ss i

-- `hex.EncodeToString`
unfoldable pub hex : List ℕ → String
unfolding text_at
hex [] = ""
hex (b ∷ bs) = text_at hex_digits (b / 16 % 16) ⧺ text_at hex_digits (b % 16) ⧺ hex bs

-- what the digest of a device's rule is taken of
unfoldable pub device_key : Device → String
device_key d = d.driver ⧺ "\0" ⧺ d.pool ⧺ "\0" ⧺ d.name

module _ (sha256 : List ℕ → List ℕ) where
  unfoldable pub digest : String → String
  unfolding hex take utf8
  digest s = hex (take 8 (sha256 (utf8 s)))

  unfoldable pub rule_name : Device → String
  unfolding digest device_key
  rule_name d = rule_prefix ⧺ digest (device_key d)

  unfoldable pub label_value : String → List ℕ
  unfolding digest utf8 take
  label_value name =
      let bytes = utf8 name in
      let d = utf8 (digest name) in
      if leb (length bytes) label_value_max_length
      then bytes
      else take (label_value_max_length - length d - 1) bytes ++ utf8 "-" ++ d
