-- ===== src/Capi/Note.antt =====
-- internal/capi/capi.go: the annotations, the Events' reasons and `EventNote`, over bytes.
pub mod Length
use Prim.Native.Char.{code}
use Prim.Native.Nat.{◌/◌, ◌%◌}
use nvsentinel_capi_remediat.Common.{
  ℕ, zero, suc, ◌+◌, ◌-◌, ltb, leb, String, Bool, not, same_code, List, [], ◌∷◌, ◌++◌, length,
  if◌then◌else◌,
}

abbrev pub remediation_reason_annotation : String
remediation_reason_annotation = "nvsentinel.petasus.io/remediation-reason"

abbrev pub remediation_action_annotation : String
remediation_action_annotation = "nvsentinel.petasus.io/remediation-action"

abbrev pub remediation_boot_id_annotation : String
remediation_boot_id_annotation = "nvsentinel.petasus.io/remediation-boot-id"

abbrev pub remediation_request_annotation : String
remediation_request_annotation = "nvsentinel.petasus.io/remediation-request"

abbrev pub action_remediate : String
action_remediate = "Remediate"

abbrev pub action_restart : String
action_restart = "Restart"

abbrev pub event_marked_for_remediation : String
event_marked_for_remediation = "MarkedForRemediation"

abbrev pub event_remediation_skipped : String
event_remediation_skipped = "RemediationSkipped"

abbrev pub event_remediation_released : String
event_remediation_released = "RemediationReleased"

abbrev pub event_note_limit : ℕ
event_note_limit = 1024

-- the bytes of a Go string: the UTF-8 form of its code points
abbrev encode : ℕ → List ℕ
encode n =
    if ltb n 0x80
    then n ∷ []
    else if ltb n 0x800
    then (0xc0 + n / 64) ∷ (0x80 + n % 64) ∷ []
    else if ltb n 0x10000
    then (0xe0 + n / 4096) ∷ (0x80 + n / 64 % 64) ∷ (0x80 + n % 64) ∷ []
    else (0xf0 + n / 262144) ∷ (0x80 + n / 4096 % 64) ∷ (0x80 + n / 64 % 64) ∷ (0x80 + n % 64) ∷ []

unfoldable pub utf8 : String → List ℕ
utf8 String.[] = []
utf8 (String.◌∷◌ c s) = encode (code c) ++ utf8 s

-- `utf8.RuneStart`: b & 0xc0 != 0x80
abbrev pub rune_start : ℕ → Bool
rune_start b = not (same_code (b / 64 % 4) 2)

-- `note[i]`, read at places inside the note only
unfoldable pub byte_at : List ℕ → ℕ → ℕ
byte_at [] i = 0
byte_at (b ∷ bs) zero = b
byte_at (b ∷ bs) (suc i) = byte_at bs i

unfoldable pub take : ℕ → List ℕ → List ℕ
take zero bs = []
take (suc n) [] = []
take (suc n) (b ∷ bs) = b ∷ take n bs

-- `for cut > 0 && !utf8.RuneStart(note[cut]) { cut-- }`
unfoldable pub back_up : List ℕ → ℕ → ℕ
unfolding byte_at
back_up note zero = zero
back_up note (suc n) = if rune_start (byte_at note (suc n)) then suc n else back_up note n

abbrev pub marker : List ℕ
marker = b'.' ∷ b'.' ∷ b'.' ∷ []

unfoldable pub event_note : List ℕ → List ℕ
unfolding back_up take
event_note note =
    if leb (length note) event_note_limit
    then note
    else take (back_up note (event_note_limit - length marker)) note ++ marker
