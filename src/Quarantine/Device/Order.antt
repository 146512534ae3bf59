-- ===== src/Quarantine/Device/Order.antt =====
-- The order of devices.
use Prim.Native.Char.{code}
use text.Mathlib.TextEquality.{Char-path}
use nvsentinel_capi_remediat.Common.{
  ==_comm, String, ◌==◌, ◌≡◌, refl, true, false, str_lt, eq_iff, arith,
}
use nvsentinel_capi_remediat.Quarantine.Device.{Device, device_lt, same_device}

str_lt_asym : (s t : String) → str_lt s t ≡ true → str_lt t s ≡ false
unfolding str_lt
str_lt_asym String.[] String.[] h = absurd (cc h)
str_lt_asym String.[] (String.◌∷◌ d t) h = refl
str_lt_asym (String.◌∷◌ c s) String.[] h = absurd (cc h)
str_lt_asym (String.◌∷◌ c s) (String.◌∷◌ d t) h = ground (arith, h, str_lt_asym s t)

str_lt_total : (s t : String) → str_lt s t ≡ false → str_lt t s ≡ false → s ≡ t
unfolding str_lt
str_lt_total String.[] String.[] h k = refl
str_lt_total String.[] (String.◌∷◌ d t) h k = absurd (cc h)
str_lt_total (String.◌∷◌ c s) String.[] h k = absurd (cc k)
str_lt_total (String.◌∷◌ c s) (String.◌∷◌ d t) h k =
    let rest : s ≡ t = str_lt_total s t (ground (arith, h, k)) (ground (arith, h, k)) in
    let first : code c ≡ code d = ground (arith, h, k) in
    λ i. String.◌∷◌ (Char-path c d first i) (rest i)

texts_total : (s t : String) → str_lt s t ≡ false → str_lt t s ≡ false → (s == t) ≡ true
texts_total s t h k = (eq_iff s t).1 (str_lt_total s t h k)

pub same_device_comm : (a b : Device) → same_device a b ≡ same_device b a
unfolding same_device
same_device_comm a b =
    ground (arith, ==_comm a.driver b.driver, ==_comm a.pool b.pool, ==_comm a.name b.name)

-- A device stands before another or after it, not both, unless they are the same.
pub device_lt_asym : (a b : Device) → device_lt a b ≡ true → device_lt b a ≡ false
unfolding device_lt
device_lt_asym a b h = ground (
  arith,
  h,
  str_lt_asym a.driver b.driver,
  str_lt_asym a.pool b.pool,
  str_lt_asym a.name b.name,
  ==_comm a.driver b.driver,
  ==_comm a.pool b.pool,
)

pub device_lt_total :
    (a b : Device) → device_lt a b ≡ false → same_device b a ≡ false → device_lt b a ≡ true
unfolding device_lt same_device
device_lt_total a b h k = ground (
  arith,
  h,
  k,
  texts_total a.driver b.driver,
  texts_total a.pool b.pool,
  texts_total a.name b.name,
  ==_comm a.driver b.driver,
  ==_comm a.pool b.pool,
  ==_comm a.name b.name,
)
