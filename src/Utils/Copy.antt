-- ===== src/Utils/Copy.antt =====
-- What safe_strncpy leaves in its array: the shortened string that the model of the state keeps.
use iot_services_monitoring.Common.{
  ℕ, zero, suc, ◌-◌, ◌≤◌, ◌<◌, ◌≡◌, refl, ap, ◌∙◌, ◌≢◌, List, [], ◌∷◌, some, arith, length, take,
  drop, set, length-set, All,
}
use iot_services_monitoring.Text.{Text, before}
use iot_services_monitoring.State.{copy_text}
use iot_services_monitoring.Utils.{strncpy, safe_strncpy}

-- The C string that an array holds.
abbrev pub c_string : List ℕ → Text
c_string = before 0

length-strncpy : (dest : List ℕ) (src : Text) (n : ℕ) → length (strncpy dest src n) ≡ length dest
unfolding strncpy
length-strncpy dest src zero = refl
length-strncpy [] src (suc n) = refl
length-strncpy (d ∷ dest) [] (suc n) = ap suc (length-strncpy dest [] n)
length-strncpy (d ∷ dest) (c ∷ src) (suc n) = ap suc (length-strncpy dest src n)

drop-strncpy :
    (dest : List ℕ) (src : Text) (n : ℕ)
    → drop (suc n) (set (strncpy dest src n) n 0) ≡ drop (suc n) dest
unfolding strncpy
drop-strncpy [] src zero = refl
drop-strncpy [] src (suc n) = refl
drop-strncpy (d ∷ dest) src zero = refl
drop-strncpy (d ∷ dest) [] (suc n) = drop-strncpy dest [] n
drop-strncpy (d ∷ dest) (c ∷ src) (suc n) = drop-strncpy dest src n

c_string-strncpy :
    (dest : List ℕ) (src : Text) (n : ℕ)
    → suc n ≤ length dest
    → All (λ c. c ≢ 0) src
    → c_string (set (strncpy dest src n) n 0) ≡ take n src
unfolding strncpy before
c_string-strncpy [] src n h k = absurd (omega arith)
c_string-strncpy (d ∷ dest) src zero h k = refl
c_string-strncpy (d ∷ dest) [] (suc n) h k = refl
c_string-strncpy (d ∷ dest) (c ∷ src) (suc n) h k =
    ground (arith, c_string-strncpy dest src n (omega arith) k.1)

-- safe_strncpy into an array of at least `size` bytes never writes behind its first `size` bytes,
-- and leaves there the source, shortened to `size - 1` bytes and terminated.
pub safe_strncpy_lem :
    (dest : List ℕ) (src : Text) (size : ℕ)
    → 0 < size
    → size ≤ length dest
    → All (λ c. c ≢ 0) src
    → (result : List ℕ) × (safe_strncpy (some dest) (some src) size ≡ some result)
      × (c_string result ≡ copy_text src size)
      × (drop size result ≡ drop size dest)
      × (length result ≡ length dest)
unfolding safe_strncpy
safe_strncpy_lem dest src zero p h k = absurd (omega arith)
safe_strncpy_lem dest src (suc n) p h k =
    let same : suc n - 1 ≡ n = omega arith in
    (
      set (strncpy dest src n) n 0,
      refl,
      rw same (c_string-strncpy dest src n h k),
      drop-strncpy dest src n,
      length-set (strncpy dest src n) n 0 ∙ length-strncpy dest src n,
    )
