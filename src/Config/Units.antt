-- ===== src/Config/Units.antt =====
-- crates/drv-thru/src/config.rs: the sizes and durations that are accepted.
use drv_thru.Base.{
  ℕ, ◌*◌, ◌^◌, ◌≤◌, ◌<◌, ◌≡◌, ◌↔◌, ok, some, arith, if◌then◌else◌, Bool, true, false, Option, none,
  [], ◌∷◌,
}
use drv_thru.Text.{Text, codes}
use drv_thru.Config.{one_of, byte_unit, second_unit, parse_byte_count, parse_duration}
use drv_thru.Config.Numbers.{Quantity, scale-Quantity, Quantity-scale}

chain_positive :
    (a : Bool) (u : ℕ) (rest : Option ℕ)
    → 1 ≤ u
    → ((v : ℕ) → rest ≡ some v → 1 ≤ v)
    → (v : ℕ) → (if a then some u else rest) ≡ some v
    → 1 ≤ v
chain_positive true u rest p r v h = ground arith
chain_positive false u rest p r v h = r v h

byte_unit-positive : (s : Text) (u : ℕ) → byte_unit s ≡ some u → 1 ≤ u
unfolding byte_unit
byte_unit-positive s u h =
    chain_positive (one_of ([] ∷ codes "b" ∷ []) s) 1 _ (omega arith)
      (chain_positive (one_of (codes "k" ∷ codes "kb" ∷ codes "kib" ∷ []) s) 1024 _ (omega arith) (
        chain_positive (one_of (codes "m" ∷ codes "mb" ∷ codes "mib" ∷ []) s) (1024 * 1024) _
          (omega arith)
          (chain_positive (one_of (codes "g" ∷ codes "gb" ∷ codes "gib" ∷ []) s)
            (1024 * 1024 * 1024) _ (omega arith)
            (chain_positive (one_of (codes "t" ∷ codes "tb" ∷ codes "tib" ∷ []) s) (1024 ^ 4) none
              (omega arith) (λ v e. absurd (ground arith))))))
      u h

second_unit-positive : (s : Text) (u : ℕ) → second_unit s ≡ some u → 1 ≤ u
unfolding second_unit
second_unit-positive s u h =
    chain_positive
      (one_of ([] ∷ codes "s" ∷ codes "sec" ∷ codes "secs" ∷ codes "second" ∷ codes "seconds" ∷ [])
        s)
      1 _ (omega arith)
      (chain_positive
        (one_of (codes "m" ∷ codes "min" ∷ codes "mins" ∷ codes "minute" ∷ codes "minutes" ∷ []) s)
        60 _ (omega arith)
        (chain_positive
          (one_of (codes "h" ∷ codes "hr" ∷ codes "hrs" ∷ codes "hour" ∷ codes "hours" ∷ []) s)
          (60 * 60) none (omega arith) (λ v e. absurd (ground arith))))
      u h

-- A text is a byte count of n exactly if, without the blanks around it, it is a run of digits and a
-- suffix, the suffix in lower case and without blanks is a known unit, n is the decimal value
-- of the digits times the unit, and n is below 2^64.
pub parse_byte_count_iff :
    (value : Text) (n : ℕ)
    → (parse_byte_count value ≡ ok n) ↔ (Quantity byte_unit value n × (n < 2 ^ 64))
unfolding parse_byte_count
parse_byte_count_iff value n = (
  scale-Quantity byte_unit value n,
  λ h. Quantity-scale byte_unit byte_unit-positive value n h.0 h.1,
)

-- A text is a duration of n seconds exactly if, without the blanks around it, it is a run of digits
-- and a suffix, the suffix in lower case and without blanks is a known unit of time, n is the
-- decimal value of the digits times the unit, and n is below 2^64.
pub parse_duration_iff :
    (value : Text) (n : ℕ)
    → (parse_duration value ≡ ok n) ↔ (Quantity second_unit value n × (n < 2 ^ 64))
unfolding parse_duration
parse_duration_iff value n = (
  scale-Quantity second_unit value n,
  λ h. Quantity-scale second_unit second_unit-positive value n h.0 h.1,
)
