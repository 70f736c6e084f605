-- ===== src/Tle/Deconstruct.antt =====
-- `deconstructTLE` takes a combined code apart.
use air_tree.Common.{
  le→not_ltb, ==_iff, ℕ, zero, suc, ◌+◌, ◌*◌, ◌/◌, ◌^◌, ◌≤◌, ◌<◌, bit_and, Bool, true, ltb, none,
  some, List, [], ◌∷◌, map, ◌≡◌, ◌∙◌, refl, sym, ap, arith, if◌then◌else◌, length, bit_and_low3,
  pow_add,
}
use mathlib.Core.Option.{get_or}
use native.Mathlib.Nat.{div-eq_of_lt-le, pow-le-pow_right}
use air_tree.Tle.{
  DimensionInfo, get_prepend_bits, get_tle_value_type, dimension_info, deconstruct_loop,
  deconstruct_tle,
}
use air_tree.Tle.Classes.{class_of, get_tle_value_type_lem}
use air_tree.Special.Laws.{is_special_type}

-- The combined code of the codes `ds`, the first dimension highest.
abbrev pub pack : List ℕ → ℕ
pack [] = 0
pack (d ∷ ds) = d * 2 ^ (length ds * 3) + pack ds

abbrev pub AreCodes : List ℕ → Type 0
AreCodes [] = Unit {0}
AreCodes (d ∷ ds) = (d < 8) × AreCodes ds

-- What is to be stored for a dimension with the code `d`: its class, whether this is that of a special
-- value, and the prefix of the code, 0 for a special one.
abbrev pub info_of : ℕ → DimensionInfo
info_of d = record {
  is_special = is_special_type (class_of d);
  tle = d;
  prefix = get_or (get_prepend_bits d) 0;
  value_type = class_of d;
}

abbrev pub special_count : List ℕ → ℕ
special_count [] = 0
special_count (d ∷ ds) = (if is_special_type (class_of d) then 1 else 0) + special_count ds

class_info : (d : ℕ) → d < 8 → dimension_info d (class_of d) ≡ some (info_of d)
unfolding dimension_info get_prepend_bits
class_info zero h = refl
class_info (suc zero) h = refl
class_info (suc (suc zero)) h = refl
class_info (suc (suc (suc zero))) h = refl
class_info (suc (suc (suc (suc zero)))) h = refl
class_info (suc (suc (suc (suc (suc zero))))) h = refl
class_info (suc (suc (suc (suc (suc (suc zero)))))) h = refl
class_info (suc (suc (suc (suc (suc (suc (suc zero))))))) h = refl
class_info (suc (suc (suc (suc (suc (suc (suc (suc d)))))))) h = absurd (omega arith)

dimension_info_lem : (d : ℕ) → d < 8 → dimension_info d (get_tle_value_type d) ≡ some (info_of d)
dimension_info_lem d h = rw (get_tle_value_type_lem d) (class_info d h)

special_count-le : (ds : List ℕ) → special_count ds ≤ length ds
special_count-le [] = omega arith
special_count-le (d ∷ ds) = ground (arith, special_count-le ds)

eight : (m : ℕ) → 2 ^ (suc m * 3) ≡ 8 * 2 ^ (m * 3)
eight m =
    let e : suc m * 3 ≡ m * 3 + 3 = omega arith in
    ap (λ (t : ℕ). 2 ^ t) e ∙ omega (arith, pow_add (m * 3) 3)

digit_lt : (d t p : ℕ) → d < 8 → p < t → d * t + p < 8 * t
digit_lt d t p hd hp = grind arith

pack-lt : (ds : List ℕ) → AreCodes ds → pack ds < 2 ^ (length ds * 3)
pack-lt [] h = omega arith
pack-lt (d ∷ ds) h =
    omega
      (arith, eight (length ds), digit_lt d (2 ^ (length ds * 3)) (pack ds) h.0 (pack-lt ds h.1))

regroup :
    (q d p m : ℕ) → q * 2 ^ (suc m * 3) + (d * 2 ^ (m * 3) + p) ≡ (q * 8 + d) * 2 ^ (m * 3) + p
regroup q d p m = omega (arith, ap (λ (t : ℕ). q * t) (eight m))

code_at : (q d p t : ℕ) → d < 8 → p < t → bit_and (((q * 8 + d) * t + p) / t) 0x7 ≡ d
code_at q d p t hd hp =
    let quotient : ((q * 8 + d) * t + p) / t ≡ q * 8 + d =
      div-eq_of_lt-le _ (omega arith) (omega arith) in
    rw (quotient, bit_and_low3) (omega arith)

loop_lem :
    (ds : List ℕ) (q count : ℕ)
    → AreCodes ds
    → length ds ≤ 11
    → deconstruct_loop (length ds) (q * 2 ^ (length ds * 3) + pack ds) count
      ≡ some (map info_of ds, count + special_count ds)
unfolding deconstruct_loop
loop_lem [] q count h few = ground arith
loop_lem (d ∷ ds) q count h few =
    let shift : ltb (length ds * 3) 32 ≡ true = ground arith in
    rw
      (
        shift,
        regroup q d (pack ds) (length ds),
        code_at q d (pack ds) (2 ^ (length ds * 3)) h.0 (pack-lt ds h.1),
        dimension_info_lem d h.0,
        loop_lem ds (q * 8 + d) (if is_special_type (class_of d) then count + 1 else count) h.1
            (omega arith),
      )
      (ap (λ (n : ℕ). some (map info_of (d ∷ ds), n)) (ground arith))

-- The loop starts with no bits above the code.
start : (p t : ℕ) → 0 * t + p ≡ p
start p t = omega arith

length-map : (ds : List ℕ) → length (map info_of ds) ≡ length ds
length-map [] = refl
length-map (d ∷ ds) = ap suc (length-map ds)

-- A combined code of up to ten dimensions, which a `uint32_t` holds, is taken apart into its codes, each
-- with its own flag, prefix and class, and with the number of special ones. No exception is thrown.
pub deconstruct_tle-pack :
    (ds : List ℕ)
    → AreCodes ds
    → length ds ≤ 10
    → (pack ds < 2 ^ 32)
      × (deconstruct_tle (pack ds) (length ds) ≡ some (map info_of ds, special_count ds))
unfolding deconstruct_tle
deconstruct_tle-pack ds h few =
    let bits : length ds * 3 ≤ 30 = omega arith in
    let room : 2 ^ (length ds * 3) ≤ 2 ^ 30 = pow-le-pow_right (omega arith) bits in
    let loop : deconstruct_loop (length ds) (pack ds) 0 ≡ some (map info_of ds, special_count ds) =
      ap (λ (t : ℕ). deconstruct_loop (length ds) t 0) (sym (start _ _))
      ∙ loop_lem ds 0 0 h (omega arith)
      ∙ ap (λ (n : ℕ). some (map info_of ds, n)) (omega arith) in
    (
      omega (arith, pack-lt ds h),
      rw (loop, le→not_ltb (special_count ds) (length ds) (special_count-le ds), length-map ds)
          (ap (λ (b : Bool). if b then some (map info_of ds, special_count ds) else none)
            ((==_iff _ _).1 refl)),
    )
