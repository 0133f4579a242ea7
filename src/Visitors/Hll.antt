-- ===== src/Visitors/Hll.antt =====
-- visitors.rs: `Hll`, the sketch of 4096 registers, and its estimate. The hash of a key is a
-- parameter of those that use it: `DefaultHasher` is not specified.
pub mod Laws
pub mod Sets
use tonggeret.Base.{
  ℕ, zero, suc, ◌+◌, ◌*◌, ◌/◌, ◌%◌, ◌^◌, ◌≡◌, refl, Bool, true, false, Option, none, some, List, [],
  ◌∷◌, min, max, ltb, leb, ◌==◌, if◌then◌else◌, replicate, map,
}
use mathlib.Core.List.{foldl}

abbrev pub hll_m : ℕ
hll_m = 4096

-- `Hll`
pub record Hll : Type 0 where
  pub registers : List ℕ

-- `Hll::new`
unfoldable pub new : Hll
new = record { registers = replicate hll_m 0 }

-- `leading_zeros` of a number below 2 ^ width
unfoldable pub leading_zeros : ℕ → ℕ → ℕ
leading_zeros zero n = 0
leading_zeros (suc width) n = if ltb n (2 ^ width) then suc (leading_zeros width n) else 0

-- `(hash >> (64 - HLL_P)) as usize`
unfoldable pub index_of : ℕ → ℕ
index_of hash = hash / 2 ^ 52

-- `(hash << HLL_P).leading_zeros() + 1`, at most `u8::MAX`
unfoldable pub rho_of : ℕ → ℕ
rho_of hash = min (leading_zeros 64 (hash * 2 ^ 12 % 2 ^ 64) + 1) 255

-- `if let Some(slot) = registers.get_mut(idx) { *slot = (*slot).max(rho) }`
unfoldable pub raise : ℕ → ℕ → List ℕ → List ℕ
raise i rho [] = []
raise zero rho (r ∷ rs) = max r rho ∷ rs
raise (suc i) rho (r ∷ rs) = r ∷ raise i rho rs

-- `Hll::add_hash`
unfoldable pub add_hash : ℕ → Hll → Hll
add_hash hash h = record h { registers = raise (index_of hash) (rho_of hash) h.registers }

-- `Hll::add`, by the hash of a key
unfoldable pub add : {Key : Type 0} → (Key → ℕ) → Key → Hll → Hll
add hash_key key h = add_hash (hash_key key) h

-- many visitors, the first one first
unfoldable pub add_all : List ℕ → Hll → Hll
add_all [] h = h
add_all (hash ∷ hashes) h = add_all hashes (add_hash hash h)

-- The arithmetic of `f64` that the estimate uses; `to_u64` is `value.round() as u64`.
pub record Floats : Type 1 where
  pub F64 : Type 0
  pub of_ℕ : ℕ → F64
  pub c_0_7213 : F64
  pub c_1_079 : F64
  pub c_2_5 : F64
  pub plus : F64 → F64 → F64
  pub times : F64 → F64 → F64
  pub over : F64 → F64 → F64
  pub at_most : F64 → F64 → Bool
  pub powi_2 : ℕ → F64
  pub ln : F64 → F64
  pub to_u64 : F64 → ℕ

-- `fold(0u32, |acc, &r| acc + u32::from(r == 0))`
unfoldable pub count_zeros : List ℕ → ℕ
count_zeros [] = 0
count_zeros (r ∷ rs) = (if r == 0 then 1 else 0) + count_zeros rs

module _ (floats : Floats) where
  open floats use {
    F64, of_ℕ, c_0_7213, c_1_079, c_2_5, plus, times, over, at_most, powi_2, ln, to_u64,
  }

  -- the sum of 2 ^ -r over the registers
  unfoldable pub harmonic : List ℕ → F64
  harmonic rs = foldl plus (of_ℕ 0) (map powi_2 rs)

  unfoldable pub raw_estimate : List ℕ → F64
  raw_estimate rs =
      let m = of_ℕ hll_m in
      let alpha = over c_0_7213 (plus (of_ℕ 1) (over c_1_079 m)) in
      over (times (times alpha m) m) (harmonic rs)

  -- `HLL_M_F64 * (HLL_M_F64 / f64::from(zeros)).ln()`
  unfoldable pub linear_count : ℕ → F64
  linear_count zeros = times (of_ℕ hll_m) (ln (over (of_ℕ hll_m) (of_ℕ zeros)))

  -- `Hll::estimate`
  unfoldable pub estimate : Hll → ℕ
  estimate h =
      let raw = raw_estimate h.registers in
      let zeros = count_zeros h.registers in
      if at_most raw (times c_2_5 (of_ℕ hll_m))
      then (if ltb 0 zeros then to_u64 (linear_count zeros) else to_u64 raw)
      else to_u64 raw
