-- ===== src/Axiom.antt =====
-- pkg/axiom/sanitizer.go: the sanitizer of prices and sizes, over the float operations it uses.
use spark_trade_mft_raw_data.Prelude.{
  ◌≡◌, refl, Bool, true, false, ◌||◌, ◌&&◌, not, if◌then◌else◌, if_cases, arith,
}

-- float64: `limit` is 1e15, `lt` and `eq` are the comparisons, `is_inf` is true of both infinities.
pub record Prices : Type 1 where
  pub F : Type 0
  pub zero : F
  pub limit : F
  pub lt : F → F → Bool
  pub eq : F → F → Bool
  pub is_nan : F → Bool
  pub is_inf : F → Bool
  pub abs : F → F
  pub sub : F → F → F
  pub div : F → F → F

-- zero is a finite number, not below itself and within the limit
pub record ZeroIsFinite (fl : Prices) : Type 0 where
  pub zero_nan : Prices.is_nan fl (Prices.zero fl) ≡ false
  pub zero_inf : Prices.is_inf fl (Prices.zero fl) ≡ false
  pub zero_lt : Prices.lt fl (Prices.zero fl) (Prices.zero fl) ≡ false
  pub zero_limit : Prices.lt fl (Prices.limit fl) (Prices.abs fl (Prices.zero fl)) ≡ false

module _ (fl : Prices) where
  open fl use {F, zero, limit, lt, eq, is_nan, is_inf, abs, div}

  -- DetectOverflow
  unfoldable pub detect_overflow : F → Bool
  detect_overflow value = lt limit (abs value)

  -- SanitizePrice
  unfoldable pub sanitize_price : F → F
  unfolding detect_overflow
  sanitize_price price =
      if is_nan price || (is_inf price || lt price zero)
      then zero
      else if detect_overflow price
      then zero
      else price

  -- SanitizeSize
  unfoldable pub sanitize_size : F → F
  sanitize_size size = if is_nan size || (is_inf size || lt size zero) then zero else size

  -- ClampPrice
  unfoldable pub clamp_price : F → F → F → F
  clamp_price price min max = if lt price min then min else if lt max price then max else price

  -- IsValid
  unfoldable pub is_valid : F → Bool
  is_valid value = not (is_nan value) && not (is_inf value)

  -- SafeDivide
  unfoldable pub safe_divide : F → F → F
  unfolding is_valid
  safe_divide numerator denominator =
      if eq denominator zero || (not (is_valid numerator) || not (is_valid denominator))
      then zero
      else if not (is_valid (div numerator denominator))
      then zero
      else div numerator denominator

  -- what the models downstream may rely on: finite, not negative, and for a price within the limit
  pub record IsSize (x : F) : Type 0 where
    pub valid : is_valid x ≡ true
    pub not_below : lt x zero ≡ false

  pub record IsPrice (x : F) : Type 0 where
    pub is_size : IsSize x
    pub within : detect_overflow x ≡ false

  module _ (fin : ZeroIsFinite fl) where
    zero-IsSize : IsSize zero
    unfolding is_valid
    zero-IsSize = record { valid = rw (fin.zero_nan, fin.zero_inf) refl; not_below = fin.zero_lt }

    zero-IsPrice : IsPrice zero
    unfolding detect_overflow
    zero-IsPrice = record { is_size = zero-IsSize; within = fin.zero_limit }

    checked-IsSize : (x : F) → (is_nan x || (is_inf x || lt x zero)) ≡ false → IsSize x
    unfolding is_valid
    checked-IsSize x h = record { valid = ground arith; not_below = ground arith }

    sanitize_size-IsSize : (x : F) → IsSize (sanitize_size x)
    unfolding sanitize_size
    sanitize_size-IsSize x =
        if_cases IsSize (is_nan x || (is_inf x || lt x zero)) (λ _. zero-IsSize) (checked-IsSize x)

    sanitize_price-IsPrice : (x : F) → IsPrice (sanitize_price x)
    unfolding sanitize_price
    sanitize_price-IsPrice x =
        if_cases IsPrice (is_nan x || (is_inf x || lt x zero)) (λ _. zero-IsPrice)
          (λ h.
            if_cases IsPrice (detect_overflow x) (λ _. zero-IsPrice)
              (λ k. record { is_size = checked-IsSize x h; within = k }))

    sanitize_size-kept : (x : F) → IsSize x → sanitize_size x ≡ x
    unfolding sanitize_size is_valid
    sanitize_size-kept x h = let v = h.valid in let n = h.not_below in ground arith

    sanitize_price-kept : (x : F) → IsPrice x → sanitize_price x ≡ x
    unfolding sanitize_price is_valid
    sanitize_price-kept x h =
        let v = h.is_size.valid in let n = h.is_size.not_below in let k = h.within in ground arith

    -- Whatever floats arrive: a sanitized size is finite and not negative, a sanitized price is
    -- moreover within 1e15, a float that is so already is kept by either, and SafeDivide gives a
    -- finite number, which is the quotient if both numbers and the quotient are finite and the
    -- divisor is not equal to zero. Zero is assumed to be finite, not below itself and within the
    -- limit.
    pub sanitized :
        (x y size price num den : F)
        → IsSize size
        → IsPrice price
        → is_valid num ≡ true
        → is_valid den ≡ true
        → eq den zero ≡ false
        → is_valid (div num den) ≡ true
        → IsSize (sanitize_size x)
          × IsPrice (sanitize_price x)
          × (sanitize_size (sanitize_price x) ≡ sanitize_price x)
          × (sanitize_price (sanitize_price x) ≡ sanitize_price x)
          × (is_valid (safe_divide x y) ≡ true)
          × (sanitize_size size ≡ size)
          × (sanitize_price price ≡ price)
          × (safe_divide num den ≡ div num den)
    unfolding safe_divide
    sanitized x y size price num den s p n d nz q = (
      sanitize_size-IsSize x,
      sanitize_price-IsPrice x,
      sanitize_size-kept (sanitize_price x) (sanitize_price-IsPrice x).is_size,
      sanitize_price-kept (sanitize_price x) (sanitize_price-IsPrice x),
      if_cases (λ z. is_valid z ≡ true) (eq y zero || (not (is_valid x) || not (is_valid y)))
          (λ _. zero-IsSize.valid)
          (λ _.
            if_cases (λ z. is_valid z ≡ true) (not (is_valid (div x y))) (λ _. zero-IsSize.valid)
              (λ h. ground arith)),
      sanitize_size-kept size s,
      sanitize_price-kept price p,
      rw (nz, n, d, q) refl,
    )
