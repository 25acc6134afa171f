-- ===== src/Int32.antt =====
-- Go's `int32`: a signed integer whose operations wrap around at 32 bits.
use pgo_eval.Base.{ℕ, ◌+◌, ◌-◌, ◌%◌, ◌^◌, ◌<◌, ◌≡◌, sym, ap, ◌∙◌, arith, ltb, if◌then◌else◌}
use pgo_eval.Base.Int.{ℤ, pos, negsuc, ◌+ℤ◌, +ℤ_comm, +ℤ_assoc}

-- The bit pattern of an integer, modulo 2 ^ 32.
unfoldable pub bits : ℤ → ℕ
bits (pos n) = n % 2 ^ 32
bits (negsuc n) = 2 ^ 32 - 1 - n % 2 ^ 32

-- The `int32` with a bit pattern.
unfoldable pub of_bits : ℕ → ℤ
of_bits u = if ltb u (2 ^ 31) then pos u else negsuc (2 ^ 32 - 1 - u)

unfoldable pub wrap : ℤ → ℤ
wrap a = of_bits (bits a)

abbrev pub IsInt32 : ℤ → Type 0
IsInt32 (pos n) = n < 2 ^ 31
IsInt32 (negsuc n) = n < 2 ^ 31

pub wrap-IsInt32 : (a : ℤ) → IsInt32 (wrap a)
unfolding wrap of_bits bits
wrap-IsInt32 (pos n) = ground arith
wrap-IsInt32 (negsuc n) = ground arith

pub wrap-eq_self : (a : ℤ) → IsInt32 a → wrap a ≡ a
unfolding wrap of_bits bits
wrap-eq_self (pos n) h = ground arith
wrap-eq_self (negsuc n) h = ground arith

bits-lt : (a : ℤ) → bits a < 2 ^ 32
unfolding bits
bits-lt (pos n) = omega arith
bits-lt (negsuc n) = omega arith

bits-of_bits : (u : ℕ) → u < 2 ^ 32 → bits (of_bits u) ≡ u
unfolding bits of_bits
bits-of_bits u h = ground arith

bits-+ℤ : (a b : ℤ) → bits (a +ℤ b) ≡ (bits a + bits b) % 2 ^ 32
unfolding bits ◌+ℤ◌
bits-+ℤ (pos n) (pos m) = ground arith
bits-+ℤ (pos n) (negsuc m) = ground arith
bits-+ℤ (negsuc n) (pos m) = ground arith
bits-+ℤ (negsuc n) (negsuc m) = ground arith

pub wrap-add : (a b : ℤ) → wrap (wrap a +ℤ b) ≡ wrap (a +ℤ b)
unfolding wrap
wrap-add a b = ap of_bits (
    rw (bits-+ℤ (of_bits (bits a)) b, bits-+ℤ a b, bits-of_bits (bits a) (bits-lt a)) (omega arith))

-- Sums do not depend on the order of their terms, also where they overflow.
pub wrap_swap : (a b c : ℤ) → wrap (wrap (a +ℤ b) +ℤ c) ≡ wrap (wrap (a +ℤ c) +ℤ b)
wrap_swap a b c =
    wrap-add (a +ℤ b) c
    ∙ ap wrap (+ℤ_assoc a b c ∙ ap (◌+ℤ◌ a) (+ℤ_comm b c) ∙ sym (+ℤ_assoc a c b))
    ∙ sym (wrap-add (a +ℤ c) b)
