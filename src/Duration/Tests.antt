-- ===== src/Duration/Tests.antt =====
-- Examples for VDuration in source/containers/vinstant.cpp.
use code_vault.Base.{◌≡◌, refl, pos, negsuc}
use code_vault.Duration.{unspecified, positive_infinity, vs64, plus, minus, negate}
use code_vault.Duration.Spec.{view, sum, StandsFor, plus_lem}
use code_vault.Duration.Arithmetic.{minus-eq-plus}

-- The negative of the least specific duration is the one that is not specified.
negate_least : negate (negsuc 0x7ffffffffffffffe) ≡ unspecified
unfolding negate
negate_least = refl

plus_lem_example : StandsFor (sum (view (pos 5)) (view (negsuc 8))) (plus (pos 5) (negsuc 8))
unfolding vs64
plus_lem_example = plus_lem (pos 5) (negsuc 8) (λ e. (refl, refl))

minus-eq-plus_example : minus positive_infinity (pos 5) ≡ plus positive_infinity (negate (pos 5))
unfolding negate
minus-eq-plus_example = minus-eq-plus positive_infinity (pos 5) (λ e. refl)
