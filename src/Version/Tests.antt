-- ===== src/Version/Tests.antt =====
-- Versions compared.
use inmar_scope.Prelude.{◌≡◌, ◌≢◌, [], ◌∷◌, refl, sym, ◌∙◌, codes, arith}
use inmar_scope.Version.{
  digits_value, strtol, before_point, after_point, field, less, equal, greater, compare_from,
  cmp_version,
}
use inmar_scope.Version.Fields.{
  AllNumbers, AllDigits, decimal, printed, printed_digits, version_order, cmp_version-printed,
}
use inmar_scope.Version.Check.{json_string, json_string-printed}
use inmar_scope.Version.Lexical.{opposite, cmp_version-opposite, cmp_version_trans}

by_number : cmp_version (codes "1.9") (codes "1.10") ≡ less
unfolding cmp_version compare_from field strtol before_point after_point digits_value
by_number = refl

missing_fields : cmp_version (codes "2") (codes "2.0.0") ≡ equal
unfolding cmp_version compare_from field strtol before_point after_point digits_value
missing_fields = refl

fewer_fields : cmp_version (codes "2") (codes "2.1") ≡ less
unfolding cmp_version compare_from field strtol before_point after_point digits_value
fewer_fields = refl

one_nine-AllNumbers : AllNumbers ((1 ∷ []) ∷ (9 ∷ []) ∷ [])
unfolding AllNumbers AllDigits decimal
one_nine-AllNumbers = ground arith

one_ten-AllNumbers : AllNumbers ((1 ∷ []) ∷ (1 ∷ 0 ∷ []) ∷ [])
unfolding AllNumbers AllDigits decimal
one_ten-AllNumbers = ground arith

cmp_version-printed_example : cmp_version (codes "1.9") (codes "1.10") ≡ less
unfolding printed printed_digits decimal version_order
cmp_version-printed_example =
    cmp_version-printed ((1 ∷ []) ∷ (9 ∷ []) ∷ []) ((1 ∷ []) ∷ (1 ∷ 0 ∷ []) ∷ [])
      one_nine-AllNumbers one_ten-AllNumbers

ten_after_nine :
    cmp_version (codes "1.10") (codes "1.9") ≡ opposite (cmp_version (codes "1.9") (codes "1.10"))
ten_after_nine = cmp_version-opposite (codes "1.9") (codes "1.10")

not_greater : cmp_version (codes "2") (codes "2.0.0") ≢ greater
not_greater e = cc (sym missing_fields ∙ e)

still_less : cmp_version (codes "2.0.0") (codes "2.1") ≡ less
unfolding cmp_version compare_from field strtol before_point after_point digits_value
still_less = refl

not_greater_either : cmp_version (codes "2.0.0") (codes "2.1") ≢ greater
not_greater_either e = cc (sym still_less ∙ e)

two_before_later : cmp_version (codes "2") (codes "2.1") ≢ greater
two_before_later =
    cmp_version_trans (codes "2") (codes "2.0.0") (codes "2.1") not_greater not_greater_either

json_string-printed_example :
    json_string (codes "{ \"product_url\":\"a\\\\b\"}") (codes "product_url") ≡ codes "a\\b"
json_string-printed_example =
    json_string-printed (codes "{ ") (codes "product_url") (codes "a\\b") (codes "}") refl
