-- ===== src/Render/RoundTrip.antt =====
-- The ordinal of a member's name, and back: no two pods share a name.
use distributed_kv_data_stor.Prelude.{
  ℕ, zero, suc, ◌+◌, ◌-◌, ◌*◌, ◌/◌, ◌%◌, ◌^◌, ◌≤◌, ◌<◌, Str, str_eq_iff, str_eq_refl, ◌≡◌, refl,
  sym, ap, ◌∙◌, true, false, ◌&&◌, some, [], ◌∷◌, ◌++◌, append_assoc, append-nil, ltb, leb, ◌==◌,
  arith, Bool-cases, Option-cases, inl, inr,
}
use mathlib.Core.Option.{some-injective}
use distributed_kv_data_stor.HashRing.Fnv.{itoa, itoa_fuel}
use distributed_kv_data_stor.Render.{
  cut_prefix, parse_digits, parse_unsigned, atoi, ClusterName, member_id, exact_ordinal, ordinal,
}

cut_prefix-append : (p s : Str) → cut_prefix (p ++ s) p ≡ some s
unfolding cut_prefix
cut_prefix-append [] [] = refl
cut_prefix-append [] (c ∷ s) = refl
cut_prefix-append (c ∷ p) s = ground (arith, cut_prefix-append p s)

-- What is cut is what follows the prefix.
cut_prefix-rejoin : (s p t : Str) → cut_prefix s p ≡ some t → s ≡ p ++ t
unfolding cut_prefix
cut_prefix-rejoin [] [] t h = some-injective [] t h
cut_prefix-rejoin (c ∷ s) [] t h = some-injective (c ∷ s) t h
cut_prefix-rejoin [] (p ∷ ps) t h = absurd (ground arith)
cut_prefix-rejoin (c ∷ s) (p ∷ ps) t h = ground (arith, cut_prefix-rejoin s ps t)

digit_step :
    (d acc : ℕ) (rest : Str)
    → d < 10
    → parse_digits ((b'0' + d) ∷ rest) acc ≡ parse_digits rest (acc * 10 + d)
unfolding parse_digits
digit_step d acc rest h =
    let digit : (leb b'0' (b'0' + d) && leb (b'0' + d) b'9') ≡ true = ground arith in
    let value : acc * 10 + (b'0' + d - b'0') ≡ acc * 10 + d = omega arith in
    rw digit (ap (parse_digits rest) value)

-- The digits of `n` in front of any text are read back as `n`.
parse_digits-itoa :
    (f n : ℕ) (rest : Str) → n < f → parse_digits (itoa_fuel f n ++ rest) 0 ≡ parse_digits rest n
unfolding itoa_fuel
parse_digits-itoa zero n rest h = absurd (omega arith)
parse_digits-itoa (suc f) n rest h = elim (Bool-cases (ltb n 10)) [
  | inl small ↦ rw small (digit_step n 0 rest (ground arith) ∙ ap (parse_digits rest) (omega arith))
  | inr big ↦ rw big (
      ap (λ t. parse_digits t 0) (append_assoc (itoa_fuel f (n / 10)) ((b'0' + n % 10) ∷ []) rest)
      ∙ parse_digits-itoa f (n / 10) ((b'0' + n % 10) ∷ rest) (ground arith)
      ∙ digit_step (n % 10) (n / 10) rest (omega arith)
      ∙ ap (parse_digits rest) (omega arith))
]

-- The first of the digits.
record FirstDigit (s : Str) : Type 0 where
  first : ℕ
  rest : Str
  exact : s ≡ first ∷ rest
  above : b'0' ≤ first

itoa-FirstDigit : (f n : ℕ) → FirstDigit (itoa_fuel (suc f) n)
unfolding itoa_fuel
itoa-FirstDigit zero n = elim (Bool-cases (ltb n 10)) [
  | inl small ↦ rw small (record { first = b'0' + n; rest = []; exact = refl; above = omega arith })
  | inr big ↦
      rw big (record { first = b'0' + n % 10; rest = []; exact = refl; above = omega arith })
]
itoa-FirstDigit (suc f) n = elim (Bool-cases (ltb n 10)) [
  | inl small ↦
      rw (small, itoa_fuel)
        (record { first = b'0' + n; rest = []; exact = refl; above = omega arith })
  | inr big ↦
      let front = itoa-FirstDigit f (n / 10) in
      rw (big, itoa_fuel)
        (record {
          first = front.first;
          rest = front.rest ++ (b'0' + n % 10) ∷ [];
          exact = ap (λ t. t ++ (b'0' + n % 10) ∷ []) front.exact;
          above = front.above;
        })
]

parse_unsigned-itoa :
    (limit n : ℕ) (s : Str)
    → parse_digits s 0 ≡ some n
    → n ≤ limit
    → FirstDigit s
    → parse_unsigned false limit s ≡ some (record { negative = false; size = n })
unfolding parse_unsigned
parse_unsigned-itoa limit n [] e h d = absurd (ground (arith, d.exact))
parse_unsigned-itoa limit n (c ∷ s) e h d =
    let le : leb n limit ≡ true = ground arith in rw (e, parse_unsigned) (rw le refl)

atoi-digits :
    (n : ℕ) (s : Str)
    → parse_digits s 0 ≡ some n
    → n < 2 ^ 63
    → FirstDigit s
    → atoi s ≡ some (record { negative = false; size = n })
unfolding atoi
atoi-digits n [] e h d = absurd (ground (arith, d.exact))
atoi-digits n (c ∷ s) e h d =
    let same : c ≡ d.first = ground (arith, d.exact) in
    let above : b'0' ≤ d.first = d.above in
    let minus : (c == b'-') ≡ false = ground arith in
    let plus : (c == b'+') ≡ false = ground arith in
    rw (minus) (rw (plus) (parse_unsigned-itoa (2 ^ 63 - 1) n (c ∷ s) e (omega arith) d))

-- The digits that Itoa writes are read back as the number.
atoi-itoa : (n : ℕ) → n < 2 ^ 63 → atoi (itoa n) ≡ some (record { negative = false; size = n })
unfolding itoa parse_digits
atoi-itoa n h =
    let digits : parse_digits (itoa_fuel (suc n) n) 0 ≡ some n =
      ap (λ t. parse_digits t 0) (sym (append-nil (itoa_fuel (suc n) n)))
      ∙ parse_digits-itoa (suc n) n [] (omega arith) in
    let count : suc n ≡ n + 1 = omega arith in
    ap (λ f. atoi (itoa_fuel f n)) (sym count)
    ∙ atoi-digits n (itoa_fuel (suc n) n) digits h (itoa-FirstDigit n n)

-- The ordinal of the id that the operator gives pod `i` of a cluster is `i`, for `i` an int.
pub ordinal-member_id : (c : ClusterName) (i : ℕ) → i < 2 ^ 63 → ordinal c (member_id c i) ≡ some i
unfolding ordinal member_id exact_ordinal
ordinal-member_id c i h =
    let cutting : cut_prefix (c.name ++ b'-' ∷ itoa i) (c.name ++ b'-' ∷ []) ≡ some (itoa i) =
      ap (λ t. cut_prefix t (c.name ++ b'-' ∷ [])) (sym (append_assoc c.name (b'-' ∷ []) (itoa i)))
      ∙ cut_prefix-append (c.name ++ b'-' ∷ []) (itoa i) in
    rw (cutting, ordinal, member_id) (rw (atoi-itoa i h) (rw (str_eq_refl (itoa i)) refl))

-- An id that has an ordinal is the id that the operator gives that pod.
pub member_id-ordinal :
    (c : ClusterName) (id : Str) (i : ℕ) → ordinal c id ≡ some i → member_id c i ≡ id
unfolding ordinal member_id exact_ordinal
member_id-ordinal c id i h = elim (Option-cases (cut_prefix id (c.name ++ b'-' ∷ []))) [
  | inl e ↦ absurd (ground (arith, e))
  | inr (s, e) ↦
      let joined : id ≡ (c.name ++ b'-' ∷ []) ++ s =
        cut_prefix-rejoin id (c.name ++ b'-' ∷ []) s e in
      let same : itoa i ≡ s = ground (arith, e, str_eq_iff (itoa i) s) in
      ap (λ t. c.name ++ b'-' ∷ t) same ∙ sym (append_assoc c.name (b'-' ∷ []) s) ∙ sym joined
]
