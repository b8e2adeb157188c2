-- ===== src/Tests/Printf.antt =====
-- Numbers in decimal.
use hyu_ele.Base.{ℕ, ◌≡◌, ◌≤◌, refl, true, some, List, length, arith, inl}
use hyu_ele.Base.Int.{pos, negsuc}
use hyu_ele.Printf.{printint, atoi}
use hyu_ele.Printf.Decimal.{printint-fits, atoi-printint}

-- -2147483648
printint-fits_example :
    (out : List ℕ) × (printint (negsuc 2147483647) 10 true ≡ some out) × (length out ≤ 11)
printint-fits_example =
    printint-fits (negsuc 2147483647) 10 true (inl refl) (omega arith) (omega arith)

atoi-printint_example :
    (out : List ℕ) × (printint (pos 3021) 10 true ≡ some out) × (atoi out ≡ 3021)
atoi-printint_example = atoi-printint 3021 (omega arith)
