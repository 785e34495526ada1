-- ===== src/Staging/Delivery.antt =====
-- distributed-fs/managed_file_service.go: the bytes that the reader of `stageReader` delivers.
use go_infra_lab.Common.{ℕ, List, [], ◌∷◌, ◌++◌, ◌≡◌, ◌⊎◌, inl, inr, refl, ap, subst, arith}
use go_infra_lab.Action.{Error, Result, ok, err}
use package.go_infra_lab.Staging.{Reader, more, eof, read_failed}

-- What a reader delivers before its end, or the error that stops it.
abbrev pub delivered : Reader → Result (List ℕ)
delivered [] = ok []
delivered ((piece, status) ∷ reads) = elim status [
  | more ↦ elim (delivered reads) [ ok bytes ↦ ok (piece ++ bytes) | err e ↦ err e ]
  | eof ↦ ok piece
  | read_failed e ↦ err e
]

pub Result-cases :
    {A : Type 0} (r : Result A) → ((a : A) × (r ≡ ok a)) ⊎ ((e : Error) × (r ≡ err e))
Result-cases (ok a) = inl (a, refl)
Result-cases (err e) = inr (e, refl)

pub ok_inj : {xs ys : List ℕ} → ok xs ≡ ok ys → xs ≡ ys
ok_inj e = ap (λ r. elim r [ ok bytes ↦ bytes | err e ↦ [] ]) e

pub delivered_more :
    (piece : List ℕ) (reads : Reader) (bytes : List ℕ)
    → delivered ((piece, more) ∷ reads) ≡ ok bytes
    → (rest : List ℕ) × (delivered reads ≡ ok rest) × (piece ++ rest ≡ bytes)
delivered_more piece reads bytes h = elim (Result-cases (delivered reads)) [
  | inl (rest, e) ↦ (
    rest,
    e,
    ok_inj
        (subst (λ r. (elim r [ ok bytes ↦ ok (piece ++ bytes) | err e ↦ err e ]) ≡ ok bytes) e h),
  )
  | inr (_, e) ↦ ground arith
]
