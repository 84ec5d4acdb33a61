-- ===== src/Outbound/Reading.antt =====
-- outbound.py, the read loop of `open_request`.
use mini_siem.Base.{
  ℕ, ◌+◌, ◌-◌, ◌≤◌, min, ◌≡◌, refl, inl, inr, Option, none, some, List, [], ◌∷◌, ◌++◌, arith, ltb,
  if◌then◌else◌, nat_beq_iff, ◌==◌, nat_eq, string_eq, Bool-cases, length, length-append, take,
  Text, text_eq,
}
use mini_siem.Outbound.{
  Body, read_body, check_length, declared_ok, read_response, too_long, body, failed,
}

abbrev pub Bounded : ℕ → Body → Type 0
Bounded n (body t) = length t ≤ n
Bounded n (failed e) = Unit

read_body-Bounded :
    (max_bytes : ℕ) (chunks : List Text) (size : ℕ) (read : Text)
    → length read ≡ size
    → size ≤ max_bytes
    → Bounded max_bytes (read_body max_bytes chunks size read)
unfolding read_body
read_body-Bounded max_bytes [] size read e h = omega arith
read_body-Bounded max_bytes (chunk ∷ chunks) size read e h =
    at_chunk (take (min 65536 (max_bytes + 1 - size)) chunk) (read_body-Bounded max_bytes chunks)
  where
    at_chunk :
        (got : Text)
        → ((n : ℕ) (t : Text)
            → length t ≡ n
            → n ≤ max_bytes
            → Bounded max_bytes (read_body max_bytes chunks n t))
        → Bounded max_bytes (
            if length got == 0
            then body read
            else if ltb max_bytes (size + length got)
            then failed too_long
            else read_body max_bytes chunks (size + length got) (read ++ got))
    at_chunk got ih = elim (Bool-cases (length got == 0)) [
      | inl z ↦ rw z (omega arith)
      | inr z ↦ elim (Bool-cases (ltb max_bytes (size + length got))) [
        | inl l ↦ rw (z, l) tt
        | inr l ↦
            rw (z, l)
              (ih (size + length got) (read ++ got) (omega (arith, length-append read got))
                (ground arith))
      ]
    ]

-- A body is never longer than the limit, nor of another length than the header declared.
abbrev pub AsDeclared : ℕ → Option ℕ → Body → Type 0
AsDeclared n declared (failed e) = Unit
AsDeclared n none (body t) = length t ≤ n
AsDeclared n (some d) (body t) = (length t ≤ n) × (length t ≡ d)

check_length-AsDeclared :
    (n : ℕ) (declared : Option ℕ) (b : Body)
    → Bounded n b
    → AsDeclared n declared (check_length declared b)
check_length-AsDeclared n none (body t) h = h
check_length-AsDeclared n none (failed e) h = tt
check_length-AsDeclared n (some d) (failed e) h = tt
check_length-AsDeclared n (some d) (body t) h = elim (Bool-cases (length t == d)) [
  | inl e ↦ rw e (h, (nat_beq_iff (length t) d).0 e)
  | inr e ↦ rw e tt
]

-- Whatever the peer sends, a body that is returned is within the byte limit, and of the declared
-- length where one was declared.
pub read_response-AsDeclared :
    (max_bytes : ℕ) (declared : Option ℕ) (chunks : List Text)
    → AsDeclared max_bytes declared (read_response max_bytes declared chunks)
unfolding read_response
read_response-AsDeclared max_bytes declared chunks =
    elim (Bool-cases (declared_ok max_bytes declared)) [
      | inl e ↦ rw e (
          check_length-AsDeclared max_bytes declared (read_body max_bytes chunks 0 [])
            (read_body-Bounded max_bytes chunks 0 [] refl (omega arith)))
      | inr e ↦ rw e tt
    ]
