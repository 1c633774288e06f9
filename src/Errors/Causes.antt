-- ===== src/Errors/Causes.antt =====
-- `Wrap`, `Cause` and `GetResHeader` together.
use j7f.Base.{
  ◌^◌, ◌<◌, ◌≤◌, ◌≡◌, refl, ap, ◌↔◌, subst, List, [], ◌∷◌, ◌++◌, none, some, Text, codes, arith,
}
use j7f.Base.Int.{ℤ, pos, negsuc, pos_part, neg_part}
use j7f.Errors.Frames.{Stack}
use j7f.Errors.{
  Error, Err, plain, business, with_stack, with_message, BusinessStatus, to_i32, error_text,
  unknown_code, res_header, get_res_header, new_from_code, new_from_error, new, errorf, wrap,
  cause_of, cause,
}

-- The error below all wrappers, as a relation.
pub data IsCauseOf : Err → Err → Type 0 where
  plain_root : (t : Text) → IsCauseOf (plain t) (plain t)
  business_root : (e : Error) → IsCauseOf (business e) (business e)
  below_stack : {r e : Err} (st : Stack) → IsCauseOf r e → IsCauseOf r (with_stack e st)
  below_message : {r e : Err} (msg : Text) → IsCauseOf r e → IsCauseOf r (with_message e msg)

cause_of-IsCauseOf : (e : Err) → IsCauseOf (cause_of e) e
unfolding cause_of
cause_of-IsCauseOf (plain t) = plain_root t
cause_of-IsCauseOf (business e) = business_root e
cause_of-IsCauseOf (with_stack e st) = below_stack st (cause_of-IsCauseOf e)
cause_of-IsCauseOf (with_message e msg) = below_message msg (cause_of-IsCauseOf e)

IsCauseOf→cause_of : {r e : Err} → IsCauseOf r e → cause_of e ≡ r
unfolding cause_of
IsCauseOf→cause_of (plain_root t) = refl
IsCauseOf→cause_of (business_root e) = refl
IsCauseOf→cause_of (below_stack st c) = IsCauseOf→cause_of c
IsCauseOf→cause_of (below_message msg c) = IsCauseOf→cause_of c

-- `Cause` of an error is exactly the error that is reached from it by taking off all wrappers.
cause_iff : (r e : Err) → (cause (some e) ≡ some r) ↔ IsCauseOf r e
unfolding cause
cause_iff r e = (
  λ h. let p : cause_of e ≡ r = cc h in subst (λ x. IsCauseOf x e) p (cause_of-IsCauseOf e),
  λ c. ap some (IsCauseOf→cause_of c),
)

-- The messages of the wrappers, the last one first.
messages : Err → List Text
messages (plain t) = []
messages (business e) = []
messages (with_stack e st) = messages e
messages (with_message e msg) = msg ∷ messages e

abbrev pub prefixed : List Text → Text → Text
prefixed [] t = t
prefixed (m ∷ ms) t = m ++ codes ": " ++ prefixed ms t

-- The text of an error is the text of its cause behind the messages of all wrappers, the last
-- one first, each with a colon and a space.
error_text-prefixed : (e : Err) → error_text e ≡ prefixed (messages e) (error_text (cause_of e))
unfolding error_text cause_of messages
error_text-prefixed (plain t) = refl
error_text-prefixed (business e) = refl
error_text-prefixed (with_stack e st) = error_text-prefixed e
error_text-prefixed (with_message e msg) = ap (λ t. msg ++ codes ": " ++ t) (error_text-prefixed e)

-- `Wrap` of an error with a message keeps its cause, puts the message before its text, and has
-- a header with the code Unknown and that text.
wrap_lem :
    (st : Stack) (e : Err) (msg : Text)
    → (w : Err) × (wrap st (some e) msg ≡ some w)
      × (cause (some w) ≡ cause (some e))
      × (error_text w ≡ msg ++ codes ": " ++ error_text e)
      × (get_res_header (some w) ≡ record { code = unknown_code; msg = error_text w })
unfolding wrap cause cause_of error_text get_res_header
wrap_lem st e msg = (with_stack (with_message e msg) st, refl, refl, refl, refl)

-- The integers that an int32 holds.
abbrev pub IsI32 : ℤ → Type 0
IsI32 x = (pos_part x < 2 ^ 31) × (neg_part x ≤ 2 ^ 31)

to_i32_small : (x : ℤ) → IsI32 x → to_i32 x ≡ x
unfolding to_i32
to_i32_small (pos n) h = ground arith
to_i32_small (negsuc n) h = ground arith

abbrev pub header_of : Error → BusinessStatus
header_of e = get_res_header (some (business e))

-- For a code that an int32 holds, the header of the error that `NewFromCode` makes has this
-- code and its text, that of `New` and of `NewFromError` the code Unknown, and that of `Errorf`
-- the same code as the header of no error.
made_header :
    (st : Stack) (code : ℤ) (t : Text) (e : Err)
    → IsI32 code
    → (header_of (new_from_code st code t) ≡ record { code = code; msg = t })
      × (header_of (new st t) ≡ record { code = unknown_code; msg = t })
      × (header_of (new_from_error st e) ≡ record { code = unknown_code; msg = error_text e })
      × (header_of (errorf st t) ≡ record { code = (get_res_header none).code; msg = t })
unfolding get_res_header res_header new_from_code new new_from_error errorf to_i32
made_header st code t e h =
    (rw (to_i32_small code h) refl, ground arith, ground arith, ground arith)
