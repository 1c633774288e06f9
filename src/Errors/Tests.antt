-- ===== src/Errors/Tests.antt =====
-- Errors on small inputs.
use j7f.Base.{◌≡◌, refl, [], ◌∷◌, codes}
use j7f.Base.Int.{pos}
use j7f.Errors.{Error, Err, business, with_stack, with_message, error_text}

abbrev an_error : Error
an_error = record { code = pos 10001; err = codes "timeout"; stack = 5 ∷ [] }

abbrev wrapped : Err
wrapped = with_stack (with_message (business an_error) (codes "query")) (7 ∷ [])

wrapped_text : error_text wrapped ≡ codes "query: timeout"
unfolding error_text
wrapped_text = refl
