-- ===== src/Http/Params/Tests.antt =====
-- A body that could not be read whole.
use j7f.Base.{ℕ, ◌≡◌, refl, [], ◌∷◌, ◌++◌, Option, none, some, Text, codes}
use j7f.Http.Params.{Context, Gin, IsKeeping, error_answer}

abbrev keeping : Gin ℕ
keeping = record {
  abort_with_error =
      λ code err c. (record c { status = some code; errors = c.errors ++ err ∷ [] }, some err);
  error = λ err c. record c { errors = c.errors ++ err ∷ [] };
}

abbrev new_context : Context ℕ
new_context = record { errors = []; status = none; keys = []; body = codes "{" }

abbrev no_json : Text → Option ℕ
no_json t = none

keeping-IsKeeping : IsKeeping keeping
keeping-IsKeeping = record { aborts = λ code err c. refl; keeps = λ err c. refl }

error_answer_run : error_answer (codes "e" ∷ []) ≡ some (400, codes "e" ∷ [])
unfolding error_answer
error_answer_run = refl
