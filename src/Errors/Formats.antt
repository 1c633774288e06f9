-- ===== src/Errors/Formats.antt =====
-- The texts that the `Format` methods write.
use j7f.Base.{◌≡◌, refl, sym, ap, ◌∙◌, true, false, [], ◌∷◌, ◌++◌, append_assoc, append-nil, Text}
use j7f.Errors.Frames.{Symbols, verb_v, verb_s, stack_format}
use j7f.Errors.{Err, plain, business, with_stack, with_message, error_text, cause_of, format}

module _ (symbols : Symbols) (quote : Text → Text) where
  pub format_text :
      (e : Err)
      → (format symbols quote false verb_v e ≡ error_text e)
        × (format symbols quote false verb_s e ≡ error_text e)
        × (format symbols quote true verb_s e ≡ error_text e)
  unfolding format error_text
  format_text (plain t) = (refl, refl, refl)
  format_text (business e) = (refl, refl, refl)
  format_text (with_stack e st) = (refl, refl, refl)
  format_text (with_message e msg) = (refl, refl, refl)

  -- What `%+v` writes of an error begins with the text of its cause.
  pub format_cause :
      (e : Err)
      → (rest : Text) × (format symbols quote true verb_v e ≡ error_text (cause_of e) ++ rest)
  unfolding format error_text cause_of
  format_cause (plain t) = ([], sym (append-nil t))
  format_cause (business e) = (stack_format symbols true verb_v e.stack, refl)
  format_cause (with_stack e st) =
      let (rest, p) = format_cause e in
      let more = stack_format symbols true verb_v st in
      (rest ++ more, ap (λ t. t ++ more) p ∙ append_assoc (error_text (cause_of e)) rest more)
  format_cause (with_message e msg) =
      let (rest, p) = format_cause e in
      let more = b'\n' ∷ msg in
      let told : format symbols quote true verb_v (with_message e msg)
          ≡ format symbols quote true verb_v e ++ more =
        refl in
      (
        rest ++ more,
        told ∙ (ap (λ t. t ++ more) p ∙ append_assoc (error_text (cause_of e)) rest more),
      )
