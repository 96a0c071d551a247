-- ===== src/Main/Answers.antt =====
-- Which answers an exception gets.
use mathlib.Core.Path.{subst}
use moaje_work.Prelude.{
  ◌≤◌, ◌≡◌, refl, sym, ap, ◌∙◌, Bool, false, ◌||◌, List, [], ◌∷◌, String, str_eq, any, arith,
}
use moaje_work.Main.{
  Raised, ErrorResponse, handler_of, fixed, answer, message_of, status_of, standard,
}

-- The classes whose answers show what the exception says.
abbrev pub shows_text : String → Bool
shows_text c =
    str_eq "starlette.exceptions.HTTPException" c
    || (str_eq "fastapi.exceptions.RequestValidationError" c || str_eq "ValueError" c)

handler_of-fixed :
    (mro : List String)
    → any shows_text mro ≡ false
    → ((handler_of mro).detail ≡ fixed) × (500 ≤ (handler_of mro).status_code)
unfolding handler_of
handler_of-fixed [] h = (refl, omega arith)
handler_of-fixed (c ∷ mro) h = ground (arith, handler_of-fixed mro)

answer-fixed :
    (e : Raised)
    → (handler_of e.mro).detail ≡ fixed
    → let h = handler_of e.mro in
      answer e ≡ record { code = h.code; message = standard h.code; status_code = h.status_code }
unfolding answer
answer-fixed e hidden =
    let h = handler_of e.mro in
    ap
      (λ d. record {
        code = h.code;
        message = message_of d h.code e;
        status_code = status_of d h.status_code e;
      })
      hidden

-- Two exceptions of one class that is neither HTTPException nor ValueError nor an error of
-- validation, nor inherits from these, get the same answer from the handlers, a server error,
-- whatever their texts.
pub answer_hides_text :
    (e e' : Raised)
    → e.mro ≡ e'.mro
    → any shows_text e.mro ≡ false
    → (answer e ≡ answer e') × (500 ≤ (answer e).status_code)
unfolding answer
answer_hides_text e e' same h =
    let (hidden, server) = handler_of-fixed e.mro h in
    let plain = λ (mro : List String).
      let g = handler_of mro in
      let r : ErrorResponse = record {
        code = g.code;
        message = standard g.code;
        status_code = g.status_code;
      } in
      r in
    (
      answer-fixed e hidden
          ∙ (ap plain same
              ∙ sym (answer-fixed e' (subst (λ mro. (handler_of mro).detail ≡ fixed) same hidden))),
      (let status = ap (λ (r : ErrorResponse). r.status_code) (answer-fixed e hidden) in
          omega (arith, status, server)),
    )
