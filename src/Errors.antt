-- ===== src/Errors.antt =====
-- components/errors/errors.go: errors with a code, wrappers with a message or a stack, and the status
-- that a response carries. A nil error is `none`; the stack that `callers` captures is an argument.
pub mod Frames
pub mod Causes
pub mod Formats
pub mod Tests
use j7f.Base.{
  ℕ, suc, ◌+◌, ◌-◌, ◌%◌, ◌^◌, Bool, true, false, List, [], ◌∷◌, ◌++◌, Option, none, some, Text,
  codes, ltb, if◌then◌else◌,
}
use j7f.Base.Int.{ℤ, pos, negsuc, to_u64}
use j7f.Errors.Frames.{Symbols, Verb, verb_v, verb_s, verb_q, Stack, stack_format}

pub record Error : Type 0 where
  pub code : ℤ
  pub err : Text
  pub stack : Stack

-- `business` is an `*Error`, `plain` an error of another package, that has no cause.
pub data Err : Type 0 where
  plain : Text → Err
  business : Error → Err
  with_stack : Err → Stack → Err
  with_message : Err → Text → Err

pub record BusinessStatus : Type 0 where
  pub code : ℤ
  pub msg : Text

-- `int32(x)`: two's complement.
pub to_i32 : ℤ → ℤ
to_i32 x = let u = to_u64 x % 2 ^ 32 in if ltb u (2 ^ 31) then pos u else negsuc (2 ^ 32 - 1 - u)

-- The method `Error`; `withStack` has that of the error in it.
unfoldable pub error_text : Err → Text
error_text (plain t) = t
error_text (business e) = e.err
error_text (with_stack e st) = error_text e
error_text (with_message e msg) = msg ++ codes ": " ++ error_text e

abbrev pub unknown_code : ℤ
unknown_code = pos 2

pub res_header : Error → BusinessStatus
unfolding to_i32
res_header e = record { code = to_i32 e.code; msg = e.err }

-- `GetResHeader`.
pub get_res_header : Option Err → BusinessStatus
unfolding res_header
get_res_header none = record { code = pos 0; msg = codes "success" }
get_res_header (some (business e)) = res_header e
get_res_header (some (plain t)) = record { code = unknown_code; msg = t }
get_res_header (some (with_stack e st)) = record {
  code = unknown_code;
  msg = error_text (with_stack e st);
}
get_res_header (some (with_message e msg)) = record {
  code = unknown_code;
  msg = error_text (with_message e msg);
}

-- The constructors of an `*Error`. `new_from_code` is given the code's number and its text.
pub new_from_code : Stack → ℤ → Text → Error
new_from_code st code text = record { code = code; err = text; stack = st }

pub new_from_error : Stack → Err → Error
new_from_error st e = record { code = unknown_code; err = error_text e; stack = st }

pub new : Stack → Text → Error
new st t = record { code = unknown_code; err = t; stack = st }

-- `Errorf`, given the formatted text.
pub errorf : Stack → Text → Error
errorf st t = record { code = pos 0; err = t; stack = st }

-- The method `GRPCStatus`: the fields of a Status of genproto.
unfoldable pub grpc_status : Error → ℤ × Text
unfolding to_i32
grpc_status e = (to_i32 e.code, e.err)

-- The functions that wrap an error, or nil; `Wrapf` and `WithMessagef` are given the formatted text.
add_stack : Stack → Option Err → Option Err
add_stack st none = none
add_stack st (some e) = some (with_stack e st)

add_message : Option Err → Text → Option Err
add_message none msg = none
add_message (some e) msg = some (with_message e msg)

pub wrap : Stack → Option Err → Text → Option Err
wrap st none msg = none
wrap st (some e) msg = some (with_stack (with_message e msg) st)

-- The loop of `Cause`.
pub cause_of : Err → Err
cause_of (plain t) = plain t
cause_of (business e) = business e
cause_of (with_stack e st) = cause_of e
cause_of (with_message e msg) = cause_of e

pub cause : Option Err → Option Err
unfolding cause_of
cause none = none
cause (some e) = some (cause_of e)

-- What the `Format` methods write: the flag `+` first, then the verb. `quote` is `%q` of a text.
module _ (symbols : Symbols) (quote : Text → Text) where
  error_format : Bool → Verb → Error → Text
  error_format plus verb e = elim verb [
    | verb_v ↦ if plus then e.err ++ stack_format symbols true verb_v e.stack else e.err
    | verb_s ↦ e.err
    | verb_q ↦ quote e.err
    | _ ↦ []
  ]

  -- `inner` is what `%+v` writes of the error in it, `text` its text.
  wrapped_format : Bool → Verb → Text → Text → Stack → Text
  wrapped_format plus verb inner text st = elim verb [
    | verb_v ↦ if plus then inner ++ stack_format symbols true verb_v st else text
    | verb_s ↦ text
    | verb_q ↦ quote text
    | _ ↦ []
  ]

  message_format : Bool → Verb → Text → Text → Text → Text
  message_format plus verb inner text msg = elim verb [
    | verb_v ↦ if plus then inner ++ b'\n' ∷ msg else text
    | verb_s ↦ text
    | verb_q ↦ text
    | _ ↦ []
  ]

  -- The text of a plain error is written by fmt.
  pub format : Bool → Verb → Err → Text
  unfolding error_format wrapped_format message_format
  format plus verb (plain t) = elim verb [ verb_q ↦ quote t | _ ↦ t ]
  format plus verb (business e) = error_format plus verb e
  format plus verb (with_stack e st) =
      wrapped_format plus verb (format true verb_v e) (error_text e) st
  format plus verb (with_message e msg) =
      message_format plus verb (format true verb_v e) (error_text (with_message e msg)) msg
