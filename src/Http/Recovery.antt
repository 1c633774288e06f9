-- ===== src/Http/Recovery.antt =====
-- components/http/middleware/recovery.go: a handler's panic becomes a response, and the stack is printed. A
-- text is a list of code points; what the runtime knows of a program counter is the parameter `Symbols`, and
-- `read_file` is `ioutil.ReadFile`, none for an error.
pub mod Printed
pub mod Tests
use j7f.Base.{
  ℕ, zero, suc, ◌+◌, ◌-◌, ◌/◌, ◌%◌, Bool, true, false, List, [], ◌∷◌, ◌++◌, Option, none, some,
  Text, codes, ltb, ◌==◌, if◌then◌else◌, get_elem?, drop, map, same_text, ◌⊎◌, inl, inr,
}
use j7f.Base.Int.{ℤ, pos, negsuc}
use j7f.Strconv.{itoa}
use j7f.Strings.{index, last_index, split, trim_space}
use j7f.Errors.Frames.{Symbols}

abbrev pub dunno : Text
dunno = codes "???"

-- `source`: lines are counted from one.
pub source : List Text → ℤ → Text
source lines (negsuc n) = dunno
source lines (pos zero) = dunno
source lines (pos (suc n)) = elim (get_elem? lines n) [ none ↦ dunno | some line ↦ trim_space line ]

-- What stands behind an index, if there is one.
pub behind : ℤ → Text → Text
behind (pos i) name = drop (suc i) name
behind (negsuc n) name = name

abbrev pub center_dot : ℕ
center_dot = 0xB7

abbrev pub with_dot : ℕ → ℕ
with_dot c = if c == center_dot then b'.' else c

pub short_name : Text → Text
unfolding behind index last_index
short_name name =
    let base = behind (last_index b'/' name) name in map with_dot (behind (index b'.' base) base)

module _ (symbols : Symbols) where
  -- `function`.
  unfoldable pub function : ℕ → Text
  unfolding short_name
  function pc = elim (symbols pc) [ none ↦ dunno | some fn ↦ short_name fn.name ]

-- `%x`; sixteen digits are enough for 64 bits.
pub hex_digits : ℕ → ℕ → Text
hex_digits zero n = []
hex_digits (suc f) n =
    let digit = if ltb (n % 16) 10 then b'0' + n % 16 else b'a' + n % 16 - 10 in
    if ltb n 16 then digit ∷ [] else hex_digits f (n / 16) ++ digit ∷ []

-- What `runtime.Caller` answers for a frame.
pub record Caller : Type 0 where
  pub pc : ℕ
  pub file : Text
  pub line : ℤ

-- The line that is printed at least, and the one with the source.
pub place_line : Caller → Text
unfolding hex_digits
place_line c =
    c.file ++ codes ":" ++ itoa c.line ++ codes " (0x" ++ hex_digits 16 c.pc ++ codes ")\n"

pub source_line : Symbols → List Text → Caller → Text
unfolding source function
source_line symbols lines c =
    codes "\t" ++ function symbols c.pc ++ codes ": " ++ source lines c.line ++ codes "\n"

module _ (symbols : Symbols) (read_file : Text → Option Text) where
  -- The loop of `stack` over the frames that `Caller` has, from the one behind those skipped on, with the
  -- lines of the file that was read last.
  pub stack_from : List Text → Text → List Caller → Text
  unfolding place_line source_line
  stack_from lines last_file [] = []
  stack_from lines last_file (c ∷ cs) =
      let cached = source_line symbols lines c ++ stack_from lines last_file cs in
      let loaded : Text = elim (read_file c.file) [
        | none ↦ stack_from lines last_file cs
        | some text ↦
            source_line symbols (split b'\n' text) c ++ stack_from (split b'\n' text) c.file cs
      ] in
      place_line c ++ (if same_text c.file last_file then cached else loaded)

  unfoldable pub stack : ℕ → List Caller → Text
  unfolding stack_from
  stack skip callers = stack_from [] [] (drop skip callers)

-- How the handlers behind the middleware end.
pub data Ending : Type 0 where
  returned : Ending
  panicked : Text → Ending

-- What is logged, and the status that the request is aborted with.
pub record Recovered : Type 0 where
  pub logged : List Text
  pub aborted : Option ℕ

-- `Recovery`; the request is printed by net/http.
pub recovery : Bool → Text → Text → Ending → Recovered
recovery has_logger request printed returned = record { logged = []; aborted = none }
recovery has_logger request printed (panicked err) = record {
  logged =
      if has_logger
      then (codes "[Recovery] panic recovered:\n"
          ++ request
          ++ codes "\n"
          ++ err
          ++ codes "\n"
          ++ printed
          ++ codes " ")
        ∷ []
      else [];
  aborted = some 500;
}
