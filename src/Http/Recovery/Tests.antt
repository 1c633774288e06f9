-- ===== src/Http/Recovery/Tests.antt =====
-- Two frames of one file.
use j7f.Base.{◌≡◌, refl, List, [], ◌∷◌, Option, some, Text, codes, drop}
use j7f.Base.Int.{pos}
use j7f.Strconv.{itoa, format_uint}
use j7f.Strings.{split, trim_space}
use j7f.Errors.Frames.{Symbols, Function}
use j7f.Http.Recovery.{Caller, stack}
use j7f.Http.Recovery.Printed.{frames_text, stack_lem}

abbrev a_function : Function
a_function = record { name = codes "code.io/a/b.(*T).Run"; file = codes "b.go"; line = 7 }

abbrev all_run : Symbols
all_run pc = some a_function

abbrev two_lines : Text → Option Text
two_lines file = some (codes " a := 1\n\tb()")

abbrev some_callers : List Caller
some_callers =
    record { pc = 3; file = codes "c.go"; line = pos 1 }
    ∷ record { pc = 1; file = codes "b.go"; line = pos 1 }
    ∷ record { pc = 26; file = codes "b.go"; line = pos 2 }
    ∷ []

stack_lem_example :
    stack all_run two_lines 1 some_callers ≡ frames_text all_run two_lines (drop 1 some_callers)
stack_lem_example = stack_lem all_run two_lines 1 some_callers (refl, (refl, tt))

stack_run :
    stack all_run two_lines 1 some_callers
    ≡ codes "b.go:1 (0x1)\n\t(*T).Run: a := 1\nb.go:2 (0x1a)\n\t(*T).Run: b()\n"
unfolding stack itoa format_uint split trim_space
stack_run = refl
