-- ===== src/Errors/Frames.antt =====
-- components/errors/stack.go: the frames of a stack and their names. What the runtime knows of a
-- program counter is the parameter `Symbols`.
pub mod Names
use j7f.Base.{
  ℕ, zero, suc, ◌+◌, ◌-◌, ◌%◌, ◌^◌, Bool, true, false, List, [], ◌∷◌, ◌++◌, Option, none, some,
  Text, codes, ◌==◌, if◌then◌else◌,
}
use j7f.Strconv.{format_uint}

pub record Function : Type 0 where
  pub name : Text
  pub file : Text
  pub line : ℕ

-- `runtime.FuncForPC`, with `FileLine` of the function at the program counter.
abbrev pub Symbols : Type 0
Symbols = ℕ → Option Function

pub data Verb : Type 0 where
  verb_v verb_s verb_d verb_n verb_q verb_other : Verb

-- A `Frame` is a uintptr.
abbrev pub Frame : Type 0
Frame = ℕ

-- A `stack` is the program counters of at most 32 callers.
abbrev pub Stack : Type 0
Stack = List Frame

pub pc : Frame → ℕ
pc f = (f + (2 ^ 64 - 1)) % 2 ^ 64

-- What stands behind the last `/`.
unfoldable pub after_slash : Text → Text → Text
after_slash acc [] = acc
after_slash acc (c ∷ t) = after_slash (if c == b'/' then t else acc) t

-- What stands behind the first `.`.
unfoldable pub after_dot : Text → Option Text
after_dot [] = none
after_dot (c ∷ t) = let rest = after_dot t in if c == b'.' then some t else rest

unfoldable pub funcname : Text → Text
unfolding after_slash after_dot
funcname name =
    let base = after_slash name name in elim (after_dot base) [ none ↦ base | some t ↦ t ]

-- `path.Base`.
pub drop_slashes : Text → Text
drop_slashes [] = []
drop_slashes (c ∷ t) = elim (drop_slashes t) [
  | [] ↦ if c == b'/' then [] else c ∷ []
  | x ∷ r ↦ c ∷ x ∷ r
]

unfoldable pub path_base : Text → Text
unfolding drop_slashes after_slash
path_base [] = codes "."
path_base (c ∷ t) = elim (drop_slashes (c ∷ t)) [
  | [] ↦ codes "/"
  | x ∷ r ↦ after_slash (x ∷ r) (x ∷ r)
]

module _ (symbols : Symbols) where
  pub file : Frame → Text
  unfolding pc
  file f = elim (symbols (pc f)) [ none ↦ codes "unknown" | some fn ↦ fn.file ]

  pub line : Frame → ℕ
  unfolding pc
  line f = elim (symbols (pc f)) [ none ↦ 0 | some fn ↦ fn.line ]

  -- `Frame.Format`, the flag `+` first.
  pub frame_source : Bool → Frame → Text
  unfolding pc file path_base
  frame_source true f = elim (symbols (pc f)) [
    | none ↦ codes "unknown"
    | some fn ↦ fn.name ++ codes "\n\t" ++ fn.file
  ]
  frame_source false f = path_base (file f)

  pub frame_format : Bool → Verb → Frame → Text
  unfolding frame_source line funcname pc
  frame_format plus verb_s f = frame_source plus f
  frame_format plus verb_d f = format_uint (line f)
  frame_format plus verb_n f = elim (symbols (pc f)) [ none ↦ [] | some fn ↦ funcname fn.name ]
  frame_format plus verb_v f = frame_source plus f ++ codes ":" ++ format_uint (line f)
  frame_format plus verb_q f = []
  frame_format plus verb_other f = []

  pub frames_format : Stack → Text
  unfolding frame_format
  frames_format [] = []
  frames_format (f ∷ fs) = (codes "\n" ++ frame_format true verb_v f) ++ frames_format fs

  -- `stack.Format` writes nothing but for `%+v`.
  pub stack_format : Bool → Verb → Stack → Text
  unfolding frames_format
  stack_format true verb_v st = frames_format st
  stack_format false verb_v st = []
  stack_format plus verb_s st = []
  stack_format plus verb_d st = []
  stack_format plus verb_n st = []
  stack_format plus verb_q st = []
  stack_format plus verb_other st = []
