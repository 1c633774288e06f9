-- ===== src/Log/Default.antt =====
-- internal/log/logger.go: the logger of the package grace, over the standard library's. An argument is its
-- text, and what is printed is a call of the standard logger.
use j7f.Base.{List, Text, Bool, true, false, ◌≡◌, refl}
use j7f.Base.Int.{ℤ, pos, leb_ℤ}

-- The methods of `LoggerD`.
pub data Method : Type 0 where
  info infoln warning warningln error errorln fatal fatalln : Method
  infof warningf errorf fatalf : Text → Method

-- The calls of a `log.Logger`; the last three exit with status 1.
pub data StdCall : Type 0 where
  print println : List Text → StdCall
  printf : Text → List Text → StdCall
  std_fatal std_fatalln : List Text → StdCall
  std_fatalf : Text → List Text → StdCall

unfoldable pub called : Method → List Text → StdCall
called info args = print args
called infoln args = println args
called (infof format) args = printf format args
called warning args = print args
called warningln args = println args
called (warningf format) args = printf format args
called error args = print args
called errorln args = println args
called (errorf format) args = printf format args
called fatal args = std_fatal args
called fatalln args = std_fatalln args
called (fatalf format) args = std_fatalf format args

abbrev pub exits : StdCall → Bool
exits (print args) = false
exits (println args) = false
exits (printf format args) = false
exits (std_fatal args) = true
exits (std_fatalln args) = true
exits (std_fatalf format args) = true

-- `V`.
unfoldable pub v : ℤ → Bool
v l = leb_ℤ l (pos 0)

abbrev is_fatal : Method → Bool
is_fatal fatal = true
is_fatal fatalln = true
is_fatal (fatalf format) = true
is_fatal _ = false

-- The process ends after the methods Fatal alone.
exits-called : (m : Method) (args : List Text) → exits (called m args) ≡ is_fatal m
unfolding called
exits-called info args = refl
exits-called infoln args = refl
exits-called (infof format) args = refl
exits-called warning args = refl
exits-called warningln args = refl
exits-called (warningf format) args = refl
exits-called error args = refl
exits-called errorln args = refl
exits-called (errorf format) args = refl
exits-called fatal args = refl
exits-called fatalln args = refl
exits-called (fatalf format) args = refl
