-- ===== src/Prelude/Keys.antt =====
-- The types that serve as keys of maps: numbers, Go's strings, and pairs of keys.
use Prim.Native.Nat.{ℕ}
use Prim.Native.Char.{code}
use Prim.Native.String.{String}
use mathlib.Core.Path.{◌≡◌, refl}
use mathlib.Core.List.{List, [], ◌∷◌}
use mathlib.Core.Option.{some}
use native.Mathlib.Decide.{ℕ_discrete}
use xdb.Prelude.Maps.{Key, GoMap, get, set}

-- A Go string is a sequence of bytes.
abbrev pub GoString : Type 0
GoString = List ℕ

-- The bytes of an ASCII literal.
abbrev pub codes : String → GoString
codes String.[] = []
codes (String.◌∷◌ c s) = code c ∷ codes s

unfoldable pub string_discrete : Discrete GoString
unfolding ℕ_discrete
string_discrete = hlevel ℕ_discrete

unfoldable pub pair_discrete : {A B : Type 0} → Discrete A → Discrete B → Discrete (A × B)
pair_discrete a b = hlevel (a, b)

instance abbrev pub nat_key : Key ℕ
nat_key = record { same = ℕ_discrete }

instance abbrev pub string_key : Key GoString
string_key = record { same = string_discrete }

instance abbrev pub pair_key : {A B : Type 0} ⦃a : Key A⦄ ⦃b : Key B⦄ → Key (A × B)
pair_key ⦃a⦄ ⦃b⦄ = record { same = pair_discrete a.same b.same }

abbrev sample : GoMap (ℕ × GoString) ℕ
sample = set (set [] (1, codes "ab") 7) (1, codes "ac") 8

lookup_sample : get sample (1, codes "ab") ≡ some 7
unfolding get set string_discrete pair_discrete ℕ_discrete
lookup_sample = refl
