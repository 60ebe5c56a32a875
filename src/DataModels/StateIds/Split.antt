-- ===== src/DataModels/StateIds/Split.antt =====
-- strings.LastIndex(s, "-") with the two parts of the string around it.
use xdb.Prelude.{
  ◌≡◌, ◌≢◌, refl, arith, [], ◌∷◌, ◌++◌, Option, none, some, if◌then◌else◌, ◌==◌, GoString, All,
}

pub split_last_hyphen : GoString → Option (GoString × GoString)
split_last_hyphen [] = none
split_last_hyphen (c ∷ s) = elim (split_last_hyphen s) [
  | some (before, after) ↦ some (c ∷ before, after)
  | none ↦ if c == b'-' then some ([], s) else none
]

split_last_hyphen-none : (s : GoString) → All (λ c. c ≢ b'-') s → split_last_hyphen s ≡ none
unfolding split_last_hyphen
split_last_hyphen-none [] h = refl
split_last_hyphen-none (c ∷ s) h = ground (arith, split_last_hyphen-none s h.1, h.0)

pub split_last_hyphen-append :
    (s t : GoString) → All (λ c. c ≢ b'-') t → split_last_hyphen (s ++ b'-' ∷ t) ≡ some (s, t)
unfolding split_last_hyphen
split_last_hyphen-append [] t h = rw (split_last_hyphen-none t h, split_last_hyphen)
split_last_hyphen-append (c ∷ s) t h = rw (split_last_hyphen-append s t h, split_last_hyphen)
