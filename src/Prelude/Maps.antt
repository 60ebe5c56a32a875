-- ===== src/Prelude/Maps.antt =====
-- Go's maps, and the tables of the database by their primary key, as association lists. A loop
-- over a map goes through the list; since the theorems hold of every list, they hold of every
-- order in which Go may go through the map.
use mathlib.Core.Path.{◌≡◌, refl, sym, subst, ◌∙◌}
use mathlib.Core.Logic.{◌≢◌, ite, if_pos, if_neg}
use mathlib.Core.Option.{Option, none, some}
use mathlib.Core.Bool.{Bool, true, false}
use mathlib.Core.List.{List, [], ◌∷◌}
use native.Mathlib.Omega.{arith}

-- A type of keys: its equality is decided.
pub record Key {ℓ} (K : Type ℓ) : Type ℓ where
  pub same : Discrete K

-- What Go reads at a missing key of a map of slices or maps.
abbrev pub or_empty {ℓ} : {A : Type ℓ} → Option (List A) → List A
or_empty none = []
or_empty (some m) = m

abbrev pub is_empty {ℓ} : {A : Type ℓ} → List A → Bool
is_empty [] = true
is_empty (_ ∷ _) = false

abbrev pub GoMap {ℓ} : Type ℓ → Type ℓ → Type ℓ
GoMap K V = List (K × V)

module _ {ℓ} {K V : Type ℓ} ⦃k : Key K⦄ where
  unfoldable pub get : GoMap K V → K → Option V
  get [] i = none
  get ((j, v) ∷ m) i = ite (k.same j i) (some v) (get m i)

  unfoldable pub set : GoMap K V → K → V → GoMap K V
  set [] i v = (i, v) ∷ []
  set ((j, w) ∷ m) i v = ite (k.same j i) ((i, v) ∷ m) ((j, w) ∷ set m i v)

  unfoldable pub delete : GoMap K V → K → GoMap K V
  delete [] i = []
  delete ((j, w) ∷ m) i = ite (k.same j i) (delete m i) ((j, w) ∷ delete m i)

  pub get-set :
      (m : GoMap K V) (i j : K) (v : V) → get (set m i v) j ≡ ite (k.same i j) (some v) (get m j)
  unfolding get set
  get-set [] i j v = refl
  get-set ((i', w) ∷ m) i j v = ground (arith, get-set m i j v)

  pub get-set_self : (m : GoMap K V) (i : K) (v : V) → get (set m i v) i ≡ some v
  get-set_self m i v = get-set m i i v ∙ if_pos (k.same i i) refl _ _

  pub get-set_ne : (m : GoMap K V) (i j : K) (v : V) → i ≢ j → get (set m i v) j ≡ get m j
  get-set_ne m i j v h = get-set m i j v ∙ if_neg (k.same i j) h _ _

  pub get-delete : (m : GoMap K V) (i j : K) → get (delete m i) j ≡ ite (k.same i j) none (get m j)
  unfolding get delete
  get-delete [] i j = ground arith
  get-delete ((i', w) ∷ m) i j = ground (arith, get-delete m i j)

  pub get-delete_self : (m : GoMap K V) (i : K) → get (delete m i) i ≡ none
  get-delete_self m i = get-delete m i i ∙ if_pos (k.same i i) refl _ _

  pub get-delete_ne : (m : GoMap K V) (i j : K) → i ≢ j → get (delete m i) j ≡ get m j
  get-delete_ne m i j h = get-delete m i j ∙ if_neg (k.same i j) h _ _

  -- A map is empty when no key has a value.
  pub eq-nil_of_get : (m : GoMap K V) → ((i : K) → get m i ≡ none) → m ≡ []
  unfolding get
  eq-nil_of_get [] h = refl
  eq-nil_of_get ((j, v) ∷ m) h = ground (arith, h j, k.same j j)

  -- No key stands twice: what Go's maps and primary keys guarantee.
  abbrev pub UniqueKeys : GoMap K V → Type ℓ
  UniqueKeys [] = Unit
  UniqueKeys ((j, v) ∷ m) = (get m j ≡ none) × UniqueKeys m

  pub set-UniqueKeys : (m : GoMap K V) (i : K) (v : V) → UniqueKeys m → UniqueKeys (set m i v)
  unfolding set get
  set-UniqueKeys [] i v u = (refl, tt)
  set-UniqueKeys ((j, w) ∷ m) i v u = elim (k.same j i) [
    | yes p ↦ rw (if_pos _ p) (subst (λ x. get m x ≡ none) p u.0, u.1)
    | no n ↦ rw (if_neg _ n) (get-set_ne m i j v (λ e. n (sym e)) ∙ u.0, set-UniqueKeys m i v u.1)
  ]

  pub get-delete-none : (m : GoMap K V) (i j : K) → get m j ≡ none → get (delete m i) j ≡ none
  get-delete-none m i j h =
      get-delete m i j ∙ elim (k.same i j) [ yes p ↦ rw (if_pos _ p) | no n ↦ rw (if_neg _ n) h ]

  pub delete-UniqueKeys : (m : GoMap K V) (i : K) → UniqueKeys m → UniqueKeys (delete m i)
  unfolding delete
  delete-UniqueKeys [] i u = tt
  delete-UniqueKeys ((j, w) ∷ m) i u = elim (k.same j i) [
    | yes p ↦ rw (if_pos _ p) (delete-UniqueKeys m i u.1)
    | no n ↦ rw (if_neg _ n) (get-delete-none m i j u.0, delete-UniqueKeys m i u.1)
  ]

  -- `P` holds of every entry.
  abbrev pub AllEntries {κ} : (K → V → Type κ) → GoMap K V → Type κ
  AllEntries P [] = Unit
  AllEntries P ((j, v) ∷ m) = P j v × AllEntries P m

  pub get-AllEntries {κ} :
      (P : K → V → Type κ) (m : GoMap K V) (i : K) (v : V)
      → AllEntries P m
      → get m i ≡ some v
      → P i v
  unfolding get
  get-AllEntries P [] i v h e = absurd (cc e)
  get-AllEntries P ((j, w) ∷ m) i v h e = elim (k.same j i) [
    | yes p ↦ subst (P i) (ground arith) (subst (λ x. P x w) p h.0)
    | no n ↦ get-AllEntries P m i v h.1 (ground arith)
  ]

  pub AllEntries-set {κ} :
      (P : K → V → Type κ) (m : GoMap K V) (i : K) (v : V)
      → AllEntries P m
      → P i v
      → AllEntries P (set m i v)
  unfolding set
  AllEntries-set P [] i v h p = (p, tt)
  AllEntries-set P ((j, w) ∷ m) i v h p = elim (k.same j i) [
    | yes e ↦ rw (if_pos _ e) (p, h.1)
    | no n ↦ rw (if_neg _ n) (h.0, AllEntries-set P m i v h.1 p)
  ]

  pub AllEntries-delete {κ} :
      (P : K → V → Type κ) (m : GoMap K V) (i : K) → AllEntries P m → AllEntries P (delete m i)
  unfolding delete
  AllEntries-delete P [] i h = tt
  AllEntries-delete P ((j, w) ∷ m) i h = elim (k.same j i) [
    | yes e ↦ rw (if_pos _ e) (AllEntries-delete P m i h.1)
    | no n ↦ rw (if_neg _ n) (h.0, AllEntries-delete P m i h.1)
  ]

  pub AllEntries-map {κ κ'} :
      (P : K → V → Type κ) (Q : K → V → Type κ') (m : GoMap K V)
      → ((i : K) (v : V) → P i v → Q i v)
      → AllEntries P m
      → AllEntries Q m
  AllEntries-map P Q [] f h = tt
  AllEntries-map P Q ((j, w) ∷ m) f h = (f j w h.0, AllEntries-map P Q m f h.1)

  pub get-cons_self : (j : K) (v : V) (m : GoMap K V) → get ((j, v) ∷ m) j ≡ some v
  unfolding get
  get-cons_self j v m = if_pos (k.same j j) refl _ _

  pub get-cons_later :
      (j i : K) (w v : V) (m : GoMap K V)
      → get m j ≡ none
      → get m i ≡ some v
      → get ((j, w) ∷ m) i ≡ some v
  unfolding get
  get-cons_later j i w v m u e = ground arith

  pub AllEntries-zip {κ κ' κ''} :
      (P : K → V → Type κ) (Q : K → V → Type κ') (R : K → V → Type κ'') (m : GoMap K V)
      → ((i : K) (v : V) → P i v → Q i v → R i v)
      → AllEntries P m
      → AllEntries Q m
      → AllEntries R m
  AllEntries-zip P Q R [] f h k = tt
  AllEntries-zip P Q R ((j, w) ∷ m) f h k = (f j w h.0 k.0, AllEntries-zip P Q R m f h.1 k.1)

  pub AllEntries-get {κ} :
      (P : K → V → Type κ) (m : GoMap K V)
      → UniqueKeys m
      → ((i : K) (v : V) → get m i ≡ some v → P i v)
      → AllEntries P m
  AllEntries-get P [] u f = tt
  AllEntries-get P ((j, w) ∷ m) u f = (
    f j w (get-cons_self j w m),
    AllEntries-get P m u.1 (λ i v e. f i v (get-cons_later j i w v m u.0 e)),
  )
