-- ===== src/Dict.antt =====
-- Python's `dict` and `collections.OrderedDict`: an association list in insertion order. A write to
-- a key that is there keeps its place, a write to a new key goes to the end; `pop` drops the key.
pub mod Laws
pub mod Tally
use deer_seek_backend.Prelude.{
  Bool, false, Option, none, some, List, [], ◌∷◌, ◌++◌, map, Eq, ◌==◌, if◌then◌else◌,
}

abbrev pub Dict {ℓ κ} : Type ℓ → Type κ → Type (ℓ ⊔ κ)
Dict K V = List (K × V)

module _ {ℓ κ} {K : Type ℓ} {V : Type κ} where
  abbrev pub keys : Dict K V → List K
  keys = map (λ e. e.0)

  abbrev pub values : Dict K V → List V
  values = map (λ e. e.1)

module _ {ℓ κ} {K : Type ℓ} {V : Type κ} ⦃e : Eq K⦄ where
  -- d.get(k)
  unfoldable pub get : Dict K V → K → Option V
  get [] k = none
  get ((j, v) ∷ m) k = if j == k then some v else get m k

  -- k in d
  unfoldable pub has : Dict K V → K → Bool
  unfolding get
  has d k = elim (get d k) [ none ↦ false | some _ ↦ Bool.true ]

  -- d.get(k, default)
  unfoldable pub get_or : Dict K V → K → V → V
  unfolding get
  get_or d k v = elim (get d k) [ none ↦ v | some w ↦ w ]

  -- d[k] = v
  unfoldable pub put : Dict K V → K → V → Dict K V
  put [] k v = (k, v) ∷ []
  put ((j, w) ∷ m) k v = let rest = put m k v in if j == k then (j, v) ∷ m else (j, w) ∷ rest

  -- d.pop(k, None), del d[k]
  unfoldable pub pop : Dict K V → K → Dict K V
  pop [] k = []
  pop ((j, w) ∷ m) k = let rest = pop m k in if j == k then rest else (j, w) ∷ rest

  -- OrderedDict.move_to_end(k)
  unfoldable pub move_to_end : Dict K V → K → Dict K V
  unfolding get pop
  move_to_end d k = elim (get d k) [ none ↦ d | some v ↦ pop d k ++ (k, v) ∷ [] ]
