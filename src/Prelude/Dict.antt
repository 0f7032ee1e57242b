-- ===== src/Prelude/Dict.antt =====
-- Python dictionaries with text keys, as association lists: the first entry of a key counts.
use Prim.Native.String.{String}
use mathlib.Core.Path.{◌≡◌, refl}
use mathlib.Core.Logic.{◌≢◌}
use mathlib.Core.Option.{Option, none, some}
use mathlib.Core.List.{List, [], ◌∷◌, ◌++◌}
use native.Mathlib.Omega.{arith}
use text.Mathlib.TextEquality.{eq_iff}
use gigaevo_platform.Prelude.Tests.{if◌then◌else◌, or_else}
use gigaevo_platform.Prelude.Eq.{◌==◌, string_eq}

abbrev pub Dict {ℓ} : Type ℓ → Type ℓ
Dict V = List (String × V)

module _ {ℓ} {V : Type ℓ} where
  -- `d.get(k)`
  unfoldable pub get : Dict V → String → Option V
  get [] k = none
  get ((j, v) ∷ d) k = if j == k then some v else get d k

  -- `d[k] = v`
  unfoldable pub put : Dict V → String → V → Dict V
  put [] k v = (k, v) ∷ []
  put ((j, w) ∷ d) k v = if j == k then (k, v) ∷ d else (j, w) ∷ put d k v

  pub get-put :
      (d : Dict V) (new old : String) (w : V)
      → get (put d new w) old ≡ (if new == old then some w else get d old)
  unfolding get put
  get-put [] new old w = refl
  get-put ((i, u) ∷ d) new old w =
      ground (arith, eq_iff new old, eq_iff i new, eq_iff i old, get-put d new old w)

  pub get-append : (c d : Dict V) (k : String) → get (c ++ d) k ≡ or_else (get c k) (get d k)
  unfolding get
  get-append [] d k = refl
  get-append ((j, v) ∷ c) d k = ground (arith, get-append c d k)

  -- A dictionary with an entry is not empty.
  pub ne-nil_of_get : (d : Dict V) (k : String) {v : V} → get d k ≡ some v → d ≢ []
  unfolding get
  ne-nil_of_get [] k h p = cc
  ne-nil_of_get (e ∷ d) k h p = cc
