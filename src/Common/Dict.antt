-- ===== src/Common/Dict.antt =====
-- Python's `dict` with string keys, in the order of insertion.
use Prim.Native.String.{String}
use mathlib.Core.Path.{◌≡◌, refl}
use mathlib.Core.Logic.{◌≢◌}
use mathlib.Core.Option.{Option, none, some}
use mathlib.Core.List.{List, [], ◌∷◌, map}
use native.Mathlib.Omega.{arith}
use text.Mathlib.TextEquality.{eq_iff}
use llm_inference_gpu_server.Common.Tests.{str_eq, str_eq_refl, str_eq_ne, if◌then◌else◌}

abbrev pub Dict {ℓ} : Type ℓ → Type ℓ
Dict V = List (String × V)

module _ {ℓ} {V : Type ℓ} where
  -- `d.get(k)`
  unfoldable pub get : Dict V → String → Option V
  get [] k = none
  get ((j, v) ∷ d) k = if str_eq j k then some v else get d k

  -- `d[k] = v`: a key that is there keeps its place.
  unfoldable pub put : Dict V → String → V → Dict V
  put [] k v = (k, v) ∷ []
  put ((j, w) ∷ d) k v = if str_eq j k then (j, v) ∷ d else (j, w) ∷ put d k v

  -- `d.values()`
  unfoldable pub values : Dict V → List V
  values d = map (λ e. e.1) d

  pub get-put :
      (d : Dict V) (k j : String) (v : V)
      → get (put d k v) j ≡ (if str_eq k j then some v else get d j)
  unfolding get put
  get-put [] k j v = refl
  get-put ((i, w) ∷ d) k j v = ground (arith, eq_iff k j, eq_iff i k, eq_iff i j, get-put d k j v)

  pub get-put_self : (d : Dict V) (k : String) (v : V) → get (put d k v) k ≡ some v
  get-put_self d k v = rw (get-put, str_eq_refl) refl

  pub get-put_ne : (d : Dict V) (k j : String) (v : V) → k ≢ j → get (put d k v) j ≡ get d j
  get-put_ne d k j v h = rw (get-put, str_eq_ne k j h) refl

-- A map as a function, with `o` at `k`.
abbrev pub put_at {ℓ} : {V : Type ℓ} → String → Option V → (String → Option V) → String → Option V
put_at k o d j = if str_eq j k then o else d j

module _ {ℓ} {V : Type ℓ} where
  pub put_at_self : (k : String) (o : Option V) (d : String → Option V) → put_at k o d k ≡ o
  put_at_self k o d = rw (str_eq_refl k) refl

  pub put_at_other :
      (k j : String) (o : Option V) (d : String → Option V) → j ≢ k → put_at k o d j ≡ d j
  put_at_other k j o d h = rw (str_eq_ne j k h) refl
