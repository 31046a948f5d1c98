-- ===== src/Cvar/Cached.antt =====
-- The cache behind registerCvar and findCvar of src/CvarSystem.cpp.
use mathlib.Core.Path.{subst}
use spmod.Common.{ℕ, ◌≡◌, refl, ap, ◌∙◌, Bool, Bytes, Option, none, some}
use spmod.Dict.{Place, bytes_key, find}
use spmod.Cvar.{
  Cvar, State, EngineCvars, get_cvar, cached, find_pointer, find_in, find_cvar, cache_set,
  register_pointer, register_found, register_cvar, direct_set,
}

module _ {E : Type 0} (ops : EngineCvars E) (place : Place Bytes Cvar) where
  -- A variable that is given is the one that is cached under the name.
  abbrev pub IsCached : Bytes → Option Cvar × State E → Type 0
  IsCached name r = (c : Cvar) → r.0 ≡ some c → find name r.1.cvars ≡ some c

  cached-IsCached :
      (name : Bytes) (c : Cvar) (s : State E) → IsCached name (cached ops place name c s)
  unfolding cached
  cached-IsCached name c s d e = e

  find_cvar-IsCached : (name : Bytes) (s : State E) → IsCached name (find_cvar ops place name s)
  unfolding find_cvar find_in find_pointer
  find_cvar-IsCached name s = by_entry (get_cvar name s) refl
    where
      by_pointer : (o : Option ℕ) → IsCached name (find_pointer ops place name o s)
      by_pointer none c e = absurd cc
      by_pointer (some p) c e = cached-IsCached name _ s c e

      by_entry :
          (o : Option Cvar) → get_cvar name s ≡ o → IsCached name (find_in ops place name o s)
      by_entry (some d) there c e = there ∙ e
      by_entry none there c e = by_pointer (EngineCvars.get_pointer ops name s.engine) c e

  -- What is registered is cached.
  pub register_cvar-IsCached :
      (rehlds : Bool) (fuel : ℕ) (name value : Bytes) (flags : ℕ) (s : State E)
      (r : Option Cvar × State E)
      → register_cvar ops place rehlds fuel name value flags s ≡ some r
      → IsCached name r
  unfolding register_cvar register_found register_pointer cache_set
  register_cvar-IsCached rehlds fuel name value flags s r e =
      by_found (find_cvar ops place name s) (find_cvar-IsCached name s) e
    where
      by_set :
          (c : Cvar) (o : Option (State E))
          → cache_set ops place name c o ≡ some r
          → IsCached name r
      by_set c none x = absurd cc
      by_set c (some s') x =
          let same : cached ops place name c s' ≡ r = cc in
          subst (IsCached name) same (cached-IsCached name c s')

      by_pointer :
          (o : Option ℕ) (s' : State E)
          → register_pointer ops place rehlds fuel name value flags o s' ≡ some r
          → IsCached name r
      by_pointer none s' x c y =
          let same : (none, s') ≡ r = cc in
          let gone : none ≡ r.0 = ap (λ (q : Option Cvar × State E). q.0) same in absurd cc
      by_pointer (some p) s' x c y = by_set _ (direct_set ops place rehlds fuel p value s') x c y

      by_found :
          (q : Option Cvar × State E)
          → IsCached name q
          → register_found ops place rehlds fuel name value flags q ≡ some r
          → IsCached name r
      by_found (some c, s') k x = let same : (some c, s') ≡ r = cc in subst (IsCached name) same k
      by_found (none, s') k x = by_pointer _ _ x

  -- A cached variable is found, and nothing changes.
  pub find_cvar-cached :
      (name : Bytes) (c : Cvar) (s : State E)
      → find name s.cvars ≡ some c
      → find_cvar ops place name s ≡ (some c, s)
  unfolding find_cvar find_in
  find_cvar-cached name c s e = rw e refl
