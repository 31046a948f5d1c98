-- ===== src/Plugin/Loading.antt =====
-- The plugins that `loadPlugins` makes, by their names, numbers and pointers.
use mathlib.Core.Path.{subst}
use spmod.Common.{
  ℕ, zero, suc, ◌<◌, ◌≡◌, ◌≢◌, ◌⊎◌, refl, sym, ap, ◌∙◌, inl, inr, true, false, Bool-cases, Bytes,
  bytes_eq, List, [], ◌∷◌, ◌++◌, Option, Option-cases, none, some, arith, All, All-append, ◌==◌,
  if_true, if_false, length, insert_at,
}
use spmod.Dict.{Dict, Place, bytes_key, find, try_emplace}
use spmod.Dict.Laws.{
  try_emplace_new, find-try_emplace_new, find-try_emplace_other, length-try_emplace_new,
}
use spmod.Plugin.{
  PluginPath, Binary, broken, without_info, binary, Plugin, PluginMngr, plugins_extension, Slots,
  bind_slots, made, new_plugin, first_plugin, loaded, new_stem, load_plugin,
}

-- The plugin stands somewhere in the map.
abbrev pub IsIn : ℕ → Dict Bytes Plugin → Type 0
IsIn address [] = ⊥
IsIn address ((k, p) ∷ ps) = (p.address ≡ address) ⊎ IsIn address ps

-- Every number is below the count of the plugins, and every pointer that is exported is that of a
-- plugin of the map.
abbrev pub IsValid : PluginMngr → Type 0
IsValid m =
    All (λ q. q.1.id < length m.plugins) m.plugins × All (λ a. IsIn a m.plugins) m.exported_plugins

IsIn-insert_at_self :
    (i : ℕ) (k : Bytes) (p : Plugin) (ps : Dict Bytes Plugin)
    → IsIn p.address (insert_at i (k, p) ps)
IsIn-insert_at_self zero k p ps = inl refl
IsIn-insert_at_self (suc i) k p [] = inl refl
IsIn-insert_at_self (suc i) k p (q ∷ ps) = inr (IsIn-insert_at_self i k p ps)

IsIn-insert_at :
    (i a : ℕ) (q : Bytes × Plugin) (ps : Dict Bytes Plugin) → IsIn a ps → IsIn a (insert_at i q ps)
IsIn-insert_at zero a q ps there = inr there
IsIn-insert_at (suc i) a q [] there = elim there [ ]
IsIn-insert_at (suc i) a q (r ∷ ps) (inl here) = inl here
IsIn-insert_at (suc i) a q (r ∷ ps) (inr there) = inr (IsIn-insert_at i a q ps there)

still-IsIn :
    (i : ℕ) (q : Bytes × Plugin) (ps : Dict Bytes Plugin) (as' : List ℕ)
    → All (λ a. IsIn a ps) as'
    → All (λ a. IsIn a (insert_at i q ps)) as'
still-IsIn i q ps [] all = tt
still-IsIn i q ps (a ∷ as') (there, all) =
    (IsIn-insert_at i a q ps there, still-IsIn i q ps as' all)

ids_grow :
    (i n : ℕ) (q : Bytes × Plugin) (ps : Dict Bytes Plugin)
    → q.1.id < suc n
    → All (λ r. r.1.id < n) ps
    → All (λ r. r.1.id < suc n) (insert_at i q ps)
ids_grow zero n q [] h all = (h, tt)
ids_grow (suc i) n q [] h all = (h, tt)
ids_grow zero n q (r ∷ ps) h (below, all) = (h, (omega arith, rest ps all))
  where
    rest : (rs : Dict Bytes Plugin) → All (λ s. s.1.id < n) rs → All (λ s. s.1.id < suc n) rs
    rest [] a = tt
    rest (s ∷ rs) (b, a) = (omega arith, rest rs a)
ids_grow (suc i) n q (r ∷ ps) h (below, all) = (omega arith, ids_grow i n q ps h all)

-- No plugin has the number yet, so the one that is inserted is the one that is found.
first-insert_at :
    (i n : ℕ) (k : Bytes) (p : Plugin) (ps : Dict Bytes Plugin)
    → p.id ≡ n
    → All (λ r. r.1.id < n) ps
    → first_plugin (λ r. r.id == n) (insert_at i (k, p) ps) ≡ some p
unfolding first_plugin
first-insert_at zero n k p ps e all =
    let here : (p.id == n) ≡ true = ground arith in if_true _ _ _ here
first-insert_at (suc i) n k p [] e all =
    let here : (p.id == n) ≡ true = ground arith in if_true _ _ _ here
first-insert_at (suc i) n k p ((j, r) ∷ ps) e (below, all) =
    let there : (r.id == n) ≡ false = ground arith in
    if_false _ _ _ there ∙ first-insert_at i n k p ps e all

first-insert_other :
    (i n : ℕ) (k : Bytes) (p : Plugin) (ps : Dict Bytes Plugin)
    → p.id ≢ n
    → first_plugin (λ r. r.id == n) (insert_at i (k, p) ps) ≡ first_plugin (λ r. r.id == n) ps
unfolding first_plugin
first-insert_other zero n k p ps e =
    let there : (p.id == n) ≡ false = ground arith in if_false _ _ _ there
first-insert_other (suc i) n k p [] e =
    let there : (p.id == n) ≡ false = ground arith in if_false _ _ _ there
first-insert_other (suc i) n k p ((j, r) ∷ ps) e = elim (Bool-cases (r.id == n)) [
  | inl here ↦ rw here refl
  | inr there ↦ rw there (first-insert_other i n k p ps e)
]

module _ (place : Place Bytes Plugin) (read : PluginPath → Binary) where
  -- A file that is loaded: the plugin is found by its name and by its number, and nothing else
  -- changes for the names and numbers of the others.
  abbrev pub IsLoaded : PluginPath → PluginMngr → Plugin → PluginMngr → Type 0
  IsLoaded path m p m' =
      (find path.stem m.plugins ≡ none)
      × (find path.stem m'.plugins ≡ some p)
      × (first_plugin (λ q. q.id == p.id) m'.plugins ≡ some p)
      × ((k : Bytes) → path.stem ≢ k → find k m'.plugins ≡ find k m.plugins)
      × ((n : ℕ)
          → p.id ≢ n
          → first_plugin (λ q. q.id == n) m'.plugins ≡ first_plugin (λ q. q.id == n) m.plugins)

  abbrev IsOutcome : PluginPath → PluginMngr → Option Plugin × Bytes × PluginMngr → Type 0
  IsOutcome path m (result, message, m') =
      IsValid m'
      × (((result ≡ none) × (m' ≡ m))
          ⊎ ((p : Plugin) × (result ≡ some p) × (message ≡ []) × IsLoaded path m p m'))

  loaded_lem :
      (path : PluginPath) (m : PluginMngr) (p : Plugin)
      → IsValid m
      → find path.stem m.plugins ≡ none
      → p.id ≡ length m.plugins
      → IsOutcome path m (loaded place read path m (made p))
  unfolding loaded
  loaded_lem path m p (below, live) missing number =
      let size = length-try_emplace_new place path.stem p m.plugins missing in
      let found = find-try_emplace_new place path.stem p m.plugins missing in
      let grown : suc (length m.plugins) ≡ length (try_emplace place path.stem p m.plugins).0 =
        omega arith in
      let e = ap (λ r. r.0) (try_emplace_new place path.stem p m.plugins missing) in
      let i = place path.stem m.plugins in
      (
        (
          subst (λ n. All (λ q. q.1.id < n) (try_emplace place path.stem p m.plugins).0) grown
              (rw e (ids_grow i (length m.plugins) (path.stem, p) m.plugins (omega arith) below)),
          rw e (
              All-append _ m.exported_plugins (p.address ∷ [])
                (still-IsIn i (path.stem, p) m.plugins m.exported_plugins live)
                (IsIn-insert_at_self i path.stem p m.plugins, tt)),
        ),
        inr (
          p,
          found,
          refl,
          (
            missing,
            found,
            rw e (
                first-insert_at i p.id path.stem p m.plugins refl
                  (subst (λ n. All (λ q. q.1.id < n) m.plugins) (sym number) below)),
            λ k n. find-try_emplace_other place path.stem k p m.plugins n,
            λ n ne. rw e (first-insert_other i n path.stem p m.plugins ne),
          ),
        ),
      )

  new_stem_lem :
      (address : ℕ) (path : PluginPath) (m : PluginMngr)
      → IsValid m
      → IsOutcome path m (new_stem place read address path (find path.stem m.plugins) m)
  unfolding new_stem loaded new_plugin
  new_stem_lem address path m valid = elim (Option-cases (find path.stem m.plugins)) [
    | inr (p, there) ↦ rw there (valid, inl (refl, refl))
    | inl missing ↦
        subst (λ o. IsOutcome path m (new_stem place read address path o m)) (sym missing)
          (by_binary missing (read path))
  ]
    where
      by_binary :
          find path.stem m.plugins ≡ none
          → (b : Binary)
          → IsOutcome path m
              (loaded place read path m (new_plugin address (length m.plugins) path m b))
      by_binary missing (broken message) = (valid, inl (refl, refl))
      by_binary missing without_info = (valid, inl (refl, refl))
      by_binary missing (binary slots) = loaded_lem path m (plugin_of slots) valid missing refl
        where
          plugin_of : Slots → Plugin
          plugin_of slots' = record {
            address = address;
            id = length m.plugins;
            identity = path.stem;
            filename = path.stem ++ path.extension;
            slots = bind_slots m slots';
          }

  -- `_loadPlugin` keeps the numbers of the plugins below their count and the exported pointers those
  -- of plugins that are there. Either it returns a null pointer and changes nothing; or it sets no
  -- message, and the plugin, whose name was free, is found by its name and by its number, with which
  -- the other names and numbers find what they found.
  pub load_plugin_lem :
      (address : ℕ) (path : PluginPath) (m : PluginMngr)
      → IsValid m
      → let (result, message, m') = load_plugin place read address path m in
        IsValid m'
        × (((result ≡ none) × (m' ≡ m))
            ⊎ ((p : Plugin) × (result ≡ some p) × (message ≡ []) × IsLoaded path m p m'))
  unfolding load_plugin
  load_plugin_lem address path m valid =
      elim (Bool-cases (bytes_eq path.extension plugins_extension)) [
        | inl known ↦ rw known (new_stem_lem address path m valid)
        | inr other ↦ rw other (valid, inl (refl, refl))
      ]
