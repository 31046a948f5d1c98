-- ===== src/Plugin/Exported.antt =====
-- The pointers that getPluginsList gives, behind a change of the map.
use spmod.Common.{
  ℕ, zero, suc, ◌≡◌, ◌≢◌, ◌⊎◌, refl, inl, inr, Bool-cases, Bytes, bytes_eq, List, [], ◌∷◌, ◌++◌,
  Option, none, some, All, length, insert_at,
}
use spmod.Dict.{Dict, Place, bytes_key, find}
use spmod.Dict.Laws.{try_emplace_new}
use spmod.Plugin.{
  PluginPath, Binary, broken, without_info, binary, Plugin, PluginMngr, plugins_extension,
  bind_slots, new_plugin, loaded, new_stem, load_plugin, load_plugins, unload_plugins,
}
use spmod.Plugin.Loading.{IsIn}

abbrev pub IsExported : ℕ → List ℕ → Type 0
IsExported a [] = ⊥
IsExported a (b ∷ bs) = (b ≡ a) ⊎ IsExported a bs

-- A pointer of the list that is of no plugin.
abbrev pub IsStale : ℕ → PluginMngr → Type 0
IsStale a m = IsExported a m.exported_plugins × (IsIn a m.plugins → ⊥)

IsIn-insert_at_cases :
    (i a : ℕ) (k : Bytes) (p : Plugin) (ps : Dict Bytes Plugin)
    → IsIn a (insert_at i (k, p) ps)
    → (p.address ≡ a) ⊎ IsIn a ps
IsIn-insert_at_cases zero a k p ps there = there
IsIn-insert_at_cases (suc i) a k p [] there = there
IsIn-insert_at_cases (suc i) a k p (q ∷ ps) (inl here) = inr (inl here)
IsIn-insert_at_cases (suc i) a k p (q ∷ ps) (inr there) =
    elim (IsIn-insert_at_cases i a k p ps there) [ inl new ↦ inl new | inr old ↦ inr (inr old) ]

IsExported-append : (a : ℕ) (as' bs : List ℕ) → IsExported a as' → IsExported a (as' ++ bs)
IsExported-append a [] bs there = elim there [ ]
IsExported-append a (b ∷ as') bs (inl here) = inl here
IsExported-append a (b ∷ as') bs (inr there) = inr (IsExported-append a as' bs there)

module _ (place : Place Bytes Plugin) (read : PluginPath → Binary) where
  new_stem-IsStale :
      (a address : ℕ) (path : PluginPath) (m : PluginMngr) (o : Option Plugin)
      → address ≢ a
      → find path.stem m.plugins ≡ o
      → IsStale a m
      → IsStale a (new_stem place read address path o m).2
  unfolding new_stem loaded new_plugin
  new_stem-IsStale a address path m (some p) n e stale = stale
  new_stem-IsStale a address path m none n missing (listed, gone) = by_binary (read path)
    where
      by_binary :
          (b : Binary)
          → IsStale a (loaded place read path m (new_plugin address (length m.plugins) path m b)).2
      by_binary (broken message) = (listed, gone)
      by_binary without_info = (listed, gone)
      by_binary (binary slots) =
          let p : Plugin = record {
            address = address;
            id = length m.plugins;
            identity = path.stem;
            filename = path.stem ++ path.extension;
            slots = bind_slots m slots;
          } in
          (
            IsExported-append a m.exported_plugins (address ∷ []) listed,
            rw (try_emplace_new place path.stem p m.plugins missing) (λ there.
                elim (IsIn-insert_at_cases (place path.stem m.plugins) a path.stem p m.plugins
                  there) [ inl new ↦ n new | inr old ↦ gone old ]),
          )

  load_plugins-IsStale :
      (a : ℕ) (files : List (ℕ × PluginPath)) (m : PluginMngr)
      → All (λ f. f.0 ≢ a) files
      → IsStale a m
      → IsStale a (load_plugins place read files m).0
  unfolding load_plugins load_plugin
  load_plugins-IsStale a [] m away stale = stale
  load_plugins-IsStale a ((address, path) ∷ files) m (n, away) stale =
      load_plugins-IsStale a files (load_plugin place read address path m).2 away
        (elim (Bool-cases (bytes_eq path.extension plugins_extension)) [
          | inl known ↦
              rw known (new_stem-IsStale a address path m (find path.stem m.plugins) n refl stale)
          | inr other ↦ rw other stale
        ])

  -- A pointer that `getPluginsList` gives is still given when `unloadPlugins` has destroyed the plugins
  -- and `loadPlugins` has loaded any files, and if no new plugin happens to stand at its address, it
  -- is then the pointer of no plugin.
  pub unload_plugins-load_plugins :
      (a : ℕ) (files : List (ℕ × PluginPath)) (m : PluginMngr)
      → IsExported a m.exported_plugins
      → All (λ f. f.0 ≢ a) files
      → IsStale a (load_plugins place read files (unload_plugins m)).0
  unload_plugins-load_plugins a files m listed away =
      load_plugins-IsStale a files (unload_plugins m) away (listed, λ there. there)
