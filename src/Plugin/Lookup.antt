-- ===== src/Plugin/Lookup.antt =====
-- src/SPGlobal.cpp: the registries of adapters and modules, and getPlugin over the plugin managers of
-- the adapters, with that of SourcePawn as one of them.
use spmod.Common.{
  ℕ, ◌-◌, ◌≡◌, ◌≢◌, refl, sym, ap, ◌∙◌, inl, inr, Bool, false, Bool-cases, Bytes, bytes_eq,
  bytes_eq_iff, List, [], ◌∷◌, ◌++◌, Option, none, some, All, if◌then◌else◌, if_true, if_false,
  length, drop, take, take-append-drop, ltb,
}
use spmod.Dict.{Dict, Place, bytes_key, find, try_emplace}
use spmod.Plugin.{
  PluginPath, Binary, Plugin, PluginMngr, plugins_extension, get_plugin, load_plugin, load_plugins,
}
use spmod.Plugin.Loading.{IsValid, load_plugin_lem}

-- The part of the interface of a plugin manager that getPlugin uses; a plugin is its pointer.
pub record IPluginMngr : Type 0 where
  pub plugins_ext : Bytes
  pub get : Bytes → Option ℕ

address_of : Option Plugin → Option ℕ
address_of none = none
address_of (some p) = some p.address

-- PluginMngr of SourcePawn behind the interface.
unfoldable pub sourcepawn : PluginMngr → IPluginMngr
unfolding address_of
sourcepawn m = record {
  plugins_ext = plugins_extension;
  get = λ name. address_of (get_plugin name m);
}

-- `m_adaptersInterfaces`, with the plugin manager of each, and `m_modulesInterfaces`.
pub record SpGlobal : Type 0 where
  pub adapters : Dict Bytes IPluginMngr
  pub modules : Dict Bytes ℕ

abbrev pub register_adapter :
    Place Bytes IPluginMngr → Bytes → IPluginMngr → SpGlobal → Bool × SpGlobal
register_adapter place name i g =
    let (adapters, new) = try_emplace place name i g.adapters in
    (new, record g { adapters = adapters })

abbrev pub register_module : Place Bytes ℕ → Bytes → ℕ → SpGlobal → Bool × SpGlobal
register_module place name i g =
    let (modules, new) = try_emplace place name i g.modules in (new, record g { modules = modules })

abbrev pub get_interface : Bytes → SpGlobal → Option ℕ
get_interface name g = find name g.modules

first_manager : Bytes → Bytes → Dict Bytes IPluginMngr → Option ℕ
first_manager ext name [] = none
first_manager ext name ((k, i) ∷ rest) =
    if bytes_eq ext i.plugins_ext then i.get name else first_manager ext name rest

-- SpGlobal::getPlugin: the first manager of the extension is asked, and no other.
unfoldable pub find_plugin : Bytes → SpGlobal → Option ℕ
unfolding first_manager
find_plugin name g =
    if ltb (length name) 4
    then none
    else first_manager (drop (length name - 4) name) name g.adapters

-- No plugin has a name that ends with the extension.
abbrev pub IsStemmed : PluginMngr → Type 0
IsStemmed m = (k : Bytes) → find (k ++ plugins_extension) m.plugins ≡ none

first_manager-none :
    (k name : Bytes) (adapters : Dict Bytes IPluginMngr)
    → name ≡ k ++ plugins_extension
    → All (λ a. (m : PluginMngr) × (a.1 ≡ sourcepawn m) × IsStemmed m) adapters
    → first_manager plugins_extension name adapters ≡ none
unfolding first_manager sourcepawn address_of bytes_eq
first_manager-none k name [] e all = refl
first_manager-none k name ((j, i) ∷ rest) e ((m, is, stemmed), all) = rw (is, e, stemmed k) refl

first_manager-other :
    (ext name : Bytes) (adapters : Dict Bytes IPluginMngr)
    → bytes_eq ext plugins_extension ≡ false
    → All (λ a. (m : PluginMngr) × (a.1 ≡ sourcepawn m) × IsStemmed m) adapters
    → first_manager ext name adapters ≡ none
unfolding first_manager sourcepawn
first_manager-other ext name [] e all = refl
first_manager-other ext name ((j, i) ∷ rest) e ((m, is, stemmed), all) =
    rw (is, e) (first_manager-other ext name rest e all)

find_plugin-none :
    (name : Bytes) (g : SpGlobal)
    → All (λ a. (m : PluginMngr) × (a.1 ≡ sourcepawn m) × IsStemmed m) g.adapters
    → find_plugin name g ≡ none
unfolding find_plugin
find_plugin-none name g all = elim (Bool-cases (ltb (length name) 4)) [
  | inl short ↦ if_true _ _ _ short
  | inr long ↦ if_false _ _ _ long ∙ by_ext (drop (length name - 4) name) refl
]
  where
    split : name ≡ take (length name - 4) name ++ drop (length name - 4) name
    split = sym (take-append-drop (length name - 4) name)

    by_ext :
        (ext : Bytes) → drop (length name - 4) name ≡ ext → first_manager ext name g.adapters ≡ none
    by_ext ext e = elim (Bool-cases (bytes_eq ext plugins_extension)) [
      | inl same ↦
          let is = (bytes_eq_iff ext plugins_extension).0 same in
          ap (λ x. first_manager x name g.adapters) is
          ∙ first_manager-none (take (length name - 4) name) name g.adapters
              (split ∙ ap (λ x. take (length name - 4) name ++ x) (e ∙ is)) all
      | inr other ↦ first_manager-other ext name g.adapters other all
    ]

module _ (place : Place Bytes Plugin) (read : PluginPath → Binary) where
  load_plugins-IsStemmed :
      (files : List (ℕ × PluginPath)) (m : PluginMngr)
      → IsValid m
      → All (λ f. (k : Bytes) → f.1.stem ≢ k ++ plugins_extension) files
      → IsStemmed m
      → IsStemmed (load_plugins place read files m).0
  unfolding load_plugins
  load_plugins-IsStemmed [] m valid stems stemmed = stemmed
  load_plugins-IsStemmed ((address, path) ∷ files) m valid (stem, stems) stemmed =
      let (valid', outcome) = load_plugin_lem place read address path m valid in
      load_plugins-IsStemmed files (load_plugin place read address path m).2 valid' stems (λ k.
        elim outcome [
          | inl (null, same) ↦ ap (λ n. find (k ++ plugins_extension) n.plugins) same ∙ stemmed k
          | inr (p, found, silent, loaded) ↦ loaded.3 (k ++ plugins_extension) (stem k) ∙ stemmed k
        ])

  -- When the only adapter is that of SourcePawn, with valid numbers and exported pointers before it
  -- loads, and neither a file that it loads nor a plugin that it had has a stem that ends with the
  -- extension itself, `getPlugin` of the core finds no plugin by any name: it hands the name with
  -- its extension to a manager that knows the plugins by their names without one.
  pub find_plugin-load_plugins :
      (files : List (ℕ × PluginPath)) (adapter name : Bytes) (modules : Dict Bytes ℕ)
      (m : PluginMngr)
      → IsValid m
      → IsStemmed m
      → All (λ f. (k : Bytes) → f.1.stem ≢ k ++ plugins_extension) files
      → find_plugin name (record {
        adapters = (adapter, sourcepawn (load_plugins place read files m).0) ∷ [];
        modules = modules;
      })
        ≡ none
  find_plugin-load_plugins files adapter name modules m valid stemmed stems =
      find_plugin-none name
        (record {
          adapters = (adapter, sourcepawn (load_plugins place read files m).0) ∷ [];
          modules = modules;
        })
        (
          (
            (load_plugins place read files m).0,
            refl,
            load_plugins-IsStemmed files m valid stems stemmed,
          ),
          tt,
        )
