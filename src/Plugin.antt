-- ===== src/Plugin.antt =====
-- subprojects/sourcepawn/PluginSystem.cpp and .hpp, src/NativeProxy.cpp, and the registries of
-- src/SPGlobal.cpp: the plugins of SourcePawn, their natives, and how the core finds a plugin. What
-- SourcePawn reads from a file, and the address of a plugin that is made, are parameters.
pub mod Loading
pub mod Exported
pub mod Lookup
pub mod Bound
pub mod Extensions
use spmod.Common.{
  ℕ, ◌-◌, ◌<◌, Bool, true, false, Bytes, bytes_eq, codes, List, [], ◌∷◌, ◌++◌, Option, none, some,
  ◌==◌, if◌then◌else◌, length, drop, ltb,
}
use spmod.Dict.{Dict, Place, bytes_key, find, try_emplace}

-- A native of a plugin: its status and what it is bound to.
pub data Binding : Type 0 where
  unbound : Binding
  func : ℕ → Binding
  object : ℕ → Binding

abbrev pub Slots : Type 0
Slots = List (Bytes × Binding)

-- `path.stem()` and `path.extension()`.
pub record PluginPath : Type 0 where
  pub stem : Bytes
  pub extension : Bytes

-- What SourcePawn reads from a file: an error, a plugin without `pluginInfo`, or its natives.
pub data Binary : Type 0 where
  broken : Bytes → Binary
  without_info : Binary
  binary : Slots → Binary

-- `address` stands for the pointer to the plugin.
pub record Plugin : Type 0 where
  pub address : ℕ
  pub id : ℕ
  pub identity : Bytes
  pub filename : Bytes
  pub slots : Slots

-- The fields of PluginMngr, and NativeProxy; a native is its number.
pub record PluginMngr : Type 0 where
  pub plugins : Dict Bytes Plugin
  pub exported_plugins : List ℕ
  pub natives : Dict Bytes ℕ
  pub plugin_natives : Dict Bytes ℕ
  pub proxied_natives : Dict Bytes ℕ

abbrev pub plugins_extension : Bytes
plugins_extension = codes ".smx"

abbrev pub find_native : Bytes → PluginMngr → Option ℕ
find_native name m = find name m.natives

abbrev pub find_plugin_native : Bytes → PluginMngr → Option ℕ
find_plugin_native name m = find name m.plugin_natives

bound_to : Option ℕ → Bytes → Bytes × Binding
bound_to none name = (name, unbound)
bound_to (some f) name = (name, func f)

bind_slot : PluginMngr → Bytes × Binding → Bytes × Binding
unfolding bound_to
bind_slot m (name, unbound) = bound_to (find_native name m) name
bind_slot m (name, func f) = (name, func f)
bind_slot m (name, object o) = (name, object o)

-- The loop of the constructor, which passes over a native that is not found.
unfoldable pub bind_slots : PluginMngr → Slots → Slots
unfolding bind_slot
bind_slots m [] = []
bind_slots m (slot ∷ slots) = bind_slot m slot ∷ bind_slots m slots

-- The constructor of a plugin, or the message of its exception.
pub data Made : Type 0 where
  made : Plugin → Made
  error : Bytes → Made

unfoldable pub new_plugin : ℕ → ℕ → PluginPath → PluginMngr → Binary → Made
new_plugin address id path m (broken message) = error message
new_plugin address id path m without_info =
    error (path.stem ++ (path.extension ++ codes ": Can't find plugin info!"))
new_plugin address id path m (binary slots) = made (record {
  address = address;
  id = id;
  identity = path.stem;
  filename = path.stem ++ path.extension;
  slots = bind_slots m slots;
})

abbrev pub get_plugin : Bytes → PluginMngr → Option Plugin
get_plugin name m = find name m.plugins

-- The first plugin in the order of iteration that passes a test.
unfoldable pub first_plugin : (Plugin → Bool) → Dict Bytes Plugin → Option Plugin
first_plugin test [] = none
first_plugin test ((k, p) ∷ ps) = if test p then some p else first_plugin test ps

abbrev pub get_plugin_index : ℕ → PluginMngr → Option Plugin
get_plugin_index index m = first_plugin (λ p. p.id == index) m.plugins

abbrev pub get_plugin_pointer : ℕ → PluginMngr → Option Plugin
get_plugin_pointer address m = first_plugin (λ p. p.address == address) m.plugins

abbrev pub get_plugins_num : PluginMngr → ℕ
get_plugins_num m = length m.plugins

-- A message that is not empty is logged.
abbrev pub logged : Bytes → List Bytes → List Bytes
logged [] messages = messages
logged (c ∷ cs) messages = (c ∷ cs) ∷ messages

module _ (place : Place Bytes Plugin) (read : PluginPath → Binary) where
  loaded : PluginPath → PluginMngr → Made → Option Plugin × Bytes × PluginMngr
  loaded path m (error message) = (none, message, m)
  loaded path m (made p) =
      let plugins = (try_emplace place path.stem p m.plugins).0 in
      let m' = record m {
        plugins = plugins;
        exported_plugins = m.exported_plugins ++ (p.address ∷ []);
      } in
      (find path.stem plugins, [], m')

  new_stem : ℕ → PluginPath → Option Plugin → PluginMngr → Option Plugin × Bytes × PluginMngr
  unfolding loaded
  new_stem address path (some p) m = (none, [], m)
  new_stem address path none m =
      loaded path m (new_plugin address (length m.plugins) path m (read path))

  -- `_loadPlugin`: the plugin or a null pointer, and the message, which is empty if none was set.
  unfoldable pub load_plugin : ℕ → PluginPath → PluginMngr → Option Plugin × Bytes × PluginMngr
  unfolding new_stem
  load_plugin address path m =
      if bytes_eq path.extension plugins_extension
      then new_stem address path (find path.stem m.plugins) m
      else (none, [], m)

  -- The loop of `loadPlugins` over the files, each with the address of the plugin it may make, and
  -- the messages that it logs.
  unfoldable pub load_plugins : List (ℕ × PluginPath) → PluginMngr → PluginMngr × List Bytes
  load_plugins [] m = (m, [])
  load_plugins ((address, path) ∷ files) m =
      let (p, message, m') = load_plugin address path m in
      let (m'', messages) = load_plugins files m' in (m'', logged message messages)

abbrev pub unload_plugins : PluginMngr → PluginMngr
unload_plugins m = record m { plugins = [] }

abbrev pub clear_natives : PluginMngr → PluginMngr
clear_natives m = record m { natives = []; plugin_natives = [] }

module _ (place : Place Bytes ℕ) where
  next_native : Dict Bytes ℕ × Bool → (Dict Bytes ℕ → Dict Bytes ℕ × Bool) → Dict Bytes ℕ × Bool
  next_native (natives, true) rest = rest natives
  next_native (natives, false) rest = (natives, false)

  -- `addNatives`, which stops at the first native whose name is there.
  unfoldable pub add_natives : List (Bytes × ℕ) → Dict Bytes ℕ → Dict Bytes ℕ × Bool
  unfolding next_native
  add_natives [] natives = (natives, true)
  add_natives ((name, f) ∷ rest) natives =
      next_native (try_emplace place name f natives) (add_natives rest)

  abbrev pub add_native : Bytes → ℕ → PluginMngr → PluginMngr
  add_native name native m = record m {
    plugin_natives = (try_emplace place name native m.plugin_natives).0;
  }

  after_register : Bytes → ℕ → Dict Bytes ℕ × Bool → PluginMngr → Bool × PluginMngr
  after_register name native (proxied, false) m = (false, record m { proxied_natives = proxied })
  after_register name native (proxied, true) m =
      (true, add_native name native (record m { proxied_natives = proxied }))

  -- `registerNative`, through that of NativeProxy.
  unfoldable pub register_native : Bytes → ℕ → PluginMngr → Bool × PluginMngr
  unfolding after_register
  register_native name native m =
      after_register name native (try_emplace place name native m.proxied_natives) m
