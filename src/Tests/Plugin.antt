-- ===== src/Tests/Plugin.antt =====
-- Plugins: one that is loaded, and files of the directory.
use spmod.Common.{
  ◌≡◌, ◌≢◌, ◌⊎◌, refl, ap, Bytes, codes, [], ◌∷◌, ◌++◌, none, some, inl, arith, length,
  length-append,
}
use spmod.Dict.{Place, bytes_key, find}
use spmod.Plugin.{
  PluginPath, Binary, binary, Plugin, PluginMngr, unbound, plugins_extension, load_plugin,
  load_plugins,
}
use spmod.Plugin.Loading.{IsValid, IsLoaded, load_plugin_lem}
use spmod.Plugin.Lookup.{sourcepawn, find_plugin, find_plugin-load_plugins}

abbrev first : Place Bytes Plugin
first k d = 0

abbrev file : Bytes → PluginPath
file stem = record { stem = stem; extension = plugins_extension }

abbrev read : PluginPath → Binary
read path = binary ((codes "Timer.Timer", unbound) ∷ [])

abbrev admin : Plugin
admin = record {
  address = 40;
  id = 0;
  identity = codes "admin";
  filename = codes "admin.smx";
  slots = [];
}

abbrev loaded_admin : PluginMngr
loaded_admin = record {
  plugins = (codes "admin", admin) ∷ [];
  exported_plugins = 40 ∷ [];
  natives = (codes "Timer.Timer", 8) ∷ [];
  plugin_natives = [];
  proxied_natives = [];
}

loaded_admin-IsValid : IsValid loaded_admin
loaded_admin-IsValid = ((omega arith, tt), (inl refl, tt))

load_plugin_lem_example :
    let (result, message, m') = load_plugin first read 50 (file (codes "vote")) loaded_admin in
    IsValid m'
    × (((result ≡ none) × (m' ≡ loaded_admin))
        ⊎ ((p : Plugin) × (result ≡ some p)
            × (message ≡ [])
            × IsLoaded first read (file (codes "vote")) loaded_admin p m'))
load_plugin_lem_example =
    load_plugin_lem first read 50 (file (codes "vote")) loaded_admin loaded_admin-IsValid

abbrev no_plugins : PluginMngr
no_plugins = record loaded_admin { plugins = []; exported_plugins = [] }

go-stem : (k : Bytes) → codes "go" ≢ k ++ plugins_extension
go-stem k e =
    let size : 2 ≡ length (k ++ plugins_extension) = ap length e in
    omega (arith, size, length-append k plugins_extension)

find_plugin-load_plugins_example :
    find_plugin (codes "go.smx") (record {
      adapters =
          (
            codes "SourcePawn",
            sourcepawn (load_plugins first read ((50, file (codes "go")) ∷ []) no_plugins).0,
          )
          ∷ [];
      modules = [];
    })
    ≡ none
unfolding find
find_plugin-load_plugins_example =
    find_plugin-load_plugins first read ((50, file (codes "go")) ∷ []) (codes "SourcePawn")
      (codes "go.smx") [] no_plugins (tt, tt) (λ k. refl) (go-stem, tt)
