-- ===== src/Forward/Registry.antt =====
-- class ForwardMngr. `std::unordered_multimap` is the list of its elements in the order of iteration;
-- where it puts a new element is a parameter, and theorems hold for every choice.
use spmod.Common.{
  ℕ, Bool, true, false, not, ◌||◌, Bytes, List, [], ◌∷◌, ◌++◌, Option, none, some, ◌==◌, bytes_eq,
  if◌then◌else◌, insert_at, replicate, codes, length, ◌-◌,
}
use spmod.Forward.{Forward, Kind, multi, single, ExecType, ignore, stop, new_forward}
use spmod.Forward.ParamType.{int as int_type, string as string_type}

pub record ForwardMngr : Type 0 where
  pub forwards : List Forward
  pub callbacks : List ℕ

-- `find` up to `end`: the elements from the first with this name on.
unfoldable pub from_find : Bytes → List Forward → List Forward
from_find name [] = []
from_find name (f ∷ fs) = if bytes_eq f.name name then f ∷ fs else from_find name fs

abbrev pub plugin_is : ℕ → Kind → Bool
plugin_is p (multi type) = false
plugin_is p (single q) = p == q

unfoldable pub any_plugin : ℕ → List Forward → Bool
any_plugin p [] = false
any_plugin p (f ∷ fs) = plugin_is p f.kind || any_plugin p fs

abbrev pub is_empty : List Forward → Bool
is_empty [] = true
is_empty (f ∷ fs) = false

-- The guards of createForward: whether the name is taken, for all plugins or for this one.
unfoldable pub is_taken : Bytes → Kind → List Forward → Bool
unfolding from_find any_plugin
is_taken name (multi type) fs = if is_empty (from_find name fs) then false else true
is_taken name (single p) fs = any_plugin p (from_find name fs)

module _ (place : Bytes → List Forward → ℕ) where
  abbrev pub emplace : Forward → List Forward → List Forward
  emplace f fs = insert_at (place f.name fs) f fs

  -- `none` is a null pointer; the flag of a plugin and the type of a global forward are the kind.
  unfoldable pub create_forward : Bytes → List ℕ → Kind → ForwardMngr → ForwardMngr × Option Forward
  unfolding is_taken
  create_forward name types kind m = if is_taken name kind m.forwards then (m, none) else (
    record m { forwards = emplace (new_forward name types kind) m.forwards },
    some (new_forward name types kind),
  )

unfoldable pub add_forward_listener : ℕ → ForwardMngr → ForwardMngr
add_forward_listener func m = record m { callbacks = m.callbacks ++ (func ∷ []) }

unfoldable pub clear_forwards : ForwardMngr → ForwardMngr
clear_forwards m = record m { forwards = []; callbacks = [] }

abbrev pub first : List Forward → Option Forward
first [] = none
first (f ∷ fs) = some f

unfoldable pub get_forward : Bytes → ForwardMngr → Option Forward
unfolding from_find
get_forward name m = first (from_find name m.forwards)

-- What a read of `m_exec` gives; `junk` stands for the value of a member that was never set.
abbrev pub is_executed : Bool → Forward → Bool
is_executed junk f = elim f.exec [ none ↦ junk | some e ↦ e ]

-- Whether the loop of deleteForward passes over an element: it is being executed, or the forward to
-- delete has a plugin and this is not one of that plugin.
abbrev pub is_passed : Bool → Kind → Forward → Bool
is_passed junk (multi type) f = is_executed junk f
is_passed junk (single p) f = is_executed junk f || not (plugin_is p f.kind)

abbrev pub keep : Forward → Option (List Forward) → Option (List Forward)
keep f none = none
keep f (some fs) = some (f ∷ fs)

-- The loop from the found element to the end; `none` where nothing was erased.
unfoldable pub erase_from : Bool → Kind → List Forward → Option (List Forward)
erase_from junk kind [] = none
erase_from junk kind (f ∷ fs) =
    if is_passed junk kind f then keep f (erase_from junk kind fs) else some fs

unfoldable pub erase_named : Bool → Bytes → Kind → List Forward → Option (List Forward)
unfolding erase_from
erase_named junk name kind [] = none
erase_named junk name kind (f ∷ fs) =
    if bytes_eq f.name name
    then erase_from junk kind (f ∷ fs)
    else keep f (erase_named junk name kind fs)

-- deleteForward of a forward with this name and kind.
unfoldable pub delete_forward : Bool → Bytes → Kind → ForwardMngr → ForwardMngr × Bool
unfolding erase_named
delete_forward junk name kind m = elim (erase_named junk name kind m.forwards) [
  | none ↦ (m, false)
  | some fs ↦ (record m { forwards = fs }, true)
]

-- Eight parameter types and the rest of the 32, which `paramsList = {{…}}` sets to None.
abbrev pub params_list : List ℕ → List ℕ
params_list types = types ++ replicate (32 - length types) 0

abbrev pub connect_params : List ℕ
connect_params = params_list (int_type ∷ string_type ∷ string_type ∷ string_type ∷ [])

abbrev disconnect_params : List ℕ
disconnect_params = params_list (int_type ∷ int_type ∷ string_type ∷ [])

abbrev client_params : List ℕ
client_params = params_list (int_type ∷ [])

abbrev default_forwards : List (Bytes × List ℕ × ExecType)
default_forwards =
    (codes "OnClientConnect", connect_params, stop)
    ∷ (codes "OnClientConnectPost", connect_params, stop)
    ∷ (codes "OnClientDisconnect", disconnect_params, ignore)
    ∷ (codes "OnClientDisconnectPost", disconnect_params, ignore)
    ∷ (codes "OnClientPutInServer", client_params, ignore)
    ∷ (codes "OnClientPutInServerPost", client_params, ignore)
    ∷ (codes "OnClientCommand", client_params, stop)
    ∷ (codes "OnMapChange", params_list (string_type ∷ []), stop)
    ∷ (codes "OnPluginsLoaded", params_list [], ignore)
    ∷ (codes "OnPluginInit", params_list [], ignore)
    ∷ (codes "OnPluginEnd", params_list [], ignore)
    ∷ (codes "OnPluginNatives", params_list [], ignore)
    ∷ []

module _ (place : Bytes → List Forward → ℕ) where
  create_all : List (Bytes × List ℕ × ExecType) → ForwardMngr → ForwardMngr
  create_all [] m = m
  create_all ((name, types, type) ∷ rest) m =
      create_all rest (create_forward place name types (multi type) m).0

  unfoldable pub add_defaults_forwards : ForwardMngr → ForwardMngr
  unfolding create_all
  add_defaults_forwards = create_all default_forwards
