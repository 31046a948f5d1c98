-- ===== src/Plugin/Bound.antt =====
-- How natives are added, and how those of other plugins are bound.
use spmod.Common.{
  ℕ, ◌≡◌, refl, sym, ap, ◌∙◌, inl, inr, Bool, true, false, Bytes, List, [], ◌∷◌, Option,
  Option-cases, none, some, All, map,
}
use spmod.Dict.{Dict, Place, bytes_key, find, try_emplace}
use spmod.Dict.Laws.{try_emplace_old, find-try_emplace_new, find-try_emplace_other}
use spmod.Plugin.{unbound, func, object, Slots, PluginMngr, next_native, add_natives, add_native}

-- A native that stops the loop of a plugin leaves those behind it as they are.
bind_rest : Option ℕ → Bytes → Slots → Slots → Slots
bind_rest none name slots bound = (name, unbound) ∷ slots
bind_rest (some o) name slots bound = (name, object o) ∷ bound

-- The inner loop of bindPluginsNatives.
unfoldable pub bind_objects : Dict Bytes ℕ → Slots → Slots
unfolding bind_rest
bind_objects natives [] = []
bind_objects natives ((name, unbound) ∷ slots) =
    bind_rest (find name natives) name slots (bind_objects natives slots)
bind_objects natives ((name, func f) ∷ slots) = (name, func f) ∷ bind_objects natives slots
bind_objects natives ((name, object o) ∷ slots) = (name, object o) ∷ bind_objects natives slots

unfoldable pub add_proxied : Place Bytes ℕ → Dict Bytes ℕ → PluginMngr → PluginMngr
add_proxied place [] m = m
add_proxied place ((name, native) ∷ rest) m =
    add_proxied place rest (add_native place name native m)

unfoldable pub bind_plugins_natives : Place Bytes ℕ → PluginMngr → PluginMngr
bind_plugins_natives place m =
    let m' = add_proxied place m.proxied_natives m in
    record m' {
      plugins =
          map (λ (k, p). (k, record p { slots = bind_objects m'.plugin_natives p.slots }))
            m'.plugins;
    }

-- The natives that have no binding, in their order.
abbrev pub waiting : Slots → List Bytes
waiting [] = []
waiting ((name, unbound) ∷ slots) = name ∷ waiting slots
waiting ((name, func f) ∷ slots) = waiting slots
waiting ((name, object o) ∷ slots) = waiting slots

-- The names from the first on that the natives do not have.
abbrev pub from_missing : Dict Bytes ℕ → List Bytes → List Bytes
from_missing natives [] = []
from_missing natives (name ∷ names) =
    unless (find name natives) name names (from_missing natives names)
  where
    unless : Option ℕ → Bytes → List Bytes → List Bytes → List Bytes
    unless none name names rest = name ∷ names
    unless (some o) name names rest = rest

-- What waits behind the binding is what waited from the first native on that is not found, so a native
-- behind a missing one stays without a binding though it could be found; all are bound if none is
-- missing.
pub waiting-bind_objects :
    (natives : Dict Bytes ℕ) (slots : Slots)
    → waiting (bind_objects natives slots) ≡ from_missing natives (waiting slots)
unfolding bind_objects bind_rest
waiting-bind_objects natives [] = refl
waiting-bind_objects natives ((name, func f) ∷ slots) = waiting-bind_objects natives slots
waiting-bind_objects natives ((name, object o) ∷ slots) = waiting-bind_objects natives slots
waiting-bind_objects natives ((name, unbound) ∷ slots) = elim (Option-cases (find name natives)) [
  | inl missing ↦ rw missing refl
  | inr (o, there) ↦ rw there (waiting-bind_objects natives slots)
]

module _ (place : Place Bytes ℕ) where
  try_emplace-keeps :
      (k name : Bytes) (v f : ℕ) (d : Dict Bytes ℕ)
      → find k d ≡ some v
      → find k (try_emplace place name f d).0 ≡ some v
  try_emplace-keeps k name v f d there = elim (Option-cases (find name d)) [
    | inr (w, old) ↦ ap (λ r. find k r.0) (try_emplace_old place name f w d old) ∙ there
    | inl new ↦
        find-try_emplace_other place name k f d (λ e. none_some (ap (λ n. find n d) e) new there)
        ∙ there
  ]
    where
      none_some : {a b : Option ℕ} → a ≡ b → a ≡ none → b ≡ some v → ⊥
      none_some x y z = cc

  add_natives-keeps :
      (k : Bytes) (v : ℕ) (infos : List (Bytes × ℕ)) (d : Dict Bytes ℕ)
      → find k d ≡ some v
      → find k (add_natives place infos d).0 ≡ some v
  unfolding add_natives next_native
  add_natives-keeps k v [] d there = there
  add_natives-keeps k v ((name, f) ∷ infos) d there =
      by_flag (try_emplace place name f d) (try_emplace-keeps k name v f d there)
        (add_natives-keeps k v infos)
    where
      by_flag :
          (r : Dict Bytes ℕ × Bool)
          → find k r.0 ≡ some v
          → ((d' : Dict Bytes ℕ)
              → find k d' ≡ some v
              → find k (add_natives place infos d').0 ≡ some v)
          → find k (next_native place r (add_natives place infos)).0 ≡ some v
      by_flag (d', true) e again = again d' e
      by_flag (d', false) e again = e

  new_there :
      (name : Bytes) (f : ℕ) (d : Dict Bytes ℕ)
      → (try_emplace place name f d).1 ≡ true
      → find name (try_emplace place name f d).0 ≡ some f
  new_there name f d made = elim (Option-cases (find name d)) [
    | inl new ↦ find-try_emplace_new place name f d new
    | inr (w, old) ↦ absurd (no (sym (ap (λ r. r.1) (try_emplace_old place name f w d old)) ∙ made))
  ]
    where
      no : false ≡ true → ⊥
      no q = cc

  natives_found :
      (infos : List (Bytes × ℕ)) (d : Dict Bytes ℕ)
      → (add_natives place infos d).1 ≡ true
      → All (λ i. find i.0 (add_natives place infos d).0 ≡ some i.1) infos
  unfolding add_natives next_native
  natives_found [] d e = tt
  natives_found ((name, f) ∷ infos) d e =
      by_flag (try_emplace place name f d) (new_there name f d) e (natives_found infos)
    where
      by_flag :
          (r : Dict Bytes ℕ × Bool)
          → (r.1 ≡ true → find name r.0 ≡ some f)
          → (next_native place r (add_natives place infos)).1 ≡ true
          → ((d' : Dict Bytes ℕ)
              → (add_natives place infos d').1 ≡ true
              → All (λ i. find i.0 (add_natives place infos d').0 ≡ some i.1) infos)
          → (find name (next_native place r (add_natives place infos)).0 ≡ some f)
            × All (λ i. find i.0 (next_native place r (add_natives place infos)).0 ≡ some i.1) infos
      by_flag (d', true) there e' again =
          (add_natives-keeps name f infos d' (there refl), again d' e')
      by_flag (d', false) there e' again = absurd cc

  -- `addNatives` keeps every native that was there, and if it returns true every native it was given
  -- stands for its function.
  pub add_natives_lem :
      (infos : List (Bytes × ℕ)) (d : Dict Bytes ℕ)
      → let (d', result) = add_natives place infos d in
        ((k : Bytes) (v : ℕ) → find k d ≡ some v → find k d' ≡ some v)
        × (result ≡ true → All (λ i. find i.0 d' ≡ some i.1) infos)
  add_natives_lem infos d = (λ k v e. add_natives-keeps k v infos d e, λ e. natives_found infos d e)
