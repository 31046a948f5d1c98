-- ===== src/Adapter/Query.antt =====
-- checkInterfacesVersion and SPMod_Query of subprojects/sourcepawn/ExtMain.cpp. What an interface
-- answers for the version that the extension was built with is a parameter.
use spmod.Common.{
  ◌≡◌, ◌↔◌, ◌⊎◌, Option-cases, refl, ap, sym, ◌∙◌, inl, inr, Bool, true, false, Bool-cases, Bytes,
  List, [], ◌∷◌, Option, none, some, All, if_true, if_false, if◌then◌else◌,
}
use spmod.Dict.{Dict, Place, bytes_key, find, try_emplace}
use spmod.Dict.Laws.{try_emplace_new, try_emplace_old, find-try_emplace_new}
use spmod.Plugin.Lookup.{IPluginMngr, SpGlobal, register_adapter}
use spmod.Plugin.Extensions.{ExtQueryValue, dont_load, sp_mod_adapter}

-- The interfaces in the order of the tests.
pub data Interface : Type 0 where
  command cvar forward logger menu message player timer utils native_proxy vtable engine metamod :
      Interface

abbrev pub all_interfaces : List Interface
all_interfaces =
    command
    ∷ (cvar
        ∷ (forward
            ∷ (logger
                ∷ (menu
                    ∷ (message
                        ∷ (player
                            ∷ (timer
                                ∷ (utils
                                    ∷ (native_proxy ∷ (vtable ∷ (engine ∷ (metamod ∷ []))))))))))))

-- The tests one after the other; those of the interfaces that were asked are set.
unfoldable pub check_versions : (Interface → Bool) → List Interface → List Interface × Bool
check_versions compatible [] = ([], true)
check_versions compatible (i ∷ is) =
    let (set, ok) = check_versions compatible is in
    if compatible i then (i ∷ set, ok) else (i ∷ [], false)

abbrev pub check_interfaces_version : (Interface → Bool) → List Interface × Bool
check_interfaces_version compatible = check_versions compatible all_interfaces

registered : Bool × SpGlobal → ExtQueryValue × SpGlobal
registered (true, g) = (sp_mod_adapter, g)
registered (false, g) = (dont_load, g)

-- The adapter is registered by its name once the versions are compatible.
unfoldable pub sp_mod_query :
    (Interface → Bool)
    → Place Bytes IPluginMngr
    → Bytes
    → IPluginMngr
    → SpGlobal
    → ExtQueryValue × SpGlobal
unfolding registered
sp_mod_query compatible place name adapter g =
    if (check_interfaces_version compatible).1
    then registered (register_adapter place name adapter g)
    else (dont_load, g)

second : List Interface × Bool → Bool
second r = r.1

check_versions_lem :
    (compatible : Interface → Bool) (is : List Interface)
    → ((check_versions compatible is).1 ≡ true) ↔ All (λ i. compatible i ≡ true) is
unfolding check_versions second
check_versions_lem compatible [] = ((λ e. tt), (λ u. refl))
check_versions_lem compatible (i ∷ is) = elim (Bool-cases (compatible i)) [
  | inl yes' ↦
      let (sound, complete) = check_versions_lem compatible is in
      (
        (λ e. (yes', sound (sym (ap second (if_true _ _ _ yes')) ∙ e))),
        (λ (h, hs). ap second (if_true _ _ _ yes') ∙ complete hs),
      )
  | inr no' ↦
      ((λ e. absurd (clash (sym (ap second (if_false _ _ _ no')) ∙ e))), (λ (h, hs). absurd cc))
]
  where
    clash : false ≡ true → ⊥
    clash e = cc

-- Every interface is compatible.
abbrev pub IsCompatible : (Interface → Bool) → Type 0
IsCompatible compatible = (i : Interface) → compatible i ≡ true

each : (P : Interface → Type 0) (i : Interface) → All P all_interfaces → P i
each P command a = a.0
each P cvar a = a.1.0
each P forward a = a.1.1.0
each P logger a = a.1.1.1.0
each P menu a = a.1.1.1.1.0
each P message a = a.1.1.1.1.1.0
each P player a = a.1.1.1.1.1.1.0
each P timer a = a.1.1.1.1.1.1.1.0
each P utils a = a.1.1.1.1.1.1.1.1.0
each P native_proxy a = a.1.1.1.1.1.1.1.1.1.0
each P vtable a = a.1.1.1.1.1.1.1.1.1.1.0
each P engine a = a.1.1.1.1.1.1.1.1.1.1.1.0
each P metamod a = a.1.1.1.1.1.1.1.1.1.1.1.1.0

refused_by :
    (compatible : Interface → Bool) (is : List Interface)
    → (check_versions compatible is).1 ≡ false
    → (i : Interface) × (compatible i ≡ false)
unfolding check_versions second
refused_by compatible [] e = absurd cc
refused_by compatible (i ∷ is) e = elim (Bool-cases (compatible i)) [
  | inl yes' ↦ refused_by compatible is (sym (ap second (if_true _ _ _ yes')) ∙ e)
  | inr no' ↦ (i, no')
]

-- What the query comes to where an adapter is added to the registry, or is not.
abbrev pub IsAccepted :
    (Interface → Bool) → Bytes → IPluginMngr → SpGlobal → ExtQueryValue × SpGlobal → Type 0
IsAccepted compatible name adapter g (answer, g') =
    IsCompatible compatible
    × (find name g.adapters ≡ none)
    × (answer ≡ sp_mod_adapter)
    × (find name g'.adapters ≡ some adapter)

abbrev pub IsRefused : (Interface → Bool) → Bytes → SpGlobal → ExtQueryValue × SpGlobal → Type 0
IsRefused compatible name g r =
    (((i : Interface) × (compatible i ≡ false))
      ⊎ ((other : IPluginMngr) × (find name g.adapters ≡ some other)))
    × (r ≡ (dont_load, g))

-- Either all thirteen interfaces are compatible and no adapter has the name yet; then the extension
-- answers that it is an adapter, and its plugin manager is found under the name. Or an interface is not
-- compatible or the name is taken; then it answers that it is not to be loaded, and the registries
-- stay as they are.
pub sp_mod_query_cases :
    (compatible : Interface → Bool) (place : Place Bytes IPluginMngr) (name : Bytes)
    (adapter : IPluginMngr) (g : SpGlobal)
    → let r = sp_mod_query compatible place name adapter g in
      IsAccepted compatible name adapter g r ⊎ IsRefused compatible name g r
unfolding sp_mod_query registered
sp_mod_query_cases compatible place name adapter g =
    elim (Bool-cases (check_interfaces_version compatible).1) [
      | inr no' ↦ inr (inl (refused_by compatible all_interfaces no'), if_false _ _ _ no')
      | inl ok ↦ elim (Option-cases (find name g.adapters)) [
        | inr (other, taken) ↦
            let old = try_emplace_old place name adapter other g.adapters taken in
            inr (inr (other, taken), if_true _ _ _ ok ∙ ap with_adapters old)
        | inl free ↦
            let added = try_emplace_new place name adapter g.adapters free in
            let kept = find-try_emplace_new place name adapter g.adapters free in
            let flag : (try_emplace place name adapter g.adapters).1 ≡ true = ap flag_of added in
            inl (
              (λ i.
                  each (λ j. compatible j ≡ true) i
                    ((check_versions_lem compatible all_interfaces).0 ok)),
              free,
              ap answer_of (if_true _ _ _ ok) ∙ ap answer_for flag,
              ap adapters_of (if_true _ _ _ ok) ∙ (ap adapters_for flag ∙ kept),
            )
      ]
    ]
  where
    flag_of : Dict Bytes IPluginMngr × Bool → Bool
    flag_of q = q.1

    answer_of : ExtQueryValue × SpGlobal → ExtQueryValue
    answer_of q = q.0

    adapters_of : ExtQueryValue × SpGlobal → Option IPluginMngr
    adapters_of q = find name q.1.adapters

    with_adapters : Dict Bytes IPluginMngr × Bool → ExtQueryValue × SpGlobal
    with_adapters q = registered (q.1, record g { adapters = q.0 })

    answer_for : Bool → ExtQueryValue
    answer_for b = answer_of (with_adapters ((try_emplace place name adapter g.adapters).0, b))

    adapters_for : Bool → Option IPluginMngr
    adapters_for b = adapters_of (with_adapters ((try_emplace place name adapter g.adapters).0, b))
