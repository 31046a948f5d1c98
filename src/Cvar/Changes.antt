-- ===== src/Cvar/Changes.antt =====
-- The cached value, the value of the engine and the callbacks, behind a change by either side.
use spmod.Common.{
  ℕ, suc, ◌≡◌, ◌≢◌, refl, sym, ap, ◌∙◌, inl, inr, Bool, true, false, Bool-cases, Bytes, bytes_eq,
  bytes_eq_refl, bytes_eq_iff, List, [], ◌++◌, append-nil, if_true, if_false, none, some,
  if◌then◌else◌,
}
use spmod.Dict.{Place, bytes_key, find, write, try_emplace}
use spmod.Dict.Laws.{find-write_self, find-write_other, find-try_emplace_new}
use spmod.Cvar.{
  EngineCvars, Cvar, State, Call, run_callbacks, set_value_by, set_engine, call_next, hook,
  direct_set, set_found, set_value, cached, find_pointer, find_in, find_cvar, cache_set,
  register_pointer, register_found, register_cvar,
}

module _ {E : Type 0} (ops : EngineCvars E) (place : Place Bytes Cvar) where
  -- What a variable of the engine is set to is what it has then.
  abbrev pub IsStore : Type 0
  IsStore =
      (p : ℕ) (val : Bytes) (e : E)
      → EngineCvars.string_of ops p (EngineCvars.set_string ops p val e) ≡ val

  -- The cached variable and that of the engine have the value, the calls were added, and the other
  -- cached variables are as they were.
  abbrev pub IsChanged : Bytes → Cvar → Bytes → List Call → State E → State E → Type 0
  IsChanged key c val calls s s' =
      (find key s'.cvars ≡ some (record c { value = val }))
      × (EngineCvars.string_of ops c.pcvar s'.engine ≡ val)
      × (s'.calls ≡ s.calls ++ calls)
      × ((k : Bytes) → key ≢ k → find k s'.cvars ≡ find k s.cvars)

  abbrev written : Bytes → Cvar → Bytes → State E → State E
  written key c val s = record s {
    cvars = write key (record c { value = val }) s.cvars;
    calls = s.calls ++ run_callbacks c.value val c;
  }

  set_value_by_lem :
      (rehlds : Bool) (fuel : ℕ) (key val : Bytes) (c : Cvar) (s : State E)
      → find key s.cvars ≡ some c
      → EngineCvars.name_of ops c.pcvar s.engine ≡ key
      → set_value_by (direct_set ops place rehlds (suc fuel)) key c val s
        ≡ some (set_engine ops place c.pcvar val (written key c val s))
  unfolding set_value_by direct_set hook
  set_value_by_lem false fuel key val c s there named = refl
  set_value_by_lem true fuel key val c s there named =
      rw (named, find-write_self key (record c { value = val }) c s.cvars there, bytes_eq_refl val)
        refl

  -- `setValue` of a cached variable whose variable of the engine has its name, with the hook of ReHLDS
  -- and without it: the hook does not set the variable again, so the callbacks are called once each,
  -- with the old value and the new one, and the cache and the engine have the new value.
  pub set_value-IsChanged :
      (rehlds : Bool) (fuel : ℕ) (key val : Bytes) (c : Cvar) (s : State E)
      → IsStore
      → find key s.cvars ≡ some c
      → EngineCvars.name_of ops c.pcvar s.engine ≡ key
      → (s' : State E) × (set_value ops place rehlds (suc fuel) key val s ≡ some s')
        × IsChanged key c val (run_callbacks c.value val c) s s'
  unfolding set_value set_found
  set_value-IsChanged rehlds fuel key val c s store there named = (
    set_engine ops place c.pcvar val (written key c val s),
    rw there (set_value_by_lem rehlds fuel key val c s there named),
    (
      find-write_self key (record c { value = val }) c s.cvars there,
      store c.pcvar val s.engine,
      refl,
      λ k n. find-write_other key k (record c { value = val }) s.cvars n,
    ),
  )

  direct_set_step :
      (fuel p : ℕ) (val : Bytes) (s : State E)
      → let key = EngineCvars.name_of ops p s.engine in
        direct_set ops place true (suc fuel) p val s
        ≡ hook ops place (direct_set ops place true fuel) key p val (find key s.cvars) s
  unfolding direct_set
  direct_set_step fuel p val s = refl

  -- A change by the engine under ReHLDS, of a variable that is cached under its name: the nested call
  -- of the hook ends, the cache and the engine have the new value, and the callbacks are called once
  -- each, or not at all if the cache had that value already.
  pub direct_set-IsChanged :
      (fuel : ℕ) (val : Bytes) (c : Cvar) (s : State E)
      → IsStore
      → find (EngineCvars.name_of ops c.pcvar s.engine) s.cvars ≡ some c
      → (s' : State E) × (direct_set ops place true (suc (suc fuel)) c.pcvar val s ≡ some s')
        × IsChanged
            (EngineCvars.name_of ops c.pcvar s.engine)
            c
            val
            (if bytes_eq c.value val then [] else run_callbacks c.value val c)
            s
            s'
  unfolding hook call_next
  direct_set-IsChanged fuel val c s store there = elim (Bool-cases (bytes_eq c.value val)) [
    | inl same ↦
        let equal = (bytes_eq_iff c.value val).0 same in
        (
          set_engine ops place c.pcvar val s,
          rw (direct_set_step (suc fuel) c.pcvar val s, there) (if_true _ _ _ same),
          (
            there ∙ ap (λ v. some (record c { value = v })) equal,
            store c.pcvar val s.engine,
            rw same (sym (append-nil s.calls)),
            λ k n. refl,
          ),
        )
    | inr other ↦
        let key = EngineCvars.name_of ops c.pcvar s.engine in
        let nested = set_engine ops place c.pcvar val (written key c val s) in
        (
          set_engine ops place c.pcvar val nested,
          rw (direct_set_step (suc fuel) c.pcvar val s, there)
              (if_false _ _ _ other ∙ rw (set_value_by_lem true fuel key val c s there refl) refl),
          (
            find-write_self key (record c { value = val }) c s.cvars there,
            store c.pcvar val nested.engine,
            rw other refl,
            λ k n. find-write_other key k (record c { value = val }) s.cvars n,
          ),
        )
  ]

  direct_set_uncached :
      (rehlds : Bool) (fuel p : ℕ) (val : Bytes) (s : State E)
      → find (EngineCvars.name_of ops p s.engine) s.cvars ≡ none
      → direct_set ops place rehlds (suc fuel) p val s ≡ some (set_engine ops place p val s)
  unfolding direct_set hook
  direct_set_uncached false fuel p val s alone = refl
  direct_set_uncached true fuel p val s alone = rw alone refl

  -- `registerCvar` of a name that is cached returns the cached variable and changes nothing; of one
  -- that only the engine knows, caches it with the engine's value and flags and sets nothing; and of
  -- one that the engine does not know and registers at a pointer whose name is not cached either, sets
  -- the value in the engine and caches it without a call of a callback.
  pub register_cvar_cases :
      (rehlds : Bool) (fuel : ℕ) (name value : Bytes) (flags : ℕ) (s : State E)
      → IsStore
      → let e' = EngineCvars.register ops name flags s.engine in
        ((c : Cvar)
          → find name s.cvars ≡ some c
          → register_cvar ops place rehlds (suc fuel) name value flags s ≡ some (some c, s))
        × ((p : ℕ)
            → find name s.cvars ≡ none
            → EngineCvars.get_pointer ops name s.engine ≡ some p
            → let c : Cvar = record {
              flags = EngineCvars.flags_of ops p s.engine;
              name = name;
              value = EngineCvars.string_of ops p s.engine;
              pcvar = p;
              callbacks = [];
            } in
              register_cvar ops place rehlds (suc fuel) name value flags s
              ≡ some (some c, record s { cvars = (try_emplace place name c s.cvars).0 }))
        × ((p : ℕ)
            → find name s.cvars ≡ none
            → EngineCvars.get_pointer ops name s.engine ≡ none
            → EngineCvars.get_pointer ops name e' ≡ some p
            → find (EngineCvars.name_of ops p e') s.cvars ≡ none
            → (s' : State E) × (register_cvar ops place rehlds (suc fuel) name value flags s
                ≡ some (find name s'.cvars, s'))
              × (find name s'.cvars
                  ≡ some (record {
                    flags = flags;
                    name = name;
                    value = value;
                    pcvar = p;
                    callbacks = [];
                  }))
              × (EngineCvars.string_of ops p s'.engine ≡ value)
              × (s'.calls ≡ s.calls))
  unfolding register_cvar register_found register_pointer cache_set find_cvar find_in find_pointer
      cached
  register_cvar_cases rehlds fuel name value flags s store = (
    λ c there. rw there refl,
    λ p missing known.
        rw (missing, known, find-try_emplace_new place name (copy p) s.cvars missing) refl,
    λ p missing unknown known alone.
        let engine = EngineCvars.register ops name flags s.engine in
        let s1 : State E = set_engine ops place p value (record s { engine = engine }) in
        (
          record s1 { cvars = (try_emplace place name (new p) s.cvars).0 },
          rw
              (
                missing,
                unknown,
                known,
                direct_set_uncached rehlds fuel p value (record s { engine = engine }) alone,
              )
              refl,
          find-try_emplace_new place name (new p) s.cvars missing,
          store p value engine,
          refl,
        ),
  )
    where
      copy : ℕ → Cvar
      copy p = record {
        flags = EngineCvars.flags_of ops p s.engine;
        name = name;
        value = EngineCvars.string_of ops p s.engine;
        pcvar = p;
        callbacks = [];
      }

      new : ℕ → Cvar
      new p = record { flags = flags; name = name; value = value; pcvar = p; callbacks = [] }
