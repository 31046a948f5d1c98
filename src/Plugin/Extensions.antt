-- ===== src/Plugin/Extensions.antt =====
-- loadExts and unloadExts of src/SPGlobal.cpp: the extensions of the core. What the system and an
-- extension answer is a parameter of each file.
use spmod.Common.{
  ℕ, ◌≡◌, refl, ap, sym, ◌∙◌, inl, inr, Bool, true, false, Bool-cases, Bytes, codes, List, [], ◌∷◌,
  ◌++◌, append_assoc, append-nil, Option, none, some, if◌then◌else◌, length, ◌&&◌,
}
use spmod.Plugin.Lookup.{SpGlobal}

-- ExtQueryValue.
pub data ExtQueryValue : Type 0 where
  dont_load sp_mod_module sp_mod_adapter : ExtQueryValue

-- An extension by its file name; `none` is a function that the library does not have.
pub record Extension : Type 0 where
  pub filename : Bytes
  pub query : Option ExtQueryValue
  pub init : Option Bool
  pub has_end : Bool

-- What the constructor makes of a file: the message of its exception, or an extension.
pub data Opened : Type 0 where
  failed : Bytes → Opened
  opened : Extension → Opened

-- An extension that passes the query, or the message that is logged.
unfoldable pub queried : Extension → Option ExtQueryValue → Extension × Bool × Bytes
queried ext none = (ext, false, codes "Querying problem: " ++ ext.filename)
queried ext (some dont_load) = (ext, false, codes "Can't be loaded: " ++ ext.filename)
queried ext (some _) = (ext, true, [])

after_query : Extension × Bool × Bytes → List Extension × List Bytes → List Extension × List Bytes
after_query (ext, true, message) (exts, log) = (exts ++ (ext ∷ []), log)
after_query (ext, false, message) (exts, log) = (exts, log ++ (message ∷ []))

-- The loop over the directory.
unfoldable pub query_all : List Opened → List Extension × List Bytes → List Extension × List Bytes
unfolding queried after_query
query_all [] found = found
query_all (failed message ∷ files) (exts, log) = query_all files (exts, log ++ (message ∷ []))
query_all (opened ext ∷ files) found = query_all files (after_query (queried ext ext.query) found)

-- Whether the library has the function and it answers true.
abbrev pub is_initialised : Option Bool → Bool
is_initialised (some true) = true
is_initialised _ = false

-- The loop over the extensions, which erases those that do not start.
unfoldable pub init_all : List Extension → List Extension
init_all [] = []
init_all (ext ∷ exts) = if is_initialised ext.init then ext ∷ init_all exts else init_all exts

-- The directory: the message of an error, or its files.
pub data Directory : Type 0 where
  unreadable : Bytes → Directory
  readable : List Opened → Directory

-- The extensions, the messages and the number that is returned.
unfoldable pub load_exts : Directory → List Extension → List Extension × List Bytes × ℕ
load_exts (unreadable message) exts =
    (exts, (codes "Can't read extensions directory: " ++ message) ∷ [], 0)
load_exts (readable files) exts =
    let (found, log) = query_all files (exts, []) in (init_all found, log, length (init_all found))

-- The extensions whose end function is called, in their order.
unfoldable pub end_all : List Extension → List Bytes
end_all [] = []
end_all (ext ∷ exts) = if ext.has_end then ext.filename ∷ end_all exts else end_all exts

-- The extensions that are ended, those that are left, and the registries.
unfoldable pub unload_exts : List Extension → SpGlobal → List Bytes × List Extension × SpGlobal
unload_exts exts g = (end_all exts, [], record g { adapters = []; modules = [] })

abbrev pub is_queried : Option ExtQueryValue → Bool
is_queried none = false
is_queried (some dont_load) = false
is_queried (some _) = true

-- The extensions of the files that could be opened, pass the query and start, in their order.
abbrev pub started : List Opened → List Extension
started [] = []
started (failed message ∷ files) = started files
started (opened ext ∷ files) =
    if is_queried ext.query && is_initialised ext.init then ext ∷ started files else started files

init_all-append : (xs ys : List Extension) → init_all (xs ++ ys) ≡ init_all xs ++ init_all ys
unfolding init_all
init_all-append [] ys = refl
init_all-append (x ∷ xs) ys = elim (Bool-cases (is_initialised x.init)) [
  | inl starts ↦ rw starts (ap (λ l. x ∷ l) (init_all-append xs ys))
  | inr fails ↦ rw fails (init_all-append xs ys)
]

query_all-started :
    (files : List Opened) (exts : List Extension) (log : List Bytes)
    → init_all (query_all files (exts, log)).0 ≡ init_all exts ++ started files
unfolding query_all init_all after_query queried
query_all-started [] exts log = sym (append-nil (init_all exts))
query_all-started (failed message ∷ files) exts log =
    query_all-started files exts (log ++ (message ∷ []))
query_all-started (opened ext ∷ files) exts log = by_query ext.query (query_all-started files)
  where
    kept :
        (again : (e : List Extension)
          → init_all (query_all files (e, log)).0 ≡ init_all e ++ started files)
        → init_all (query_all files (exts ++ (ext ∷ []), log)).0
          ≡ init_all exts
            ++ (if is_initialised ext.init then ext ∷ started files else started files)
    kept again =
        again (exts ++ (ext ∷ []))
        ∙ (ap (λ l. l ++ started files) (init_all-append exts (ext ∷ []))
            ∙ (append_assoc (init_all exts) (init_all (ext ∷ [])) (started files)
                ∙ ap (λ l. init_all exts ++ l) (by_start (is_initialised ext.init))))
      where
        by_start :
            (b : Bool)
            → (if b then ext ∷ [] else []) ++ started files
              ≡ (if b then ext ∷ started files else started files)
        by_start true = refl
        by_start false = refl

    by_query :
        (q : Option ExtQueryValue)
        → ((e : List Extension) (l : List Bytes)
            → init_all (query_all files (e, l)).0 ≡ init_all e ++ started files)
        → init_all (query_all files (after_query (queried ext q) (exts, log))).0
          ≡ init_all exts
            ++ (if is_queried q && is_initialised ext.init
                then ext ∷ started files
                else started files)
    by_query none again = again exts (log ++ ((codes "Querying problem: " ++ ext.filename) ∷ []))
    by_query (some dont_load) again =
        again exts (log ++ ((codes "Can't be loaded: " ++ ext.filename) ∷ []))
    by_query (some sp_mod_module) again = kept (λ e. again e log)
    by_query (some sp_mod_adapter) again = kept (λ e. again e log)

-- `loadExts` keeps, of the extensions that were there, those that start once more, and behind them
-- exactly those of the files that could be opened, answer the query with other than DontLoad, and
-- start; it returns their number.
pub load_exts-started :
    (files : List Opened) (exts : List Extension)
    → let (exts', log, n) = load_exts (readable files) exts in
      (exts' ≡ init_all exts ++ started files) × (n ≡ length exts')
unfolding load_exts
load_exts-started files exts = (query_all-started files exts [], refl)
