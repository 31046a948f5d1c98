-- ===== src/Forward/Arguments.antt =====
-- Which pushes a forward takes, and what a sequence of them leaves in its parameters.
use spmod.Common.{
  Bool-cases, ℕ, ◌+◌, ◌≤◌, ◌<◌, ◌≡◌, ◌⊎◌, inl, inr, refl, ap, sym, ◌∙◌, Bool, true, false, ◌&&◌,
  List, [], ◌∷◌, ◌++◌, some, arith, ◌==◌, leb, length, get_elem?, set, get_elem?-append_length,
  set-append_length, Option-cases, length-append, append_assoc,
}
use spmod.Forward.{Forward, Param, Contents}
use spmod.Forward.ParamType.{
  array as array_type, pointer as pointer_type, int as int_type, float as float_type,
  string as string_type,
}
use spmod.Forward.Push.{Push, push, push_with, array_contents}

-- The parameter type that a call is for.
abbrev pub wanted : Push → ℕ
wanted (Push.int i) = int_type
wanted (Push.int_pointer i c) = int_type + pointer_type
wanted (Push.float x) = float_type
wanted (Push.float_pointer x c) = float_type + pointer_type
wanted (Push.array a n c) = array_type
wanted (Push.string s) = string_type
wanted (Push.buffer a n fl c) = string_type

-- The parameter after the call; what a call does not name stays as an earlier call left it.
abbrev pub stored : Push → Param → Param
stored (Push.int i) p = record p { contents = Contents.int i }
stored (Push.int_pointer i c) p = record p { contents = Contents.int_pointer i; copyback = c }
stored (Push.float x) p = record p { contents = Contents.real x }
stored (Push.float_pointer x c) p = record p { contents = Contents.real_pointer x; copyback = c }
stored (Push.array a n c) p = record p { contents = array_contents a; size = some n; copyback = c }
stored (Push.string s) p = record p { contents = Contents.string s }
stored (Push.buffer a n fl c) p = record p {
  contents = Contents.buffer a;
  size = some n;
  copyback = c;
  string_flags = fl;
}

push-push_with : (c : Push) (f : Forward) → push c f ≡ push_with (wanted c) (stored c) f
unfolding push
push-push_with (Push.int i) f = refl
push-push_with (Push.int_pointer i c) f = refl
push-push_with (Push.float x) f = refl
push-push_with (Push.float_pointer x c) f = refl
push-push_with (Push.array a n c) f = refl
push-push_with (Push.string s) f = refl
push-push_with (Push.buffer a n fl c) f = refl

-- The next parameter exists and has the type of the call.
abbrev pub Accepts : Push → Forward → Param → Type 0
Accepts c f p =
    (f.current_pos < f.params_num)
    × (get_elem? f.params f.current_pos ≡ some p)
    × (p.data_type ≡ wanted c)

abbrev pub pushed : Push → Forward → Param → Forward
pushed c f p = record f {
  params = set f.params f.current_pos (stored c p);
  current_pos = f.current_pos + 1;
}

-- Every push either finds the next parameter of its type, writes that parameter alone and steps on,
-- or returns false and changes nothing; and it does the first whenever it can.
pub push_cases :
    (c : Push) (f : Forward)
    → ((p : Param) × Accepts c f p × (push c f ≡ (pushed c f p, true)))
      ⊎ (((p : Param) → ¬ (Accepts c f p)) × (push c f ≡ (f, false)))
unfolding push_with
push_cases c f = rw (push-push_with c f) (elim (Bool-cases (leb f.params_num f.current_pos)) [
  | inl full ↦ inr ((λ p a. ground (arith, full, a.0)), ground arith)
  | inr room ↦ elim (Option-cases (get_elem? f.params f.current_pos)) [
    | inl e ↦ inr ((λ p a. cc (e, a.1)), ground arith)
    | inr (p, e) ↦ elim (Bool-cases (p.data_type == wanted c)) [
      | inl fits ↦ inl (p, (ground arith, e, ground arith), ground arith)
      | inr other ↦ inr ((λ q a. other_type p q e a.1 a.2 other), ground arith)
    ]
  ]
])
  where
    other_type :
        (p q : Param)
        → get_elem? f.params f.current_pos ≡ some p
        → get_elem? f.params f.current_pos ≡ some q
        → q.data_type ≡ wanted c
        → (p.data_type == wanted c) ≡ false
        → ⊥
    other_type p q e e' t h = ground arith

-- Calls one after another; the flag is false as soon as one of them failed.
unfoldable pub push_all : List Push → Forward → Forward × Bool
push_all [] f = (f, true)
push_all (c ∷ cs) f =
    let (f', fits) = push c f in let (f'', rest) = push_all cs f' in (f'', fits && rest)

-- The calls are of the types of the parameters, one for one.
abbrev pub Matches : List Push → List Param → Type 0
Matches [] ps = ps ≡ []
Matches (c ∷ cs) [] = ⊥
Matches (c ∷ cs) (p ∷ ps) = (p.data_type ≡ wanted c) × Matches cs ps

abbrev pub stored_all : List Push → List Param → List Param
stored_all [] ps = ps
stored_all (c ∷ cs) [] = []
stored_all (c ∷ cs) (p ∷ ps) = stored c p ∷ stored_all cs ps

push_accepted :
    (c : Push) (f : Forward) (p : Param) → Accepts c f p → push c f ≡ (pushed c f p, true)
unfolding push_with
push_accepted c f p (h, e, t) = rw (push-push_with c f) (ground arith)

push_all_from :
    (cs : List Push) (f : Forward) (done ps rest : List Param)
    → f.params ≡ done ++ (ps ++ rest)
    → f.current_pos ≡ length done
    → f.params_num ≡ length done + length ps
    → Matches cs ps
    → push_all cs f
      ≡ (record f { params = done ++ (stored_all cs ps ++ rest); current_pos = f.params_num }, true)
unfolding push_all
push_all_from [] f done ps rest e at num m = ground (arith, ap length m)
push_all_from (c ∷ cs) f done [] rest e at num m = absurd m
push_all_from (c ∷ cs) f done (p ∷ ps) rest e at num (t, m) =
    let found : get_elem? f.params f.current_pos ≡ some p =
      rw (e, at) (get_elem?-append_length done p (ps ++ rest)) in
    let written : set f.params f.current_pos (stored c p)
        ≡ (done ++ (stored c p ∷ [])) ++ (ps ++ rest) =
      rw (e, at)
        (set-append_length done p (stored c p) (ps ++ rest)
          ∙ sym (append_assoc done (stored c p ∷ []) (ps ++ rest))) in
    let size = length-append done (stored c p ∷ []) in
    let rest_pushed =
      push_all_from cs (pushed c f p) (done ++ (stored c p ∷ [])) ps rest written
        (omega (arith, at, size)) (omega (arith, num, size)) m in
    rw
      (
        push_accepted c f p (omega (arith, at, num), found, t),
        rest_pushed,
        append_assoc done (stored c p ∷ []) (stored_all cs ps ++ rest),
      )
      refl

-- From the start, pushes of the types of all parameters succeed and fill them in order.
pub push_all-fills :
    (cs : List Push) (f : Forward) (ps rest : List Param)
    → f.params ≡ ps ++ rest
    → f.current_pos ≡ 0
    → f.params_num ≡ length ps
    → Matches cs ps
    → push_all cs f
      ≡ (record f { params = stored_all cs ps ++ rest; current_pos = f.params_num }, true)
push_all-fills cs f ps rest e at num m = push_all_from cs f [] ps rest e at (omega (arith, num)) m

-- A push steps on by at most one.
push-pos :
    (c : Push) (f : Forward)
    → ((push c f).0.current_pos ≤ f.current_pos + 1) × ((push c f).0.params_num ≡ f.params_num)
unfolding push_with
push-pos c f = rw (push-push_with c f) (ground arith)

pub push_all-pos :
    (cs : List Push) (f : Forward)
    → ((push_all cs f).0.current_pos ≤ f.current_pos + length cs)
      × ((push_all cs f).0.params_num ≡ f.params_num)
unfolding push_all
push_all-pos [] f = (omega arith, refl)
push_all-pos (c ∷ cs) f =
    let (pos', num) = push-pos c f in
    let (pos'', num') = push_all-pos cs (push c f).0 in (omega (arith, pos', pos''), num' ∙ num)
