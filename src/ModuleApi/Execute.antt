-- ===== src/ModuleApi/Execute.antt =====
-- module/api.go: Execute runs the modules' Init functions in the order of Sort, up to the first
-- that fails.
use mathlib.Core.List.{Perm}
use lunaship.Base.{
  String, Option, none, some, List, [], ◌∷◌, ◌++◌, ◌≡◌, refl, inl, inr, Result, ok, err,
  Option-cases, Result-cases, sym, ◌∙◌, arith, ap, subst,
}
use lunaship.Base.Text.{trim_space}
use lunaship.ModuleApi.Names.{Module}
use lunaship.ModuleApi.Graph.{SortError}
use lunaship.ModuleApi.Graph.Collected.{enabled_modules}
use lunaship.ModuleApi.Kahn.{sort}
use lunaship.ModuleApi.Order.{IsInitOrder, sort_sound}

pub data ExecuteError (E : Type 0) : Type 0 where
  sort_failed : SortError → ExecuteError E
  init_failed : (name : String) → (cause : E) → ExecuteError E

module _ {S E : Type 0} where
  -- The loop of Execute.
  unfoldable pub init_all : List (Module S E) → S → Option (ExecuteError E) × S
  init_all [] s = (none, s)
  init_all (m ∷ ms) s =
      let (failure, s') = m.init s in
      elim failure [
        | some cause ↦ (some (init_failed (trim_space m.name) cause), s')
        | none ↦ init_all ms s'
      ]

  abbrev pub execute_sorted : Result SortError (List (Module S E)) → S → Option (ExecuteError E) × S
  execute_sorted (err e) s = (some (sort_failed e), s)
  execute_sorted (ok ordered) s = init_all ordered s

  unfoldable pub execute : List (Option (Module S E)) → S → Option (ExecuteError E) × S
  execute modules s = execute_sorted (sort modules) s

  -- The modules before a failing one have all succeeded, and those after it have not been run.
  pub record FailedAt (ordered : List (Module S E)) (s : S) (name : String) (cause : E) (s' : S)
      : Type 0 where
    pub before : List (Module S E)
    pub failing : Module S E
    pub after : List (Module S E)
    pub split : ordered ≡ before ++ failing ∷ after
    pub state : S
    pub succeeded : init_all before s ≡ (none, state)
    pub failed : failing.init state ≡ (some cause, s')
    pub named : trim_space failing.name ≡ name

  pub init_all-fine :
      (m : Module S E) (ms : List (Module S E)) (s : S)
      → (m.init s).0 ≡ none
      → init_all (m ∷ ms) s ≡ init_all ms (m.init s).1
  unfolding init_all
  init_all-fine m ms s fine = rw (fine, init_all)

  pub init_all-stop :
      (m : Module S E) (ms : List (Module S E)) (s : S) (cause : E)
      → (m.init s).0 ≡ some cause
      → init_all (m ∷ ms) s ≡ (some (init_failed (trim_space m.name) cause), (m.init s).1)
  unfolding init_all
  init_all-stop m ms s cause failed = rw (failed, init_all)

  init_all-FailedAt :
      (ms : List (Module S E)) (s : S) {name : String} {cause : E} {s' : S}
      → init_all ms s ≡ (some (init_failed name cause), s')
      → FailedAt ms s name cause s'
  unfolding init_all
  init_all-FailedAt [] s e = cc
  init_all-FailedAt (m ∷ ms) s {name} {cause} {s'} e = elim (Option-cases (m.init s).0) [
    | inl fine ↦
        let later = init_all-FailedAt ms (m.init s).1 (sym (init_all-fine m ms s fine) ∙ e) in
        record {
          before = m ∷ later.before;
          failing = later.failing;
          after = later.after;
          split = ap (λ l. m ∷ l) later.split;
          state = later.state;
          succeeded = init_all-fine m later.before s fine ∙ later.succeeded;
          failed = later.failed;
          named = later.named;
        }
    | inr (found, failed) ↦
        let same = sym (init_all-stop m ms s found failed) ∙ e in
        record {
          before = [];
          failing = m;
          after = ms;
          split = refl;
          state = s;
          succeeded = refl;
          failed = ground arith;
          named = ground arith;
        }
  ]

  -- If a module's Init fails, Execute reports it under its trimmed name and stops: the modules
  -- before it in the order of Sort have all succeeded, the failing Init ran in the state that they
  -- left, its state is the last one, and every module before it stands behind its dependencies.
  pub execute-FailedAt :
      (modules : List (Option (Module S E))) (s : S) (name : String) (cause : E) (s' : S)
      → execute modules s ≡ (some (init_failed name cause), s')
      → (ordered : List (Module S E)) × (sort modules ≡ ok ordered)
        × IsInitOrder [] ordered
        × FailedAt ordered s name cause s'
  unfolding execute
  execute-FailedAt modules s name cause s' e = elim (Result-cases (sort modules)) [
    | inl (x, bad) ↦ cc (ap (λ r. execute_sorted r s) bad)
    | inr (ordered, good) ↦ (
      ordered,
      good,
      (sort_sound modules ordered good).1,
      init_all-FailedAt ordered s (ap (λ r. execute_sorted r s) (sym good) ∙ e),
    )
  ]

  -- Each of the modules is initialised in turn, in the state that those before it have left, without an
  -- error: from the first state to the last one.
  pub data InitialisedAll : List (Module S E) → S → S → Type 0 where
    no_more : {s : S} → InitialisedAll [] s s
    initialised :
        {m : Module S E} {ms : List (Module S E)} {s t end : S}
        → m.init s ≡ (none, t)
        → InitialisedAll ms t end
        → InitialisedAll (m ∷ ms) s end

  init_all-InitialisedAll :
      (ms : List (Module S E)) (s s' : S) → init_all ms s ≡ (none, s') → InitialisedAll ms s s'
  unfolding init_all
  init_all-InitialisedAll [] s s' e = subst (InitialisedAll [] s) (ap (λ r. r.1) e) no_more
  init_all-InitialisedAll (m ∷ ms) s s' e = elim (Option-cases (m.init s).0) [
    | inl fine ↦
        initialised (ap (λ o. (o, (m.init s).1)) fine)
          (init_all-InitialisedAll ms (m.init s).1 s' (sym (init_all-fine m ms s fine) ∙ e))
    | inr (cause, bad) ↦
        let same = ap (λ r. r.0) (sym (init_all-stop m ms s cause bad) ∙ e) in absurd cc
  ]

  -- If Execute reports no error, the Init of every enabled module has been run once and has answered no
  -- error, in an order that is a permutation of the enabled modules with each behind its dependencies:
  -- each ran in the state that those before it left, and what the last one left is the state behind
  -- Execute.
  pub execute_succeeds :
      (modules : List (Option (Module S E))) (s s' : S)
      → execute modules s ≡ (none, s')
      → (ordered : List (Module S E)) × Perm ordered (enabled_modules modules)
        × IsInitOrder [] ordered
        × InitialisedAll ordered s s'
  unfolding execute
  execute_succeeds modules s s' e = elim (Result-cases (sort modules)) [
    | inl (x, bad) ↦ cc (ap (λ r. execute_sorted r s) bad)
    | inr (ordered, good) ↦
        let (perm, order) = sort_sound modules ordered good in
        (
          ordered,
          perm,
          order,
          init_all-InitialisedAll ordered s s' (ap (λ r. execute_sorted r s) (sym good) ∙ e),
        )
  ]
