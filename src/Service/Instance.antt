-- ===== src/Service/Instance.antt =====
-- service/setup.go: selectBootstrapInstance.
use lunaship.Base.{
  String, Option, none, some, List, [], ◌∷◌, ◌≡◌, refl, ◌⊎◌, inl, inr, Result, ok, err, map, In,
  ◌==◌, if◌then◌else◌, eq_iff, Option-cases, sym, ap, err-ne-ok, ok-injective, some-injective,
  subst, ◌∙◌, Bool-cases,
}
use lunaship.Base.Text.{sort_strings}

-- "%s config defines multiple instances (%s) …", with the sorted names.
pub record Ambiguous : Type 0 where
  pub component : String
  pub names : List String

module _ {T : Type 0} where
  -- instances[name]
  unfoldable pub find_instance : List (String × T) → String → Option T
  find_instance [] name = none
  find_instance ((n, i) ∷ rest) name = if n == name then some i else find_instance rest name

  -- The instances without "default": none, the only one, or too many to choose from.
  unfoldable pub select_other : List (String × T) → String → Result Ambiguous (Option (String × T))
  select_other [] component = ok none
  select_other (entry ∷ []) component = ok (some entry)
  select_other (entry ∷ second ∷ rest) component = err (record {
    component = component;
    names = sort_strings (map (λ e. e.0) (entry ∷ second ∷ rest));
  })

  -- `ok none` is the answer that is not ok and has no error. An empty map has no "default".
  unfoldable pub select_bootstrap_instance :
      List (String × T) → String → Result Ambiguous (Option (String × T))
  select_bootstrap_instance instances component = elim (find_instance instances "default") [
    | some i ↦ ok (some ("default", i))
    | none ↦ select_other instances component
  ]

  find_instance-In :
      (instances : List (String × T)) (name : String) {i : T}
      → find_instance instances name ≡ some i
      → In (name, i) instances
  unfolding find_instance
  find_instance-In [] name e = cc
  find_instance-In ((n, j) ∷ rest) name {i} e = elim (Bool-cases (n == name)) [
    | inl same ↦ inl (
        ap (λ m. (m, i)) (sym ((eq_iff n name).0 same))
        ∙ ap (λ k. (n, k)) (sym (some-injective (rw (same, find_instance) at e))))
    | inr differs ↦ inr (find_instance-In rest name (rw (differs, find_instance) at e))
  ]

  select_other-In :
      (instances : List (String × T)) (component : String) (entry : String × T)
      → select_other instances component ≡ ok (some entry)
      → instances ≡ entry ∷ []
  unfolding select_other
  select_other-In [] component entry e = cc (ok-injective e)
  select_other-In (x ∷ []) component entry e = ap (λ x. x ∷ []) (some-injective (ok-injective e))
  select_other-In (x ∷ y ∷ rest) component entry e = absurd (err-ne-ok e)

  -- The instance that is chosen is one of those configured: "default", or the only one.
  pub select_bootstrap_instance-In :
      (instances : List (String × T)) (component : String) (entry : String × T)
      → select_bootstrap_instance instances component ≡ ok (some entry)
      → In entry instances × ((entry.0 ≡ "default") ⊎ (instances ≡ entry ∷ []))
  unfolding select_bootstrap_instance
  select_bootstrap_instance-In instances component entry e =
      elim (Option-cases (find_instance instances "default")) [
        | inl missing ↦
            let only =
              select_other-In instances component entry
                (rw (missing, select_bootstrap_instance) at e) in
            (subst (In entry) (sym only) (inl refl), inr only)
        | inr (i, found) ↦
            let same = some-injective (ok-injective (rw (found, select_bootstrap_instance) at e)) in
            (
              subst (λ x. In x instances) same (find_instance-In instances "default" found),
              inl (ap (λ x. x.0) (sym same)),
            )
      ]
